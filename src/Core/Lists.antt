-- ===== src/Core/Lists.antt =====
-- Lists measured by native numbers, and predicates on every element.
use Prim.Native.Nat.{ℕ, zero, suc, ◌+◌, ◌-◌, min}
use mathlib.Core.Path.{◌≡◌, refl, ap}
use mathlib.Core.Bool.{Bool, true, false, not, ◌&&◌, ◌||◌}
use mathlib.Core.List.{List, [], ◌∷◌, ◌++◌}
use mathlib.Core.Option.{Option, none, some}
use native.Mathlib.Omega.{arith}
use llm_wiki_bff.Core.Tests.{if◌then◌else◌}

module _ {ℓ} {A : Type ℓ} where
  abbrev pub length : List A → ℕ
  length [] = 0
  length (x ∷ xs) = suc (length xs)

  abbrev pub get_elem? : List A → ℕ → Option A
  get_elem? [] i = none
  get_elem? (x ∷ xs) zero = some x
  get_elem? (x ∷ xs) (suc i) = get_elem? xs i

  abbrev pub take : ℕ → List A → List A
  take zero xs = []
  take (suc n) [] = []
  take (suc n) (x ∷ xs) = x ∷ take n xs

  abbrev pub drop : ℕ → List A → List A
  drop zero xs = xs
  drop (suc n) [] = []
  drop (suc n) (x ∷ xs) = drop n xs

  abbrev pub all : (A → Bool) → List A → Bool
  all p [] = true
  all p (x ∷ xs) = p x && all p xs

  abbrev pub any : (A → Bool) → List A → Bool
  any p [] = false
  any p (x ∷ xs) = p x || any p xs

  -- How many elements pass a test.
  abbrev pub tally : (A → Bool) → List A → ℕ
  tally p [] = 0
  tally p (x ∷ xs) = (if p x then 1 else 0) + tally p xs

  -- The elements that pass a test, in order.
  abbrev pub keep : (A → Bool) → List A → List A
  keep p [] = []
  keep p (x ∷ xs) = if p x then x ∷ keep p xs else keep p xs

  -- `x` stands in the list, with its place.
  pub data Member (x : A) : List A → Type ℓ where
    here : {xs : List A} → Member x (x ∷ xs)
    there : {y : A} {xs : List A} → Member x xs → Member x (y ∷ xs)

module _ {ℓ} {A : Type ℓ} where
  pub length-append : (xs ys : List A) → length (xs ++ ys) ≡ length xs + length ys
  length-append [] ys = omega arith
  length-append (x ∷ xs) ys = omega (arith, length-append xs ys)

  pub length-take : (n : ℕ) (xs : List A) → length (take n xs) ≡ min n (length xs)
  length-take zero xs = omega arith
  length-take (suc n) [] = omega arith
  length-take (suc n) (x ∷ xs) = omega (arith, length-take n xs)

  pub length-drop : (n : ℕ) (xs : List A) → length (drop n xs) ≡ length xs - n
  length-drop zero xs = omega arith
  length-drop (suc n) [] = omega arith
  length-drop (suc n) (x ∷ xs) = omega (arith, length-drop n xs)

  pub tally-append : (p : A → Bool) (xs ys : List A) → tally p (xs ++ ys) ≡ tally p xs + tally p ys
  tally-append p [] ys = omega arith
  tally-append p (x ∷ xs) ys = omega (arith, tally-append p xs ys)

  pub any-append : (p : A → Bool) (xs ys : List A) → any p (xs ++ ys) ≡ (any p xs || any p ys)
  any-append p [] ys = refl
  any-append p (x ∷ xs) ys = ground (arith, any-append p xs ys)

  pub all-append : (p : A → Bool) (xs ys : List A) → all p (xs ++ ys) ≡ (all p xs && all p ys)
  all-append p [] ys = refl
  all-append p (x ∷ xs) ys = ground (arith, all-append p xs ys)

  pub append_cons : (xs : List A) (y : A) (zs : List A) → (xs ++ y ∷ []) ++ zs ≡ xs ++ y ∷ zs
  append_cons [] y zs = refl
  append_cons (x ∷ xs) y zs = ap (◌∷◌ x) (append_cons xs y zs)

module _ {ℓ} {A : Type ℓ} where
  pub tally-keep :
      (p q : A → Bool) (xs : List A)
      → tally p (keep q xs) + tally p (keep (λ x. not (q x)) xs) ≡ tally p xs
  tally-keep p q [] = refl
  tally-keep p q (x ∷ xs) = ground (arith, tally-keep p q xs)

  pub tally-keep_and :
      (p q : A → Bool) (xs : List A) → tally p (keep q xs) ≡ tally (λ x. p x && q x) xs
  tally-keep_and p q [] = refl
  tally-keep_and p q (x ∷ xs) = ground (arith, tally-keep_and p q xs)

  pub tally-take :
      (p : A → Bool) (n : ℕ) (xs : List A) → tally p (take n xs) + tally p (drop n xs) ≡ tally p xs
  tally-take p zero xs = omega arith
  tally-take p (suc n) [] = refl
  tally-take p (suc n) (x ∷ xs) = omega (arith, tally-take p n xs)

  pub tally-or :
      (p q : A → Bool) (xs : List A)
      → ((x : A) → (p x && q x) ≡ false)
      → tally (λ x. p x || q x) xs ≡ tally p xs + tally q xs
  tally-or p q [] h = refl
  tally-or p q (x ∷ xs) h = ground (arith, h x, tally-or p q xs h)

  pub tally-true : (xs : List A) → tally (λ x. true) xs ≡ length xs
  tally-true [] = refl
  tally-true (x ∷ xs) = omega (arith, tally-true xs)

  pub tally-not : (p : A → Bool) (xs : List A) → tally p xs + tally (λ x. not (p x)) xs ≡ length xs
  tally-not p [] = refl
  tally-not p (x ∷ xs) = ground (arith, tally-not p xs)

  pub tally-and :
      (p q : A → Bool) (xs : List A)
      → tally (λ x. p x && q x) xs + tally (λ x. p x && not (q x)) xs ≡ tally p xs
  tally-and p q [] = refl
  tally-and p q (x ∷ xs) = ground (arith, tally-and p q xs)

  -- The count depends only on the outcomes of the test.
  pub tally-ext : (p q : A → Bool) (xs : List A) → ((x : A) → p x ≡ q x) → tally p xs ≡ tally q xs
  tally-ext p q [] h = refl
  tally-ext p q (x ∷ xs) h = ground (arith, h x, tally-ext p q xs h)

  pub tally_none : (p : A → Bool) (xs : List A) → ((x : A) → p x ≡ false) → tally p xs ≡ 0
  tally_none p [] h = refl
  tally_none p (x ∷ xs) h = ground (arith, h x, tally_none p xs h)

  -- Where nothing is counted, nothing passes the test.
  pub any-tally : (p : A → Bool) (xs : List A) → tally p xs ≡ 0 → any p xs ≡ false
  any-tally p [] h = refl
  any-tally p (x ∷ xs) h = ground (arith, any-tally p xs)

module _ {ℓ κ} {A : Type ℓ} (P : A → Type κ) where
  abbrev pub All : List A → Type κ
  All [] = Unit
  All (x ∷ xs) = P x × All xs

  pub All-append : (xs ys : List A) → All xs → All ys → All (xs ++ ys)
  All-append [] ys _ hy = hy
  All-append (x ∷ xs) ys (px, hx) hy = (px, All-append xs ys hx hy)

  pub All-member : (xs : List A) {x : A} → All xs → Member x xs → P x
  All-member [] h m = elim m [ ]
  All-member (y ∷ xs) (p, h) here = p
  All-member (y ∷ xs) (p, h) (there m) = All-member xs h m

  pub All-of : (xs : List A) → ((x : A) → Member x xs → P x) → All xs
  All-of [] h = tt
  All-of (x ∷ xs) h = (h x here, All-of xs (λ y m. h y (there m)))
