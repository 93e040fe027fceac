-- ===== src/Core/Sort.antt =====
-- sort.SliceStable: the stable sort of package sort, as an insertion sort.
use llm_wiki_bff.Core.{
  suc, ◌+◌, ◌≡◌, refl, Bool, true, false, List, [], ◌∷◌, length, All, keep, tally, arith,
  if◌then◌else◌, if_both, if_cases, ap, ◌∙◌,
}

module _ {ℓ} {A : Type ℓ} (less : A → A → Bool) where
  -- `x` goes before the first element that is not less.
  insert_sorted : A → List A → List A
  insert_sorted x [] = x ∷ []
  insert_sorted x (y ∷ ys) =
      let rest = insert_sorted x ys in if less y x then y ∷ rest else x ∷ y ∷ ys

  unfoldable pub sort_stable : List A → List A
  unfolding insert_sorted
  sort_stable [] = []
  sort_stable (x ∷ xs) = insert_sorted x (sort_stable xs)

  -- No element is less than one that stands before it.
  abbrev pub IsSorted : List A → Type 0
  IsSorted [] = Unit
  IsSorted (x ∷ xs) = All (λ y. less y x ≡ false) xs × IsSorted xs

  insert_sorted-All {κ} :
      (P : A → Type κ) (x : A) (xs : List A) → P x → All P xs → All P (insert_sorted x xs)
  unfolding insert_sorted
  insert_sorted-All P x [] p h = (p, tt)
  insert_sorted-All P x (y ∷ ys) p (q, h) =
      if_both (All P) (less y x) (q, insert_sorted-All P x ys p h) (p, (q, h))

  -- What holds of every element still does.
  pub sort_stable-All {κ} : (P : A → Type κ) (xs : List A) → All P xs → All P (sort_stable xs)
  unfolding sort_stable
  sort_stable-All P [] h = tt
  sort_stable-All P (x ∷ xs) (p, h) =
      insert_sorted-All P x (sort_stable xs) p (sort_stable-All P xs h)

  -- Elements that are not less than one another keep their order.
  insert_sorted-keep :
      (p : A → Bool) (x : A) (ys : List A)
      → ((y z : A) → p y ≡ true → p z ≡ true → less y z ≡ false)
      → keep p (insert_sorted x ys) ≡ keep p (x ∷ ys)
  unfolding insert_sorted
  insert_sorted-keep p x [] h = refl
  insert_sorted-keep p x (y ∷ ys) h = ground (arith, h y x, insert_sorted-keep p x ys h)

  pub sort_stable-keep :
      (p : A → Bool) (xs : List A)
      → ((y z : A) → p y ≡ true → p z ≡ true → less y z ≡ false)
      → keep p (sort_stable xs) ≡ keep p xs
  unfolding sort_stable
  sort_stable-keep p [] h = refl
  sort_stable-keep p (x ∷ xs) h =
      insert_sorted-keep p x (sort_stable xs) h ∙ ground (arith, sort_stable-keep p xs h)

  insert_sorted-tally :
      (p : A → Bool) (x : A) (xs : List A) → tally p (insert_sorted x xs) ≡ tally p (x ∷ xs)
  unfolding insert_sorted
  insert_sorted-tally p x [] = refl
  insert_sorted-tally p x (y ∷ ys) = ground (arith, insert_sorted-tally p x ys)

  -- The same elements as often as before.
  pub sort_stable-tally : (p : A → Bool) (xs : List A) → tally p (sort_stable xs) ≡ tally p xs
  unfolding sort_stable
  sort_stable-tally p [] = refl
  sort_stable-tally p (x ∷ xs) =
      insert_sorted-tally p x (sort_stable xs)
      ∙ ap (λ n. (if p x then 1 else 0) + n) (sort_stable-tally p xs)

  insert_sorted-length : (x : A) (xs : List A) → length (insert_sorted x xs) ≡ suc (length xs)
  unfolding insert_sorted
  insert_sorted-length x [] = refl
  insert_sorted-length x (y ∷ ys) = ground (arith, insert_sorted-length x ys)

  pub length-sort_stable : (xs : List A) → length (sort_stable xs) ≡ length xs
  unfolding sort_stable
  length-sort_stable [] = refl
  length-sort_stable (x ∷ xs) =
      insert_sorted-length x (sort_stable xs) ∙ ap suc (length-sort_stable xs)

  module _ (asym : (x y : A) → less x y ≡ true → less y x ≡ false)
      (trans : (x y z : A) → less y x ≡ false → less z y ≡ false → less z x ≡ false) where
    All-trans :
        (x y : A) (zs : List A)
        → less y x ≡ false
        → All (λ z. less z y ≡ false) zs
        → All (λ z. less z x ≡ false) zs
    All-trans x y [] h k = tt
    All-trans x y (z ∷ zs) h (k, ks) = (trans x y z h k, All-trans x y zs h ks)

    insert_sorted-IsSorted : (x : A) (ys : List A) → IsSorted ys → IsSorted (insert_sorted x ys)
    unfolding insert_sorted
    insert_sorted-IsSorted x [] h = (tt, tt)
    insert_sorted-IsSorted x (y ∷ ys) (below, h) =
        if_cases IsSorted (less y x)
          (λ e. (
            insert_sorted-All (λ z. less z y ≡ false) x ys (asym y x e) below,
            insert_sorted-IsSorted x ys h,
          ))
          (λ e. ((e, All-trans x y ys e below), (below, h)))

    pub sort_stable-IsSorted : (xs : List A) → IsSorted (sort_stable xs)
    unfolding sort_stable
    sort_stable-IsSorted [] = tt
    sort_stable-IsSorted (x ∷ xs) =
        insert_sorted-IsSorted x (sort_stable xs) (sort_stable-IsSorted xs)
