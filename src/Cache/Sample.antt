-- ===== src/Cache/Sample.antt =====
-- The sampling of internal/cache/cache.go: how many draws fall on which candidates.
use llm_wiki_bff.Core.{
  ℕ, zero, suc, ◌+◌, ◌-◌, ◌≤◌, ◌<◌, ◌≡◌, refl, ap, ◌∙◌, Bool, true, false, Option, none, some, List,
  [], ◌∷◌, length, keep, tally, tally-true, ltb, ◌==◌, arith, if◌then◌else◌, Bool-cases, inl, inr,
}
use Prim.Native.Nat.{min}
use llm_wiki_bff.Search.{Result}
use llm_wiki_bff.Cache.{Candidate, total_weight, pick_from, pick_one, sample}

-- How many numbers below another pass a test.
abbrev pub count : (ℕ → Bool) → ℕ → ℕ
count f zero = 0
count f (suc n) = (if f n then 1 else 0) + count f n

count_split : (f : ℕ → Bool) (a b : ℕ) → count f (a + b) ≡ count f a + count (λ r. f (a + r)) b
count_split f a zero = let e : a + 0 ≡ a = omega arith in omega (arith, ap (count f) e)
count_split f a (suc b) =
    let e : a + suc b ≡ suc (a + b) = omega arith in
    ap (count f) e ∙ ground (arith, count_split f a b)

count_ext : (f g : ℕ → Bool) (n : ℕ) → ((r : ℕ) → r < n → f r ≡ g r) → count f n ≡ count g n
count_ext f g zero h = refl
count_ext f g (suc n) h =
    ground (arith, h n (omega arith), count_ext f g n (λ r l. h r (omega (arith, l))))

count_same : (b : Bool) (n : ℕ) → count (λ r. b) n ≡ (if b then n else 0)
count_same b zero = ground arith
count_same b (suc n) = ground (arith, count_same b n)

-- Whether a pick takes a candidate that passes a test.
abbrev pub takes : (Candidate → Bool) → Option (Candidate × List Candidate) → Bool
takes p none = false
takes p (some x) = p x.0

takes_kept :
    (p : Candidate → Bool) (c : Candidate) (o : Option (Candidate × List Candidate))
    → takes p (elim o [ none ↦ none | some (x, others) ↦ some (x, c ∷ others) ]) ≡ takes p o
takes_kept p c none = refl
takes_kept p c (some x) = refl

pick_first :
    (p : Candidate → Bool) (c : Candidate) (cs : List Candidate) (r : ℕ)
    → r < c.weight
    → takes p (pick_from r (c ∷ cs)) ≡ p c
unfolding pick_from
pick_first p c cs r h = ground (arith, h)

pick_later :
    (p : Candidate → Bool) (c : Candidate) (cs : List Candidate) (r : ℕ)
    → takes p (pick_from (c.weight + r) (c ∷ cs)) ≡ takes p (pick_from r cs)
unfolding pick_from
pick_later p c cs r =
    let e : ltb (c.weight + r) c.weight ≡ false = ground arith in
    ap
      (λ b. takes p (
        if b then some (c, cs) else (elim (pick_from (c.weight + r - c.weight) cs) [
          | none ↦ none
          | some (x, others) ↦ some (x, c ∷ others)
        ])))
      e
    ∙ takes_kept p c (pick_from (c.weight + r - c.weight) cs)
    ∙ ap (λ n. takes p (pick_from n cs)) (omega arith)

pick_from_fair :
    (p : Candidate → Bool) (cs : List Candidate)
    → count (λ r. takes p (pick_from r cs)) (total_weight cs) ≡ total_weight (keep p cs)
unfolding total_weight
pick_from_fair p [] = refl
pick_from_fair p (c ∷ cs) =
    count_split (λ r. takes p (pick_from r (c ∷ cs))) c.weight (total_weight cs)
    ∙ ground (
      arith,
      count_ext (λ r. takes p (pick_from r (c ∷ cs))) (λ r. p c) c.weight (pick_first p c cs),
      count_same (p c) c.weight,
      count_ext (λ r. takes p (pick_from (c.weight + r) (c ∷ cs))) (λ r. takes p (pick_from r cs))
          (total_weight cs) (λ r h. pick_later p c cs r),
      pick_from_fair p cs,
    )

-- A draw below the sum of the weights falls on a candidate, and the others are left.
pick_from_total :
    (cs : List Candidate) (r : ℕ)
    → r < total_weight cs
    → (x : Candidate) × (others : List Candidate) × (pick_from r cs ≡ some (x, others))
      × ((p : Candidate → Bool) → tally p (x ∷ others) ≡ tally p cs)
unfolding total_weight pick_from
pick_from_total [] r h = absurd (omega (arith, h))
pick_from_total (c ∷ cs) r h = elim (Bool-cases (ltb r c.weight)) [
  | inl b ↦ (c, cs, ground (arith, b), λ p. refl)
  | inr b ↦
      let (x, others, e, t) = pick_from_total cs (r - c.weight) (ground (arith, b, h)) in
      (x, c ∷ others, ground (arith, b, e), λ p. omega (arith, t p))
]

pick_one-pick_from :
    (c : Candidate) (cs : List Candidate) (r : ℕ)
    → r < total_weight (c ∷ cs)
    → pick_one r (c ∷ cs) ≡ pick_from r (c ∷ cs)
unfolding pick_one
pick_one-pick_from c cs r h =
    let (x, others, e, t) = pick_from_total (c ∷ cs) r h in ground (arith, e)

-- The draws below the sum of the weights fall on the candidates by their weights: those on
-- candidates that pass a test are as many as the weights of these candidates together.
pub pick_one_fair :
    (p : Candidate → Bool) (cs : List Candidate)
    → count (λ r. takes p (pick_one r cs)) (total_weight cs) ≡ total_weight (keep p cs)
unfolding total_weight
pick_one_fair p [] = refl
pick_one_fair p (c ∷ cs) =
    count_ext (λ r. takes p (pick_one r (c ∷ cs))) (λ r. takes p (pick_from r (c ∷ cs)))
      (total_weight (c ∷ cs)) (λ r h. ap (takes p) (pick_one-pick_from c cs r h))
    ∙ pick_from_fair p (c ∷ cs)

no_weight : (cs : List Candidate) → total_weight cs ≡ 0 → tally (λ c. c.weight == 0) cs ≡ length cs
unfolding total_weight
no_weight [] h = refl
no_weight (c ∷ cs) h = ground (arith, h, no_weight cs)

-- With draws below their bounds and candidates that have a weight, the sampling ends with as many
-- results as are wanted and there are, and takes no candidate twice.
pub sample_total :
    (draw : ℕ → ℕ → ℕ) (place n : ℕ) (cs : List Candidate)
    → ((i b : ℕ) → 0 < b → draw i b < b)
    → tally (λ c. c.weight == 0) cs ≡ 0
    → (rs : List Result) × (sample draw place n cs ≡ some rs)
      × (length rs ≡ min n (length cs))
      × ((p : Result → Bool) → tally p rs ≤ tally (λ c. p c.result) cs)
unfolding sample
sample_total draw place zero cs d w = ([], refl, omega arith, λ p. omega arith)
sample_total draw place (suc n) [] d w = ([], refl, omega arith, λ p. omega arith)
sample_total draw place (suc n) (c ∷ cs) d w = elim (Bool-cases (total_weight (c ∷ cs) == 0)) [
  | inl z ↦ absurd (ground (arith, z, w, no_weight (c ∷ cs)))
  | inr z ↦
      let bound = total_weight (c ∷ cs) in
      let inside : draw place bound < bound = d place bound (ground (arith, z)) in
      let (x, others, e, t) = pick_from_total (c ∷ cs) (draw place bound) inside in
      let (rs, f, l, q) =
        sample_total draw (place + 1) n others d (omega (arith, w, t (λ y. y.weight == 0))) in
      (
        x.result ∷ rs,
        ground (arith, z, f, e, pick_one-pick_from c cs (draw place bound) inside),
        omega (arith, l, t (λ y. true), tally-true others, tally-true cs),
        λ p. omega (arith, q p, t (λ y. p y.result)),
      )
]
