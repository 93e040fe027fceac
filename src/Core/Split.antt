-- ===== src/Core/Split.antt =====
-- Facts about splitting a text at a byte.
use llm_wiki_bff.Core.{
  ℕ, ◌≡◌, refl, ap, ◌∙◌, true, false, List, [], ◌∷◌, ◌++◌, All, arith, ◌==◌, Bool-cases, inl, inr,
  if◌then◌else◌,
}
use llm_wiki_bff.Core.Text.{Text, has_prefix, contains, split_on, glue}

pub split_on-cons : (c : ℕ) (s : Text) → (t : Text) × (r : List Text) × (split_on c s ≡ t ∷ r)
unfolding split_on
split_on-cons c [] = ([], [], refl)
split_on-cons c (a ∷ s) = elim (Bool-cases (a == c)) [
  | inl e ↦
      ([], split_on c s, rw (ap (λ b. if b then [] ∷ split_on c s else glue a (split_on c s)) e))
  | inr e ↦
      let (t, r, p) = split_on-cons c s in
      (a ∷ t, r, ap (λ b. if b then [] ∷ split_on c s else glue a (split_on c s)) e ∙ ap (glue a) p)
]

split_on-hit : (c a : ℕ) (s : Text) → (a == c) ≡ true → split_on c (a ∷ s) ≡ [] ∷ split_on c s
unfolding split_on
split_on-hit c a s k = ground arith

split_on-miss : (c a : ℕ) (s : Text) → (a == c) ≡ false → split_on c (a ∷ s) ≡ glue a (split_on c s)
unfolding split_on
split_on-miss c a s k = ground arith

-- A separator splits a text in two.
pub split_on-append : (c : ℕ) (s t : Text) → split_on c (s ++ c ∷ t) ≡ split_on c s ++ split_on c t
unfolding split_on
split_on-append c [] t = ground arith
split_on-append c (a ∷ s) t =
    let (u, r, p) = split_on-cons c s in
    let q : split_on c (s ++ c ∷ t) ≡ u ∷ (r ++ split_on c t) =
      split_on-append c s t ∙ ap (λ l. l ++ split_on c t) p in
    ground (arith, p, q)

-- The first piece is the beginning of the text.
has_prefix-split :
    (c : ℕ) (s p : Text) {t : Text} {r : List Text}
    → split_on c s ≡ t ∷ r
    → has_prefix t p ≡ true
    → has_prefix s p ≡ true
unfolding split_on has_prefix
has_prefix-split c s [] e h = ground arith
has_prefix-split c [] (b ∷ p) e h = ground arith
has_prefix-split c (a ∷ s) (b ∷ p) {t} {r} e h = elim (Bool-cases (a == c)) [
  | inl k ↦ ground (arith, e, k)
  | inr k ↦
      let (u, q, d) = split_on-cons c s in
      ground (arith, d, has_prefix-split c s p {t = u} {r = q} d)
]

contains-prefix : (s p : Text) → contains s p ≡ false → has_prefix s p ≡ false
unfolding contains
contains-prefix [] p h = h
contains-prefix (a ∷ s) p h = ground arith

-- A piece of a text holds nothing that the text does not hold.
pub contains-split :
    (c : ℕ) (s p : Text)
    → has_prefix [] p ≡ false
    → contains s p ≡ false
    → All (λ t. contains t p ≡ false) (split_on c s)
unfolding split_on contains
contains-split c [] p n h = (n, tt)
contains-split c (a ∷ s) p n h = elim (Bool-cases (a == c)) [
  | inl k ↦ rw (split_on-hit c a s k) (n, contains-split c s p n (ground arith))
  | inr k ↦
      let (u, r, d) = split_on-cons c s in
      let ih : All (λ t. contains t p ≡ false) (u ∷ r) =
        rw d at (contains-split c s p n (ground arith)) in
      let e : split_on c (a ∷ s) ≡ (a ∷ u) ∷ r = split_on-miss c a s k ∙ ap (glue a) d in
      let head : contains (a ∷ u) p ≡ false =
        ground (arith, has_prefix-split c (a ∷ s) p {t = a ∷ u} {r = r} e, ih.0) in
      rw e (head, ih.1)
]
