-- ===== src/Citations/Neutral.antt =====
-- Texts that hold no reserved reference: what NeutralizeCitationReferences
-- (internal/search/citation_authority.go) leaves.
use llm_wiki_bff.Core.{
  ℕ, zero, suc, ◌-◌, ◌≤◌, ◌≡◌, refl, true, false, [], ◌∷◌, ◌++◌, length, All, arith, Bool-cases,
  inl, inr, ◌==◌, if◌then◌else◌, ap, sym, ◌∙◌,
}
use mathlib.Core.List.{append_assoc}
use llm_wiki_bff.Core.Text.{Text, codes, has_prefix, contains}
use llm_wiki_bff.Core.Scan.{replace_from, replace_all}
use llm_wiki_bff.Citations.{reference_prefix, neutralize, neutralized}

abbrev pub Clean : Text → Type 0
Clean t = contains t reference_prefix ≡ false

-- A byte stands nowhere in a text.
abbrev pub IsAbsent : ℕ → Text → Type 0
IsAbsent c q = All (λ b. (b == c) ≡ false) q

-- Without an occurrence nothing is replaced.
replace_from-same : (p r s : Text) → contains s p ≡ false → replace_from p r 0 s ≡ s
unfolding replace_from contains
replace_from-same p r [] h = refl
replace_from-same p r (a ∷ s) h = ground (arith, h, replace_from-same p r s)

replace_from-hit :
    (p r : Text) (a : ℕ) (s : Text)
    → has_prefix (a ∷ s) p ≡ true
    → replace_from p r 0 (a ∷ s) ≡ r ++ replace_from p r (length p - 1) s
unfolding replace_from
replace_from-hit p r a s e = ground (arith, e)

replace_from-miss :
    (p r : Text) (a : ℕ) (s : Text)
    → has_prefix (a ∷ s) p ≡ false
    → replace_from p r 0 (a ∷ s) ≡ a ∷ replace_from p r 0 s
unfolding replace_from
replace_from-miss p r a s e = ground (arith, e)

-- A byte that the pattern does not have ends an occurrence.
has_prefix-stop : (c : ℕ) (x y q : Text) → IsAbsent c q → has_prefix (x ++ c ∷ y) q ≡ has_prefix x q
unfolding has_prefix
has_prefix-stop c [] y [] k = refl
has_prefix-stop c (a ∷ x) y [] k = refl
has_prefix-stop c [] y (b ∷ q) (k, ks) = ground (arith, k)
has_prefix-stop c (a ∷ x) y (b ∷ q) (k, ks) = ground (arith, has_prefix-stop c x y q ks)

length-has_prefix : (s q : Text) → has_prefix s q ≡ true → length q ≤ length s
unfolding has_prefix
length-has_prefix s [] h = omega arith
length-has_prefix [] (b ∷ q) h = cc
length-has_prefix (a ∷ s) (b ∷ q) h = ground (arith, h, length-has_prefix s q)

-- Patterns whose first byte stands nowhere else in them, with a replacement that starts with it.
module _ (c : ℕ) (q r : Text) (once : IsAbsent c q)
    (hit : (s : Text) → contains ((c ∷ r) ++ s) (c ∷ q) ≡ contains s (c ∷ q)) where
  has_prefix-replaced :
      (s t : Text)
      → IsAbsent c t
      → has_prefix (replace_from (c ∷ q) (c ∷ r) 0 s) t ≡ true
      → has_prefix s t ≡ true
  unfolding replace_from has_prefix
  has_prefix-replaced [] t k h = h
  has_prefix-replaced (a ∷ s) [] k h = refl
  has_prefix-replaced (a ∷ s) (b ∷ t) (d, k) h = elim (Bool-cases (has_prefix (a ∷ s) (c ∷ q))) [
    | inl e ↦ absurd (ground (arith, e, d, h))
    | inr e ↦ ground (arith, e, h, has_prefix-replaced s t k)
  ]

  contains-replaced :
      (k : ℕ) (s : Text) → contains (replace_from (c ∷ q) (c ∷ r) k s) (c ∷ q) ≡ false
  unfolding replace_from contains has_prefix
  contains-replaced k [] = refl
  contains-replaced (suc k) (a ∷ s) = contains-replaced k s
  contains-replaced zero (a ∷ s) = elim (Bool-cases (has_prefix (a ∷ s) (c ∷ q))) [
    | inl e ↦
        ap (λ t. contains t (c ∷ q)) (replace_from-hit (c ∷ q) (c ∷ r) a s e)
        ∙ hit (replace_from (c ∷ q) (c ∷ r) (length (c ∷ q) - 1) s)
        ∙ contains-replaced (length (c ∷ q) - 1) s
    | inr e ↦
        ap (λ t. contains t (c ∷ q)) (replace_from-miss (c ∷ q) (c ∷ r) a s e)
        ∙ ground (arith, e, contains-replaced 0 s, has_prefix-replaced s q once)
  ]

-- The replacement goes on past a byte that the pattern does not have.
replace_from-stop :
    (p r : Text) (c : ℕ) (k : ℕ) (s : Text)
    → IsAbsent c p
    → k ≤ length s
    → has_prefix (c ∷ []) p ≡ false
    → replace_from p r k (s ++ c ∷ []) ≡ replace_from p r k s ++ c ∷ []
unfolding replace_from
replace_from-stop p r c zero [] h k e = ground (arith, e)
replace_from-stop p r c (suc n) [] h k e = absurd (omega arith)
replace_from-stop p r c (suc n) (a ∷ s) h k e = replace_from-stop p r c n s h (omega arith) e
replace_from-stop p r c zero (a ∷ s) h k e = elim (Bool-cases (has_prefix (a ∷ s) p)) [
  | inl t ↦
      let t' : has_prefix (a ∷ (s ++ c ∷ [])) p ≡ true = has_prefix-stop c (a ∷ s) [] p h ∙ t in
      let rest =
        replace_from-stop p r c (length p - 1) s h (omega (arith, length-has_prefix (a ∷ s) p t))
          e in
      replace_from-hit p r a (s ++ c ∷ []) t'
      ∙ ap (λ u. r ++ u) rest
      ∙ sym (append_assoc r (replace_from p r (length p - 1) s) (c ∷ []))
      ∙ ap (λ u. u ++ c ∷ []) (sym (replace_from-hit p r a s t))
  | inr t ↦
      let t' : has_prefix (a ∷ (s ++ c ∷ [])) p ≡ false = has_prefix-stop c (a ∷ s) [] p h ∙ t in
      replace_from-miss p r a (s ++ c ∷ []) t'
      ∙ ap (◌∷◌ a) (replace_from-stop p r c 0 s h (omega arith) e)
      ∙ ap (λ u. u ++ c ∷ []) (sym (replace_from-miss p r a s t))
]

-- An occurrence in two parts with such a byte between them lies in one of the parts.
pub contains-stop :
    (c : ℕ) (x y p : Text)
    → IsAbsent c p
    → has_prefix (c ∷ y) p ≡ false
    → contains x p ≡ false
    → contains y p ≡ false
    → contains (x ++ c ∷ y) p ≡ false
unfolding contains
contains-stop c [] y p k n h l = ground (arith, n, l)
contains-stop c (a ∷ x) y p k n h l =
    ground (arith, h, has_prefix-stop c (a ∷ x) y p k, contains-stop c x y p k n)

no_c : IsAbsent 67 (codes "ITATION_REF_")
no_c = ground arith

no_bracket : IsAbsent 93 reference_prefix
no_bracket = ground arith

no_open : IsAbsent 91 reference_prefix
no_open = ground arith

rep-hit :
    (s : Text)
    → contains (codes "CITATION-REF_" ++ s) reference_prefix ≡ contains s reference_prefix
unfolding contains has_prefix
rep-hit s = refl

-- No reference is left.
pub neutralize-Clean : (t : Text) → Clean (neutralize t)
unfolding neutralize replace_all
neutralize-Clean t =
    contains-replaced 67 (codes "ITATION_REF_") (codes "ITATION-REF_") no_c rep-hit 0 t

-- writeNeutralized writes what NeutralizeCitationReferences makes.
pub neutralized_lem : (t : Text) → neutralized t ≡ neutralize t
unfolding neutralized neutralize replace_all
neutralized_lem t = elim (Bool-cases (contains t reference_prefix)) [
  | inl e ↦ ap (λ b. if b then neutralize t else t) e
  | inr e ↦
      ap (λ b. if b then neutralize t else t) e
      ∙ sym (replace_from-same reference_prefix (codes "CITATION-REF_") t e)
]

-- A bracketed text is neutralized within its brackets.
pub neutralize-bracketed :
    (t : Text) → neutralize (91 ∷ (t ++ 93 ∷ [])) ≡ 91 ∷ (neutralize t ++ 93 ∷ [])
unfolding neutralize replace_all has_prefix
neutralize-bracketed t =
    replace_from-miss reference_prefix (codes "CITATION-REF_") 91 (t ++ 93 ∷ []) refl
    ∙ ap (◌∷◌ 91) (
        replace_from-stop reference_prefix (codes "CITATION-REF_") 93 0 t no_bracket (omega arith)
          refl)

pub neutralize-open : (t : Text) → neutralize (91 ∷ t) ≡ 91 ∷ neutralize t
unfolding neutralize replace_all has_prefix
neutralize-open t = replace_from-miss reference_prefix (codes "CITATION-REF_") 91 t refl

-- Texts around a bracket.
pub Clean-open : (x y : Text) → Clean x → Clean y → Clean (x ++ 91 ∷ y)
unfolding has_prefix
Clean-open x y h k = contains-stop 91 x y reference_prefix no_open refl h k

pub Clean-close : (x y : Text) → Clean x → Clean y → Clean (x ++ 93 ∷ y)
unfolding has_prefix
Clean-close x y h k = contains-stop 93 x y reference_prefix no_bracket refl h k
