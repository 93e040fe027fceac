-- ===== src/Core/Scan.antt =====
-- Searching and replacing in a text, as package strings does it.
use llm_wiki_bff.Core.{
  ℕ, zero, suc, ◌+◌, ◌-◌, ◌≡◌, Option, none, some, [], ◌∷◌, ◌++◌, length, drop, arith, Bool-cases,
  Option-cases, inl, inr, if◌then◌else◌, ◌==◌,
}
use llm_wiki_bff.Core.Text.{Text, has_prefix}

-- What stands before the first byte `c`, and after it.
unfoldable pub cut_byte : ℕ → Text → Option (Text × Text)
cut_byte c [] = none
cut_byte c (a ∷ s) =
    if a == c
    then some ([], s)
    else elim (cut_byte c s) [ none ↦ none | some (before, after) ↦ some (a ∷ before, after) ]

-- The same at the first occurrence of a text: strings.Index with the slices around it.
unfoldable pub cut : Text → Text → Option (Text × Text)
cut p [] = if has_prefix [] p then some ([], []) else none
cut p (a ∷ s) =
    if has_prefix (a ∷ s) p
    then some ([], drop (length p) (a ∷ s))
    else elim (cut p s) [ none ↦ none | some (before, after) ↦ some (a ∷ before, after) ]

-- strings.Index
unfoldable pub index_of : Text → Text → Option ℕ
index_of [] p = if has_prefix [] p then some 0 else none
index_of (a ∷ s) p =
    if has_prefix (a ∷ s) p
    then some 0
    else elim (index_of s p) [ none ↦ none | some i ↦ some (i + 1) ]

-- The rest of strings.ReplaceAll, with the bytes of an occurrence that are still to be skipped.
unfoldable pub replace_from : Text → Text → ℕ → Text → Text
replace_from p r skip [] = []
replace_from p r (suc skip) (a ∷ s) = replace_from p r skip s
replace_from p r zero (a ∷ s) =
    let hit = replace_from p r (length p - 1) s in
    let miss = replace_from p r zero s in if has_prefix (a ∷ s) p then r ++ hit else a ∷ miss

-- strings.ReplaceAll for a text `p` that is not empty.
unfoldable pub replace_all : Text → Text → Text → Text
replace_all s p r = replace_from p r 0 s

pub length-cut_byte :
    (c : ℕ) (s : Text) {before after : Text}
    → cut_byte c s ≡ some (before, after)
    → length s ≡ length before + 1 + length after
unfolding cut_byte
length-cut_byte c [] h = cc
length-cut_byte c (a ∷ s) {before} {after} h = elim (Bool-cases (a == c)) [
  | inl e ↦ ground (arith, e, h)
  | inr e ↦ elim (Option-cases (cut_byte c s)) [
    | inl n ↦ ground (arith, e, n, h)
    | inr ((b, r), k) ↦ ground (arith, e, k, h, length-cut_byte c s k)
  ]
]
