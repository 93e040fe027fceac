-- ===== src/Citations/Loop.antt =====
-- The loop of Resolve (internal/search/citation_authority.go): it ends, and keeps what its two
-- writes keep.
use llm_wiki_bff.Core.{
  ℕ, zero, suc, ◌<◌, ◌≡◌, refl, none, some, [], ◌∷◌, ◌++◌, length, arith, Option-cases, inl, inr,
}
use llm_wiki_bff.Core.Text.{Text}
use llm_wiki_bff.Core.Scan.{cut_byte, length-cut_byte}
use llm_wiki_bff.Core.Dict.{lookup}
use llm_wiki_bff.Citations.{
  append_citation, Target, Url, Authority, Answer, write_text, write_bracketed, resolve_loop,
}

-- The invariant `I` holds at the head of the loop, `K` after what stands before a bracket and at
-- the end.
module _ (url : Url) (a : Authority) (I K : Answer → Type 0) (weak : (st : Answer) → I st → K st)
    (text : (t : Text) (st : Answer) → I st → K (write_text t st))
    (open_end : (t : Text) (st : Answer) → K st → K (write_text (91 ∷ t) st))
    (bracketed : (t : Text) (st : Answer) → K st → I (write_bracketed url a t st)) where
  -- With more fuel than the rest of the answer has bytes the loop ends, and keeps the invariants.
  pub resolve_loop_inv :
      (fuel : ℕ) (s : Text) (st : Answer)
      → length s < fuel
      → I st
      → (st' : Answer) × (resolve_loop url a fuel s st ≡ some st') × K st'
  unfolding resolve_loop
  resolve_loop_inv zero s st h i = absurd (omega arith)
  resolve_loop_inv (suc fuel) [] st h i = (st, refl, weak st i)
  resolve_loop_inv (suc fuel) (c ∷ s) st h i = elim (Option-cases (cut_byte 91 (c ∷ s))) [
    | inl e ↦ (write_text (c ∷ s) st, ground (arith, e), text (c ∷ s) st i)
    | inr ((before, rest), e) ↦ elim (Option-cases (cut_byte 93 rest)) [
      | inl k ↦ (
        write_text (91 ∷ rest) (write_text before st),
        ground (arith, e, k),
        open_end rest (write_text before st) (text before st i),
      )
      | inr ((inside, after), k) ↦
          let st' = write_bracketed url a inside (write_text before st) in
          let shorter : length after < fuel =
            omega (arith, length-cut_byte 91 (c ∷ s) e, length-cut_byte 93 rest k) in
          let (end, r, j) =
            resolve_loop_inv fuel after st' shorter
              (bracketed inside (write_text before st) (text before st i)) in
          (end, ground (arith, e, k, r), j)
    ]
  ]

-- What a bracketed part writes, by its lookups.
module _ (url : Url) (a : Authority) (t : Text) (st : Answer) where
  pub bracketed-token :
      {v : Target}
      → lookup (91 ∷ (t ++ 93 ∷ [])) a.tokens ≡ some v
      → write_bracketed url a t st ≡ append_citation url v st
  unfolding write_bracketed
  bracketed-token e = ground (arith, e)

  pub bracketed-title :
      {v : Target}
      → lookup (91 ∷ (t ++ 93 ∷ [])) a.tokens ≡ none
      → lookup t a.titles ≡ some v
      → write_bracketed url a t st ≡ append_citation url v st
  unfolding write_bracketed
  bracketed-title e k = ground (arith, e, k)

  pub bracketed-text :
      lookup (91 ∷ (t ++ 93 ∷ [])) a.tokens ≡ none
      → lookup t a.titles ≡ none
      → write_bracketed url a t st ≡ write_text (91 ∷ (t ++ 93 ∷ [])) st
  unfolding write_bracketed
  bracketed-text e k = ground (arith, e, k)
