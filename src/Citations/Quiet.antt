-- ===== src/Citations/Quiet.antt =====
-- The text of an answer that Resolve (internal/search/citation_authority.go) returns holds no
-- reserved reference.
use llm_wiki_bff.Core.{
  suc, ◌≡◌, ◌⊎◌, refl, none, some, List, [], ◌∷◌, ◌++◌, length, arith, Option-cases, Bool-cases,
  inl, inr, sym, ◌∙◌,
}
use mathlib.Core.Path.{subst}
use mathlib.Core.List.{append_assoc}
use llm_wiki_bff.Core.Text.{Text, str_eq, str_eq_sound, contains, has_prefix}
use llm_wiki_bff.Core.Dict.{lookup}
use llm_wiki_bff.Search.{Result, Citation}
use llm_wiki_bff.Citations.{
  Url, Target, Authority, Answer, no_answer, neutralize, neutralized, write_text, append_citation,
  write_bracketed, resolved, resolve, authorized_results,
}
use llm_wiki_bff.Citations.Loop.{resolve_loop_inv}
use llm_wiki_bff.Citations.Loop.{bracketed-token, bracketed-title, bracketed-text}
use llm_wiki_bff.Citations.Neutral.{
  Clean, neutralize-Clean, neutralized_lem, neutralize-bracketed, neutralize-open, Clean-open,
  Clean-close,
}

-- Nothing is written yet, or a clean text and a closing bracket.
abbrev Closed : Text → Type 0
Closed t = (t ≡ []) ⊎ ((x : Text) × (t ≡ x ++ 93 ∷ []) × Clean x)

no_text : Clean []
unfolding contains has_prefix
no_text = refl

Closed-append : (t y : Text) → Closed t → Clean y → Clean (t ++ y)
Closed-append t y (inl e) k = subst (λ u. Clean (u ++ y)) (sym e) k
Closed-append t y (inr (x, e, h)) k =
    subst (λ u. Clean (u ++ y)) (sym e)
      (subst Clean (sym (append_assoc x (93 ∷ []) y)) (Clean-close x y h k))

Closed-Clean : (st : Answer) → Closed st.text → Clean st.text
Closed-Clean st (inl e) = subst Clean (sym e) no_text
Closed-Clean st (inr (x, e, h)) = subst Clean (sym e) (Clean-close x [] h no_text)

-- A bracketed clean text is closed.
bracket-Closed : (t y : Text) → Clean t → Clean y → Closed (t ++ 91 ∷ (y ++ 93 ∷ []))
bracket-Closed t y h k =
    inr (t ++ 91 ∷ y, sym (append_assoc t (91 ∷ y) (93 ∷ [])), Clean-open t y h k)

write_text-Clean : (t : Text) (st : Answer) → Closed st.text → Clean (write_text t st).text
unfolding write_text
write_text-Clean t st h =
    Closed-append st.text (neutralized t) h
      (subst Clean (sym (neutralized_lem t)) (neutralize-Clean t))

write_text-open : (t : Text) (st : Answer) → Clean st.text → Clean (write_text (91 ∷ t) st).text
unfolding write_text
write_text-open t st h =
    let e = neutralized_lem (91 ∷ t) ∙ neutralize-open t in
    subst (λ u. Clean (st.text ++ u)) (sym e)
      (Clean-open st.text (neutralize t) h (neutralize-Clean t))

append_citation-text :
    (url : Url) (v : Target) (st : Answer)
    → (append_citation url v st).text ≡ st.text ++ 91 ∷ (neutralize v.result.title ++ 93 ∷ [])
unfolding append_citation
append_citation-text url v st = ground arith

append_citation-Closed :
    (url : Url) (v : Target) (st : Answer) → Clean st.text → Closed (append_citation url v st).text
append_citation-Closed url v st h =
    subst Closed (sym (append_citation-text url v st))
      (bracket-Closed st.text (neutralize v.result.title) h (neutralize-Clean v.result.title))

write_text-Closed :
    (t : Text) (st : Answer) → Clean st.text → Closed (write_text (91 ∷ (t ++ 93 ∷ [])) st).text
unfolding write_text
write_text-Closed t st h =
    let e = neutralized_lem (91 ∷ (t ++ 93 ∷ [])) ∙ neutralize-bracketed t in
    subst (λ u. Closed (st.text ++ u)) (sym e)
      (bracket-Closed st.text (neutralize t) h (neutralize-Clean t))

write_bracketed-Closed :
    (url : Url) (a : Authority) (t : Text) (st : Answer)
    → Clean st.text
    → Closed (write_bracketed url a t st).text
write_bracketed-Closed url a t st h =
    let P = λ (w : Answer). Closed w.text in
    elim (Option-cases (lookup (91 ∷ (t ++ 93 ∷ [])) a.tokens)) [
      | inr (v, e) ↦
          subst P (sym (bracketed-token url a t st e)) (append_citation-Closed url v st h)
      | inl e ↦ elim (Option-cases (lookup t a.titles)) [
        | inr (v, k) ↦
            subst P (sym (bracketed-title url a t st e k)) (append_citation-Closed url v st h)
        | inl k ↦ subst P (sym (bracketed-text url a t st e k)) (write_text-Closed t st h)
      ]
    ]

resolved-text : (url : Url) (a : Authority) (st : Answer) → (resolved url a st).0 ≡ st.text
unfolding resolved
resolved-text url a st = ground arith

-- Whatever the authority holds and the answer says, the text that Resolve returns nowhere has the
-- reserved prefix of a reference.
pub resolve-Clean :
    (url : Url) (a : Authority) (answer : Text)
    → (r : Text × List Citation × List Result) × (resolve url a answer ≡ some r) × Clean r.0
unfolding resolve
resolve-Clean url a answer =
    let (st, e, g) =
      resolve_loop_inv url a (λ w. Closed w.text) (λ w. Clean w.text) Closed-Clean write_text-Clean
        write_text-open (write_bracketed-Closed url a) (suc (length answer)) answer no_answer
        (omega arith) (inl refl) in
    elim (Bool-cases (str_eq answer [])) [
      | inl z ↦
          let empty = str_eq_sound answer [] z in
          (
            (answer, [], authorized_results url a none),
            ground (arith, z),
            subst Clean (sym empty) no_text,
          )
      | inr z ↦
          (resolved url a st, ground (arith, z, e), subst Clean (sym (resolved-text url a st)) g)
    ]
