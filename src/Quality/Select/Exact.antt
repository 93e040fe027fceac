-- ===== src/Quality/Select/Exact.antt =====
-- The selection of internal/queryquality/core.go, counted.
use llm_wiki_bff.Core.{
  ℕ, ◌≤◌, ◌<◌, ◌≡◌, refl, ap, sym, ◌∙◌, Bool, true, not, ◌&&◌, List, [], ◌∷◌, ok, err,
  if◌then◌else◌, length, map, keep, tally, tally-keep_and, tally-true, tally-ext, tally_none,
  tally-and, arith,
}
use llm_wiki_bff.Core.Int.{ℤ}
use llm_wiki_bff.Core.Text.{Text, str_eq}
use llm_wiki_bff.Core.Sort.{sort_stable-tally}
use llm_wiki_bff.Quality.{CandidateEvidence}
use llm_wiki_bff.Quality.Select.{
  SelectionInput, SelectedCandidate, canceled, min_int, limit_of, eligible_of, before, decisions,
  select,
}
use llm_wiki_bff.Quality.Select.Bags.{IsFewer}
use llm_wiki_bff.Quality.Select.Chosen.{
  selected_of_total, tally-has_slug, tally_decided, decisions-slug, decisions-tally,
}

abbrev pub may_select : CandidateEvidence → Bool
may_select c = c.eligible && c.qualified

eligible_of-tally :
    (p : CandidateEvidence → Bool) (cs : List CandidateEvidence)
    → tally p (eligible_of cs) ≡ tally (λ c. p c && may_select c) cs
unfolding eligible_of
eligible_of-tally p cs =
    sort_stable-tally before p (keep may_select cs) ∙ tally-keep_and p may_select cs

length-eligible_of : (cs : List CandidateEvidence) → length (eligible_of cs) ≡ tally may_select cs
length-eligible_of cs =
    sym (tally-true (eligible_of cs))
    ∙ eligible_of-tally (λ c. true) cs
    ∙ tally-ext (λ c. true && may_select c) may_select cs (λ c. refl)

decided_all :
    (cs : List CandidateEvidence) (ds : List SelectedCandidate)
    → tally_decided (λ c d. d.selected) cs ds ≡ tally_decided (λ c d. d.selected && true) cs ds
decided_all [] ds = refl
decided_all (c ∷ cs) [] = refl
decided_all (c ∷ cs) (d ∷ ds) = ground (arith, decided_all cs ds)

-- Where the slugs are distinct and the draws are below their bounds, Select fails exactly if a look
-- at the context finds it done, whatever the limit and the number of exploration slots. Else it
-- makes one decision for each candidate, in order. It selects as many as the limit allows of those
-- that are eligible and qualified, and no other, and as many as the limit allows of those among
-- them with an exact identity.
pub select_exact :
    (draw : ℤ → ℕ → ℕ → ℕ) (done : Bool) (input : SelectionInput)
    → ((k : Text) → tally (λ c. str_eq k c.slug) input.candidates ≤ 1)
    → ((seed : ℤ) (i b : ℕ) → 0 < b → draw seed i b < b)
    → (ds : List SelectedCandidate) × (select draw done input
        ≡ (if done then err canceled else ok ds))
      × (map (λ d. d.slug) ds ≡ map (λ c. c.slug) input.candidates)
      × (tally_decided (λ c d. d.selected) input.candidates ds
          ≡ min_int (limit_of input) (tally may_select input.candidates))
      × (tally_decided (λ c d. d.selected && not (may_select c)) input.candidates ds ≡ 0)
      × (tally_decided (λ c d. d.selected && c.exact_identity_evidence) input.candidates ds
          ≡ min_int
              (limit_of input)
              (tally (λ c. c.exact_identity_evidence && may_select c) input.candidates))
unfolding select
select_exact draw done input distinct range =
    let cs = input.candidates in
    let (xs, m, e, h, l, f, x) = selected_of_total draw input range in
    let fewer : IsFewer xs cs =
      (λ p. omega (arith, f p, eligible_of-tally p cs, tally-and p may_select cs)) in
    let counted = λ (q : CandidateEvidence → Bool).
      decisions-tally q cs xs m h ∙ tally-has_slug q xs cs distinct fewer in
    let none_else : tally (λ c. not (may_select c)) (eligible_of cs) ≡ 0 =
      eligible_of-tally (λ c. not (may_select c)) cs ∙ tally_none _ cs (λ c. ground arith) in
    (
      decisions m cs,
      ground (arith, e),
      decisions-slug cs xs m h,
      decided_all cs (decisions m cs)
          ∙ counted (λ c. true)
          ∙ tally-true xs
          ∙ l
          ∙ ap (min_int (limit_of input)) (length-eligible_of cs),
      omega (arith, counted (λ c. not (may_select c)), f (λ c. not (may_select c)), none_else),
      counted (λ c. c.exact_identity_evidence)
          ∙ x
          ∙ ap (min_int (limit_of input)) (eligible_of-tally (λ c. c.exact_identity_evidence) cs),
    )
