-- ===== src/Quality/Select.antt =====
-- internal/queryquality/core.go: randomSelector.Select. The draws of math/rand are a parameter.
pub mod Bags
pub mod Chosen
pub mod Exact
use llm_wiki_bff.Core.{
  ℕ, zero, suc, ◌+◌, ◌-◌, ◌≤◌, Bool, true, false, not, ◌&&◌, ◌||◌, Option, none, some, List, [],
  ◌∷◌, ◌++◌, Result, ok, err, length, take, drop, keep, map, ltb, leb, ◌==◌, is_some, if◌then◌else◌,
}
use llm_wiki_bff.Core.Int.{ℤ, pos, pos_part, leb_ℤ, ltb_ℤ, eqb_ℤ}
use llm_wiki_bff.Core.Text.{Text, codes, str_eq, str_ltb}
use llm_wiki_bff.Core.Dict.{lookup, insert}
use llm_wiki_bff.Core.Sort.{sort_stable}
use llm_wiki_bff.Quality.{CandidateEvidence}

pub record SelectionInput : Type 0 where
  pub candidates : List CandidateEvidence
  pub limit : ℤ
  pub exploration_slots : ℤ
  pub seed : ℤ

pub record SelectedCandidate : Type 0 where
  pub slug : Text
  pub title : Text
  pub selected : Bool
  pub reason : Text
  pub score : ℤ
  pub tier : Text
  pub exploration : Bool

-- Why Select gives no result: the context is done, or a panic.
pub data SelectError : Type 0 where
  canceled panics : SelectError

abbrev pub min_int : ℕ → ℕ → ℕ
min_int a b = if ltb a b then a else b

-- selectionDecision
unfoldable pub selection_decision : CandidateEvidence → Bool → Text → Bool → SelectedCandidate
selection_decision c selected reason exploration = record {
  slug = c.slug;
  title = c.title;
  selected = selected;
  reason = reason;
  score = c.score;
  tier =
      if exploration
      then codes "exploration"
      else if leb_ℤ (pos 3) c.score
      then codes "high"
      else codes "standard";
  exploration = exploration;
}

-- The order of the eligible candidates.
unfoldable pub before : CandidateEvidence → CandidateEvidence → Bool
before a b =
    if (a.exact_identity_evidence && not b.exact_identity_evidence)
      || (not a.exact_identity_evidence && b.exact_identity_evidence)
    then a.exact_identity_evidence
    else if not (eqb_ℤ a.score b.score)
    then ltb_ℤ b.score a.score
    else str_ltb a.slug b.slug

-- The limit and the slots of a selection.
unfoldable pub limit_of : SelectionInput → ℕ
limit_of input = if leb_ℤ input.limit (pos 0) then 10 else pos_part input.limit

unfoldable pub slots_of : SelectionInput → ℕ
unfolding limit_of
slots_of input = min_int (pos_part input.exploration_slots) (limit_of input)

-- The candidates that may be selected, in order.
unfoldable pub eligible_of : List CandidateEvidence → List CandidateEvidence
unfolding before
eligible_of cs = sort_stable before (keep (λ c. c.eligible && c.qualified) cs)

abbrev pub Selected : Type 0
Selected = List (Text × SelectedCandidate)

-- The loop that selects the candidates of a slice.
unfoldable pub select_ranked : List CandidateEvidence → Selected → Selected
unfolding selection_decision
select_ranked [] selected = selected
select_ranked (c ∷ cs) selected =
    select_ranked cs (insert c.slug (selection_decision c true (codes "selected") false) selected)

-- The candidate at a place, and the others with the first one in its place: the swap of
-- appendExplorationSelections. `none` is an index out of range.
unfoldable pub swap_first :
    ℕ
    → CandidateEvidence
    → List CandidateEvidence
    → Option (CandidateEvidence × List CandidateEvidence)
swap_first zero first cs = some (first, cs)
swap_first (suc k) first [] = none
swap_first (suc zero) first (c ∷ cs) = some (c, first ∷ cs)
swap_first (suc (suc k)) first (c ∷ cs) = elim (swap_first (suc k) first cs) [
  | none ↦ none
  | some (x, rest) ↦ some (x, c ∷ rest)
]

-- appendExplorationSelections, from the index on, with the candidates that are left.
unfoldable pub explore : (ℕ → ℕ → ℕ) → ℕ → ℕ → List CandidateEvidence → Selected → Option Selected
unfolding swap_first selection_decision
explore draw index zero cs selected = some selected
explore draw index (suc n) [] selected = some selected
explore draw index (suc n) (c ∷ cs) selected =
    elim (swap_first (draw index (length (c ∷ cs))) c cs) [
      | none ↦ none
      | some (x, rest) ↦ explore draw (index + 1) n rest (
          insert x.slug (selection_decision x true (codes "selected_for_exploration") true)
            selected)
    ]

-- Why a candidate is not selected.
unfoldable pub omission : CandidateEvidence → Text
omission c =
    if not c.eligible
    then (if str_eq c.rejection [] then codes "ineligible" else c.rejection)
    else if not c.qualified
    then c.qualification_reason
    else codes "selection_omission"

-- The last loop: a decision for each candidate.
unfoldable pub decisions : Selected → List CandidateEvidence → List SelectedCandidate
unfolding selection_decision omission
decisions selected [] = []
decisions selected (c ∷ cs) =
    (elim (lookup c.slug selected) [
      | none ↦ selection_decision c false (omission c) false
      | some d ↦ d
    ])
    ∷ decisions selected cs

-- The slots for the ranked candidates, and how many are explored then.
unfoldable pub ranked_slots : ℕ → ℕ → ℕ → ℕ
ranked_slots slots remaining generic =
    let exploration = min_int slots generic in
    min_int (remaining - min_int exploration remaining) generic

unfoldable pub explored_slots : ℕ → ℕ → ℕ → ℕ
unfolding ranked_slots
explored_slots slots remaining generic =
    let ranked = ranked_slots slots remaining generic in
    let wanted = min_int slots generic in
    let exploration = if ltb (remaining - ranked) wanted then remaining - ranked else wanted in
    min_int (min_int exploration remaining) (generic - ranked)

-- What is selected.
unfoldable pub selected_of : (ℤ → ℕ → ℕ → ℕ) → SelectionInput → Option Selected
unfolding eligible_of limit_of slots_of select_ranked ranked_slots explored_slots explore
selected_of draw input =
    let eligible = eligible_of input.candidates in
    let exact = keep (λ c. c.exact_identity_evidence) eligible in
    let generic = keep (λ c. not c.exact_identity_evidence) eligible in
    let exact_count = min_int (length exact) (limit_of input) in
    let chosen = select_ranked (take exact_count exact) [] in
    let remaining = limit_of input - exact_count in
    let ranked = ranked_slots (slots_of input) remaining (length generic) in
    if remaining == 0
    then some chosen
    else explore (draw input.seed) 0 (explored_slots (slots_of input) remaining (length generic))
        (drop ranked generic) (select_ranked (take ranked generic) chosen)

-- Select, by whether one of its looks at the context finds it done.
unfoldable pub select :
    (ℤ → ℕ → ℕ → ℕ) → Bool → SelectionInput → Result SelectError (List SelectedCandidate)
unfolding selected_of decisions
select draw done input = if done then err canceled else elim (selected_of draw input) [
  | none ↦ err panics
  | some selected ↦ ok (decisions selected input.candidates)
]
