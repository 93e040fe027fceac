-- ===== src/Quality/Tests.antt =====
-- Concrete runs of the selection (internal/queryquality/core.go).
use llm_wiki_bff.Core.{
  ℕ, zero, suc, ◌≤◌, ◌<◌, ◌≡◌, refl, Bool, true, false, not, ◌&&◌, ◌||◌, if◌then◌else◌, length, ltb,
  leb, List, [], ◌∷◌, Result, ok, err, map, tally, arith,
}
use llm_wiki_bff.Core.Int.{ℤ, pos, leb_ℤ, ltb_ℤ, eqb_ℤ}
use llm_wiki_bff.Core.Text.{Text, codes, str_eq}
use llm_wiki_bff.Quality.{CandidateEvidence, qualify_candidate}
use llm_wiki_bff.Quality.Qualify.{has_keywords, qualify_exact}
use llm_wiki_bff.Quality.Select.{
  SelectionInput, SelectedCandidate, canceled, min_int, limit_of, select,
}
use llm_wiki_bff.Quality.Select.Chosen.{tally_decided}
use llm_wiki_bff.Quality.Select.Exact.{may_select, select_exact}

abbrev first_draw : ℤ → ℕ → ℕ → ℕ
first_draw seed i b = 0

first_draw_below : (seed : ℤ) (i b : ℕ) → 0 < b → first_draw seed i b < b
first_draw_below seed i b h = h

abbrev page : Text → Bool → Bool → ℤ → CandidateEvidence
page slug qualified exact score = record {
  slug = slug;
  title = slug;
  eligible = true;
  rejection = [];
  semantic_resolution = [];
  exact_identity_evidence = exact;
  positive_evidence_count = score;
  qualified = qualified;
  qualification_reason = codes "evidence_below_threshold";
  keyword_evidence = [];
  score = score;
}

abbrev four : List CandidateEvidence
four =
    page (codes "a") true false (pos 5)
    ∷ page (codes "b") false false (pos 9)
    ∷ page (codes "c") true true (pos 0)
    ∷ page (codes "d") true false (pos 7)
    ∷ []

abbrev two_of_four : SelectionInput
two_of_four = record { candidates = four; limit = pos 2; exploration_slots = pos 0; seed = pos 1 }

four_distinct : (k : Text) → tally (λ c. str_eq k c.slug) four ≤ 1
unfolding str_eq
four_distinct [] = ground arith
four_distinct (x ∷ y ∷ k) = ground arith
four_distinct (x ∷ []) = ground arith

select_exact_example :
    (ds : List SelectedCandidate) × (select first_draw false two_of_four
      ≡ (if false then err canceled else ok ds))
    × (map (λ d. d.slug) ds ≡ map (λ c. c.slug) four)
    × (tally_decided (λ c d. d.selected) four ds
        ≡ min_int (limit_of two_of_four) (tally may_select four))
    × (tally_decided (λ c d. d.selected && not (may_select c)) four ds ≡ 0)
    × (tally_decided (λ c d. d.selected && c.exact_identity_evidence) four ds
        ≡ min_int
            (limit_of two_of_four)
            (tally (λ c. c.exact_identity_evidence && may_select c) four))
select_exact_example = select_exact first_draw false two_of_four four_distinct first_draw_below

abbrev same : Text → Text
same s = s

abbrev letter : Text → Bool
letter (a ∷ []) = leb 97 a && leb a 122
letter _ = false

-- A keyword in the title of one page only, and a query that has it as a word.
abbrev with_keyword : CandidateEvidence
with_keyword = record (page (codes "cats") false false (pos 1)) {
  keyword_evidence =
      record {
        keyword = codes "cat";
        surface_forms = codes "cat" ∷ [];
        support_count = pos 1;
        document_frequency = pos 1;
        matched_fields = codes "title" ∷ [];
      }
      ∷ [];
}

in_the_query :
    qualify_candidate same letter with_keyword (pos 2) (codes "a cat") (pos 1) false
    ≡ (true, codes "rare_discriminative_lexical")
unfolding qualify_candidate str_eq llm_wiki_bff.Core.Runes.runes
in_the_query = refl

within_a_word :
    qualify_candidate same letter with_keyword (pos 2) (codes "cats") (pos 1) false
    ≡ (false, codes "evidence_below_threshold")
unfolding qualify_candidate str_eq llm_wiki_bff.Core.Runes.runes
within_a_word = refl

qualify_exact_example :
    (qualify_candidate same letter with_keyword (pos 2) (codes "a cat") (pos 1) false).0
    ≡ with_keyword.eligible
      && (with_keyword.exact_identity_evidence
          || (not (
                str_eq with_keyword.semantic_resolution (codes "unresolved")
                && eqb_ℤ with_keyword.positive_evidence_count (pos 0))
              && (if ltb 0 (length with_keyword.keyword_evidence)
                  then has_keywords same letter
                      (pos 1)
                      (codes "a cat")
                      with_keyword.keyword_evidence
                  else (false && ltb_ℤ (pos 0) with_keyword.positive_evidence_count)
                    || eqb_ℤ (pos 2) (pos 0)
                    || leb_ℤ (pos 2) with_keyword.positive_evidence_count)))
qualify_exact_example = qualify_exact same letter with_keyword (pos 2) (codes "a cat") (pos 1) false
