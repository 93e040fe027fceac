-- ===== src/Quality/Qualify.antt =====
-- Which candidates qualifyCandidate of internal/queryquality/core.go takes.
use llm_wiki_bff.Core.{
  ℕ, ◌+◌, ◌≡◌, Bool, not, ◌&&◌, ◌||◌, List, [], ◌∷◌, length, tally, any, ltb, leb, arith,
  if◌then◌else◌, Bool-cases, inl, inr,
}
use llm_wiki_bff.Core.Int.{ℤ, pos, leb_ℤ, ltb_ℤ, eqb_ℤ}
use llm_wiki_bff.Core.Text.{Text, codes, str_eq}
use llm_wiki_bff.Quality.{
  KeywordEvidence, CandidateEvidence, is_local, consensus, is_rare, qualify_keywords,
  qualify_candidate,
}

module _ (normalize_identity : Text → Text) (is_word : Text → Bool) where
  abbrev pub is_shared : KeywordEvidence → Bool
  is_shared e = not (ltb_ℤ e.support_count (pos 2)) && is_local normalize_identity is_word e

  -- The two ways in which the loop over the keywords takes a candidate.
  consensus_lem :
      (rare : ℤ) (es : List KeywordEvidence) (n : ℕ)
      → (consensus normalize_identity is_word rare es n).0
          || leb 2 (consensus normalize_identity is_word rare es n).1
        ≡ any (λ e. is_shared e && leb_ℤ e.document_frequency rare) es
          || leb 2 (n + tally is_shared es)
  unfolding consensus
  consensus_lem rare [] n = ground arith
  consensus_lem rare (e ∷ es) n = elim (Bool-cases (is_shared e)) [
    | inl s ↦ elim (Bool-cases (leb_ℤ e.document_frequency rare)) [
      | inl f ↦ ground (arith, s, f)
      | inr f ↦ ground (arith, s, f, consensus_lem rare es (n + 1))
    ]
    | inr s ↦ ground (arith, s, consensus_lem rare es n)
  ]

  -- What the keywords of a candidate must show.
  abbrev pub has_keywords : ℤ → Text → List KeywordEvidence → Bool
  has_keywords rare raw_query es =
      any (λ e. is_shared e && leb_ℤ e.document_frequency rare) es
      || leb 2 (tally is_shared es)
      || any (is_rare normalize_identity is_word rare (normalize_identity raw_query)) es

  qualify_keywords_lem :
      (rare : ℤ) (raw_query : Text) (es : List KeywordEvidence)
      → (qualify_keywords normalize_identity is_word rare raw_query es).0
        ≡ has_keywords rare raw_query es
  unfolding qualify_keywords
  qualify_keywords_lem rare raw_query es = ground (arith, consensus_lem rare es 0)

  -- A candidate qualifies exactly where it is eligible and either has an exact identity, or is not
  -- left unresolved without evidence and passes one test. With keywords the test is that a shared
  -- local concept is rare, that two are shared and local, or that a rare one occurs in the query;
  -- without keywords it is that there is evidence after a fallback, that the threshold is 0, or
  -- that the evidence reaches it.
  pub qualify_exact :
      (c : CandidateEvidence) (threshold : ℤ) (raw_query : Text) (rare : ℤ) (fallback : Bool)
      → (qualify_candidate normalize_identity is_word c threshold raw_query rare fallback).0
        ≡ c.eligible
          && (c.exact_identity_evidence
              || (not (
                    str_eq c.semantic_resolution (codes "unresolved")
                    && eqb_ℤ c.positive_evidence_count (pos 0))
                  && (if ltb 0 (length c.keyword_evidence)
                      then has_keywords rare raw_query c.keyword_evidence
                      else (fallback && ltb_ℤ (pos 0) c.positive_evidence_count)
                        || eqb_ℤ threshold (pos 0)
                        || leb_ℤ threshold c.positive_evidence_count)))
  unfolding qualify_candidate
  qualify_exact c threshold raw_query rare fallback =
      ground (arith, qualify_keywords_lem rare raw_query c.keyword_evidence)
