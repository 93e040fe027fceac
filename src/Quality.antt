-- ===== src/Quality.antt =====
-- internal/queryquality/core.go: the options of a retrieval, and which candidates qualify. NFKC
-- with the letters, digits and punctuation of Unicode are parameters.
pub mod Qualify
pub mod Select
mod Tests
use llm_wiki_bff.Core.{
  ℕ, zero, suc, ◌+◌, ◌-◌, ◌*◌, Bool, true, false, not, ◌&&◌, ◌||◌, Option, none, some, List, [],
  ◌∷◌, ◌++◌, length, ltb, leb, any, ◌==◌, if◌then◌else◌,
}
use llm_wiki_bff.Core.Int.{ℤ, pos, leb_ℤ, ltb_ℤ, eqb_ℤ}
use llm_wiki_bff.Core.Text.{Text, codes, str_eq}
use llm_wiki_bff.Core.Runes.{runes}

-- Options, less the seed.
pub record Options : Type 0 where
  pub selection_limit : ℤ
  pub exploration_slots : ℤ
  pub evidence_threshold : ℤ
  pub evidence_threshold_set : Bool
  pub keywords_per_attempt : ℤ
  pub expansion_attempts : ℤ
  pub rare_document_frequency : ℤ

-- A value, or its default where it is 0.
unfoldable pub or_default : ℤ → ℤ → ℤ
or_default value default = if eqb_ℤ value (pos 0) then default else value

-- A value outside a range.
unfoldable pub outside : ℤ → ℤ → ℤ → Bool
outside low high value = ltb_ℤ value low || ltb_ℤ high value

-- The defaults of NormalizeOptions.
unfoldable pub defaulted : Options → Options
unfolding or_default
defaulted o = record o {
  selection_limit = or_default o.selection_limit (pos 10);
  evidence_threshold = if not o.evidence_threshold_set then pos 2 else o.evidence_threshold;
  keywords_per_attempt = or_default o.keywords_per_attempt (pos 24);
  expansion_attempts = or_default o.expansion_attempts (pos 3);
  rare_document_frequency = or_default o.rare_document_frequency (pos 1);
}

-- The tests of NormalizeOptions, after the defaults.
unfoldable pub options_valid : Options → Bool
unfolding outside
options_valid o =
    if ltb_ℤ o.evidence_threshold (pos 0)
    then false
    else if outside (pos 1) (pos 1000) o.selection_limit
    then false
    else if outside (pos 0) o.selection_limit o.exploration_slots
    then false
    else if outside (pos 1) (pos 100) o.keywords_per_attempt
    then false
    else if outside (pos 1) (pos 10) o.expansion_attempts
    then false
    else not (outside (pos 1) (pos 1000) o.rare_document_frequency)

-- NormalizeOptions
unfoldable pub normalize_options : Options → Option Options
unfolding defaulted options_valid
normalize_options o = if options_valid (defaulted o) then some (defaulted o) else none

-- KeywordEvidence, as far as qualifyCandidate reads it.
pub record KeywordEvidence : Type 0 where
  pub keyword : Text
  pub surface_forms : List Text
  pub support_count : ℤ
  pub document_frequency : ℤ
  pub matched_fields : List Text

-- CandidateEvidence, as far as qualifyCandidate and Select read it.
pub record CandidateEvidence : Type 0 where
  pub slug : Text
  pub title : Text
  pub eligible : Bool
  pub rejection : Text
  pub semantic_resolution : Text
  pub exact_identity_evidence : Bool
  pub positive_evidence_count : ℤ
  pub qualified : Bool
  pub qualification_reason : Text
  pub keyword_evidence : List KeywordEvidence
  pub score : ℤ

-- The first and the last character that containsCJK takes for one, in two ranges.
unfoldable pub is_cjk : Text → Bool
is_cjk (a ∷ b ∷ c ∷ []) =
    let r = (a - 0xE0) * 4096 + (b - 0x80) * 64 + (c - 0x80) in
    leb 0xE0 a && ((leb 0x3400 r && leb r 0x9FFF) || (leb 0xF900 r && leb r 0xFAFF))
is_cjk _ = false

-- The runes after a phrase with which a text starts.
unfoldable pub after_phrase : List Text → List Text → Option (List Text)
after_phrase [] rest = some rest
after_phrase (p ∷ ps) [] = none
after_phrase (p ∷ ps) (r ∷ rs) = if str_eq p r then after_phrase ps rs else none

-- A phrase somewhere in a text.
unfoldable pub occurs : List Text → List Text → Bool
unfolding after_phrase
occurs phrase [] = false
occurs phrase (r ∷ rs) =
    (elim (after_phrase phrase (r ∷ rs)) [ none ↦ false | some rest ↦ true ]) || occurs phrase rs

module _ (normalize_identity : Text → Text) (is_word : Text → Bool) where
  -- Whether a text goes on with no letter and no digit.
  unfoldable pub ends_word : List Text → Bool
  ends_word [] = true
  ends_word (r ∷ rs) = not (is_word r)

  -- A phrase between words, by whether the rune before is none of a word.
  unfoldable pub occurs_as_word : Bool → List Text → List Text → Bool
  unfolding after_phrase ends_word
  occurs_as_word before phrase [] = false
  occurs_as_word before phrase (r ∷ rs) =
      (before
        && (elim (after_phrase phrase (r ∷ rs)) [ none ↦ false | some rest ↦ ends_word rest ]))
      || occurs_as_word (not (is_word r)) phrase rs

  -- containsNormalizedPhrase
  unfoldable pub contains_phrase : Text → Text → Bool
  unfolding occurs occurs_as_word is_cjk
  contains_phrase value phrase =
      let v = runes (normalize_identity value) in
      let p = runes (normalize_identity phrase) in
      if length v == 0 || length p == 0 || ltb (length v) (length p)
      then false
      else if any is_cjk p
      then occurs p v
      else occurs_as_word true p v

  -- keywordEvidenceLocal
  unfoldable pub is_local : KeywordEvidence → Bool
  is_local e =
      any (str_eq (codes "title")) e.matched_fields
      || any (str_eq (codes "frontmatter")) e.matched_fields

  -- The first loop over the keywords: whether it returns, and the local concepts with consensus.
  unfoldable pub consensus : ℤ → List KeywordEvidence → ℕ → Bool × ℕ
  unfolding is_local
  consensus rare [] n = (false, n)
  consensus rare (e ∷ es) n =
      let shared = not (ltb_ℤ e.support_count (pos 2)) && is_local e in
      let rest = consensus rare es (if shared then n + 1 else n) in
      if shared && leb_ℤ e.document_frequency rare then (true, n) else rest

  -- The test of the second loop.
  unfoldable pub is_rare : ℤ → Text → KeywordEvidence → Bool
  unfolding contains_phrase is_local
  is_rare rare raw e =
      let grounded =
        any (λ f. contains_phrase raw f) e.surface_forms || contains_phrase raw e.keyword in
      not (not (eqb_ℤ e.support_count (pos 1)) || ltb_ℤ rare e.document_frequency || not grounded)
      && is_local e

  -- The part of qualifyCandidate with keywords.
  unfoldable pub qualify_keywords : ℤ → Text → List KeywordEvidence → Bool × Text
  unfolding consensus is_rare
  qualify_keywords rare raw_query es =
      let (found, n) = consensus rare es 0 in
      if found
      then (true, codes "keyword_consensus")
      else if leb 2 n
      then (true, codes "local_keyword_consensus")
      else if any (is_rare rare (normalize_identity raw_query)) es
      then (true, codes "rare_discriminative_lexical")
      else (false, codes "evidence_below_threshold")

  -- qualifyCandidate, without the path.
  unfoldable pub qualify_candidate : CandidateEvidence → ℤ → Text → ℤ → Bool → Bool × Text
  unfolding qualify_keywords
  qualify_candidate c threshold raw_query rare fallback =
      if not c.eligible
      then (false, codes "hard_ineligible")
      else if c.exact_identity_evidence
      then (true, codes "exact_identity_evidence")
      else if str_eq c.semantic_resolution (codes "unresolved")
          && eqb_ℤ c.positive_evidence_count (pos 0)
      then (false, codes "unresolved_semantic_evidence")
      else if ltb 0 (length c.keyword_evidence)
      then qualify_keywords rare raw_query c.keyword_evidence
      else if fallback && ltb_ℤ (pos 0) c.positive_evidence_count
      then (true, codes "fallback_single_attempt")
      else if eqb_ℤ threshold (pos 0)
      then (true, codes "legacy_threshold_zero")
      else if leb_ℤ threshold c.positive_evidence_count
      then (true, codes "evidence_threshold_met")
      else (false, codes "evidence_below_threshold")
