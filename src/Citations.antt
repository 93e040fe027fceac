-- ===== src/Citations.antt =====
-- internal/search/citation_authority.go: the references that one synthesis is given, and what its
-- answer may cite. The namespace comes from crypto/rand, and net/url is a parameter.
pub mod Held
pub mod Issued
pub mod Loop
pub mod Neutral
pub mod Quiet
mod Tests
use llm_wiki_bff.Core.{
  ℕ, zero, suc, ◌+◌, Bool, true, false, not, ◌&&◌, ◌||◌, Option, none, some, List, [], ◌∷◌, ◌++◌,
  length, any, ltb, map, ◌==◌, is_some, if◌then◌else◌,
}
use llm_wiki_bff.Core.Clock.{itoa}
use llm_wiki_bff.Core.Int.{ℤ, ltb_ℤ}
use llm_wiki_bff.Core.Text.{Text, codes, str_eq, contains, has_prefix, trim_space, space_width}
use llm_wiki_bff.Core.Dict.{lookup, insert, delete}
use llm_wiki_bff.Core.Scan.{cut_byte, replace_all}
use llm_wiki_bff.Core.Sort.{sort_stable}
use llm_wiki_bff.Search.{Result, Citation}

-- net/url on a slug.
pub record Url : Type 0 where
  -- url.Parse succeeds with a URL that is not absolute and has no host.
  pub relative : Text → Bool
  pub path_escape : Text → Text
  pub path_unescape : Text → Option Text

-- citationTarget
pub record Target : Type 0 where
  pub result : Result
  pub rank : ℤ

-- CitationAuthority
pub record Authority : Type 0 where
  pub namespace : Text
  pub tokens : List (Text × Target)
  pub titles : List (Text × Target)
  pub ambiguous : List Text
  pub issued : List Target
  pub ranked : List Result

abbrev pub reference_prefix : Text
reference_prefix = codes "CITATION_REF_"

-- NewCitationAuthority, with the namespace that was drawn.
unfoldable pub new_authority : Text → List Result → Authority
new_authority namespace ranked = record {
  namespace = namespace;
  tokens = [];
  titles = [];
  ambiguous = [];
  issued = [];
  ranked = ranked;
}

-- NeutralizeCitationReferences
unfoldable pub neutralize : Text → Text
neutralize text = replace_all text reference_prefix (codes "CITATION-REF_")

-- writeNeutralized, as the text that it writes.
unfoldable pub neutralized : Text → Text
unfolding neutralize
neutralized text = if contains text reference_prefix then neutralize text else text

-- A rune of the slug that is refused: below 0x20, 0x7f, or a space.
unfoldable pub has_bad_rune : Text → Bool
has_bad_rune [] = false
has_bad_rune (a ∷ s) = ltb a 0x20 || a == 0x7F || not (space_width (a ∷ s) == 0) || has_bad_rune s

-- safeCitationResult
unfoldable pub safe_result : Url → Result → Bool
unfolding has_bad_rune
safe_result url r =
    let escaped = url.path_escape r.slug in
    if not (str_eq r.kind (codes "source")) && not (str_eq r.kind (codes "concept"))
    then false
    else if str_eq r.slug []
        || not (str_eq (trim_space r.slug) r.slug)
        || str_eq r.slug (codes ".")
        || str_eq r.slug (codes "..")
    then false
    else if any (λ c. c == 47 || c == 92 || c == 37 || c == 63 || c == 35) r.slug
        || has_prefix r.slug (codes "//")
    then false
    else if has_bad_rune r.slug
    then false
    else if not (url.relative r.slug)
    then false
    else not (str_eq escaped [])
      && not (str_eq escaped (codes "."))
      && not (str_eq escaped (codes ".."))
      && (elim (url.path_unescape escaped) [ none ↦ false | some u ↦ str_eq u r.slug ])
      && not (contains escaped (codes "/"))

-- reference
unfoldable pub reference : Authority → ℤ → Text
reference a rank =
    codes "[" ++ (reference_prefix ++ (a.namespace ++ (codes "_" ++ (itoa rank ++ codes "]"))))

-- What AddContext does to the titles.
unfoldable pub add_title : Authority → Text → Target → Authority
add_title a title target =
    if any (str_eq title) a.ambiguous
    then a
    else if is_some (lookup title a.titles)
    then record a { titles = delete title a.titles; ambiguous = title ∷ a.ambiguous }
    else record a { titles = insert title target a.titles }

-- The authority after AddContext.
unfoldable pub add_context : Url → Authority → ℤ → Result → Authority
unfolding add_title
add_context url a rank result =
    let target : Target = record { result = result; rank = rank } in
    if safe_result url result
    then add_title
        (record a {
          tokens = insert (reference a rank) target a.tokens;
          issued = a.issued ++ target ∷ [];
        })
        (neutralize result.title) target
    else a

-- The text that AddContext returns.
unfoldable pub context_text : Url → Authority → ℤ → Result → Text → Text
context_text url a rank result body =
    let slug = neutralize result.slug in
    codes "["
    ++ (neutralize result.title
        ++ (codes "]"
            ++ ((if safe_result url result then codes " " ++ reference a rank else [])
                ++ ((if str_eq slug [] then [] else codes " " ++ slug)
                    ++ (codes "\n\n" ++ neutralize body)))))

-- The identity under which a result is cited once.
unfoldable pub identity : Result → Text
identity r = r.kind ++ 0 ∷ r.slug

-- citationForResult
unfoldable pub citation_for : Url → Result → Citation
citation_for url r = record {
  text = neutralize r.title;
  slug = r.slug;
  kind = r.kind;
  path =
      codes "/"
      ++ ((if str_eq r.kind (codes "source") then codes "sources" else codes "concepts")
          ++ (codes "/" ++ url.path_escape r.slug));
}

-- The variables of Resolve: the text that is written, the citations, and the identities cited.
pub record Answer : Type 0 where
  pub text : Text
  pub citations : List Citation
  pub cited : List Text

abbrev pub no_answer : Answer
no_answer = record { text = []; citations = []; cited = [] }

unfoldable pub write_text : Text → Answer → Answer
unfolding neutralized
write_text t st = record st { text = st.text ++ neutralized t }

-- appendCitation
unfoldable pub append_citation : Url → Target → Answer → Answer
append_citation url target st =
    let id = identity target.result in
    let text = st.text ++ 91 ∷ (neutralize target.result.title ++ 93 ∷ []) in
    if any (str_eq id) st.cited then record st { text = text } else record {
      text = text;
      citations = st.citations ++ citation_for url target.result ∷ [];
      cited = id ∷ st.cited;
    }

module _ (url : Url) (a : Authority) where
  -- A bracketed part of the answer: an exact reference, an exact title, or plain text.
  unfoldable pub write_bracketed : Text → Answer → Answer
  unfolding write_text append_citation
  write_bracketed inside st = elim (lookup (91 ∷ (inside ++ 93 ∷ [])) a.tokens) [
    | some target ↦ append_citation url target st
    | none ↦ elim (lookup inside a.titles) [
      | some target ↦ append_citation url target st
      | none ↦ write_text (91 ∷ (inside ++ 93 ∷ [])) st
    ]
  ]

  -- The loop of Resolve over the rest of the answer; `none` where the fuel runs out.
  unfoldable pub resolve_loop : ℕ → Text → Answer → Option Answer
  unfolding write_bracketed
  resolve_loop zero s st = none
  resolve_loop (suc fuel) [] st = some st
  resolve_loop (suc fuel) (c ∷ s) st = elim (cut_byte 91 (c ∷ s)) [
    | none ↦ some (write_text (c ∷ s) st)
    | some (before, rest) ↦ elim (cut_byte 93 rest) [
      | none ↦ some (write_text (91 ∷ rest) (write_text before st))
      | some (inside, after) ↦
          resolve_loop fuel after (write_bracketed inside (write_text before st))
    ]
  ]

  -- The targets with a cited identity, each identity once.
  unfoldable pub authorized : List Text → List Text → List Target → List Target
  authorized cited seen [] = []
  authorized cited seen (t ∷ ts) =
      let id = identity t.result in
      let skip = not (any (str_eq id) cited) || any (str_eq id) seen in
      let rest = authorized cited (if skip then seen else id ∷ seen) ts in
      if skip then rest else t ∷ rest

  -- authorizedResults
  unfoldable pub authorized_results : Option (List Text) → List Result
  unfolding authorized
  authorized_results none = a.ranked
  authorized_results (some cited) =
      if length a.tokens == 0
      then []
      else map (λ t. t.result)
          (sort_stable (λ t u. ltb_ℤ t.rank u.rank) (authorized cited [] a.issued))

  -- What Resolve returns for the variables at the end of its loop.
  unfoldable pub resolved : Answer → Text × List Citation × List Result
  unfolding authorized_results
  resolved st =
      if length st.citations == 0
      then (st.text, [], authorized_results none)
      else (st.text, st.citations, authorized_results (some st.cited))

  -- Resolve. The fuel is one more than the length of the answer.
  unfoldable pub resolve : Text → Option (Text × List Citation × List Result)
  unfolding resolve_loop resolved
  resolve answer =
      if str_eq answer []
      then some (answer, [], authorized_results none)
      else elim (resolve_loop (suc (length answer)) answer no_answer) [
        | none ↦ none
        | some st ↦ some (resolved st)
      ]

  -- The targets of distinct identities, in order.
  unfoldable pub distinct_targets : List Text → List Target → List Target
  distinct_targets seen [] = []
  distinct_targets seen (t ∷ ts) =
      let id = identity t.result in
      let skip = any (str_eq id) seen in
      let rest = distinct_targets (if skip then seen else id ∷ seen) ts in
      if skip then rest else t ∷ rest

  -- IssuedCitations
  unfoldable pub issued_citations : List Citation
  unfolding distinct_targets
  issued_citations =
      map (λ t. citation_for url t.result)
        (distinct_targets [] (sort_stable (λ t u. ltb_ℤ t.rank u.rank) a.issued))
