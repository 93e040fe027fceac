-- ===== src/Citations/Tests.antt =====
-- Concrete runs of CitationAuthority (internal/search/citation_authority.go).
use llm_wiki_bff.Core.{◌≡◌, ◌≢◌, refl, true, Option, some, none, List, [], ◌∷◌, All, length, map}
use llm_wiki_bff.Core.Int.{ℤ, pos}
use llm_wiki_bff.Core.Text.{Text, codes}
use llm_wiki_bff.Search.{Result, Citation}
use llm_wiki_bff.Citations.{Url, Target, Authority, new_authority, resolve, safe_result}
use llm_wiki_bff.Citations.Held.{authority_of}
use llm_wiki_bff.Citations.Issued.{Cites, IsOnce, resolve_sound}
use llm_wiki_bff.Citations.Neutral.{Clean}
use llm_wiki_bff.Citations.Quiet.{resolve-Clean}

abbrev plain_url : Url
plain_url = record { relative = λ s. true; path_escape = λ s. s; path_unescape = λ s. some s }

abbrev alpha : Result
alpha = record {
  slug = codes "alpha";
  title = codes "Alpha";
  kind = codes "concept";
  snippet = codes "about";
}

abbrev beta : Result
beta = record {
  slug = codes "a/b";
  title = codes "Beta";
  kind = codes "source";
  snippet = codes "other";
}

abbrev given_contexts : List (ℤ × Result)
given_contexts = (pos 1, alpha) ∷ (pos 2, beta) ∷ []

abbrev given_authority : Authority
given_authority =
    authority_of plain_url (new_authority (codes "ab") (alpha ∷ beta ∷ [])) given_contexts

abbrev given_answer : Text
given_answer = codes "See [Alpha], [Alpha], [CITATION_REF_ab_1] and [Beta] CITATION_REF_x."

-- The page is cited once, the unsafe slug is not cited, and the reserved prefix is gone.
answer_resolves :
    resolve plain_url given_authority given_answer
    ≡ some (
      codes "See [Alpha], [Alpha], [Alpha] and [Beta] CITATION-REF_x.",
      record {
        text = codes "Alpha";
        slug = codes "alpha";
        kind = codes "concept";
        path = codes "/concepts/alpha";
      }
          ∷ [],
      alpha ∷ [],
    )
unfolding resolve authority_of safe_result llm_wiki_bff.Core.Text.str_eq
    llm_wiki_bff.Core.Scan.cut_byte llm_wiki_bff.Core.Dict.lookup llm_wiki_bff.Citations.add_context
    llm_wiki_bff.Core.Text.trim_space llm_wiki_bff.Core.Text.has_prefix
    llm_wiki_bff.Core.Text.contains new_authority llm_wiki_bff.Core.Dict.insert
    llm_wiki_bff.Citations.reference llm_wiki_bff.Core.Scan.replace_all
    llm_wiki_bff.Core.Scan.replace_from llm_wiki_bff.Core.Clock.itoa llm_wiki_bff.Citations.identity
    llm_wiki_bff.Citations.citation_for llm_wiki_bff.Core.Sort.sort_stable
answer_resolves = refl

resolve_sound_example :
    (r : Text × List Citation × List Result) × (resolve plain_url given_authority given_answer
      ≡ some r)
    × All (Cites plain_url given_contexts) r.1
    × IsOnce r.1
resolve_sound_example =
    resolve_sound plain_url (codes "ab") (alpha ∷ beta ∷ []) given_contexts given_answer

resolve-Clean_example :
    (r : Text × List Citation × List Result) × (resolve plain_url given_authority given_answer
      ≡ some r)
    × Clean r.0
resolve-Clean_example = resolve-Clean plain_url given_authority given_answer
