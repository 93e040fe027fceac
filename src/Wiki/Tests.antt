-- ===== src/Wiki/Tests.antt =====
-- Concrete rebuilds of the index (internal/wikiindex/wikiindex.go).
use llm_wiki_bff.Core.{
  ◌&&◌, ◌≡◌, refl, Bool, true, false, not, Option, none, some, List, [], ◌∷◌, ◌++◌, any, keep,
  Result, ok, err, ◌⊎◌, if◌then◌else◌,
}
use llm_wiki_bff.Core.Text.{Text, codes, str_eq}
use llm_wiki_bff.Core.Dict.{lookup}
use llm_wiki_bff.Wiki.{
  IdMap, IndexError, preserve_concept_lifecycle, active_and_dormant, conflicting,
}
use llm_wiki_bff.Wiki.Redirects.{plan_synto_id_redirects}
use llm_wiki_bff.Wiki.Build.{MarkdownFile, build_id_map}
use llm_wiki_bff.Wiki.Pages.{parse, page_rows, rebuilt_from, build_exact}
use llm_wiki_bff.Wiki.Claims.{distinct_ids, to_option}
use llm_wiki_bff.Wiki.Kept.{coherent, preserve_exact}
use llm_wiki_bff.Wiki.Planned.{plannable, requests, plan_exact}

abbrev entity : Text
entity = codes "01ARZ3NDEKTSV4RRFFQ69G5FAV"

abbrev legacy : Text
legacy = codes "0123456789ab"

-- One page, that was a dormant concept's under an earlier identifier.
abbrev rebuilt : IdMap
rebuilt = record {
  concept = (entity, codes "cats") ∷ [];
  dormant_concept = [];
  concept_entity_id = [];
  id_redirects = [];
}

abbrev earlier : IdMap
earlier = record {
  concept = (legacy, codes "cats") ∷ [];
  dormant_concept = (codes "old", codes "dogs") ∷ [];
  concept_entity_id = (codes "old", codes "e1") ∷ (codes "gone", codes "e1") ∷ [];
  id_redirects = (codes "fedcba987654", codes " 01ARZ3NDEKTSV4RRFFQ69G5FAV") ∷ [];
}

keeps_owned :
    preserve_concept_lifecycle rebuilt earlier
    ≡ ok (record rebuilt {
      dormant_concept = (codes "old", codes "dogs") ∷ [];
      concept_entity_id = (codes "old", codes "e1") ∷ [];
    })
unfolding preserve_concept_lifecycle llm_wiki_bff.Publish.Receipts.valid_source_id str_eq
    llm_wiki_bff.Generation.Paths.path_clean llm_wiki_bff.Core.Text.has_prefix
    llm_wiki_bff.Core.Text.join_by llm_wiki_bff.Core.Text.split_on llm_wiki_bff.Core.Text.trim_space
    lookup llm_wiki_bff.Core.Dict.has_key llm_wiki_bff.Core.Dict.insert
keeps_owned = refl

one_slug_twice :
    preserve_concept_lifecycle rebuilt
      (record earlier { dormant_concept = (codes "old", codes "cats") ∷ [] })
    ≡ err active_and_dormant
unfolding preserve_concept_lifecycle llm_wiki_bff.Publish.Receipts.valid_source_id str_eq
    llm_wiki_bff.Generation.Paths.path_clean llm_wiki_bff.Core.Text.has_prefix
    llm_wiki_bff.Core.Text.join_by llm_wiki_bff.Core.Text.split_on llm_wiki_bff.Core.Text.trim_space
    lookup llm_wiki_bff.Core.Dict.has_key llm_wiki_bff.Core.Dict.insert
one_slug_twice = refl

redirects_both :
    plan_synto_id_redirects rebuilt earlier
    ≡ ok (record rebuilt { id_redirects = (codes "fedcba987654", entity) ∷ (legacy, entity) ∷ [] })
unfolding plan_synto_id_redirects lookup llm_wiki_bff.Wiki.valid_legacy_concept_id str_eq
    llm_wiki_bff.Core.Text.trim_space llm_wiki_bff.Core.Dict.has_key
    llm_wiki_bff.Wiki.valid_synto_entity_id llm_wiki_bff.Core.Dict.insert
redirects_both = refl

preserve_exact_example : to_option (preserve_concept_lifecycle rebuilt earlier) ≡ (
    if coherent rebuilt earlier
    then some (record rebuilt {
      dormant_concept = earlier.dormant_concept;
      concept_entity_id =
          keep
            (λ r. any (λ s. str_eq s.0 r.0) (rebuilt.concept ++ earlier.dormant_concept))
            earlier.concept_entity_id;
    })
    else none)
unfolding str_eq
preserve_exact_example = preserve_exact rebuilt earlier refl refl refl

plan_exact_example :
    ((plannable rebuilt earlier ≡ true)
      × ((redirects : List (Text × Text)) × (plan_synto_id_redirects rebuilt earlier
            ≡ ok (record rebuilt { id_redirects = redirects }))
          × ((id : Text) → lookup id redirects ≡ lookup id (requests rebuilt earlier))))
    ⊎ ((plannable rebuilt earlier ≡ false)
        × ((e : IndexError) × (plan_synto_id_redirects rebuilt earlier ≡ err e)))
plan_exact_example = plan_exact rebuilt earlier refl

abbrev no_hash : Text → Text
no_hash data_ = legacy

-- A page whose first line is its identifier.
abbrev all_of_it : Text → Option Text
all_of_it data_ = some data_

abbrev two_pages : List MarkdownFile
two_pages =
    record { slug = codes "cats"; path = codes "wiki/cats.md"; data_ = codes "c1" }
    ∷ record { slug = codes "log"; path = codes "wiki/log.md"; data_ = codes "c1" }
    ∷ record { slug = codes "birds"; path = codes "wiki/birds.md"; data_ = [] }
    ∷ []

takes_pages :
    build_id_map no_hash all_of_it two_pages earlier
    ≡ ok (record {
      concept = (codes "c1", codes "cats") ∷ (legacy, codes "birds") ∷ [];
      dormant_concept = (codes "old", codes "dogs") ∷ [];
      concept_entity_id = (codes "old", codes "e1") ∷ [];
      id_redirects = [];
    })
unfolding build_id_map str_eq llm_wiki_bff.Publish.Receipts.valid_source_id
    llm_wiki_bff.Core.Text.trim_space llm_wiki_bff.Generation.Paths.path_clean
    llm_wiki_bff.Core.Text.has_prefix llm_wiki_bff.Core.Text.join_by llm_wiki_bff.Core.Text.split_on
    llm_wiki_bff.Core.Dict.has_key llm_wiki_bff.Core.Dict.insert preserve_concept_lifecycle
takes_pages = refl

build_exact_example : to_option (build_id_map no_hash all_of_it two_pages earlier) ≡ (
    if parse no_hash all_of_it two_pages
      && distinct_ids (page_rows no_hash all_of_it two_pages)
      && coherent (rebuilt_from no_hash all_of_it two_pages) earlier
    then some (record (rebuilt_from no_hash all_of_it two_pages) {
      dormant_concept = earlier.dormant_concept;
      concept_entity_id =
          keep
            (λ r.
              any
                (λ s. str_eq s.0 r.0)
                (page_rows no_hash all_of_it two_pages ++ earlier.dormant_concept))
            earlier.concept_entity_id;
    })
    else none)
unfolding str_eq
build_exact_example = build_exact no_hash all_of_it two_pages earlier refl refl
