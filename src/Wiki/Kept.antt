-- ===== src/Wiki/Kept.antt =====
-- When preserveConceptLifecycle of internal/wikiindex/wikiindex.go keeps the identities, and which.
use llm_wiki_bff.Core.{
  ◌≡◌, refl, ap, ◌∙◌, Bool, true, not, ◌&&◌, ◌||◌, none, some, is_some, [], ◌∷◌, ◌++◌, map, keep,
  any, all, any-append, arith, if◌then◌else◌,
}
use llm_wiki_bff.Core.Text.{Text, str_eq, trim_space}
use llm_wiki_bff.Core.Dict.{lookup, has_key}
use llm_wiki_bff.Publish.Receipts.{valid_source_id}
use llm_wiki_bff.Wiki.{
  valid_concept_slug, Rows, IdMap, duplicate_slug, duplicate_entity, check_active, check_dormant,
  check_entity, preserve_concept_lifecycle,
}
use llm_wiki_bff.Wiki.Claims.{
  to_option, distinct_ids, distinct_values, swap, has_key-any, claims_from_nothing, claims_all,
  bind_lem,
}

-- What a rebuilt concept has to be.
abbrev pub is_safe : Text × Text → Bool
is_safe r = valid_source_id r.0 && valid_concept_slug r.1

-- Whether a rebuild is coherent: safe rows without a slug used twice, dormant concepts that share
-- no identifier and no slug with a rebuilt one, and entities with one owner.
abbrev pub coherent : IdMap → IdMap → Bool
coherent next old =
    all is_safe next.concept
    && distinct_values next.concept
    && all
        (λ r.
          is_safe r
          && str_eq r.0 (trim_space r.0)
          && not (any (λ s. str_eq s.0 r.0) next.concept)
          && not (any (λ s. str_eq s.1 r.1) next.concept))
        old.dormant_concept
    && distinct_values old.dormant_concept
    && all
        (λ r.
          valid_source_id r.0
          && str_eq r.0 (trim_space r.0)
          && valid_source_id r.1
          && str_eq r.1 (trim_space r.1))
        old.concept_entity_id
    && distinct_values (
        keep (λ r. any (λ s. str_eq s.0 r.0) (next.concept ++ old.dormant_concept))
          old.concept_entity_id)

all_ext :
    (p q : Text × Text → Bool) (rows : Rows)
    → ((r : Text × Text) → p r ≡ q r)
    → all p rows ≡ all q rows
all_ext p q [] h = refl
all_ext p q (r ∷ rows) h = ground (arith, h r, all_ext p q rows h)

keep_ext :
    (p q : Text × Text → Bool) (rows : Rows)
    → ((r : Text × Text) → p r ≡ q r)
    → keep p rows ≡ keep q rows
keep_ext p q [] h = refl
keep_ext p q (r ∷ rows) h = ground (arith, h r, keep_ext p q rows h)

has_key-swap : (w : Text) (m : Rows) → has_key w (map swap m) ≡ any (λ s. str_eq s.1 w) m
unfolding has_key lookup
has_key-swap w [] = refl
has_key-swap w (r ∷ m) = ground (arith, has_key-swap w m)

active_lem : (r : Text × Text) → not (is_some (check_active r.0 r.1)) ≡ is_safe r
unfolding check_active
active_lem r = ground arith

entity_lem :
    (r : Text × Text)
    → not (is_some (check_entity r.0 r.1)) ≡ (
        valid_source_id r.0
        && str_eq r.0 (trim_space r.0)
        && valid_source_id r.1
        && str_eq r.1 (trim_space r.1))
unfolding check_entity
entity_lem r = ground arith

dormant_lem :
    (concept : Rows) (r : Text × Text)
    → not (is_some (check_dormant concept (map swap concept) r.0 r.1)) ≡ (
        is_safe r
        && str_eq r.0 (trim_space r.0)
        && not (any (λ s. str_eq s.0 r.0) concept)
        && not (any (λ s. str_eq s.1 r.1) concept))
unfolding check_dormant
dormant_lem concept r = ground (arith, has_key-any r.0 concept, has_key-swap r.1 concept)

owned_lem :
    (concept dormant : Rows) (r : Text × Text)
    → not (not (has_key r.0 concept || has_key r.0 dormant))
      ≡ any (λ s. str_eq s.0 r.0) (concept ++ dormant)
owned_lem concept dormant r = ground (
  arith,
  has_key-any r.0 concept,
  has_key-any r.0 dormant,
  any-append (λ s. str_eq s.0 r.0) concept dormant,
)

-- Where no identifier stands twice in a map, preserveConceptLifecycle succeeds exactly for a
-- coherent rebuild, whatever the order in which the maps are read. Then it keeps every dormant
-- concept, and of the entities those of a rebuilt or dormant concept.
pub preserve_exact :
    (next old : IdMap)
    → distinct_ids next.concept ≡ true
    → distinct_ids old.dormant_concept ≡ true
    → distinct_ids old.concept_entity_id ≡ true
    → to_option (preserve_concept_lifecycle next old) ≡ (
        if coherent next old
        then some (record next {
          dormant_concept = old.dormant_concept;
          concept_entity_id =
              keep
                (λ r. any (λ s. str_eq s.0 r.0) (next.concept ++ old.dormant_concept))
                old.concept_entity_id;
        })
        else none)
unfolding preserve_concept_lifecycle
preserve_exact next old c d e =
    let concept = next.concept in
    let dormant = old.dormant_concept in
    let entity = old.concept_entity_id in
    let skips = λ (id : Text). not (has_key id concept || has_key id dormant) in
    let owned = keep (λ r. not (skips r.0)) entity in
    let first =
      all (λ r. not (is_some (check_active r.0 r.1))) concept && distinct_values concept in
    let second =
      all (λ r. not (is_some (check_dormant concept (map swap concept) r.0 r.1))) dormant
      && distinct_values dormant in
    bind_lem _ _ _ (map swap concept, concept) (claims_all check_active duplicate_slug concept c)
    ∙ ap (λ x. if first then x else none)
        (bind_lem _ _ _ (map swap dormant, dormant)
            (claims_all (check_dormant concept (map swap concept)) duplicate_slug dormant d)
          ∙ ap (λ x. if second then x else none)
              (bind_lem _ _ _ (map swap owned, owned)
                (claims_from_nothing check_entity skips duplicate_entity entity e)))
    ∙ ground (
      arith,
      all_ext (λ r. not (is_some (check_active r.0 r.1))) is_safe concept active_lem,
      all_ext (λ r. not (is_some (check_dormant concept (map swap concept) r.0 r.1))) _ dormant
          (dormant_lem concept),
      all_ext (λ r. not (is_some (check_entity r.0 r.1))) _ entity entity_lem,
      keep_ext (λ r. not (skips r.0)) _ entity (owned_lem concept dormant),
    )
