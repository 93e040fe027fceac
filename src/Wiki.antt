-- ===== src/Wiki.antt =====
-- internal/wikiindex: the identifiers of identity.go, and which identities a rebuild of the index
-- keeps (preserveConceptLifecycle of wikiindex.go). A map is a list of its rows in the order in
-- which it is read.
pub mod Added
pub mod Build
pub mod Pages
pub mod Claims
pub mod Redirects
pub mod Kept
pub mod Planned
mod Tests
use llm_wiki_bff.Core.{
  ℕ, ◌+◌, ◌≡◌, Bool, true, false, not, ◌&&◌, ◌||◌, Option, none, some, List, [], ◌∷◌, ◌++◌, Result,
  ok, err, ◌>>=◌, length, ltb, leb, any, all, ◌==◌, if◌then◌else◌,
}
use llm_wiki_bff.Core.Text.{Text, codes, str_eq, trim_space}
use llm_wiki_bff.Core.Dict.{lookup, insert, has_key}
use llm_wiki_bff.Publish.Receipts.{valid_source_id}

-- The bytes of ValidSyntoEntityID.
unfoldable pub entity_byte : ℕ → Bool
entity_byte c =
    (leb 48 c && leb c 57)
    || (leb 65 c && leb c 72)
    || (leb 74 c && leb c 75)
    || (leb 77 c && leb c 78)
    || (leb 80 c && leb c 84)
    || (leb 86 c && leb c 90)

-- ValidSyntoEntityID
unfoldable pub valid_synto_entity_id : Text → Bool
unfolding entity_byte
valid_synto_entity_id [] = false
valid_synto_entity_id (c ∷ cs) =
    if not (length (c ∷ cs) == 26) || ltb c 48 || ltb 55 c then false else all entity_byte (c ∷ cs)

-- ValidLegacyConceptID
unfoldable pub valid_legacy_concept_id : Text → Bool
valid_legacy_concept_id id =
    if not (length id == 12)
    then false
    else all (λ c. (leb 48 c && leb c 57) || (leb 97 c && leb c 102)) id

-- validConceptSlug
unfoldable pub valid_concept_slug : Text → Bool
valid_concept_slug slug =
    not (str_eq slug [])
    && str_eq slug (trim_space slug)
    && not (any (λ c. c == 47 || c == 92) slug)
    && not (str_eq slug (codes "."))
    && not (str_eq slug (codes ".."))

abbrev pub Rows : Type 0
Rows = List (Text × Text)

-- IDMap, as far as the identities of concepts are concerned.
pub record IdMap : Type 0 where
  pub concept : Rows
  pub dormant_concept : Rows
  pub concept_entity_id : Rows
  pub id_redirects : Rows

-- Why a rebuild stops: the errors of addIDMapEntries, preserveConceptLifecycle and
-- planSyntoIDRedirects.
pub data IndexError : Type 0 where
  unparsable duplicate_id unsafe_mapping duplicate_slug active_and_dormant duplicate_entity :
      IndexError
  bad_source active_source bad_target missing_target conflicting non_legacy chained cyclic :
      IndexError

-- Whether another identifier holds a slug or an entity already.
unfoldable pub taken_by_other : Text → Option Text → Bool
taken_by_other id none = false
taken_by_other id (some prior) = not (str_eq prior id)

-- A loop over the rows of a map that gives each value one owner: the owners of the values and the
-- rows that are kept. A row has to pass a check; some rows are skipped after it.
unfoldable pub claim_rows :
    (Text → Text → Option IndexError)
    → (Text → Bool)
    → IndexError
    → Rows
    → Rows
    → Rows
    → Result IndexError (Rows × Rows)
unfolding taken_by_other
claim_rows check skips collision [] owners kept = ok (owners, kept)
claim_rows check skips collision ((id, value) ∷ rows) owners kept = elim (check id value) [
  | some e ↦ err e
  | none ↦
      if not (skips id) && taken_by_other id (lookup value owners)
      then err collision
      else claim_rows check skips collision rows
          (if skips id then owners else insert value id owners)
          (if skips id then kept else insert id value kept)
]

-- The check on a rebuilt concept.
unfoldable pub check_active : Text → Text → Option IndexError
unfolding valid_concept_slug
check_active id slug =
    if not (valid_source_id id) || not (valid_concept_slug slug) then some unsafe_mapping else none

-- The checks on a dormant concept, with the rebuilt concepts and the owners of their slugs.
unfoldable pub check_dormant : Rows → Rows → Text → Text → Option IndexError
unfolding valid_concept_slug
check_dormant concept active_by_slug id slug =
    if not (valid_source_id id) || not (valid_concept_slug slug) || not (str_eq id (trim_space id))
    then some unsafe_mapping
    else if has_key id concept
    then some active_and_dormant
    else if has_key slug active_by_slug
    then some active_and_dormant
    else none

-- The check on the entity of a concept.
unfoldable pub check_entity : Text → Text → Option IndexError
check_entity id entity_id =
    if not (valid_source_id id)
      || not (str_eq id (trim_space id))
      || not (valid_source_id entity_id)
      || not (str_eq entity_id (trim_space entity_id))
    then some unsafe_mapping
    else none

-- preserveConceptLifecycle
unfoldable pub preserve_concept_lifecycle : IdMap → IdMap → Result IndexError IdMap
unfolding claim_rows check_active check_dormant check_entity
preserve_concept_lifecycle next old = do
  (active_by_slug, active) ← claim_rows check_active (λ id. false) duplicate_slug next.concept [] []
  (dormant_by_slug, dormant) ←
      claim_rows (check_dormant next.concept active_by_slug) (λ id. false) duplicate_slug
        old.dormant_concept [] []
  (entity_owners, entities) ←
      claim_rows check_entity (λ id. not (has_key id next.concept || has_key id dormant))
        duplicate_entity old.concept_entity_id [] []
  ok (record next { dormant_concept = dormant; concept_entity_id = entities })
