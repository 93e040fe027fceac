-- ===== src/Wiki/Redirects.antt =====
-- planSyntoIDRedirects of internal/wikiindex/wikiindex.go: the redirects from earlier identifiers
-- to the entities of a rebuild.
use llm_wiki_bff.Core.{
  Bool, false, not, ◌||◌, Option, none, some, [], ◌∷◌, Result, ok, err, ◌>>=◌, if◌then◌else◌,
}
use llm_wiki_bff.Core.Text.{Text, str_eq, trim_space}
use llm_wiki_bff.Core.Dict.{lookup, insert, has_key}
use llm_wiki_bff.Wiki.{
  Rows, IdMap, IndexError, duplicate_slug, bad_source, active_source, bad_target, missing_target,
  conflicting, non_legacy, chained, cyclic, claim_rows, valid_legacy_concept_id,
  valid_synto_entity_id,
}

-- Whether an identifier is redirected to another target already.
unfoldable pub redirected_elsewhere : Text → Option Text → Bool
redirected_elsewhere target none = false
redirected_elsewhere target (some previous) = not (str_eq previous target)

-- The function add, with the current concepts and the redirects so far.
unfoldable pub add_redirect : Rows → Text → Text → Rows → Result IndexError Rows
unfolding redirected_elsewhere
add_redirect concept source target redirects =
    if not (valid_legacy_concept_id source) || str_eq source target
    then err bad_source
    else if has_key source concept
    then err active_source
    else if not (valid_synto_entity_id target)
    then err bad_target
    else if not (has_key target concept)
    then err missing_target
    else if redirected_elsewhere target (lookup source redirects)
    then err conflicting
    else ok (insert source target redirects)

-- The loop over the redirects of the earlier index.
unfoldable pub add_old : Rows → Rows → Rows → Result IndexError Rows
unfolding add_redirect
add_old concept [] redirects = ok redirects
add_old concept ((source, target) ∷ rows) redirects = do
  more ← add_redirect concept source (trim_space target) redirects
  add_old concept rows more

-- The entity that has a slug now, empty where none has it.
unfoldable pub target_of : Text → Rows → Text
target_of slug current_by_slug = elim (lookup slug current_by_slug) [ none ↦ [] | some id ↦ id ]

-- An earlier concept: left alone, or redirected to the entity that has its slug now.
unfoldable pub migrate : Rows → Rows → Text → Text → Rows → Result IndexError Rows
unfolding add_redirect target_of
migrate concept current_by_slug old_id slug redirects =
    let target = target_of slug current_by_slug in
    if str_eq target [] || str_eq old_id target
    then ok redirects
    else if valid_synto_entity_id old_id
    then ok redirects
    else if not (valid_legacy_concept_id old_id)
    then err non_legacy
    else add_redirect concept old_id target redirects

-- The loop over a map of earlier concepts.
unfoldable pub add_prior : Rows → Rows → Rows → Rows → Result IndexError Rows
unfolding migrate
add_prior concept current_by_slug [] redirects = ok redirects
add_prior concept current_by_slug ((old_id, slug) ∷ rows) redirects = do
  more ← migrate concept current_by_slug old_id slug redirects
  add_prior concept current_by_slug rows more

-- The last loop: an error for a chain or a cycle.
unfoldable pub check_chains : Rows → Rows → Result IndexError Rows
check_chains redirects [] = ok redirects
check_chains redirects ((source, target) ∷ rows) =
    if has_key target redirects
    then err chained
    else if str_eq source target
    then err cyclic
    else check_chains redirects rows

-- planSyntoIDRedirects, less the number of redirects that it adds.
unfoldable pub plan_synto_id_redirects : IdMap → IdMap → Result IndexError IdMap
unfolding claim_rows add_old add_prior check_chains
plan_synto_id_redirects next old = do
  (current_by_slug, rows) ←
      claim_rows (λ id slug. none) (λ id. false) duplicate_slug next.concept [] []
  kept ← add_old next.concept old.id_redirects []
  active ← add_prior next.concept current_by_slug old.concept kept
  all_ ← add_prior next.concept current_by_slug old.dormant_concept active
  redirects ← check_chains all_ all_
  ok (record next { id_redirects = redirects })
