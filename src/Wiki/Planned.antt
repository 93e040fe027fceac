-- ===== src/Wiki/Planned.antt =====
-- When planSyntoIDRedirects of internal/wikiindex/wikiindex.go succeeds, and with which redirects.
use llm_wiki_bff.Core.{
  ◌≡◌, refl, ap, ◌∙◌, Bool, true, false, ◌&&◌, none, some, [], ◌∷◌, ◌++◌, map, Result, ok, err,
  ◌>>=◌, all, arith, if◌then◌else◌, Bool-cases, Option-cases, ◌⊎◌, inl, inr,
}
use llm_wiki_bff.Core.Text.{Text, str_eq_sound}
use llm_wiki_bff.Core.Dict.{lookup, has_key, AllEntries, lookup-AllEntries}
use llm_wiki_bff.Wiki.{Rows, IdMap, IndexError, duplicate_slug}
use llm_wiki_bff.Wiki.Redirects.{
  redirected_elsewhere, add_old, add_prior, check_chains, plan_synto_id_redirects,
}
use llm_wiki_bff.Wiki.Claims.{
  to_option, distinct_ids, distinct_values, swap, claims_all, bind_lem, all-true, to_option-some,
  to_option-none,
}
use llm_wiki_bff.Wiki.Added.{
  is_redirect, consistent, accepted, add_all, merged, add_all_lem, old_requests, prior_requests,
  add_old_lem, bind_ext, add_prior_lem, add_all-append, all-entries, lookup-merged,
}

abbrev IsRedirect : Rows → Text → Text → Type 0
IsRedirect concept s t = is_redirect concept (s, t) ≡ true

all-IsRedirect :
    (concept rows : Rows)
    → all (is_redirect concept) rows ≡ true
    → AllEntries (IsRedirect concept) rows
all-IsRedirect concept [] h = tt
all-IsRedirect concept (r ∷ rows) h =
    (ground (arith, h), all-IsRedirect concept rows (ground (arith, h)))

-- A target is no source.
target_free :
    (concept redirects : Rows) (t : Text)
    → AllEntries (IsRedirect concept) redirects
    → has_key t concept ≡ true
    → has_key t redirects ≡ false
unfolding has_key
target_free concept redirects t a h = elim (Option-cases (lookup t redirects)) [
  | inl e ↦ ground (arith, e)
  | inr (v, e) ↦
      let p : is_redirect concept (t, v) ≡ true =
        lookup-AllEntries (IsRedirect concept) t redirects a e in
      ground (arith, p, h)
]

check_chains_lem :
    (concept redirects rows : Rows)
    → AllEntries (IsRedirect concept) redirects
    → AllEntries (IsRedirect concept) rows
    → check_chains redirects rows ≡ ok redirects
unfolding check_chains
check_chains_lem concept redirects [] a b = refl
check_chains_lem concept redirects ((s, t) ∷ rows) a (p, b) = ground (
  arith,
  p,
  str_eq_sound s t,
  target_free concept redirects t a (ground (arith, p)),
  check_chains_lem concept redirects rows a b,
)

-- All redirects that are asked for: those of the earlier index, then those of earlier concepts and
-- of earlier dormant concepts whose slug a current entity has.
abbrev pub requests : IdMap → IdMap → Rows
requests next old =
    old_requests old.id_redirects
    ++ (prior_requests (map swap next.concept) old.concept
        ++ prior_requests (map swap next.concept) old.dormant_concept)

abbrev pub plannable : IdMap → IdMap → Bool
plannable next old =
    distinct_values next.concept
    && all (is_redirect next.concept) (requests next old)
    && consistent (requests next old)

bind_assoc :
    {A : Type 0} (r : Result IndexError Rows) (f : Rows → Result IndexError Rows)
    (g : Rows → Result IndexError A)
    → r >>= (λ x. f x >>= g) ≡ (r >>= f) >>= g
bind_assoc (ok x) f g = refl
bind_assoc (err e) f g = refl

add_all_chain :
    {A : Type 0} (concept rows more m : Rows) (f : Rows → Result IndexError A)
    → add_all concept rows m >>= (λ x. add_all concept more x >>= f)
      ≡ add_all concept (rows ++ more) m >>= f
add_all_chain concept rows more m f =
    bind_assoc (add_all concept rows m) (add_all concept more) f
    ∙ ap (λ r. r >>= f) (add_all-append concept rows more m)

-- The calls of add in the order of planSyntoIDRedirects.
adds_lem :
    {A : Type 0} (concept current olds priors dormants : Rows) (f : Rows → Result IndexError A)
    → to_option (
        add_old concept olds [] >>= (λ kept.
          add_prior concept current priors kept
          >>= (λ active. add_prior concept current dormants active >>= f)))
      ≡ to_option (
          add_all concept
            (old_requests olds
              ++ (prior_requests current priors ++ prior_requests current dormants))
            []
          >>= f)
adds_lem concept current olds priors dormants f =
    bind_ext _ _ _
      (λ kept.
        add_all concept (prior_requests current priors ++ prior_requests current dormants) kept
        >>= f)
      (ap to_option (add_old_lem concept olds []))
      (λ kept.
        bind_ext (add_prior concept current priors kept) _ _
          (λ active. add_all concept (prior_requests current dormants) active >>= f)
          (add_prior_lem concept current priors kept)
          (λ active. bind_ext _ _ f f (add_prior_lem concept current dormants active) (λ x. refl))
        ∙ ap to_option (
            add_all_chain concept (prior_requests current priors) (prior_requests current dormants)
              kept f))
    ∙ ap to_option (add_all_chain concept (old_requests olds) _ [] f)

accepted_by_none : (rows : Rows) → accepted rows [] ≡ true
unfolding lookup redirected_elsewhere
accepted_by_none [] = refl
accepted_by_none (r ∷ rows) = accepted_by_none rows

-- What follows the calls of add.
abbrev finish : IdMap → Rows → Result IndexError IdMap
finish next all_ =
    check_chains all_ all_ >>= (λ redirects. ok (record next { id_redirects = redirects }))

finish_lem :
    (next : IdMap) (rows : Rows)
    → all (is_redirect next.concept) rows ≡ true
    → finish next (merged rows []) ≡ ok (record next { id_redirects = merged rows [] })
finish_lem next rows h =
    let a = all-entries (IsRedirect next.concept) rows [] (all-IsRedirect next.concept rows h) tt in
    ap (λ r. r >>= (λ redirects. ok (record next { id_redirects = redirects })))
      (check_chains_lem next.concept (merged rows []) (merged rows []) a a)

plan_lem :
    (next old : IdMap)
    → distinct_ids next.concept ≡ true
    → to_option (plan_synto_id_redirects next old) ≡ (
        if plannable next old
        then some (record next { id_redirects = merged (requests next old) [] })
        else none)
unfolding plan_synto_id_redirects
plan_lem next old d =
    let reqs = requests next old in
    bind_lem _ _ _ (map swap next.concept, next.concept)
      (claims_all (λ id slug. none) duplicate_slug next.concept d)
    ∙ ap (λ x. if all (λ r. true) next.concept && distinct_values next.concept then x else none)
        (adds_lem next.concept (map swap next.concept) old.id_redirects old.concept
            old.dormant_concept (finish next)
          ∙ bind_lem (add_all next.concept reqs []) (finish next) _ (merged reqs [])
              (add_all_lem next.concept reqs []))
    ∙ ground (arith, all-true next.concept, accepted_by_none reqs, finish_lem next reqs)

-- Where no concept stands twice in the rebuild, planSyntoIDRedirects succeeds exactly if no slug
-- has two current concepts, every redirect that is asked for leads from a legacy identifier that is
-- no current concept to the entity of a current concept, and no two of them lead from one
-- identifier to different targets. Then each identifier is redirected as asked for, and no other
-- one. The last loop finds no chain and no cycle.
pub plan_exact :
    (next old : IdMap)
    → distinct_ids next.concept ≡ true
    → ((plannable next old ≡ true)
        × ((redirects : Rows) × (plan_synto_id_redirects next old
              ≡ ok (record next { id_redirects = redirects }))
            × ((id : Text) → lookup id redirects ≡ lookup id (requests next old))))
      ⊎ ((plannable next old ≡ false)
          × ((e : IndexError) × (plan_synto_id_redirects next old ≡ err e)))
unfolding lookup
plan_exact next old d = elim (Bool-cases (plannable next old)) [
  | inl p ↦ inl (
    p,
    (
      merged (requests next old) [],
      to_option-some (plan_synto_id_redirects next old) (ground (arith, p, plan_lem next old d)),
      λ id.
          lookup-merged (requests next old) [] id
            (ground (arith, p, accepted_by_none (requests next old))),
    ),
  )
  | inr p ↦ inr (
    p,
    to_option-none (plan_synto_id_redirects next old) (ground (arith, p, plan_lem next old d)),
  )
]
