-- ===== src/Wiki/Added.antt =====
-- The redirects that the calls of add make, one after the other, in
-- internal/wikiindex/wikiindex.go.
use llm_wiki_bff.Core.{
  ◌≡◌, refl, ap, sym, ◌∙◌, Bool, true, false, not, ◌&&◌, ◌||◌, none, some, is_some, [], ◌∷◌, ◌++◌,
  map, keep, Result, ok, err, ◌>>=◌, all, arith, if◌then◌else◌, Bool-cases, Option-cases,
  Result-cases, inl, inr,
}
use mathlib.Core.Path.{fun_ext}
use llm_wiki_bff.Core.Text.{Text, str_eq, str_eq_sound, str_eq_comm, trim_space}
use llm_wiki_bff.Core.Dict.{lookup, insert, has_key, lookup-insert, AllEntries, insert-AllEntries}
use llm_wiki_bff.Wiki.{Rows, IndexError, valid_legacy_concept_id, valid_synto_entity_id}
use llm_wiki_bff.Wiki.Redirects.{
  redirected_elsewhere, add_redirect, add_old, target_of, migrate, add_prior,
}
use llm_wiki_bff.Wiki.Claims.{to_option, bind_lem}

-- A redirect from an earlier identifier that is no current concept to the entity of a current
-- concept.
abbrev pub is_redirect : Rows → Text × Text → Bool
is_redirect concept r =
    valid_legacy_concept_id r.0
    && not (has_key r.0 concept)
    && valid_synto_entity_id r.1
    && has_key r.1 concept

-- No two redirects of one source disagree.
abbrev agrees : Text → Text → Rows → Bool
agrees s t rows = all (λ r. not (str_eq s r.0) || str_eq t r.1) rows

abbrev pub consistent : Rows → Bool
consistent [] = true
consistent (r ∷ rows) = agrees r.0 r.1 rows && consistent rows

abbrev pub accepted : Rows → Rows → Bool
accepted rows redirects = all (λ r. not (redirected_elsewhere r.1 (lookup r.0 redirects))) rows

-- All redirects, one after the other.
abbrev pub add_all : Rows → Rows → Rows → Result IndexError Rows
add_all concept [] redirects = ok redirects
add_all concept (r ∷ rows) redirects =
    add_redirect concept r.0 r.1 redirects >>= add_all concept rows

abbrev pub merged : Rows → Rows → Rows
merged [] redirects = redirects
merged (r ∷ rows) redirects = merged rows (insert r.0 r.1 redirects)

add_redirect_lem :
    (concept : Rows) (s t : Text) (redirects : Rows)
    → to_option (add_redirect concept s t redirects) ≡ (
        if is_redirect concept (s, t) && not (redirected_elsewhere t (lookup s redirects))
        then some (insert s t redirects)
        else none)
unfolding add_redirect
add_redirect_lem concept s t redirects = elim (Bool-cases (str_eq s t)) [
  | inl e ↦ ground (arith, e, str_eq_sound s t)
  | inr e ↦ ground (arith, e)
]

accepted-insert :
    (s t : Text) (redirects rows : Rows)
    → redirected_elsewhere t (lookup s redirects) ≡ false
    → accepted rows (insert s t redirects) ≡ (accepted rows redirects && agrees s t rows)
unfolding redirected_elsewhere
accepted-insert s t redirects [] h = refl
accepted-insert s t redirects ((k, v) ∷ rows) h = ground (
  arith,
  h,
  lookup-insert s k t redirects,
  str_eq_sound s k,
  accepted-insert s t redirects rows h,
  str_eq_sound t v,
  str_eq_comm t v,
)

pub add_all_lem :
    (concept rows redirects : Rows)
    → to_option (add_all concept rows redirects) ≡ (
        if all (is_redirect concept) rows && accepted rows redirects && consistent rows
        then some (merged rows redirects)
        else none)
add_all_lem concept [] redirects = refl
add_all_lem concept (r ∷ rows) redirects =
    bind_lem _ _ _ (insert r.0 r.1 redirects) (add_redirect_lem concept r.0 r.1 redirects)
    ∙ elim (Bool-cases (redirected_elsewhere r.1 (lookup r.0 redirects))) [
      | inl h ↦ ground (arith, h)
      | inr h ↦ ground (
        arith,
        h,
        add_all_lem concept rows (insert r.0 r.1 redirects),
        accepted-insert r.0 r.1 redirects rows h,
      )
    ]

-- The redirects of the earlier index, and those of earlier concepts whose slug an entity has now.
abbrev pub old_requests : Rows → Rows
old_requests rows = map (λ r. (r.0, trim_space r.1)) rows

abbrev pub moves : Rows → Text × Text → Bool
moves current_by_slug r =
    not (str_eq (target_of r.1 current_by_slug) [] || str_eq r.0 (target_of r.1 current_by_slug))
    && not (valid_synto_entity_id r.0)

abbrev pub prior_requests : Rows → Rows → Rows
prior_requests current_by_slug rows =
    map (λ r. (r.0, target_of r.1 current_by_slug)) (keep (moves current_by_slug) rows)

pub add_old_lem :
    (concept rows redirects : Rows)
    → add_old concept rows redirects ≡ add_all concept (old_requests rows) redirects
unfolding add_old
add_old_lem concept [] redirects = refl
add_old_lem concept (r ∷ rows) redirects =
    ap (λ f. add_redirect concept r.0 (trim_space r.1) redirects >>= f)
      (fun_ext (λ x. add_old_lem concept rows x))

-- Steps with the same result, before what has the same results.
pub bind_ext :
    {A : Type 0} (r q : Result IndexError Rows) (f g : Rows → Result IndexError A)
    → to_option r ≡ to_option q
    → ((x : Rows) → to_option (f x) ≡ to_option (g x))
    → to_option (r >>= f) ≡ to_option (q >>= g)
bind_ext (ok x) (ok y) f g e h = ground (arith, e, h y)
bind_ext (ok x) (err b) f g e h = cc
bind_ext (err a) (ok y) f g e h = cc
bind_ext (err a) (err b) f g e h = refl

migrate-moves :
    (concept current : Rows) (r : Text × Text) (redirects : Rows)
    → moves current r ≡ true
    → to_option (migrate concept current r.0 r.1 redirects)
      ≡ to_option (add_redirect concept r.0 (target_of r.1 current) redirects)
unfolding migrate add_redirect
migrate-moves concept current r redirects m = ground (arith, m)

pub add_prior_lem :
    (concept current rows redirects : Rows)
    → to_option (add_prior concept current rows redirects)
      ≡ to_option (add_all concept (prior_requests current rows) redirects)
unfolding add_prior migrate
add_prior_lem concept current [] redirects = refl
add_prior_lem concept current (r ∷ rows) redirects = elim (Bool-cases (moves current r)) [
  | inr m ↦ ground (arith, m, add_prior_lem concept current rows redirects)
  | inl m ↦
      bind_ext (migrate concept current r.0 r.1 redirects)
        (add_redirect concept r.0 (target_of r.1 current) redirects)
        (add_prior concept current rows) (add_all concept (prior_requests current rows))
        (migrate-moves concept current r redirects m) (add_prior_lem concept current rows)
      ∙ ap
          (λ b. to_option (
            add_all concept
              (map (λ x. (x.0, target_of x.1 current))
                (if b then r ∷ keep (moves current) rows else keep (moves current) rows))
              redirects))
          (sym m)
]

pub add_all-append :
    (concept rows more redirects : Rows)
    → add_all concept rows redirects >>= add_all concept more
      ≡ add_all concept (rows ++ more) redirects
add_all-append concept [] more redirects = refl
add_all-append concept (r ∷ rows) more redirects =
    elim (Result-cases (add_redirect concept r.0 r.1 redirects)) [
      | inl (x, e) ↦ ground (arith, e, add_all-append concept rows more x)
      | inr (x, e) ↦ ground (arith, e)
    ]

-- What is planned leads from no current concept.
pub all-entries :
    (P : Text → Text → Type 0) (rows redirects : Rows)
    → AllEntries P rows
    → AllEntries P redirects
    → AllEntries P (merged rows redirects)
all-entries P [] redirects p q = q
all-entries P (r ∷ rows) redirects (p, ps) q =
    all-entries P rows (insert r.0 r.1 redirects) ps (insert-AllEntries P r.0 r.1 redirects p q)

lookup-accepted :
    (s t k : Text) (redirects rows : Rows)
    → redirected_elsewhere t (lookup s redirects) ≡ false
    → (if is_some (lookup k (insert s t redirects))
        then lookup k (insert s t redirects)
        else lookup k rows)
      ≡ (if is_some (lookup k redirects)
          then lookup k redirects
          else (if str_eq s k then some t else lookup k rows))
unfolding redirected_elsewhere
lookup-accepted s t k redirects rows h = elim (Bool-cases (str_eq s k)) [
  | inr d ↦ ground (arith, d, lookup-insert s k t redirects)
  | inl d ↦ elim (Option-cases (lookup s redirects)) [
    | inl e ↦ ground (arith, d, e, lookup-insert s k t redirects, str_eq_sound s k)
    | inr (v, e) ↦
        ground (arith, d, e, h, lookup-insert s k t redirects, str_eq_sound s k, str_eq_sound v t)
  ]
]

pub lookup-merged :
    (rows redirects : Rows) (k : Text)
    → accepted rows redirects && consistent rows ≡ true
    → lookup k (merged rows redirects)
      ≡ (if is_some (lookup k redirects) then lookup k redirects else lookup k rows)
unfolding lookup
lookup-merged [] redirects k h = ground arith
lookup-merged (r ∷ rows) redirects k h =
    let free : redirected_elsewhere r.1 (lookup r.0 redirects) ≡ false = ground (arith, h) in
    lookup-merged rows (insert r.0 r.1 redirects) k
      (ground (arith, h, free, accepted-insert r.0 r.1 redirects rows free))
    ∙ lookup-accepted r.0 r.1 k redirects rows free
