-- ===== src/Gate/Decide.antt =====
-- What evaluateQuota (internal/handler/v1/pipeline_quota.go) answers, with the quota of
-- internal/firestore/quota.go behind it.
use llm_wiki_bff.Core.{
  ◌≡◌, ◌≢◌, refl, inl, inr, Bool, true, false, Option, none, some, List, Result, ok, arith, sym,
  ◌∙◌, ap, Bool-cases, Result-cases,
}
use mathlib.Core.Path.{subst}
use llm_wiki_bff.Core.Int.{ℤ}
use llm_wiki_bff.Core.Text.{Text}
use llm_wiki_bff.Quota.{Snapshot, with_defaults, evaluate}
use llm_wiki_bff.Quota.Decide.{MayRun, evaluate_allowed}
use llm_wiki_bff.Quota.Store.{
  Doc, QuotaPrev, Request, quota_state, input_of, no_prev, reserve_quota,
}
use llm_wiki_bff.Quota.Reserve.{outcome, reserve_quota_exact}
use llm_wiki_bff.Gate.{
  Handler, World, QuotaStore, is_demo_user, pipeline_limits, is_pipeline_running, request_of,
  ask_store, evaluate_quota,
}

-- The limits that the handler gives are positive: the defaults of Evaluate never replace them.
pub pipeline_limits_kept : (h : Handler) → with_defaults (pipeline_limits h) ≡ pipeline_limits h
unfolding pipeline_limits with_defaults
pipeline_limits_kept h = ground arith

-- The store of Firestore, whose transaction reads `doc` in its last run and is committed.
abbrev pub firestore_store : List (Result Unit (Option Doc)) → Option Doc → QuotaStore
firestore_store lost doc = record {
  load = ok (quota_state doc);
  reserve = λ r. (reserve_quota r lost (ok doc) true).0;
}

ask_store_load :
    (s : QuotaStore) (r : Request) (snap : Snapshot) (prev : QuotaPrev)
    → ask_store (some s) r false ≢ ok (snap, true, prev)
unfolding ask_store
ask_store_load s r snap prev h = elim (Result-cases s.load) [
  | inl (p, e) ↦ ground (arith, e, h)
  | inr (u, e) ↦ ground (arith, e, h)
]

outcome_result :
    (r : Request) (p prev : QuotaPrev) (snap : Snapshot)
    → (outcome r p).0 ≡ ok (prev, snap, true)
    → ((evaluate (input_of r p)).allowed ≡ true) × (prev ≡ p)
outcome_result r p prev snap h = elim (Bool-cases (evaluate (input_of r p)).allowed) [
  | inr e ↦ ground (arith, e, h)
  | inl e ↦ (e, ground (arith, e, h))
]

ask_store_reserve :
    (lost : List (Result Unit (Option Doc))) (doc : Option Doc) (r : Request) (snap : Snapshot)
    (prev : QuotaPrev)
    → ask_store (some (firestore_store lost doc)) r true ≡ ok (snap, true, prev)
    → ((evaluate (input_of r (quota_state doc))).allowed ≡ true) × (prev ≡ quota_state doc)
unfolding ask_store
ask_store_reserve lost doc r snap prev h = outcome_result r (quota_state doc) prev snap (
    ap (λ (o : Result Unit (QuotaPrev × Snapshot × Bool) × Option QuotaPrev). o.0)
      (sym (reserve_quota_exact r lost doc true).0)
    ∙ reserved_answer)
  where
    reserved_answer : (reserve_quota r lost (ok doc) true).0 ≡ ok (prev, snap, true)
    reserved_answer = elim (Result-cases (reserve_quota r lost (ok doc) true).0) [
      | inl (a, e) ↦ ground (arith, e, h)
      | inr (u, e) ↦ ground (arith, e, h)
    ]

-- The checks of the handler that passed, and what the quota found.
pub record Granted (to_upper : Text → Text) (h : Handler) (w : World) (user project : Text)
    (doc : Option Doc) (work : ℤ × ℤ × ℤ) : Type 0 where
  pub idle : is_pipeline_running to_upper w user project ≡ ok false
  pub work_known : w.pending ≡ ok work
  pub no_demo : is_demo_user h user ≡ false
  pub may_run : MayRun (input_of (request_of h w user false work) (quota_state doc))

-- The request after the checks of the handler.
granted_lem :
    (to_upper : Text → Text) (h : Handler) (w : World) (user project : Text) (reserve b : Bool)
    (lost : List (Result Unit (Option Doc))) (doc : Option Doc) (work : ℤ × ℤ × ℤ) (snap : Snapshot)
    (prev : QuotaPrev)
    → is_pipeline_running to_upper w user project ≡ ok b
    → w.pending ≡ ok work
    → ask_store (some (firestore_store lost doc)) (request_of h w user b work) reserve
      ≡ ok (snap, true, prev)
    → (reserve ≡ true) × (prev ≡ quota_state doc) × Granted to_upper h w user project doc work
unfolding input_of request_of
granted_lem to_upper h w user project false b lost doc work snap prev x y k =
    absurd (ask_store_load (firestore_store lost doc) (request_of h w user b work) snap prev k)
granted_lem to_upper h w user project true b lost doc work snap prev x y k =
    let (a, same) = ask_store_reserve lost doc (request_of h w user b work) snap prev k in
    elim ((evaluate_allowed (input_of (request_of h w user b work) (quota_state doc))).0 a) [
      | inl off ↦ absurd cc
      | inr m ↦ (
        refl,
        same,
        record {
          idle = x ∙ ap ok m.idle;
          work_known = y;
          no_demo = m.no_demo;
          may_run =
              subst (λ (r : Bool). MayRun (input_of (request_of h w user r work) (quota_state doc)))
                m.idle m;
        },
      )
    ]

ask_store_at :
    (to_upper : Text → Text) (h : Handler) (w : World) (user project : Text) (reserve b : Bool)
    (work : ℤ × ℤ × ℤ)
    → is_pipeline_running to_upper w user project ≡ ok b
    → w.pending ≡ ok work
    → evaluate_quota to_upper h w user project reserve
      ≡ ask_store w.store (request_of h w user b work) reserve
unfolding evaluate_quota
ask_store_at to_upper h w user project reserve b work x y = ground (arith, x, y)

-- Without a store every run is allowed and none is reserved, where the checks before succeed.
pub evaluate_quota_local :
    (to_upper : Text → Text) (h : Handler) (w : World) (user project : Text) (reserve b : Bool)
    (work : ℤ × ℤ × ℤ)
    → is_pipeline_running to_upper w user project ≡ ok b
    → w.pending ≡ ok work
    → w.store ≡ none
    → (snap : Snapshot) × (evaluate_quota to_upper h w user project reserve
        ≡ ok (snap, false, no_prev))
      × (snap.allowed ≡ true)
unfolding ask_store
evaluate_quota_local to_upper h w user project reserve b work x y e =
    let r = request_of h w user b work in
    let i = record (input_of r no_prev) { enforced = false } in
    (
      evaluate i,
      ask_store_at to_upper h w user project reserve b work x y ∙ ap (λ s. ask_store s r reserve) e,
      (evaluate_allowed i).1 (inl refl),
    )

-- evaluateQuota reports a reserved run only where it was asked to reserve, and then the state
-- before is the one of the document that the transaction read last, the project was found idle, the
-- user is not a demo user, the pending work was read, and the run is one that the rules admit.
pub evaluate_quota-Granted :
    (to_upper : Text → Text) (h : Handler) (w : World) (user project : Text) (reserve : Bool)
    (lost : List (Result Unit (Option Doc))) (doc : Option Doc) (snap : Snapshot) (prev : QuotaPrev)
    → w.store ≡ some (firestore_store lost doc)
    → evaluate_quota to_upper h w user project reserve ≡ ok (snap, true, prev)
    → (reserve ≡ true)
      × (prev ≡ quota_state doc)
      × ((work : ℤ × ℤ × ℤ) × Granted to_upper h w user project doc work)
unfolding evaluate_quota
evaluate_quota-Granted to_upper h w user project reserve lost doc snap prev e k =
    elim (Result-cases (is_pipeline_running to_upper w user project)) [
      | inr (u, x) ↦ absurd (ground (arith, x, k))
      | inl (b, x) ↦ elim (Result-cases w.pending) [
        | inr (u, y) ↦ absurd (ground (arith, x, y, k))
        | inl (work, y) ↦
            let asked = ask_store_at to_upper h w user project reserve b work x y in
            let (on, same, granted) =
              granted_lem to_upper h w user project reserve b lost doc work snap prev x y (
                ap (λ s. ask_store s (request_of h w user b work) reserve) (sym e)
                ∙ sym asked
                ∙ k) in
            (on, same, (work, granted))
      ]
    ]
