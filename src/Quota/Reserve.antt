-- ===== src/Quota/Reserve.antt =====
-- What a reservation and a refund (internal/firestore/quota.go) do to the quota of a project.
use llm_wiki_bff.Core.{
  ℕ, ◌<◌, ◌≡◌, ◌≢◌, refl, Bool, true, false, Option, none, some, List, [], ◌∷◌, Result, ok, err,
  arith, Bool-cases, inl, inr, if◌then◌else◌, ap, sym, ◌∙◌,
}
use llm_wiki_bff.Core.Int.{pos_part}
use llm_wiki_bff.Quota.{Limits, Input, Snapshot, with_defaults, evaluate}
use llm_wiki_bff.Quota.Decide.{evaluate_allowed}
use llm_wiki_bff.Quota.Store.{
  Doc, QuotaPrev, Request, Captured, nothing_captured, quota_state, input_of, reserved_state,
  finish, attempt, run_attempts, written, reserve_quota, refund_quota,
}

-- What a reservation comes to at the state that its last run reads: allowed, it counts one run and
-- answers with the evaluation after it; refused, it writes nothing.
abbrev pub outcome :
    Request → QuotaPrev → Result Unit (QuotaPrev × Snapshot × Bool) × Option QuotaPrev
outcome r prev =
    let pre = evaluate (input_of r prev) in
    if pre.allowed
    then (
      ok (prev, evaluate (input_of r (reserved_state r pre)), true),
      some (reserved_state r pre),
    )
    else (ok (prev, pre, false), none)

run_attempts_last :
    (r : Request) (c : Captured) (lost : List (Result Unit (Option Doc)))
    (last : Result Unit (Option Doc))
    → run_attempts r c lost last ≡ attempt r last nothing_captured
unfolding run_attempts attempt
run_attempts_last r c [] (err e) = refl
run_attempts_last r c [] (ok doc) = refl
run_attempts_last r c (d ∷ ds) last = run_attempts_last r (attempt r d c).0 ds last

reserve_quota-last :
    (r : Request) (lost : List (Result Unit (Option Doc))) (last : Result Unit (Option Doc))
    (b : Bool)
    → reserve_quota r lost last b ≡ finish (attempt r last nothing_captured) b
unfolding reserve_quota
reserve_quota-last r lost last b =
    ap (λ a. finish a b) (run_attempts_last r nothing_captured lost last)

finish-attempt :
    (r : Request) (doc : Option Doc)
    → finish (attempt r (ok doc) nothing_captured) true ≡ outcome r (quota_state doc)
unfolding finish attempt
finish-attempt r doc = elim (Bool-cases (evaluate (input_of r (quota_state doc))).allowed) [
  | inl e ↦ ground (arith, e)
  | inr e ↦ ground (arith, e)
]

finish-failed :
    (r : Request) (last : Result Unit (Option Doc))
    → finish (attempt r last nothing_captured) false ≡ (err tt, none)
unfolding finish attempt
finish-failed r (err e) = refl
finish-failed r (ok doc) = ground arith

-- Whatever the runs that lost a race had read, the result and the write of ReserveQuota are those
-- of the state that the last run read; with a failed read or commit, nothing is written.
pub reserve_quota_exact :
    (r : Request) (lost : List (Result Unit (Option Doc))) (doc : Option Doc) (b : Bool)
    → (reserve_quota r lost (ok doc) true ≡ outcome r (quota_state doc))
      × (reserve_quota r lost (ok doc) false ≡ (err tt, none))
      × (reserve_quota r lost (err tt) b ≡ (err tt, none))
unfolding finish attempt
reserve_quota_exact r lost doc b = (
  reserve_quota-last r lost (ok doc) true ∙ finish-attempt r doc,
  reserve_quota-last r lost (ok doc) false ∙ finish-failed r (ok doc),
  reserve_quota-last r lost (err tt) b,
)

-- The state that a reservation leaves, as it is read back.
pub stored_state :
    (keep : ℕ → ℕ) (s : QuotaPrev) (doc : Option Doc)
    → quota_state (written keep (some s) doc) ≡ record s { last_run_at = keep s.last_run_at }
unfolding quota_state written
stored_state keep s doc = refl

-- What is known when a run was reserved.
outcome-reserved :
    (r : Request) (p : QuotaPrev) {prev : QuotaPrev} {snap : Snapshot} {state : Option QuotaPrev}
    → outcome r p ≡ (ok (prev, snap, true), state)
    → ((evaluate (input_of r p)).allowed ≡ true)
      × (prev ≡ p)
      × (snap ≡ evaluate (input_of r (reserved_state r (evaluate (input_of r p)))))
      × (state ≡ some (reserved_state r (evaluate (input_of r p))))
outcome-reserved r p {prev} {snap} {state} h = elim (Bool-cases (evaluate (input_of r p)).allowed) [
  | inr e ↦ ground (arith, e)
  | inl e ↦ (e, ground (arith, e), ground (arith, e), ground (arith, e))
]

reserve_quota-outcome :
    (r : Request) (lost : List (Result Unit (Option Doc))) (doc : Option Doc)
    {x : Result Unit (QuotaPrev × Snapshot × Bool) × Option QuotaPrev}
    → reserve_quota r lost (ok doc) true ≡ x
    → outcome r (quota_state doc) ≡ x
reserve_quota-outcome r lost doc h = sym (reserve_quota_exact r lost doc true).0 ∙ h

refund-state :
    (keep : ℕ → ℕ) (p state : QuotaPrev) (doc : Option Doc)
    → keep p.last_run_at ≡ p.last_run_at
    → quota_state (refund_quota keep p (written keep (some state) doc)) ≡ p
unfolding quota_state refund_quota written
refund-state keep p state doc k = ground arith

default_cooldown_pos : (lim : Limits) → 0 < pos_part (with_defaults lim).cooldown
unfolding with_defaults
default_cooldown_pos lim = ground arith

-- A run at the very time of the last one is refused.
just_run_blocked :
    (i : Input)
    → i.last_run_at ≡ i.now
    → i.enforced ≡ true
    → i.now ≢ 0
    → (evaluate i).allowed ≡ false
just_run_blocked i same on z = elim (Bool-cases (evaluate i).allowed) [
  | inr e ↦ e
  | inl e ↦ elim ((evaluate_allowed i).0 e) [
    | inl off ↦ cc
    | inr m ↦ absurd (ground (arith, m.cool, default_cooldown_pos i.limits))
  ]
]

-- A refund after a reservation restores the state that the reservation had read, whatever the
-- document held, if Firestore keeps times that it has kept before.
pub refund-reserve :
    (keep : ℕ → ℕ) (r : Request) (lost : List (Result Unit (Option Doc))) (doc : Option Doc)
    (prev : QuotaPrev) (snap : Snapshot) (state : QuotaPrev)
    → keep (quota_state doc).last_run_at ≡ (quota_state doc).last_run_at
    → reserve_quota r lost (ok doc) true ≡ (ok (prev, snap, true), some state)
    → quota_state (refund_quota keep prev (written keep (some state) doc)) ≡ quota_state doc
refund-reserve keep r lost doc prev snap state k h =
    let (a, same, _, _) =
      outcome-reserved r (quota_state doc) (reserve_quota-outcome r lost doc h) in
    rw same (refund-state keep (quota_state doc) state doc k)

-- Right after a reservation at a time that is not the zero time no further run is allowed.
pub reserve-blocks :
    (r : Request) (lost : List (Result Unit (Option Doc))) (doc : Option Doc) (prev : QuotaPrev)
    (snap : Snapshot) (state : Option QuotaPrev)
    → r.now ≢ 0
    → reserve_quota r lost (ok doc) true ≡ (ok (prev, snap, true), state)
    → snap.allowed ≡ false
unfolding input_of
reserve-blocks r lost doc prev snap state z h =
    let (a, _, after, _) =
      outcome-reserved r (quota_state doc) (reserve_quota-outcome r lost doc h) in
    rw after (
      just_run_blocked (input_of r (reserved_state r (evaluate (input_of r (quota_state doc)))))
        (unfold reserved_state in refl) refl z)
