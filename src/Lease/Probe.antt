-- ===== src/Lease/Probe.antt =====
-- classifyCloudRunExecutionJSON of cmd/olw_worker/cloud_execution_probe.go: what the body of an
-- execution says of a lease's holder. The body is given as json.Unmarshal leaves it, `none` where
-- it fails; strings.ToUpper and strings.EqualFold are parameters.
use llm_wiki_bff.Core.{
  ℕ, ◌==◌, ◌≡◌, ◌≢◌, ◌⊎◌, inl, inr, Bool, true, false, not, ◌||◌, Option, none, some, List, [], ◌∷◌,
  arith, if◌then◌else◌, Bool-cases, Option-cases, ap, ==_iff,
}
use llm_wiki_bff.Core.Int.{ℤ, pos, ltb_ℤ}
use llm_wiki_bff.Core.Text.{Text, codes, str_eq, trim_space}
use llm_wiki_bff.CloudRun.{trim_prefix}
use llm_wiki_bff.Lease.{
  valid_execution_id, belongs_to_job, allow_lease_reclaim, Liveness, running, terminal, not_found,
  lookup_failed, malformed,
}

pub record Condition : Type 0 where
  pub kind : Text
  pub state : Text
  pub status : Text

pub record Body : Type 0 where
  pub reconciling : Bool
  pub completion_status : Text
  pub conditions : List Condition
  pub succeeded_count : ℤ
  pub failed_count : ℤ
  pub cancelled_count : ℤ
  pub running_count : ℤ

-- firstNonEmpty of two values.
unfoldable pub first_non_empty : Text → Text → Text
first_non_empty a b = if not (str_eq (trim_space a) []) then trim_space a else trim_space b

-- livenessFromStatus
unfoldable pub liveness_from_status : Text → Liveness
liveness_from_status status =
    if str_eq status (codes "SUCCEEDED")
      || (str_eq status (codes "FAILED") || str_eq status (codes "CANCELLED"))
    then terminal
    else if str_eq status (codes "RUNNING")
    then running
    else lookup_failed

-- The counters, where no text decides.
unfoldable pub from_counts : Body → Liveness
from_counts b =
    if ltb_ℤ (pos 0) b.running_count || b.reconciling
    then running
    else if ltb_ℤ (pos 0) b.failed_count
    then terminal
    else if ltb_ℤ (pos 0) b.cancelled_count
    then terminal
    else if ltb_ℤ (pos 0) b.succeeded_count
    then terminal
    else lookup_failed

module _ (to_upper : Text → Text) (equal_fold : Text → Text → Bool) where
  -- normalizeWorkerCloudRunStatus
  unfoldable pub normalize_worker_status : Text → Text
  normalize_worker_status value =
      let upper = to_upper (trim_space value) in
      let status = trim_prefix (trim_prefix upper (codes "CONDITION_")) (codes "EXECUTION_") in
      if str_eq status (codes "SUCCEEDED") || str_eq status (codes "TRUE")
      then codes "SUCCEEDED"
      else if str_eq status (codes "FAILED") || str_eq status (codes "FALSE")
      then codes "FAILED"
      else if str_eq status (codes "CANCELLED")
      then codes "CANCELLED"
      else if str_eq status (codes "PENDING")
          || str_eq status (codes "RECONCILING")
          || str_eq status (codes "UNKNOWN")
          || str_eq status (codes "RUNNING")
      then codes "RUNNING"
      else status

  -- The loop over the conditions.
  unfoldable pub from_conditions : List Condition → Option Liveness
  unfolding first_non_empty
  from_conditions [] = none
  from_conditions (c ∷ cs) =
      let rest = from_conditions cs in
      let status = normalize_worker_status (first_non_empty c.state c.status) in
      if not (equal_fold c.kind (codes "Completed"))
      then rest
      else if not (str_eq status [])
      then some (liveness_from_status status)
      else rest

  unfoldable pub from_body : Body → Liveness
  from_body b =
      let status = normalize_worker_status b.completion_status in
      if not (str_eq status [])
      then liveness_from_status status
      else elim (from_conditions b.conditions) [ some l ↦ l | none ↦ from_counts b ]

  -- classifyCloudRunExecutionJSON
  unfoldable pub classify : Option Body → Liveness
  unfolding from_body
  classify none = lookup_failed
  classify (some b) = from_body b

  -- A body is only classified as terminal if its status or its completed condition says so, or if
  -- none of them says anything, no task is running and the execution is not reconciling.
  pub classify_terminal :
      (b : Body)
      → classify (some b) ≡ terminal
      → (liveness_from_status (normalize_worker_status b.completion_status) ≡ terminal)
        ⊎ (from_conditions b.conditions ≡ some terminal)
        ⊎ ((from_conditions b.conditions ≡ none)
            × (ltb_ℤ (pos 0) b.running_count ≡ false)
            × (b.reconciling ≡ false))
  unfolding classify from_counts
  classify_terminal b h =
      elim (Bool-cases (str_eq (normalize_worker_status b.completion_status) [])) [
        | inr e ↦ inl (ground (arith, e, h))
        | inl e ↦ elim (Option-cases (from_conditions b.conditions)) [
          | inl n ↦ inr (inr (n, ground (arith, e, n, h), ground (arith, e, n, h)))
          | inr (l, s) ↦ inr (inl (ground (arith, e, s, h)))
        ]
      ]

never_malformed : allow_lease_reclaim malformed ≢ true
unfolding allow_lease_reclaim
never_malformed h = cc

never_failed : allow_lease_reclaim lookup_failed ≢ true
unfolding allow_lease_reclaim
never_failed h = cc

-- What the probe meets: whether the scope and a token could be resolved, and what the API answers
-- (`none` where the request fails): the status code, and the body.
pub record Api : Type 0 where
  pub scope : Bool
  pub token : Bool
  pub answer : Option (ℕ × Option Body)

module _ (to_upper : Text → Text) (equal_fold : Text → Text → Bool) where
  unfoldable pub of_answer : Option (ℕ × Option Body) → Liveness
  of_answer none = lookup_failed
  of_answer (some (status_code, body)) =
      if status_code == 200
      then classify to_upper equal_fold body
      else if status_code == 404
      then not_found
      else lookup_failed

  -- cloudRunExecutionProbe.Probe
  unfoldable pub probe_execution : Api → Text → Text → Liveness
  unfolding of_answer
  probe_execution api execution_id job_name =
      let id = trim_space execution_id in
      let job = trim_space job_name in
      if not (valid_execution_id id) || str_eq job [] || not (belongs_to_job id job)
      then malformed
      else if not api.scope
      then lookup_failed
      else if not api.token
      then lookup_failed
      else of_answer api.answer

  of_answer_allowed :
      (a : Option (ℕ × Option Body))
      → allow_lease_reclaim (of_answer a) ≡ true
      → ((b : Option Body) × (a ≡ some (404, b)))
        ⊎ ((b : Option Body) × (a ≡ some (200, b))
            × (allow_lease_reclaim (classify to_upper equal_fold b) ≡ true))
  unfolding of_answer allow_lease_reclaim
  of_answer_allowed none h = absurd cc
  of_answer_allowed (some (code, body)) h = elim (Bool-cases (code == 200)) [
    | inl e ↦ inr (body, ap (λ c. some (c, body)) ((==_iff code 200).0 e), ground (arith, e, h))
    | inr e ↦ elim (Bool-cases (code == 404)) [
      | inl k ↦ inl (body, ap (λ c. some (c, body)) ((==_iff code 404).0 k))
      | inr k ↦ absurd (ground (arith, e, k, h))
    ]
  ]

  -- The probe admits a reclaim only where the scope and a token were resolved, for a valid
  -- execution of the job, and only if the API answered 404, or 200 with a body that is classified
  -- so that a reclaim is allowed.
  pub probe_execution_allowed :
      (api : Api) (execution_id job_name : Text)
      → allow_lease_reclaim (probe_execution api execution_id job_name) ≡ true
      → (valid_execution_id (trim_space execution_id) ≡ true)
        × (belongs_to_job (trim_space execution_id) (trim_space job_name) ≡ true)
        × (api.scope ≡ true)
        × (api.token ≡ true)
        × (((b : Option Body) × (api.answer ≡ some (404, b)))
            ⊎ ((b : Option Body) × (api.answer ≡ some (200, b))
                × (allow_lease_reclaim (classify to_upper equal_fold b) ≡ true)))
  unfolding probe_execution
  probe_execution_allowed api execution_id job_name h =
      let id = trim_space execution_id in
      let job = trim_space job_name in
      elim (Bool-cases
        (not (valid_execution_id id) || str_eq job [] || not (belongs_to_job id job))) [
          | inl e ↦ absurd (never_malformed (ground (arith, e, h)))
          | inr e ↦ elim (Bool-cases api.scope) [
            | inr s ↦ absurd (never_failed (ground (arith, e, s, h)))
            | inl s ↦ elim (Bool-cases api.token) [
              | inr t ↦ absurd (never_failed (ground (arith, e, s, t, h)))
              | inl t ↦ (
                ground (arith, e),
                ground (arith, e),
                s,
                t,
                of_answer_allowed api.answer (ground (arith, e, s, t, h)),
              )
            ]
          ]
        ]
