-- ===== src/Gate.antt =====
-- internal/handler/v1/pipeline_quota.go: whether a user may start the pipeline. The lock is read as
-- internal/firestore/client.go reads it. Firestore and the listing of sources are given by what
-- they answer; `to_upper` is strings.ToUpper.
pub mod Running
mod Tests
pub mod Decide
use llm_wiki_bff.Core.{
  ℕ, zero, suc, Bool, true, false, not, ◌&&◌, ◌||◌, Option, none, some, List, [], ◌∷◌, ◌++◌, Result,
  ok, err, ltb, length, drop, any, is_some, if◌then◌else◌,
}
use llm_wiki_bff.Core.Clock.{hour}
use llm_wiki_bff.Core.Int.{ℤ, pos, leb_ℤ, ltb_ℤ}
use llm_wiki_bff.Core.Text.{Text, codes, str_eq, has_prefix, trim_space}
use llm_wiki_bff.Core.Dict.{lookup, insert}
use llm_wiki_bff.Quota.{
  Reason, Limits, Snapshot, ExecutionStatus, running, succeeded, failed, cancelled, other_status,
  demo, daily_limit, cooldown, already_running, no_new_raw, none_given,
  is_terminal_execution_status, evaluate,
}
use llm_wiki_bff.Quota.Store.{
  Value, text, timestamp, Doc, QuotaPrev, Request, quota_state, input_of, no_prev, empty_snapshot,
  reserve_quota, time_field,
}
use llm_wiki_bff.CloudRun.{Listing, Activity, owned_activity, running_for_activity}

-- The fields of a lock document that are read.
pub record Lock : Type 0 where
  pub status : Option Value
  pub expires_at : Option Value

-- The string of a value, empty for any other.
unfoldable pub string_of : Option Value → Text
string_of (some (text s)) = s
string_of _ = []

-- activeLockUntil, with firestoreTimestamp, and LockDataActive of it.
unfoldable pub active_lock_until : Lock → ℕ → Option ℕ
unfolding string_of
active_lock_until l now =
    if not (str_eq (string_of l.status) (codes "active"))
    then none
    else elim l.expires_at [ some (timestamp t) ↦ if ltb now t then some t else none | _ ↦ none ]

unfoldable pub lock_data_active : Lock → ℕ → Bool
lock_data_active l now = is_some (active_lock_until l now)

-- What Firestore answers for the lock: there is no client, the document is not found, another
-- error, or the document.
pub data LockAnswer : Type 0 where
  no_client not_found lock_failure : LockAnswer
  document : Lock → LockAnswer

-- projectLockActive
unfoldable pub project_lock_active : LockAnswer → ℕ → Result Unit Bool
project_lock_active no_client now = ok false
project_lock_active not_found now = ok false
project_lock_active lock_failure now = err tt
project_lock_active (document l) now = ok (lock_data_active l now)

-- The configuration of the handler, of which the limits and the demo users matter.
pub record Handler : Type 0 where
  pub demo_user_ids : List Text
  pub pipeline_daily_limit : ℤ
  pub pipeline_cooldown : ℤ
  pub pipeline_min_new_raw : ℤ

-- isDemoUser
unfoldable pub is_demo_user : Handler → Text → Bool
is_demo_user h user =
    if str_eq user [] || not (ltb 0 (length h.demo_user_ids))
    then false
    else any (str_eq user) h.demo_user_ids

-- pipelineLimits
unfoldable pub pipeline_limits : Handler → Limits
pipeline_limits h = record {
  daily_limit = if leb_ℤ h.pipeline_daily_limit (pos 0) then pos 2 else h.pipeline_daily_limit;
  cooldown = if leb_ℤ h.pipeline_cooldown (pos 0) then pos hour else h.pipeline_cooldown;
  min_new_raw = if leb_ℤ h.pipeline_min_new_raw (pos 0) then pos 1 else h.pipeline_min_new_raw;
}

-- pipelineQuotaStore: what the store answers for the project.
pub record QuotaStore : Type 0 where
  -- LoadQuotaState
  pub load : Result Unit QuotaPrev
  -- ReserveQuota
  pub reserve : Request → Result Unit (QuotaPrev × Snapshot × Bool)

-- What the request meets.
pub record World : Type 0 where
  -- time.Now, once for the lock and once for the quota.
  pub lock_now : ℕ
  pub now : ℕ
  pub lock : LockAnswer
  pub token : Bool
  pub listing : Listing
  -- pendingWorkForProject: new raw files, dirty raw files, dirty annotations.
  pub pending : Result Unit (ℤ × ℤ × ℤ)
  pub store : Option QuotaStore

module _ (to_upper : Text → Text) where
  -- isPipelineRunning
  unfoldable pub is_pipeline_running : World → Text → Text → Result Unit Bool
  is_pipeline_running w user project = elim (project_lock_active w.lock w.lock_now) [
    | err e ↦ err e
    | ok locked ↦ elim (owned_activity to_upper user project w.token w.listing) [
      | none ↦ ok locked
      | some a ↦ ok (running_for_activity locked a)
    ]
  ]

-- The arguments that the handler gives the quota.
unfoldable pub request_of : Handler → World → Text → Bool → ℤ × ℤ × ℤ → Request
request_of h w user is_running (new_raw, raw_dirty, annotation_dirty) = record {
  limits = pipeline_limits h;
  now = w.now;
  is_demo = is_demo_user h user;
  already_running = is_running;
  new_raw_files = new_raw;
  raw_dirty_files = raw_dirty;
  annotation_dirty_files = annotation_dirty;
}

-- The part of evaluateQuota that asks the store: the snapshot, whether a run was reserved, and the
-- state before.
unfoldable pub ask_store :
    Option QuotaStore → Request → Bool → Result Unit (Snapshot × Bool × QuotaPrev)
ask_store none r reserve =
    ok (evaluate (record (input_of r no_prev) { enforced = false }), false, no_prev)
ask_store (some s) r true = elim (s.reserve r) [
  | err e ↦ err e
  | ok (prev, snap, reserved) ↦ ok (snap, reserved, prev)
]
ask_store (some s) r false = elim s.load [
  | err e ↦ err e
  | ok prev ↦ ok (evaluate (input_of r prev), false, no_prev)
]

-- evaluateQuota
unfoldable pub evaluate_quota :
    (Text → Text) → Handler → World → Text → Text → Bool → Result Unit (Snapshot × Bool × QuotaPrev)
evaluate_quota to_upper h w user project reserve =
    elim (is_pipeline_running to_upper w user project) [
      | err e ↦ err e
      | ok is_running ↦ elim w.pending [
        | err e ↦ err e
        | ok work ↦ ask_store w.store (request_of h w user is_running work) reserve
      ]
    ]

-- httpStatusForReason
unfoldable pub http_status_for_reason : Reason → ℕ
http_status_for_reason demo = 403
http_status_for_reason daily_limit = 429
http_status_for_reason cooldown = 429
http_status_for_reason already_running = 409
http_status_for_reason no_new_raw = 409
http_status_for_reason none_given = 409
