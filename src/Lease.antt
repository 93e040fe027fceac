-- ===== src/Lease.antt =====
-- cmd/olw_worker/lease_liveness.go: the lease under which a worker publishes. The object store, the
-- probe of an execution and encoding/json of the lease's body are parameters; the store passes a
-- state of its own, in which other workers may act too.
pub mod Probe
pub mod Safe
pub mod Taken
mod Tests
use llm_wiki_bff.Core.{
  ℕ, zero, suc, Bool, true, false, not, ◌&&◌, ◌||◌, Option, none, some, List, [], ◌∷◌, ◌++◌, Result,
  ok, err, any, ◌==◌, if◌then◌else◌,
}
use llm_wiki_bff.Core.Int.{ℤ, pos, leb_ℤ}
use llm_wiki_bff.Core.Text.{Text, codes, str_eq, has_prefix, contains, trim_space}
use llm_wiki_bff.Generation.{Host}

-- leaseHolderLiveness
pub data Liveness : Type 0 where
  running terminal not_found lookup_failed malformed : Liveness

-- leasePayload
pub record Payload : Type 0 where
  pub execution : Text
  pub started_at : Text

-- allowLeaseReclaim
unfoldable pub allow_lease_reclaim : Liveness → Bool
allow_lease_reclaim terminal = true
allow_lease_reclaim not_found = true
allow_lease_reclaim _ = false

-- validPipelineExecutionID
unfoldable pub valid_execution_id : Text → Bool
valid_execution_id execution_id =
    let id = trim_space execution_id in
    not (str_eq id [])
    && not (any (λ c. c == 47 || (c == 92 || c == 0)) id)
    && not (str_eq id (codes "."))
    && not (str_eq id (codes ".."))
    && not (contains id (codes ".."))

-- cloudLeaseJobName, of the values of its environment variables.
unfoldable pub job_name : List Text → Text
job_name [] = []
job_name (v ∷ vs) =
    let rest = job_name vs in if not (str_eq (trim_space v) []) then trim_space v else rest

-- executionBelongsToJob
unfoldable pub belongs_to_job : Text → Text → Bool
belongs_to_job execution_id job =
    let id = trim_space execution_id in
    let name = trim_space job in
    if str_eq id [] || str_eq name []
    then false
    else if str_eq id name
    then false
    else has_prefix id (name ++ codes "-")

-- The errors of the store that are told apart: errObjectGenerationConflict, errObjectNotFound, and
-- any other.
pub data StoreError : Type 0 where
  conflict missing other : StoreError

-- The calls of objectStore that the lease uses, each with the state after it: Write under
-- DoesNotExist with the generation that it made, Read with the generation, and Delete of a
-- generation.
pub record ObjectStore (S : Type 0) : Type 0 where
  pub create : S → Text → Text → S × Result StoreError ℤ
  pub read : S → Text → S × Result StoreError (Text × ℤ)
  pub delete : S → Text → ℤ → S × Result StoreError Unit

-- Why the lease is held (errCloudLeaseHeld), by the cause that it is annotated with.
pub data Held : Type 0 where
  write_failed read_failed no_generation delete_failed not_reacquired : Held
  refused : Liveness → Held

pub data LeaseError : Type 0 where
  invalid_execution : LeaseError
  held : Held → LeaseError

-- cloudLease
pub record Lease : Type 0 where
  pub name : Text
  pub generation : ℤ

-- What the process is run with: json.Unmarshal and json.Marshal of the body, the probe, and the
-- values of the environment variables.
pub record Worker : Type 0 where
  pub unmarshal : Text → Option Payload
  pub marshal : Text → Text → Text
  pub probe : Text → Text → Liveness
  pub job_variables : List Text

-- The name of the lease below the project's prefix.
abbrev pub lease_path : Text
lease_path = codes ".lwc/publish/lease.json"

-- parseLeasePayload
unfoldable pub parse_lease_payload : Worker → Text → Option Payload
parse_lease_payload w data_ = elim (w.unmarshal data_) [
  | none ↦ none
  | some p ↦
      let execution = trim_space p.execution in
      if str_eq execution [] || not (valid_execution_id execution)
      then none
      else some (record { execution = execution; started_at = trim_space p.started_at })
]

module _ {S : Type 0} (store : ObjectStore S) (w : Worker) where
  -- tryCreateCloudLease
  unfoldable pub try_create : S → Text → Text → Text → S × Result StoreError Lease
  try_create s name holder started_at =
      let (s', r) = store.create s name (w.marshal holder started_at) in
      elim r [ err e ↦ (s', err e) | ok g ↦ (s', ok (record { name = name; generation = g })) ]

  -- The deletion of maybeReclaimCloudLease: `none` where the lease counts as reclaimed.
  unfoldable pub delete_lease : S → Text → ℤ → S × Option Held
  delete_lease s name g =
      let (s', r) = store.delete s name g in
      elim r [
        | ok u ↦ (s', none)
        | err conflict ↦ (s', none)
        | err missing ↦ (s', none)
        | err other ↦ (s', some delete_failed)
      ]

  -- The probe of maybeReclaimCloudLease, for a holder that was parsed.
  unfoldable pub reclaim_from : S → Text → ℤ → Payload → S × Option Held
  unfolding delete_lease
  reclaim_from s name g p =
      let job = trim_space (job_name w.job_variables) in
      if str_eq job [] || not (belongs_to_job p.execution job)
      then (s, some (refused malformed))
      else let state = w.probe p.execution job in
        if not (allow_lease_reclaim state) then (s, some (refused state)) else delete_lease s name g

  -- maybeReclaimCloudLease after the read.
  unfoldable pub reclaim_read : S → Text → Text → ℤ → S × Option Held
  reclaim_read s name data_ g =
      if leb_ℤ g (pos 0) then (s, some no_generation) else elim (parse_lease_payload w data_) [
        | none ↦ (s, some (refused malformed))
        | some p ↦ reclaim_from s name g p
      ]

  -- maybeReclaimCloudLease
  unfoldable pub maybe_reclaim : S → Text → S × Option Held
  maybe_reclaim s name =
      let (s', r) = store.read s name in
      elim r [
        | err missing ↦ (s', none)
        | err conflict ↦ (s', some read_failed)
        | err other ↦ (s', some read_failed)
        | ok (data_, g) ↦ reclaim_read s' name data_ g
      ]

  -- The one retry of acquireCloudLease.
  unfoldable pub retry_create : S → Text → Text → Text → S × Result LeaseError Lease
  unfolding try_create
  retry_create s name holder started_at =
      let (s', r) = try_create s name holder started_at in
      elim r [ ok l ↦ (s', ok l) | err e ↦ (s', err (held not_reacquired)) ]

  -- acquireCloudLease after a conflict.
  unfoldable pub acquire_contended : S → Text → Text → Text → S × Result LeaseError Lease
  unfolding maybe_reclaim retry_create
  acquire_contended s name holder started_at =
      let (s', h) = maybe_reclaim s name in
      elim h [ some cause ↦ (s', err (held cause)) | none ↦ retry_create s' name holder started_at ]

  -- acquireCloudLease; the two times are those of the two attempts to create the lease.
  unfoldable pub acquire : S → Text → Text → Text → Text → S × Result LeaseError Lease
  unfolding acquire_contended
  acquire s prefix execution first second =
      let holder = trim_space execution in
      let name = prefix ++ lease_path in
      if not (valid_execution_id holder)
      then (s, err invalid_execution)
      else let (s', r) = try_create s name holder first in
        elim r [
          | ok l ↦ (s', ok l)
          | err conflict ↦ acquire_contended s' name holder second
          | err missing ↦ (s', err (held write_failed))
          | err other ↦ (s', err (held write_failed))
        ]

  -- The loop of storage.RetryGenerationCleanup: whether a deletion succeeded.
  unfoldable pub cleanup : ℕ → S → Text → ℤ → S × Bool
  cleanup zero s name g = (s, false)
  cleanup (suc attempts) s name g =
      let (s', r) = store.delete s name g in
      let rest = cleanup attempts s' name g in elim r [ ok u ↦ (s', true) | err e ↦ rest ]

  -- cloudLease.Release, with the number of attempts; the time limits do not appear.
  unfoldable pub release : ℕ → S → Lease → S × Bool
  unfolding cleanup
  release attempts s l =
      if leb_ℤ l.generation (pos 0) || attempts == 0
      then (s, false)
      else cleanup attempts s l.name l.generation
