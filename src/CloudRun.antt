-- ===== src/CloudRun.antt =====
-- The Cloud Run executions of a project: their owner and their status
-- (internal/handler/v1/endpoints.go), and the scan of all of them
-- (pipelineOwnedExecutionActivityForOwner and pipelineRunningForOwnedActivity of
-- internal/handler/v1/pipeline_quota.go). What Cloud Run answers is given; `to_upper` is
-- strings.ToUpper.
use llm_wiki_bff.Core.{
  Bool, true, false, not, ◌&&◌, ◌||◌, Option, none, some, List, [], ◌∷◌, length, drop, any,
  if◌then◌else◌,
}
use llm_wiki_bff.Core.Int.{ℤ, pos, ltb_ℤ}
use llm_wiki_bff.Core.Text.{Text, codes, str_eq, has_prefix, trim_space}
use llm_wiki_bff.Core.Dict.{lookup, insert}
use llm_wiki_bff.Quota.{
  ExecutionStatus, running, succeeded, failed, cancelled, other_status,
  is_terminal_execution_status,
}

-- cloudRunEnv, cloudRunCondition, cloudRunContainer and the parts of cloudRunExecution that decide.
pub record Env : Type 0 where
  pub name : Text
  pub value : Text

pub record Condition : Type 0 where
  pub kind : Text
  pub state : Text
  pub status : Text
  pub reason : Text

pub record Execution : Type 0 where
  pub completion_status : Text
  pub conditions : List Condition
  pub running_count : ℤ
  pub succeeded_count : ℤ
  pub failed_count : ℤ
  pub cancelled_count : ℤ
  -- Template.Containers, each by its variables.
  pub containers : List (List Env)

-- The map of a container's variables; a later one of the same name wins.
unfoldable pub env_map : List (Text × Text) → List Env → List (Text × Text)
env_map m [] = m
env_map m (e ∷ es) = env_map (insert e.name e.value m) es

-- env[name], the empty string where it is not there.
unfoldable pub read_env : List (Text × Text) → Text → Text
read_env m name = elim (lookup name m) [ none ↦ [] | some v ↦ v ]

unfoldable pub owned_container : Text → Text → List Env → Bool
unfolding read_env
owned_container user project es =
    let env = env_map [] es in
    str_eq (read_env env (codes "USER_ID")) user
    && str_eq (read_env env (codes "PROJECT_ID")) project
    && str_eq (read_env env (codes "TASK_TYPE")) (codes "pipeline")

-- cloudRunExecutionOwnedBy
unfoldable pub owned_by : Execution → Text → Text → Bool
owned_by e user_id project_id =
    let user = trim_space user_id in
    let project = trim_space project_id in
    if str_eq user [] || str_eq project []
    then false
    else any (owned_container user project) e.containers

-- strings.TrimPrefix
unfoldable pub trim_prefix : Text → Text → Text
trim_prefix s p = if has_prefix s p then drop (length p) s else s

-- The texts that the program compares an execution's status with.
unfoldable pub status_of_text : Text → ExecutionStatus
status_of_text s =
    if str_eq s (codes "RUNNING")
    then running
    else if str_eq s (codes "SUCCEEDED")
    then succeeded
    else if str_eq s (codes "FAILED")
    then failed
    else if str_eq s (codes "CANCELLED")
    then cancelled
    else other_status s

module _ (to_upper : Text → Text) where
  -- normalizeCloudRunStatus
  unfoldable pub normalize_status : Text → ExecutionStatus
  unfolding trim_prefix
  normalize_status value =
      let upper = to_upper (trim_space value) in
      let status = trim_prefix (trim_prefix upper (codes "CONDITION_")) (codes "EXECUTION_") in
      if str_eq status (codes "SUCCEEDED") || str_eq status (codes "TRUE")
      then succeeded
      else if str_eq status (codes "FAILED") || str_eq status (codes "FALSE")
      then failed
      else if str_eq status (codes "CANCELLED")
      then cancelled
      else if str_eq status (codes "PENDING")
          || str_eq status (codes "RECONCILING")
          || str_eq status (codes "UNKNOWN")
      then running
      else status_of_text status

  -- The loop over the conditions.
  unfoldable pub condition_status : List Condition → Option ExecutionStatus
  condition_status [] = none
  condition_status (c ∷ cs) =
      let rest = condition_status cs in
      if not (str_eq c.kind (codes "Completed"))
      then rest
      else if not (str_eq c.state [])
      then some (normalize_status c.state)
      else if not (str_eq c.status [])
      then some (normalize_status c.status)
      else if not (str_eq c.reason [])
      then some (normalize_status c.reason)
      else rest

  -- The counts, where no text decides.
  unfoldable pub count_status : Execution → ExecutionStatus
  count_status e =
      if ltb_ℤ (pos 0) e.failed_count
      then failed
      else if ltb_ℤ (pos 0) e.cancelled_count
      then cancelled
      else if ltb_ℤ (pos 0) e.running_count
      then running
      else if ltb_ℤ (pos 0) e.succeeded_count
      then succeeded
      else other_status (codes "UNKNOWN")

  -- cloudRunExecutionStatus
  unfoldable pub execution_status : Execution → ExecutionStatus
  execution_status e =
      if not (str_eq e.completion_status [])
      then normalize_status e.completion_status
      else elim (condition_status e.conditions) [ some s ↦ s | none ↦ count_status e ]

-- hasOwned, allTerminal and anyRunning.
pub record Activity : Type 0 where
  pub has_owned : Bool
  pub all_terminal : Bool
  pub any_running : Bool

abbrev pub no_activity : Activity
no_activity = record { has_owned = false; all_terminal = false; any_running = false }

abbrev pub found_running : Activity
found_running = record { has_owned = true; all_terminal = false; any_running = true }

-- The answers of Cloud Run: the pages of one listing, until a page without a next one or an error.
pub data Listing : Type 0 where
  last : List Execution → Listing
  next : List Execution → Listing → Listing
  failure : Listing

-- What one owned execution does to the variables, and whether the function returns.
unfoldable pub visit_owned : Activity → ExecutionStatus → Activity × Bool
visit_owned a running = (found_running, true)
visit_owned a status =
    let b = if not a.has_owned then record a { has_owned = true; all_terminal = true } else a in
    (
      if not (is_terminal_execution_status status) then record b { all_terminal = false } else b,
      false,
    )

module _ (to_upper : Text → Text) (user project : Text) where
  -- The body of the loop for one execution.
  unfoldable pub visit : Activity → Execution → Activity × Bool
  unfolding visit_owned
  visit a e =
      if not (owned_by e user project)
      then (a, false)
      else visit_owned a (execution_status to_upper e)

  -- The loop over the executions of a page.
  unfoldable pub visit_page : Activity → List Execution → Activity × Bool
  visit_page a [] = (a, false)
  visit_page a (e ∷ es) =
      let (b, stop) = visit a e in let rest = visit_page b es in if stop then (b, true) else rest

  -- The loop over the pages.
  unfoldable pub visit_pages : Activity → Listing → Option Activity
  visit_pages a failure = none
  visit_pages a (last es) = some (visit_page a es).0
  visit_pages a (next es l) =
      let (b, stop) = visit_page a es in let rest = visit_pages b l in if stop then some b else rest

  -- pipelineOwnedExecutionActivityForOwner; `token` says whether the metadata server gave one.
  unfoldable pub owned_activity : Bool → Listing → Option Activity
  owned_activity token l = if token then visit_pages no_activity l else none

-- pipelineRunningForOwnedActivity
unfoldable pub running_for_activity : Bool → Activity → Bool
running_for_activity lock_active a =
    if a.any_running then true else if a.has_owned && a.all_terminal then false else lock_active
