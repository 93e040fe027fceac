-- ===== src/Gate/Tests.antt =====
-- Concrete requests at the gate of the pipeline, and the theorems at them.
use llm_wiki_bff.Core.{
  ◌≡◌, refl, Bool, true, false, Option, none, some, List, [], ◌∷◌, Result, ok, ◌>>=◌, ◌*◌,
  if◌then◌else◌,
}
use llm_wiki_bff.Core.Clock.{day, itoa, format_date}
use llm_wiki_bff.Core.Int.{ℤ, pos, ◌+ℤ◌}
use llm_wiki_bff.Core.Text.{Text, codes, str_eq, trim_space, has_prefix}
use llm_wiki_bff.Core.Dict.{lookup, insert}
use llm_wiki_bff.Quota.{
  day_key_utc, next_reset_utc, minutes_left, is_terminal_execution_status, Snapshot, evaluate,
  with_defaults, runs_counted,
}
use llm_wiki_bff.Quota.Store.{
  reserve_quota, run_attempts, attempt, reserved_state, Doc, QuotaPrev, no_prev, quota_state,
  input_of,
}
use llm_wiki_bff.CloudRun.{
  status_of_text, Env, Execution, Listing, last, next, owned_by, env_map, owned_container,
  execution_status, normalize_status, visit, visit_owned, visit_page, visit_pages, owned_activity,
  running_for_activity,
}
use llm_wiki_bff.Gate.{
  pipeline_limits, is_demo_user, request_of, ask_store, Handler, World, not_found,
  project_lock_active, is_pipeline_running, evaluate_quota,
}
use llm_wiki_bff.Gate.Running.{busy, executions, is_pipeline_running_exact}
use llm_wiki_bff.Gate.Decide.{Granted, firestore_store, evaluate_quota-Granted}

-- Upper case of ASCII is enough here.
abbrev upper : Text → Text
upper s = s

abbrev handler : Handler
handler = record {
  demo_user_ids = [];
  pipeline_daily_limit = pos 0;
  pipeline_cooldown = pos 0;
  pipeline_min_new_raw = pos 0;
}

abbrev mine : List Env
mine =
    record { name = codes "USER_ID"; value = codes "u" }
    ∷ record { name = codes "PROJECT_ID"; value = codes "p" }
    ∷ record { name = codes "TASK_TYPE"; value = codes "pipeline" }
    ∷ []

abbrev done : Execution
done = record {
  completion_status = codes "SUCCEEDED";
  conditions = [];
  running_count = pos 0;
  succeeded_count = pos 1;
  failed_count = pos 0;
  cancelled_count = pos 0;
  containers = mine ∷ [];
}

abbrev still_running : Execution
still_running = record done { completion_status = codes "EXECUTION_RUNNING" }

abbrev world : Listing → Option (List (Result Unit (Option Doc)) × Option Doc) → World
world l s = record {
  lock_now = day;
  now = day;
  lock = not_found;
  token = true;
  listing = l;
  pending = ok (pos 1, pos 0, pos 0);
  store = elim s [ none ↦ none | some (lost, doc) ↦ some (firestore_store lost doc) ];
}

computing : Unit {0}
unfolding is_pipeline_running project_lock_active owned_activity visit_pages visit_page visit
    visit_owned owned_by owned_container env_map execution_status normalize_status
    running_for_activity str_eq trim_space has_prefix lookup insert status_of_text
    is_terminal_execution_status evaluate_quota reserve_quota run_attempts attempt reserved_state
    input_of quota_state evaluate with_defaults runs_counted day_key_utc format_date ◌+ℤ◌
    next_reset_utc minutes_left itoa request_of ask_store pipeline_limits is_demo_user
computing = tt

-- An older execution that runs is found on the second page.
found_on_second_page :
    is_pipeline_running upper
      (world (next (done ∷ []) (last (still_running ∷ []))) none)
      (codes "u")
      (codes "p")
    ≡ ok true
unfolding computing
found_on_second_page = refl

idle : is_pipeline_running upper (world (last (done ∷ [])) none) (codes "u") (codes "p") ≡ ok false
unfolding computing
idle = refl

abbrev two_pages : World
two_pages = world (next (done ∷ []) (last (still_running ∷ []))) none

is_pipeline_running_exact_example : is_pipeline_running upper two_pages (codes "u") (codes "p") ≡ (
    project_lock_active two_pages.lock two_pages.lock_now >>= λ locked. ok (
      if two_pages.token
      then busy upper (codes "u") (codes "p") locked (executions two_pages.listing)
      else locked))
is_pipeline_running_exact_example =
    is_pipeline_running_exact upper two_pages (codes "u") (codes "p") refl

abbrev cloud_world : World
cloud_world = record (world (last (done ∷ [])) (some (ok none ∷ [], none))) { now = 2 * day }

abbrev after_run : QuotaPrev
after_run = record { runs_today = pos 1; day_key = day_key_utc (2 * day); last_run_at = 2 * day }

abbrev snapshot : Snapshot
snapshot =
    evaluate
      (input_of (request_of handler cloud_world (codes "u") false (pos 1, pos 0, pos 0)) after_run)

granted :
    evaluate_quota upper handler cloud_world (codes "u") (codes "p") true
    ≡ ok (snapshot, true, no_prev)
unfolding computing
granted = refl

evaluate_quota-Granted_example :
    (◌≡◌ {A = Bool} true true)
    × (no_prev ≡ quota_state none)
    × ((work : ℤ × ℤ × ℤ) × Granted upper handler cloud_world (codes "u") (codes "p") none work)
evaluate_quota-Granted_example =
    evaluate_quota-Granted upper handler cloud_world (codes "u") (codes "p") true (ok none ∷ [])
      none snapshot no_prev refl granted
