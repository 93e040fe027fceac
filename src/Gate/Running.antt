-- ===== src/Gate/Running.antt =====
-- What the scan of the executions (pipelineOwnedExecutionActivityForOwner and isPipelineRunning of
-- internal/handler/v1/pipeline_quota.go) finds in all pages together.
use llm_wiki_bff.Core.{
  ◌≡◌, refl, ◌⊎◌, inl, inr, Bool, true, false, not, ◌&&◌, ◌||◌, Option, some, List, [], ◌∷◌, ◌++◌,
  ok, all, any, any-append, all-append, ◌>>=◌, arith, if◌then◌else◌, ◌∙◌, ap, Bool-cases,
}
use llm_wiki_bff.Core.Text.{Text}
use llm_wiki_bff.Quota.{ExecutionStatus, running, is_terminal_execution_status}
use llm_wiki_bff.CloudRun.{
  Execution, Activity, no_activity, found_running, Listing, last, next, failure, owned_by,
  execution_status, visit_owned, visit, visit_page, visit_pages, owned_activity,
  running_for_activity,
}
use llm_wiki_bff.Gate.{World, project_lock_active, is_pipeline_running}

abbrev is_live : ExecutionStatus → Bool
is_live running = true
is_live _ = false

-- What an execution counts for: owned or not, with its status.
abbrev join : Activity → Bool → ExecutionStatus → Activity
join a mine s = record {
  has_owned = a.has_owned || mine;
  all_terminal =
      (if a.has_owned then a.all_terminal else mine)
      && (not mine || is_terminal_execution_status s);
  any_running = a.any_running;
}

-- all_terminal is only set when has_owned is.
abbrev IsFair : Activity → Type 0
IsFair a = (a.has_owned ≡ true) ⊎ (a.all_terminal ≡ false)

join-IsFair : (a : Activity) (mine : Bool) (s : ExecutionStatus) → IsFair a → IsFair (join a mine s)
join-IsFair a mine s h = ground (arith, h)

visit_owned_lem :
    (a : Activity) (mine : Bool) (s : ExecutionStatus)
    → IsFair a
    → (if not mine then (a, false) else visit_owned a s)
      ≡ (if mine && is_live s then (found_running, true) else (join a mine s, false))
unfolding visit_owned is_terminal_execution_status
visit_owned_lem a mine s h = ground (arith, h)

-- The pages of a listing, in order, with whether it comes to an end without an error.
abbrev pub executions : Listing → List Execution
executions failure = []
executions (last es) = es
executions (next es l) = es ++ executions l

abbrev pub is_complete : Listing → Bool
is_complete failure = false
is_complete (last es) = true
is_complete (next es l) = is_complete l

module _ (to_upper : Text → Text) (user project : Text) where
  abbrev pub owned : Execution → Bool
  owned e = owned_by e user project

  -- Owned and running.
  abbrev pub live : Execution → Bool
  live e = owned e && is_live (execution_status to_upper e)

  -- Not owned, or at an end.
  abbrev pub over : Execution → Bool
  over e = not (owned e) || is_terminal_execution_status (execution_status to_upper e)

  -- What the executions say, read as a whole.
  abbrev pub rest_of : Activity → List Execution → Activity
  rest_of a es = record {
    has_owned = a.has_owned || any owned es;
    all_terminal = (if a.has_owned then a.all_terminal else any owned es) && all over es;
    any_running = a.any_running;
  }

  abbrev pub summary : Activity → List Execution → Activity
  summary a es = if any live es then found_running else rest_of a es

  visit_lem :
      (a : Activity) (e : Execution)
      → IsFair a
      → visit to_upper user project a e ≡ (
          if live e
          then (found_running, true)
          else (join a (owned e) (execution_status to_upper e), false))
  unfolding visit
  visit_lem a e h = visit_owned_lem a (owned e) (execution_status to_upper e) h

  -- The loop after one execution.
  abbrev continue_with : List Execution → Activity × Bool → Activity × Bool
  continue_with es v = if v.1 then (v.0, true) else visit_page to_upper user project v.0 es

  visit_page_lem :
      (a : Activity) (es : List Execution)
      → IsFair a
      → visit_page to_upper user project a es ≡ (summary a es, any live es)
  unfolding visit_page
  visit_page_lem a [] h = ground (arith, h)
  visit_page_lem a (e ∷ es) h =
      let b = join a (owned e) (execution_status to_upper e) in
      let step = ap (continue_with es) (visit_lem a e h) in
      let rest = visit_page_lem b es (join-IsFair a (owned e) (execution_status to_upper e) h) in
      elim (Bool-cases (live e)) [
        | inl l ↦ step ∙ ground (arith, l)
        | inr l ↦ step ∙ ground (arith, l, rest)
      ]

  rest_of-IsFair : (a : Activity) (es : List Execution) → IsFair a → IsFair (rest_of a es)
  rest_of-IsFair a es h = ground (arith, h)

  none_owned : (es : List Execution) → any owned es ≡ false → all over es ≡ true
  none_owned [] h = refl
  none_owned (e ∷ es) h = ground (arith, h, none_owned es)

  summary-append :
      (a : Activity) (xs ys : List Execution)
      → IsFair a
      → summary a (xs ++ ys) ≡ (if any live xs then found_running else summary (rest_of a xs) ys)
  summary-append a xs ys h =
      ground
        (arith, any-append live xs ys, any-append owned xs ys, all-append over xs ys, none_owned xs)

  abbrev then_pages : Listing → Activity × Bool → Option Activity
  then_pages l v = if v.1 then some v.0 else visit_pages to_upper user project v.0 l

  visit_pages_lem :
      (a : Activity) (l : Listing)
      → IsFair a
      → is_complete l ≡ true
      → visit_pages to_upper user project a l ≡ some (summary a (executions l))
  unfolding visit_pages
  visit_pages_lem a failure h k = cc
  visit_pages_lem a (last es) h k = ap (λ (v : Activity × Bool). some v.0) (visit_page_lem a es h)
  visit_pages_lem a (next es l) h k =
      let b = summary a es in
      let step = ap (then_pages l) (visit_page_lem a es h) in
      let whole = summary-append a es (executions l) h in
      elim (Bool-cases (any live es)) [
        | inl e ↦ step ∙ ground (arith, e, whole)
        | inr e ↦
            let rest = visit_pages_lem (rest_of a es) l (rest_of-IsFair a es h) k in
            step ∙ ground (arith, e, whole, rest)
      ]

-- A project is busy by its executions: one of its own runs; or the lock is held, and it has no
-- execution of its own or one that has not come to an end.
abbrev pub busy : (Text → Text) → Text → Text → Bool → List Execution → Bool
busy to_upper user project locked es =
    any (live to_upper user project) es
    || (locked && not (any (owned to_upper user project) es && all (over to_upper user project) es))

-- With a listing that was read to its end, isPipelineRunning decides by all executions of the
-- project and the lock: a running one blocks wherever it stands, and a held lock counts unless the
-- project has executions and all of them are terminal. Without the listing, the lock decides; an
-- error on the lock is the error.
pub is_pipeline_running_exact :
    (to_upper : Text → Text) (w : World) (user project : Text)
    → is_complete w.listing ≡ true
    → is_pipeline_running to_upper w user project ≡ (
        project_lock_active w.lock w.lock_now >>= λ locked.
        ok (if w.token then busy to_upper user project locked (executions w.listing) else locked))
unfolding is_pipeline_running owned_activity running_for_activity
is_pipeline_running_exact to_upper w user project h =
    let scan = visit_pages_lem to_upper user project no_activity w.listing (inr refl) h in
    elim (Bool-cases w.token) [ inl e ↦ ground (arith, e, scan) | inr e ↦ ground (arith, e) ]
