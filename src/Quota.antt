-- ===== src/Quota.antt =====
-- internal/pipelinequota/quota.go: the rules that decide whether a pipeline may run.
pub mod Day
pub mod Decide
pub mod Reserve
pub mod Store
mod Tests
use llm_wiki_bff.Core.{
  ℕ, zero, suc, ◌+◌, ◌-◌, ◌*◌, ◌/◌, ◌%◌, ◌^◌, Bool, true, false, not, ◌&&◌, ◌||◌, Option, none,
  some, List, [], ◌∷◌, ◌++◌, length, ltb, leb, ◌==◌, if◌then◌else◌,
}
use llm_wiki_bff.Core.Int.{ℤ, pos, ◌+ℤ◌, pos_part, ltb_ℤ, leb_ℤ, eqb_ℤ, max_int64}
use llm_wiki_bff.Core.Text.{Text, codes, str_eq}
use llm_wiki_bff.Core.Clock.{minute, hour, day, itoa, format_date}

pub data Reason : Type 0 where
  none_given demo daily_limit cooldown already_running no_new_raw : Reason

pub record Limits : Type 0 where
  pub daily_limit : ℤ
  -- A time.Duration, in nanoseconds.
  pub cooldown : ℤ
  pub min_new_raw : ℤ

pub record Input : Type 0 where
  pub now : ℕ
  pub limits : Limits
  pub is_demo : Bool
  pub already_running : Bool
  pub runs_today : ℤ
  pub day_key : Text
  pub last_run_at : ℕ
  pub new_raw_files : ℤ
  pub raw_dirty_files : ℤ
  pub annotation_dirty_files : ℤ
  pub enforced : Bool

pub record Snapshot : Type 0 where
  pub enforced : Bool
  pub allowed : Bool
  pub reason : Reason
  pub message : Text
  pub runs_today : ℤ
  pub daily_limit : ℤ
  pub cooldown_until : Option ℕ
  pub next_reset : ℕ
  pub new_raw_files : ℤ
  pub raw_dirty_files : ℤ
  pub annotation_dirty_files : ℤ
  pub pending_work : ℤ
  pub min_new_raw : ℤ
  pub already_running : Bool

-- DayKeyUTC
unfoldable pub day_key_utc : ℕ → Text
day_key_utc t = format_date (t / day)

-- NextResetUTC: midnight of the next day.
unfoldable pub next_reset_utc : ℕ → ℕ
next_reset_utc t = (t / day + 1) * day

-- The loop of CountNewRaw.
count_after : ℕ → List ℕ → ℕ
count_after last [] = 0
count_after last (u ∷ us) = (if ltb last u then 1 else 0) + count_after last us

-- CountNewRaw
unfoldable pub count_new_raw : List ℕ → ℕ → ℕ
unfolding count_after
count_new_raw updated_times last_run_at =
    if last_run_at == 0 then length updated_times else count_after last_run_at updated_times

-- The defaults at the beginning of Evaluate: two runs, one hour, one file.
unfoldable pub with_defaults : Limits → Limits
with_defaults lim = record {
  daily_limit = if leb_ℤ lim.daily_limit (pos 0) then pos 2 else lim.daily_limit;
  cooldown = if leb_ℤ lim.cooldown (pos 0) then pos hour else lim.cooldown;
  min_new_raw = if leb_ℤ lim.min_new_raw (pos 0) then pos 1 else lim.min_new_raw;
}

-- The runs counted against the limit: those stored for another day do not.
unfoldable pub runs_counted : Input → ℤ
runs_counted i = if str_eq i.day_key (day_key_utc i.now) then i.runs_today else pos 0

-- block
unfoldable pub block : Snapshot → Reason → Text → Snapshot
block s r msg = record s { allowed = false; reason = r; message = msg }

-- The snapshot before any rule has spoken.
unfoldable pub open_snapshot : Input → Limits → Snapshot
open_snapshot i lim = record {
  enforced = i.enforced;
  allowed = false;
  reason = none_given;
  message = [];
  runs_today = runs_counted i;
  daily_limit = lim.daily_limit;
  cooldown_until = none;
  next_reset = next_reset_utc i.now;
  new_raw_files = i.new_raw_files;
  raw_dirty_files = i.raw_dirty_files;
  annotation_dirty_files = i.annotation_dirty_files;
  pending_work = i.new_raw_files +ℤ i.raw_dirty_files +ℤ i.annotation_dirty_files;
  min_new_raw = lim.min_new_raw;
  already_running = i.already_running;
}

-- The highest power of 2 up to 2 ^ n that is at most a positive number.
unfoldable pub binade : ℕ → ℕ → ℕ
binade zero m = 1
binade (suc n) m = let lower = binade n m in if leb (2 ^ suc n) m then 2 ^ suc n else lower

-- Whether float64(m) + float64(r)/(60*1e9) rounds to m + 1, for r below a minute: the quotient and
-- the sum are rounded to 53 bits. A Duration has less than 2 ^ 28 minutes.
unfoldable pub rounds_up : ℕ → ℕ → Bool
unfolding binade
rounds_up m r = not (m == 0) && leb ((minute - r) * 2 ^ 54) (minute * (2 * binade 27 m + 1))

-- int(d.Minutes()), for a Duration that is not negative.
unfoldable pub int_minutes : ℕ → ℕ
unfolding rounds_up
int_minutes d = d / minute + (if rounds_up (d / minute) (d % minute) then 1 else 0)

-- int(until.Sub(now).Minutes()) + 1, for `until` after `now`: a Duration is at most 2^63 - 1.
unfoldable pub minutes_left : ℕ → ℕ → ℕ
unfolding int_minutes
minutes_left now until =
    int_minutes (if ltb max_int64 (until - now) then max_int64 else until - now) + 1

-- The last rule of Evaluate.
unfoldable pub evaluate_work : Input → Limits → Snapshot → Snapshot
unfolding block
evaluate_work i lim snap =
    if ltb_ℤ (i.new_raw_files +ℤ i.raw_dirty_files) lim.min_new_raw
      && eqb_ℤ i.annotation_dirty_files (pos 0)
    then block snap no_new_raw (codes "Upload at least one new or modified raw file before running")
    else record snap { allowed = true }

-- The cooldown of Evaluate, and what follows it.
unfoldable pub evaluate_cooldown : Input → Limits → Snapshot → Snapshot
unfolding block evaluate_work
evaluate_cooldown i lim snap =
    if i.last_run_at == 0
    then evaluate_work i lim snap
    else let until = i.last_run_at + pos_part lim.cooldown in
      if ltb i.now until
      then block (record snap { cooldown_until = some until }) cooldown
          (codes "Cooldown active; try again in "
            ++ (itoa (pos (minutes_left i.now until)) ++ codes " minutes"))
      else evaluate_work i lim snap

-- Evaluate
unfoldable pub evaluate : Input → Snapshot
unfolding open_snapshot block evaluate_cooldown
evaluate i =
    let lim = with_defaults i.limits in
    let snap = open_snapshot i lim in
    if not i.enforced
    then record snap { allowed = true }
    else if i.is_demo
    then block snap demo (codes "Demo sessions cannot run the pipeline")
    else if i.already_running
    then block snap already_running (codes "A pipeline is already running for this project")
    else if leb_ℤ lim.daily_limit snap.runs_today
    then block snap daily_limit (
        codes "Daily limit reached ("
        ++ (itoa snap.runs_today ++ (b'/' ∷ (itoa lim.daily_limit ++ codes ")"))))
    else evaluate_cooldown i lim snap

pub data ExecutionStatus : Type 0 where
  running succeeded failed cancelled : ExecutionStatus
  -- Any other text.
  other_status : Text → ExecutionStatus

-- IsTerminalExecutionStatus
unfoldable pub is_terminal_execution_status : ExecutionStatus → Bool
is_terminal_execution_status succeeded = true
is_terminal_execution_status failed = true
is_terminal_execution_status cancelled = true
is_terminal_execution_status _ = false

is_running : ExecutionStatus → Bool
is_running running = true
is_running _ = false

-- ComputeAlreadyRunning
unfoldable pub compute_already_running : Bool → ExecutionStatus → Bool
unfolding is_running is_terminal_execution_status
compute_already_running lock_active status =
    if is_running status
    then true
    else if is_terminal_execution_status status
    then false
    else lock_active
