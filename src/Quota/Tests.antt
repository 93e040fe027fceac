-- ===== src/Quota/Tests.antt =====
-- Runs of the quota modules (internal/pipelinequota, internal/firestore/quota.go).
use llm_wiki_bff.Core.{
  ℕ, ◌+◌, ◌-◌, ◌*◌, ◌≤◌, ◌≡◌, refl, ◌↔◌, ◌⊎◌, true, false, none, some, [], ◌∷◌, ◌++◌, ok, err,
  arith, ◌^◌,
}
use llm_wiki_bff.Core.Int.{pos, ◌+ℤ◌}
use llm_wiki_bff.Core.Text.{codes, str_eq}
use llm_wiki_bff.Core.Clock.{minute, hour, itoa, format_date}
use llm_wiki_bff.Quota.{
  Limits, Input, with_defaults, day_key_utc, runs_counted, int_minutes, minutes_left,
  next_reset_utc, evaluate,
}
use llm_wiki_bff.Quota.Decide.{MayRun, evaluate_allowed, slack, cooldown_minutes}
use llm_wiki_bff.Quota.Store.{
  QuotaPrev, Request, quota_state, input_of, reserved_state, written, reserve_quota, run_attempts,
  attempt, refund_quota, no_prev,
}
use llm_wiki_bff.Quota.Reserve.{outcome, reserve_quota_exact, refund-reserve}
use llm_wiki_bff.Quota.Day.{counted, reservations, daily_limit_kept}

abbrev limits : Limits
limits = record { daily_limit = pos 2; cooldown = pos 0; min_new_raw = pos 0 }

-- 1 January 1970, 00:00.
abbrev epoch : ℕ
epoch = 62135596800000000000

-- Half an hour after a run.
abbrev soon : Input
soon = record {
  now = epoch + 1800000000000;
  limits = limits;
  is_demo = false;
  already_running = false;
  runs_today = pos 1;
  day_key = codes "1970-01-01";
  last_run_at = epoch;
  new_raw_files = pos 3;
  raw_dirty_files = pos 0;
  annotation_dirty_files = pos 0;
  enforced = true;
}

running : Unit {0}
unfolding evaluate with_defaults runs_counted day_key_utc format_date str_eq ◌+ℤ◌ next_reset_utc
    minutes_left itoa
running = tt

cooling : (evaluate soon).cooldown_until ≡ some (epoch + hour)
unfolding running
cooling = refl

waits : (evaluate soon).message ≡ codes "Cooldown active; try again in 31 minutes"
unfolding running
waits = refl

evaluate_allowed_example :
    ((evaluate soon).allowed ≡ true) ↔ ((soon.enforced ≡ false) ⊎ MayRun soon)
evaluate_allowed_example = evaluate_allowed soon

-- From 2^18 minutes on, a rest of almost a minute is rounded up.
rounds : int_minutes (2 ^ 18 * minute + minute - 1) ≡ 2 ^ 18 + 1
unfolding int_minutes
rounds = refl

rounds_not : int_minutes (2 ^ 17 * minute + minute - 1) ≡ 2 ^ 17
unfolding int_minutes
rounds_not = refl

cooldown_minutes_example :
    ((evaluate soon).message
      ≡ codes "Cooldown active; try again in "
        ++ (itoa (pos (minutes_left soon.now (epoch + hour))) ++ codes " minutes"))
    × (epoch + hour ≤ soon.now + minutes_left soon.now (epoch + hour) * minute)
    × (soon.now + (minutes_left soon.now (epoch + hour) - 1) * minute
        ≤ epoch + hour + slack (epoch + hour - soon.now))
cooldown_minutes_example = cooldown_minutes soon (epoch + hour) cooling (omega arith)

abbrev request : Request
request = record {
  limits = limits;
  now = epoch;
  is_demo = false;
  already_running = false;
  new_raw_files = pos 1;
  raw_dirty_files = pos 0;
  annotation_dirty_files = pos 0;
}

abbrev after_first : QuotaPrev
after_first = record { runs_today = pos 1; day_key = codes "1970-01-01"; last_run_at = epoch }

first_run :
    reserve_quota request (ok none ∷ []) (ok none) true
    ≡ (ok (no_prev, evaluate (input_of request after_first), true), some after_first)
unfolding reserve_quota run_attempts attempt reserved_state input_of quota_state running
first_run = refl

reserve_quota_exact_example :
    (reserve_quota request (ok none ∷ []) (ok none) true ≡ outcome request (quota_state none))
    × (reserve_quota request (ok none ∷ []) (ok none) false ≡ (err tt, none))
    × (reserve_quota request (ok none ∷ []) (err tt) true ≡ (err tt, none))
reserve_quota_exact_example = reserve_quota_exact request (ok none ∷ []) none true

empty_time : (quota_state none).last_run_at ≡ 0
unfolding quota_state
empty_time = refl

refund-reserve_example :
    quota_state (refund_quota (λ t. t) no_prev (written (λ t. t) (some after_first) none))
    ≡ quota_state none
refund-reserve_example =
    refund-reserve (λ t. t) request (ok none ∷ []) none no_prev
      (evaluate (input_of request after_first)) after_first refl first_run

key_of_epoch : day_key_utc epoch ≡ codes "1970-01-01"
unfolding running
key_of_epoch = refl

two_default : (with_defaults limits).daily_limit ≡ pos 2
unfolding with_defaults
two_default = refl

nothing_counted : counted (codes "1970-01-01") (quota_state none) ≡ pos 0
unfolding quota_state str_eq
nothing_counted = refl

daily_limit_kept_example : 0 + reservations (λ t. t) (request ∷ request ∷ []) none ≤ 2
daily_limit_kept_example =
    daily_limit_kept (codes "1970-01-01") limits 2 0 (λ t. t) (request ∷ request ∷ []) none
      two_default (omega arith) ((key_of_epoch, refl), ((key_of_epoch, refl), tt)) nothing_counted
      (omega arith)
