-- ===== src/Quota/Decide.antt =====
-- When Evaluate (internal/pipelinequota/quota.go) allows a run, and why it does not.
use llm_wiki_bff.Core.{
  ℕ, ◌+◌, ◌-◌, ◌*◌, ◌%◌, ◌≤◌, ◌<◌, ◌≡◌, ◌≢◌, ◌↔◌, ◌⊎◌, inl, inr, true, false, some, arith,
  Bool-cases, ◌++◌, zero, suc, ◌^◌, ◌/◌, ltb, if◌then◌else◌,
}
use llm_wiki_bff.Core.Int.{pos, ◌+ℤ◌, pos_part, ◌<ℤ◌, ◌≤ℤ◌, max_int64}
use llm_wiki_bff.Core.Clock.{minute, day, itoa}
use llm_wiki_bff.Core.Text.{codes}
use llm_wiki_bff.Quota.{
  none_given, demo, daily_limit, cooldown, already_running, no_new_raw, Input, with_defaults,
  runs_counted, binade, rounds_up, int_minutes, minutes_left, next_reset_utc, evaluate,
}

-- The cooldown of the last run is over, or there was no run.
abbrev pub IsCool : Input → Type 0
IsCool i =
    (i.last_run_at ≡ 0) ⊎ (i.last_run_at + pos_part (with_defaults i.limits).cooldown ≤ i.now)

-- There is enough to do: raw files up to the minimum, or any annotation.
abbrev pub HasWork : Input → Type 0
HasWork i =
    ((with_defaults i.limits).min_new_raw ≤ℤ (i.new_raw_files +ℤ i.raw_dirty_files))
    ⊎ (i.annotation_dirty_files ≢ pos 0)

-- What an enforced quota asks of a run.
pub record MayRun (i : Input) : Type 0 where
  pub no_demo : i.is_demo ≡ false
  pub idle : i.already_running ≡ false
  pub within : runs_counted i <ℤ (with_defaults i.limits).daily_limit
  pub cool : IsCool i
  pub work : HasWork i

evaluate_allowed_sound : (i : Input) → (evaluate i).allowed ≡ true → (i.enforced ≡ false) ⊎ MayRun i
unfolding evaluate
evaluate_allowed_sound i h = elim (Bool-cases i.enforced) [
  | inr off ↦ inl off
  | inl on ↦ inr (record {
    no_demo = ground arith;
    idle = ground arith;
    within = ground arith;
    cool = ground arith;
    work = ground arith;
  })
]

evaluate_allowed_complete :
    (i : Input) → (i.enforced ≡ false) ⊎ MayRun i → (evaluate i).allowed ≡ true
unfolding evaluate
evaluate_allowed_complete i (inl off) = ground arith
evaluate_allowed_complete i (inr m) = ground (arith, m.no_demo, m.idle, m.within, m.cool, m.work)

-- Evaluate allows a run exactly when quotas are off or every rule is met.
pub evaluate_allowed :
    (i : Input) → ((evaluate i).allowed ≡ true) ↔ ((i.enforced ≡ false) ⊎ MayRun i)
evaluate_allowed i = (evaluate_allowed_sound i, evaluate_allowed_complete i)

-- Each reason, by the first rule that is broken: demo, running, daily limit, cooldown, work.
abbrev pub ReasonLaws : Input → Type 0
ReasonLaws i =
    (((evaluate i).reason ≡ demo) ↔ (i.is_demo ≡ true))
    × (((evaluate i).reason ≡ already_running) ↔ ((i.is_demo ≡ false) × (i.already_running ≡ true)))
    × (((evaluate i).reason ≡ daily_limit) ↔ (
        (i.is_demo ≡ false)
        × (i.already_running ≡ false)
        × ((with_defaults i.limits).daily_limit ≤ℤ runs_counted i)))
    × (((evaluate i).reason ≡ cooldown) ↔ (
        (i.is_demo ≡ false)
        × (i.already_running ≡ false)
        × (runs_counted i <ℤ (with_defaults i.limits).daily_limit)
        × (i.last_run_at ≢ 0)
        × (i.now < i.last_run_at + pos_part (with_defaults i.limits).cooldown)))
    × (((evaluate i).reason ≡ no_new_raw) ↔ (
        (i.is_demo ≡ false)
        × (i.already_running ≡ false)
        × (runs_counted i <ℤ (with_defaults i.limits).daily_limit)
        × IsCool i
        × ((i.new_raw_files +ℤ i.raw_dirty_files) <ℤ (with_defaults i.limits).min_new_raw)
        × (i.annotation_dirty_files ≡ pos 0)))
    × (((evaluate i).reason ≡ none_given) ↔ ((evaluate i).allowed ≡ true))

-- With quotas on, the reason names the first rule that is broken, in the order demo, running,
-- daily limit, cooldown, work; and there is none exactly if the run is allowed.
pub evaluate_reason : (i : Input) → i.enforced ≡ true → ReasonLaws i
unfolding evaluate
evaluate_reason i on =
    (ground arith, ground arith, ground arith, ground arith, ground arith, ground arith)

binade_bounded : (n m : ℕ) → 0 < m → binade n m ≤ m
unfolding binade
binade_bounded zero m h = omega (arith, h)
binade_bounded (suc n) m h = ground (arith, h, binade_bounded n m h)

binade_small : (m : ℕ) → m < 2 ^ 18 → binade 27 m ≤ 2 ^ 17
unfolding binade
binade_small m h = ground (arith, h)

-- How far rounding goes beyond a Duration.
abbrev pub slack : ℕ → ℕ
slack d = if ltb d (2 ^ 18 * minute) then 0 else 1024

rounds_up_near :
    (m r : ℕ)
    → r < minute
    → m * minute + r ≤ max_int64
    → rounds_up m r ≡ true
    → (m + 1) * minute ≤ m * minute + r + slack (m * minute + r)
unfolding rounds_up
rounds_up_near m r l b h =
    let below = binade_bounded 27 m in
    let small = binade_small m in
    elim (Bool-cases (ltb (m * minute + r) (2 ^ 18 * minute))) [
      | inl e ↦ ground (arith, l, b, h, e, small, below)
      | inr e ↦ ground (arith, l, b, h, e, below)
    ]

-- The snapshot holds an end of the cooldown only while the cooldown blocks the run. It is the end
-- of the last run's cooldown and lies ahead; and at that time the cooldown no longer blocks.
pub cooldown_until_lem :
    (i : Input) (u : ℕ)
    → (evaluate i).cooldown_until ≡ some u
    → ((evaluate i).reason ≡ cooldown)
      × (i.now < u)
      × (u ≡ i.last_run_at + pos_part (with_defaults i.limits).cooldown)
      × ((evaluate (record i { now = u })).reason ≢ cooldown)
unfolding evaluate
cooldown_until_lem i u h = (ground arith, ground arith, ground arith, ground arith)

minutes_reach : (now u : ℕ) → u ≤ now + max_int64 → u ≤ now + minutes_left now u * minute
unfolding minutes_left int_minutes
minutes_reach now u b = ground arith

minutes_tight :
    (now u : ℕ)
    → now < u
    → u ≤ now + max_int64
    → now + (minutes_left now u - 1) * minute ≤ u + slack (u - now)
unfolding minutes_left int_minutes
minutes_tight now u h b =
    ground (arith, h, b, rounds_up_near ((u - now) / minute) ((u - now) % minute))

-- The minutes that the message of a cooldown gives reach its end. The minutes less one do not pass
-- it, if it is less than 2^18 minutes away; from there on rounding lets them pass it by 1024
-- nanoseconds at most. The end is at most 2^63 - 1 nanoseconds away.
pub cooldown_minutes :
    (i : Input) (u : ℕ)
    → (evaluate i).cooldown_until ≡ some u
    → u ≤ i.now + max_int64
    → ((evaluate i).message
        ≡ codes "Cooldown active; try again in "
          ++ (itoa (pos (minutes_left i.now u)) ++ codes " minutes"))
      × (u ≤ i.now + minutes_left i.now u * minute)
      × (i.now + (minutes_left i.now u - 1) * minute ≤ u + slack (u - i.now))
unfolding evaluate
cooldown_minutes i u h b =
    (ground arith, minutes_reach i.now u b, minutes_tight i.now u (ground arith) b)

-- NextResetUTC is the first midnight after the time.
pub next_reset_first :
    (t s : ℕ)
    → t < s
    → s % day ≡ 0
    → (t < next_reset_utc t) × (next_reset_utc t % day ≡ 0) × (next_reset_utc t ≤ s)
unfolding next_reset_utc
next_reset_first t s h k = (omega arith, omega arith, omega arith)
