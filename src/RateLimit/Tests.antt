-- ===== src/RateLimit/Tests.antt =====
-- Concrete runs of the rate limiter (internal/middleware/rate_limit.go).
use llm_wiki_bff.Core.{ℕ, ◌+◌, ◌≤◌, ◌≡◌, refl, Bool, true, false, none, List, [], ◌∷◌, here}
use llm_wiki_bff.Core.Int.{pos, pos_part}
use llm_wiki_bff.Core.Text.{codes}
use llm_wiki_bff.Core.Dict.{lookup, delete}
use llm_wiki_bff.RateLimit.{
  Lock, State, start, arrive, read_time, decide, clean, visiting, idle, Reachable, starts, later,
  arrives, reads, decides, visits, cleans, deletes,
}
use llm_wiki_bff.RateLimit.Window.{served_within, window_kept}

abbrev lock : ℕ → ℕ → Bool → Lock
lock p now admitted = record { entry = p; time = now; admitted = admitted }

-- A request that holds its entry while the clean-up finds it empty.
abbrev arrived : State
arrived = arrive (codes "a") (start 2)

abbrev held : State
held = clean 60 (codes "a") 0 (record arrived { sweeper = visiting (codes "a") 0 })

held-Reachable : Reachable (pos 1) 60 held
unfolding arrive lookup llm_wiki_bff.Core.Dict.insert llm_wiki_bff.Core.Text.str_eq
held-Reachable =
    later
      (later (later (starts 2) (arrives (start 2) (codes "a")))
        (visits arrived (codes "a") 0 refl refl))
      (cleans _ (codes "a") 0 refl)

abbrev one_served : State
one_served = decide (pos 1) 60 0 2 (read_time 0 held)

one_served-Reachable : Reachable (pos 1) 60 one_served
unfolding clean arrive lookup read_time
one_served-Reachable =
    later (later held-Reachable (reads held 0 here)) (decides (read_time 0 held) 0 2 here)

-- The clean-up deletes the key after the request went on; the next request of the key gets a new
-- entry.
abbrev next_held : State
next_held = read_time 1 (
    arrive (codes "a")
      (record one_served { ips = delete (codes "a") one_served.ips; sweeper = idle }))

abbrev two_served : State
two_served = decide (pos 1) 60 1 2 next_held

two_served-Reachable : Reachable (pos 1) 60 two_served
unfolding decide read_time clean arrive lookup delete llm_wiki_bff.Core.Dict.insert
    llm_wiki_bff.Core.Text.str_eq
two_served-Reachable =
    later
      (later
        (later (later one_served-Reachable (deletes one_served (codes "a") refl))
          (arrives _ (codes "a")))
        (reads _ 1 here))
      (decides next_held 1 2 here)

-- With a limit of 1, two requests of one key go on at one time.
both_go_on : two_served.locks ≡ lock 1 2 true ∷ lock 0 2 true ∷ lock 0 2 false ∷ []
unfolding decide read_time arrive lookup delete clean llm_wiki_bff.Core.Dict.insert
    llm_wiki_bff.Core.Text.str_eq
both_go_on = refl

-- A request that read the time 5 and locks its entry after one that read the time 13: with a limit
-- of 2, it is the third one within the window of 10 that ends at 5.
third_within :
    served_within 10 0 5
      (decide
        (pos 2)
        10
        0
        5
        (decide (pos 2) 10 0 13 (decide (pos 2) 10 0 2 (decide (pos 2) 10 0 1 (start 0))))).locks
    ≡ 3
unfolding decide
third_within = refl

window_kept_example : served_within 60 0 10 one_served.locks ≤ pos_part (pos 1)
unfolding decide read_time clean arrive lookup
window_kept_example = window_kept (pos 1) 60 one_served-Reachable refl 0 10
