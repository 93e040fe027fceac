-- ===== src/RateLimit/Window.antt =====
-- How many requests internal/middleware/rate_limit.go lets through within a window.
use llm_wiki_bff.Core.{
  ℕ, ◌+◌, ◌≤◌, ◌≡◌, Bool, true, not, ◌&&◌, ◌||◌, List, [], ◌∷◌, tally, all, ltb, leb, ◌==◌, arith,
  Bool-cases, inl, inr, Option, none, some,
}
use llm_wiki_bff.Core.Int.{ℤ, pos_part}
use llm_wiki_bff.Core.Text.{Text}
use llm_wiki_bff.Core.Dict.{lookup}
use llm_wiki_bff.RateLimit.{
  Lock, State, hold, arrive, read_time, decide, clean, Step, passes, arrives, reads, decides,
  visits, cleans, deletes, Reachable, starts, later,
}
use llm_wiki_bff.RateLimit.History.{later_of, still_counted, decide_exact}

-- The requests that went on with an entry and lie in the window that ends at a time.
abbrev pub served_within : ℕ → ℕ → ℕ → List Lock → ℕ
served_within window p now locks =
    tally (λ l. (l.entry == p) && (l.admitted && (leb l.time now && ltb now (l.time + window))))
      locks

-- No section of an entry has a later time than one that locked the entry after it.
abbrev pub in_order : List Lock → Bool
in_order [] = true
in_order (l ∷ ls) = all (λ k. not (k.entry == l.entry) || leb k.time l.time) ls && in_order ls

-- What lies in a window that ends later counts against a request that decides now.
within_counted :
    (window p now t : ℕ) (ls : List Lock)
    → all (λ k. not (k.entry == p) || leb k.time now) ls ≡ true
    → now ≤ t
    → served_within window p t ls ≤ still_counted window p now ls
within_counted window p now t [] h le = omega arith
within_counted window p now t (l ∷ ls) h le = elim (Bool-cases (l.entry == p)) [
  | inr e ↦ ground (arith, e, h, le, within_counted window p now t ls)
  | inl e ↦
      let same : later_of now l.time ≡ now = ground (arith, e, h) in
      ground (arith, e, h, le, same, within_counted window p now t ls)
]

-- A request that holds its entry has locked nothing yet.
held :
    (ip : Text) (o : Option ℕ) (s : State) (P : List Lock → Type 0)
    → P s.locks
    → P (hold ip o s).locks
unfolding hold
held ip none s P h = h
held ip (some p) s P h = h

held_before :
    (ip : Text) (o : Option ℕ) (s : State) (P : List Lock → Type 0)
    → P (hold ip o s).locks
    → P s.locks
unfolding hold
held_before ip none s P h = h
held_before ip (some p) s P h = h

Step-in_order :
    {limit : ℤ} {window : ℕ} {s t : State}
    → Step limit window s t
    → in_order t.locks ≡ true
    → in_order s.locks ≡ true
unfolding arrive read_time clean decide
Step-in_order (passes s clock h) o = o
Step-in_order (arrives s ip) o =
    held_before ip (lookup ip s.ips) s (λ locks. in_order locks ≡ true) o
Step-in_order (reads s p m) o = o
Step-in_order (decides s p now m) o = ground (arith, o)
Step-in_order (visits s ip p e f) o = o
Step-in_order (cleans s ip p e) o = ground (arith, o)
Step-in_order (deletes s ip e) o = o

Step-bounded :
    (limit : ℤ) (window : ℕ) {s t : State}
    → Reachable limit window s
    → Step limit window s t
    → in_order t.locks ≡ true
    → ((q n : ℕ) → served_within window q n s.locks ≤ pos_part limit)
    → (q n : ℕ) → served_within window q n t.locks ≤ pos_part limit
unfolding arrive read_time clean decide
Step-bounded limit window r (passes s clock h) o b q n = b q n
Step-bounded limit window r (arrives s ip) o b q n =
    held ip (lookup ip s.ips) s (λ locks. served_within window q n locks ≤ pos_part limit) (b q n)
Step-bounded limit window r (reads s p m) o b q n = b q n
Step-bounded limit window r (decides s p now m) o b q n =
    ground
      (arith, b q n, o, decide_exact limit window r p now, within_counted window p now n s.locks)
Step-bounded limit window r (visits s ip p e f) o b q n = b q n
Step-bounded limit window r (cleans s ip p e) o b q n = ground (arith, b q n)
Step-bounded limit window r (deletes s ip e) o b q n = b q n

-- However requests and the clean-up interleave, if the sections that lock an entry read their times
-- in the order of the locks, the requests that go on with one entry within a window that ends at
-- any time are at most the limit.
pub window_kept :
    (limit : ℤ) (window : ℕ) {s : State}
    → Reachable limit window s
    → in_order s.locks ≡ true
    → (p now : ℕ) → served_within window p now s.locks ≤ pos_part limit
window_kept limit window (starts clock) o p now = omega arith
window_kept limit window (later r st) o p now =
    Step-bounded limit window r st o (window_kept limit window r (Step-in_order st o)) p now
