-- ===== src/RateLimit/History.antt =====
-- What the entries of internal/middleware/rate_limit.go hold of the requests that went on.
use llm_wiki_bff.Core.{
  ℕ, ◌+◌, ◌≤◌, ◌≡◌, refl, sym, ◌∙◌, if_cases, Bool, true, ◌&&◌, List, [], ◌∷◌, All, All-append,
  All-member, length, tally, ltb, ◌==◌, tally-keep_and, tally-ext, tally-append, tally-true, arith,
  if◌then◌else◌, Bool-cases, inl, inr, none, some, Option,
}
use llm_wiki_bff.Core.Int.{ℤ, pos, pos_part, leb_ℤ}
use llm_wiki_bff.Core.Text.{Text}
use llm_wiki_bff.Core.Dict.{lookup}
use llm_wiki_bff.RateLimit.{
  is_recent, prune, admit, Lock, State, hold, arrive, read_time, remove_first, decide, clean, Step,
  passes, arrives, reads, decides, visits, cleans, deletes, Reachable, starts, later,
}

abbrev pub later_of : ℕ → ℕ → ℕ
later_of a b = if ltb a b then b else a

-- How many of the requests that went on with an entry count against a request that decides at a
-- time: those that lie in the window before this time and before the time of every section that
-- locked the entry after them.
abbrev pub still_counted : ℕ → ℕ → ℕ → List Lock → ℕ
still_counted window p now [] = 0
still_counted window p now (l ∷ ls) =
    let rest = still_counted window p (if l.entry == p then later_of now l.time else now) ls in
    (if (l.entry == p) && (l.admitted && ltb now (l.time + window)) then 1 else 0) + rest

tally-prune :
    (window now t : ℕ) (xs : List ℕ)
    → tally (is_recent window t) (prune window now xs)
      ≡ tally (is_recent window (later_of t now)) xs
unfolding prune is_recent
tally-prune window now t xs =
    tally-keep_and (is_recent window t) (is_recent window now) xs
    ∙ tally-ext _ (is_recent window (later_of t now)) xs (λ x. ground arith)

length-prune :
    (window now : ℕ) (xs : List ℕ) → length (prune window now xs) ≡ tally (is_recent window now) xs
unfolding prune is_recent
length-prune window now xs =
    sym (tally-true (prune window now xs))
    ∙ tally-keep_and (λ x. true) (is_recent window now) xs
    ∙ tally-ext _ (is_recent window now) xs (λ x. refl)

pub admit_lem :
    (limit : ℤ) (window now : ℕ) (xs : List ℕ)
    → (admit limit window now xs).0 ≡ ltb (tally (is_recent window now) xs) (pos_part limit)
unfolding admit
admit_lem (pos n) window now xs = ground (arith, length-prune window now xs)
admit_lem limit window now xs = ground (arith, length-prune window now xs)

tally-admit :
    (limit : ℤ) (window now t : ℕ) (xs : List ℕ)
    → tally (is_recent window t) (admit limit window now xs).1
      ≡ tally (is_recent window (later_of t now)) xs
        + (if (admit limit window now xs).0 && ltb t (now + window) then 1 else 0)
unfolding admit is_recent
tally-admit limit window now t xs =
    elim (Bool-cases (leb_ℤ limit (pos (length (prune window now xs))))) [
      | inl r ↦ ground (arith, r, tally-prune window now t xs)
      | inr r ↦ ground (
        arith,
        r,
        tally-prune window now t xs,
        tally-append (is_recent window t) (prune window now xs) (now ∷ []),
      )
    ]

-- The entries hold what still counts, at every time; and no time that was read is later than now.
pub record IsKept (window : ℕ) (s : State) : Type 0 where
  pub accurate :
      (p now : ℕ) → tally (is_recent window now) (s.entries p) ≡ still_counted window p now s.locks
  pub past : All (λ l. l.time ≤ s.clock) s.locks
  pub past_timed : All (λ a. a.1 ≤ s.clock) s.timed

decide-accurate :
    (limit : ℤ) (window now p : ℕ) (s : State)
    → IsKept window s
    → (q t : ℕ)
    → tally (is_recent window t) ((decide limit window p now s).entries q)
      ≡ still_counted window q t (decide limit window p now s).locks
unfolding decide
decide-accurate limit window now p s k q t = elim (Bool-cases (q == p)) [
  | inl e ↦
      ground (arith, e, tally-admit limit window now t (s.entries p), k.accurate p (later_of t now))
  | inr e ↦ ground (arith, e, k.accurate q t)
]

clean-accurate :
    (window p : ℕ) (ip : Text) (s : State)
    → IsKept window s
    → (q t : ℕ)
    → tally (is_recent window t) ((clean window ip p s).entries q)
      ≡ still_counted window q t (clean window ip p s).locks
unfolding clean
clean-accurate window p ip s k q t = elim (Bool-cases (q == p)) [
  | inl e ↦
      ground
        (arith, e, tally-prune window s.clock t (s.entries p), k.accurate p (later_of t s.clock))
  | inr e ↦ ground (arith, e, k.accurate q t)
]

remove_first-All :
    {A : Type 0} (P : A → Type 0) (f : A → Bool) (xs : List A)
    → All P xs
    → All P (remove_first f xs)
unfolding remove_first
remove_first-All P f [] h = tt
remove_first-All P f (x ∷ xs) (h, hs) =
    if_cases (All P) (f x) (λ e. hs) (λ e. (h, remove_first-All P f xs hs))

weaken-All :
    {A : Type 0} (P Q : A → Type 0) (xs : List A) → ((x : A) → P x → Q x) → All P xs → All Q xs
weaken-All P Q [] f h = tt
weaken-All P Q (x ∷ xs) f (h, hs) = (f x h, weaken-All P Q xs f hs)

hold-IsKept :
    (window : ℕ) (ip : Text) (o : Option ℕ) (s : State)
    → IsKept window s
    → IsKept window (hold ip o s)
unfolding hold
hold-IsKept window ip none s k = record {
  accurate = k.accurate;
  past = k.past;
  past_timed = k.past_timed;
}
hold-IsKept window ip (some p) s k = record {
  accurate = k.accurate;
  past = k.past;
  past_timed = k.past_timed;
}

Step-IsKept :
    (limit : ℤ) (window : ℕ) {s t : State}
    → Step limit window s t
    → IsKept window s
    → IsKept window t
unfolding arrive read_time decide clean
Step-IsKept limit window (passes s clock h) k = record {
  accurate = k.accurate;
  past = weaken-All _ (λ l. l.time ≤ clock) s.locks (λ l b. omega (arith, b, h)) k.past;
  past_timed = weaken-All _ (λ a. a.1 ≤ clock) s.timed (λ a b. omega (arith, b, h)) k.past_timed;
}
Step-IsKept limit window (arrives s ip) k = hold-IsKept window ip (lookup ip s.ips) s k
Step-IsKept limit window (reads s p m) k = record {
  accurate = k.accurate;
  past = k.past;
  past_timed =
      All-append (λ a. a.1 ≤ s.clock) s.timed ((p, s.clock) ∷ []) k.past_timed (omega arith, tt);
}
Step-IsKept limit window (decides s p now m) k = record {
  accurate = decide-accurate limit window now p s k;
  past = (All-member (λ a. a.1 ≤ s.clock) s.timed k.past_timed m, k.past);
  past_timed = remove_first-All (λ a. a.1 ≤ s.clock) _ s.timed k.past_timed;
}
Step-IsKept limit window (visits s ip p e f) k = record {
  accurate = k.accurate;
  past = k.past;
  past_timed = k.past_timed;
}
Step-IsKept limit window (cleans s ip p e) k = record {
  accurate = clean-accurate window p ip s k;
  past = (omega arith, k.past);
  past_timed = k.past_timed;
}
Step-IsKept limit window (deletes s ip e) k = record {
  accurate = k.accurate;
  past = k.past;
  past_timed = k.past_timed;
}

pub Reachable-IsKept :
    (limit : ℤ) (window : ℕ) {s : State} → Reachable limit window s → IsKept window s
Reachable-IsKept limit window (starts clock) = record {
  accurate = λ p now. refl;
  past = tt;
  past_timed = tt;
}
Reachable-IsKept limit window (later r st) =
    Step-IsKept limit window st (Reachable-IsKept limit window r)

pub decide_exact :
    (limit : ℤ) (window : ℕ) {s : State}
    → Reachable limit window s
    → (p now : ℕ)
    → (decide limit window p now s).locks
      ≡ record {
        entry = p;
        time = now;
        admitted = ltb (still_counted window p now s.locks) (pos_part limit);
      }
        ∷ s.locks
unfolding decide
decide_exact limit window {s} r p now = ground (
  arith,
  admit_lem limit window now (s.entries p),
  (Reachable-IsKept limit window r).accurate p now,
)
