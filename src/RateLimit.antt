-- ===== src/RateLimit.antt =====
-- internal/middleware/rate_limit.go: NewRateLimiter as a system of requests and the goroutine that
-- cleans up. Times are nanoseconds since the zero time, and a window is not negative.
pub mod History
pub mod Recovery
pub mod Window
mod Tests
use llm_wiki_bff.Core.{
  ℕ, ◌+◌, ◌≤◌, ◌≡◌, Bool, true, false, Option, none, some, List, [], ◌∷◌, ◌++◌, length, keep, ltb,
  ◌==◌, ◌&&◌, Member, if◌then◌else◌,
}
use llm_wiki_bff.Core.Int.{ℤ, pos, leb_ℤ, ltb_ℤ}
use llm_wiki_bff.Core.Text.{Text}
use llm_wiki_bff.Core.Dict.{lookup, insert, delete}

-- The key of a request: two headers and ClientIP.
unfoldable pub client_key : Text → Text → Text → Text
client_key connecting forwarded ip =
    if ltb 0 (length connecting)
    then connecting
    else if ltb 0 (length forwarded)
    then forwarded
    else ip

-- t.After(cutoff)
unfoldable pub is_recent : ℕ → ℕ → ℕ → Bool
is_recent window now t = ltb now (t + window)

-- The requests of an entry that stay, at a time.
unfoldable pub prune : ℕ → ℕ → List ℕ → List ℕ
unfolding is_recent
prune window now requests = keep (is_recent window now) requests

-- What a request does under the lock of its entry: whether it goes on, and the entry's requests.
unfoldable pub admit : ℤ → ℕ → ℕ → List ℕ → Bool × List ℕ
unfolding prune
admit limit window now requests =
    let kept = prune window now requests in
    if leb_ℤ limit (pos (length kept)) then (false, kept) else (true, kept ++ now ∷ [])

-- The goroutine that cleans up: between two keys, at an entry of a key, or about to delete a key.
pub data Sweeper : Type 0 where
  idle : Sweeper
  visiting : Text → ℕ → Sweeper
  emptied : Text → Sweeper

-- A section under the lock of an entry, with its time and whether it let a request through.
pub record Lock : Type 0 where
  pub entry : ℕ
  pub time : ℕ
  pub admitted : Bool

-- The map from keys to entries, the entries with their requests, the requests that hold an entry,
-- those that have read the time too, and the sections that were locked, the last one first.
pub record State : Type 0 where
  pub ips : List (Text × ℕ)
  pub entries : ℕ → List ℕ
  pub fresh : ℕ
  pub waiting : List ℕ
  pub timed : List (ℕ × ℕ)
  pub sweeper : Sweeper
  pub clock : ℕ
  pub locks : List Lock

abbrev pub start : ℕ → State
start clock = record {
  ips = [];
  entries = λ p. [];
  fresh = 0;
  waiting = [];
  timed = [];
  sweeper = idle;
  clock = clock;
  locks = [];
}

abbrev pub write_entry : ℕ → List ℕ → (ℕ → List ℕ) → ℕ → List ℕ
write_entry p requests entries q = if q == p then requests else entries q

-- A list without the first element that passes a test.
unfoldable pub remove_first {ℓ} : {A : Type ℓ} → (A → Bool) → List A → List A
remove_first p [] = []
remove_first p (x ∷ xs) = if p x then xs else x ∷ remove_first p xs

-- A request holds the entry that it loaded, or a new one that it stored.
unfoldable pub hold : Text → Option ℕ → State → State
hold ip (some p) s = record s { waiting = s.waiting ++ p ∷ [] }
hold ip none s = record s {
  ips = insert ip s.fresh s.ips;
  fresh = s.fresh + 1;
  waiting = s.waiting ++ s.fresh ∷ [];
}

-- LoadOrStore by a request.
unfoldable pub arrive : Text → State → State
unfolding hold
arrive ip s = hold ip (lookup ip s.ips) s

-- A request reads the time, before it locks its entry.
unfoldable pub read_time : ℕ → State → State
unfolding remove_first
read_time p s = record s {
  waiting = remove_first (λ q. q == p) s.waiting;
  timed = s.timed ++ (p, s.clock) ∷ [];
}

-- A request decides under the lock of its entry, at the time that it has read.
unfoldable pub decide : ℤ → ℕ → ℕ → ℕ → State → State
unfolding admit remove_first
decide limit window p now s =
    let (allowed, requests) = admit limit window now (s.entries p) in
    record s {
      entries = write_entry p requests s.entries;
      timed = remove_first (λ a. (a.0 == p) && (a.1 == now)) s.timed;
      locks = record { entry = p; time = now; admitted = allowed } ∷ s.locks;
    }

-- The clean-up of an entry under its lock, where it reads the time.
unfoldable pub clean : ℕ → Text → ℕ → State → State
unfolding prune
clean window ip p s =
    let requests = prune window s.clock (s.entries p) in
    record s {
      entries = write_entry p requests s.entries;
      sweeper = if length requests == 0 then emptied ip else idle;
      locks = record { entry = p; time = s.clock; admitted = false } ∷ s.locks;
    }

-- A step of one goroutine, or of the time.
pub data Step (limit : ℤ) (window : ℕ) : State → State → Type 0 where
  passes :
      (s : State) (clock : ℕ) → s.clock ≤ clock → Step limit window s (record s { clock = clock })
  arrives : (s : State) (ip : Text) → Step limit window s (arrive ip s)
  reads : (s : State) (p : ℕ) → Member p s.waiting → Step limit window s (read_time p s)
  decides :
      (s : State) (p now : ℕ)
      → Member (p, now) s.timed
      → Step limit window s (decide limit window p now s)
  visits :
      (s : State) (ip : Text) (p : ℕ)
      → s.sweeper ≡ idle
      → lookup ip s.ips ≡ some p
      → Step limit window s (record s { sweeper = visiting ip p })
  cleans :
      (s : State) (ip : Text) (p : ℕ)
      → s.sweeper ≡ visiting ip p
      → Step limit window s (clean window ip p s)
  deletes :
      (s : State) (ip : Text)
      → s.sweeper ≡ emptied ip
      → Step limit window s (record s { ips = delete ip s.ips; sweeper = idle })

-- What the requests and the clean-up lead to.
pub data Reachable (limit : ℤ) (window : ℕ) : State → Type 0 where
  starts : (clock : ℕ) → Reachable limit window (start clock)
  later :
      {s t : State} → Reachable limit window s → Step limit window s t → Reachable limit window t
