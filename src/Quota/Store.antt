-- ===== src/Quota/Store.antt =====
-- internal/firestore/quota.go: the quota document of a project in Firestore, reserved in a
-- transaction and refunded after a failed trigger. Firestore runs the body of a transaction again
-- when it loses a race, and applies the write of the last run only.
use llm_wiki_bff.Core.{
  ℕ, Bool, true, false, not, ◌&&◌, Option, none, some, List, [], ◌∷◌, Result, ok, err, ◌==◌,
  if◌then◌else◌,
}
use llm_wiki_bff.Core.Int.{ℤ, pos, ◌+ℤ◌}
use llm_wiki_bff.Core.Text.{Text}
use llm_wiki_bff.Quota.{none_given, Limits, Input, Snapshot, day_key_utc, evaluate}

-- A value of a document's field, as the client library returns it.
pub data Value : Type 0 where
  int : ℤ → Value
  -- A float, with its integer part.
  float : ℤ → Value
  text : Text → Value
  timestamp : ℕ → Value
  other : Value

-- The fields that the program reads; others are kept apart.
pub record Doc : Type 0 where
  pub runs_today : Option Value
  pub day_key : Option Value
  pub last_run_at : Option Value

pub record QuotaPrev : Type 0 where
  pub runs_today : ℤ
  pub day_key : Text
  pub last_run_at : ℕ

abbrev pub no_prev : QuotaPrev
no_prev = record { runs_today = pos 0; day_key = []; last_run_at = 0 }

abbrev pub empty_snapshot : Snapshot
empty_snapshot = record {
  enforced = false;
  allowed = false;
  reason = none_given;
  message = [];
  runs_today = pos 0;
  daily_limit = pos 0;
  cooldown_until = none;
  next_reset = 0;
  new_raw_files = pos 0;
  raw_dirty_files = pos 0;
  annotation_dirty_files = pos 0;
  pending_work = pos 0;
  min_new_raw = pos 0;
  already_running = false;
}

-- intFromFirestore, of a missing field too.
unfoldable pub int_from_firestore : Option Value → ℤ
int_from_firestore (some (int n)) = n
int_from_firestore (some (float n)) = n
int_from_firestore _ = pos 0

unfoldable pub text_field : Option Value → Text
text_field (some (text s)) = s
text_field _ = []

-- firestoreTimestamp, with the zero time where it is not there.
unfoldable pub time_field : Option Value → ℕ
time_field (some (timestamp t)) = t
time_field _ = 0

-- quotaStateFromData, and the zeros of a document that is not found.
unfoldable pub quota_state : Option Doc → QuotaPrev
unfolding int_from_firestore text_field time_field
quota_state none = no_prev
quota_state (some d) = record {
  runs_today = int_from_firestore d.runs_today;
  day_key = text_field d.day_key;
  last_run_at = time_field d.last_run_at;
}

-- The arguments of ReserveQuota.
pub record Request : Type 0 where
  pub limits : Limits
  pub now : ℕ
  pub is_demo : Bool
  pub already_running : Bool
  pub new_raw_files : ℤ
  pub raw_dirty_files : ℤ
  pub annotation_dirty_files : ℤ

-- The input of Evaluate for a request and a stored state.
unfoldable pub input_of : Request → QuotaPrev → Input
input_of r s = record {
  now = r.now;
  limits = r.limits;
  is_demo = r.is_demo;
  already_running = r.already_running;
  runs_today = s.runs_today;
  day_key = s.day_key;
  last_run_at = s.last_run_at;
  new_raw_files = r.new_raw_files;
  raw_dirty_files = r.raw_dirty_files;
  annotation_dirty_files = r.annotation_dirty_files;
  enforced = true;
}

-- The variables that the transaction's closure assigns.
pub record Captured : Type 0 where
  pub prev : QuotaPrev
  pub snap : Snapshot
  pub reserved : Bool

abbrev pub nothing_captured : Captured
nothing_captured = record { prev = no_prev; snap = empty_snapshot; reserved = false }

-- The state that a reservation stores, and the document with it.
unfoldable pub reserved_state : Request → Snapshot → QuotaPrev
reserved_state r pre = record {
  runs_today = pre.runs_today +ℤ pos 1;
  day_key = day_key_utc r.now;
  last_run_at = r.now;
}

-- Firestore keeps a timestamp to its own precision: `keep`.
unfoldable pub doc_of : (ℕ → ℕ) → QuotaPrev → Doc
doc_of keep s = record {
  runs_today = some (int s.runs_today);
  day_key = some (text s.day_key);
  last_run_at = some (timestamp (keep s.last_run_at));
}

-- The assignments at the head of the closure: a run that is repeated starts afresh.
unfoldable pub reset : Captured → Captured
reset c = record c { prev = no_prev; snap = empty_snapshot; reserved = false }

-- One run of the closure of ReserveQuota over the document that it reads (`err` where the read
-- fails): its variables, whether it returned no error, and the state that it writes.
unfoldable pub attempt :
    Request → Result Unit (Option Doc) → Captured → Captured × Bool × Option QuotaPrev
unfolding reset
attempt r (err e) c = (reset c, false, none)
attempt r (ok doc) c =
    let prev = quota_state doc in
    let pre = evaluate (input_of r prev) in
    if not pre.allowed
    then (record (reset c) { prev = prev; snap = pre }, true, none)
    else let state = reserved_state r pre in
      (
        record (reset c) { prev = prev; snap = evaluate (input_of r state); reserved = true },
        true,
        some state,
      )

-- The runs of the closure: those before the last lost a race. The variables are shared by all.
unfoldable pub run_attempts :
    Request
    → Captured
    → List (Result Unit (Option Doc))
    → Result Unit (Option Doc)
    → Captured × Bool × Option QuotaPrev
run_attempts r c [] last = attempt r last c
run_attempts r c (d ∷ ds) last = run_attempts r (attempt r d c).0 ds last

-- The document after a transaction.
unfoldable pub written : (ℕ → ℕ) → Option QuotaPrev → Option Doc → Option Doc
unfolding doc_of
written keep none doc = doc
written keep (some state) doc = some (doc_of keep state)

-- What ReserveQuota returns after the transaction, and what is written.
unfoldable pub finish :
    Captured × Bool × Option QuotaPrev
    → Bool
    → Result Unit (QuotaPrev × Snapshot × Bool) × Option QuotaPrev
finish (c, fine, write) committed =
    if fine && committed then (ok (c.prev, c.snap, c.reserved), write) else (err tt, none)

-- ReserveQuota: `lost` are the documents that the runs read which lost a race, `last` is what the
-- run at which the transaction ends reads, and `committed` says whether Firestore takes the write.
-- The result, and the state that is written.
unfoldable pub reserve_quota :
    Request
    → List (Result Unit (Option Doc))
    → Result Unit (Option Doc)
    → Bool
    → Result Unit (QuotaPrev × Snapshot × Bool) × Option QuotaPrev
unfolding finish
reserve_quota r lost last committed = finish (run_attempts r nothing_captured lost last) committed

-- RefundQuota: an update of a document that is there; a missing one is left alone.
unfoldable pub refund_quota : (ℕ → ℕ) → QuotaPrev → Option Doc → Option Doc
refund_quota keep prev none = none
refund_quota keep prev (some d) = some (record {
  runs_today = some (int prev.runs_today);
  day_key = some (text prev.day_key);
  last_run_at = if prev.last_run_at == 0 then none else some (timestamp (keep prev.last_run_at));
})
