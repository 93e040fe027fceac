-- ===== src/Sources/Lifecycle/Pages.antt =====
-- What Calculate (internal/sourcelifecycle/lifecycle.go) makes of one page, and what it counts.
use llm_wiki_bff.Core.{
  ℕ, ◌+◌, ◌≡◌, refl, Bool, true, false, not, ◌&&◌, ◌||◌, ◌⊎◌, if_both, if_cases, Option, none, some,
  List, is_some, arith,
}
use mathlib.Core.Path.{subst}
use llm_wiki_bff.Core.Text.{Text}
use llm_wiki_bff.Core.Dict.{lookup}
use llm_wiki_bff.Generation.{Host}
use llm_wiki_bff.Sources.{
  WikiPage, RawFile, LifecycleStatus, fresh, error, content_pending, notes_pending, synced, given,
}
use llm_wiki_bff.Sources.SourceStatus.{
  Receipt, empty_receipt, fingerprint, valid_receipt, valid_current_failure,
}
use llm_wiki_bff.Sources.RawStatus.{FileStatus}
use llm_wiki_bff.Sources.Lifecycle.{
  Input, Counts, get_or, empty_raw, annotation_of, failure_by_legacy, by_status, mark_raw,
  mark_annotation, mark_synced, mark_new, clear_page, mark_failure, by_legacy, by_receipt,
  decide_page, calculate_page, with_annotation, legacy_status,
}

abbrev pub is_fresh : LifecycleStatus → Bool
is_fresh fresh = true
is_fresh _ = false

abbrev pub bit : Bool → ℕ
bit true = 1
bit false = 0

-- Which work a status means: raw work, annotation work.
abbrev pub Marks : LifecycleStatus → Bool → Bool → Type 0
Marks fresh raw ann = (raw ≡ false) × (ann ≡ false)
Marks synced raw ann = (raw ≡ false) × (ann ≡ false)
Marks content_pending raw ann = (raw ≡ true) × (ann ≡ false)
Marks notes_pending raw ann = (raw ≡ false) × (ann ≡ true)
Marks error raw ann = raw ≡ not ann
Marks (given s) raw ann = ⊥

-- The marks of a page agree with its status.
pub record IsMarked (p : WikiPage) : Type 0 where
  pub dirty : p.dirty ≡ (p.raw_dirty || p.annotation_dirty)
  pub marks : Marks p.lifecycle_status p.raw_dirty p.annotation_dirty
  pub unsafe_new : (p.annotation_allowed ≡ true) ⊎ (p.lifecycle_status ≡ fresh)

-- What a page has added to the counts.
pub record IsCounted (raw_exists : Bool) (c : Counts) (r : WikiPage × Counts) : Type 0 where
  pub raw : r.1.raw_dirty ≡ c.raw_dirty + bit r.0.raw_dirty
  pub annotation : r.1.annotation_dirty ≡ c.annotation_dirty + bit r.0.annotation_dirty
  pub new :
      r.1.new_raw
      ≡ c.new_raw + bit (r.0.annotation_allowed && (is_fresh r.0.lifecycle_status && raw_exists))

-- The page keeps its identity.
pub record IsSame (p q : WikiPage) : Type 0 where
  pub slug : q.slug ≡ p.slug
  pub id : q.id ≡ p.id
  pub raw_path : q.raw_path ≡ p.raw_path
  pub allowed : q.annotation_allowed ≡ p.annotation_allowed

abbrev Outcome : Bool → WikiPage → Counts → WikiPage × Counts → Type 0
Outcome raw_exists p c r = IsMarked r.0 × IsCounted raw_exists c r × IsSame p r.0

-- A page as the loop has cleared it, with a safe raw path.
pub record IsClear (p : WikiPage) : Type 0 where
  pub allowed : p.annotation_allowed ≡ true
  pub raw : p.raw_dirty ≡ false
  pub annotation : p.annotation_dirty ≡ false
  pub dirty : p.dirty ≡ false

module _ (b : Bool) (p : WikiPage) (c : Counts) (k : IsClear p) where
  mark_raw-pending : Outcome b p c (mark_raw content_pending p c)
  unfolding mark_raw
  mark_raw-pending = ground (arith, k.allowed, k.raw, k.annotation, k.dirty)

  mark_raw-error : Outcome b p c (mark_raw error p c)
  unfolding mark_raw
  mark_raw-error = ground (arith, k.allowed, k.raw, k.annotation, k.dirty)

  mark_annotation-pending : Outcome b p c (mark_annotation notes_pending p c)
  unfolding mark_annotation
  mark_annotation-pending = ground (arith, k.allowed, k.raw, k.annotation, k.dirty)

  mark_annotation-error : Outcome b p c (mark_annotation error p c)
  unfolding mark_annotation
  mark_annotation-error = ground (arith, k.allowed, k.raw, k.annotation, k.dirty)

  mark_synced_lem : Outcome b p c (mark_synced p c)
  unfolding mark_synced
  mark_synced_lem = ground (arith, k.allowed, k.raw, k.annotation, k.dirty)

  mark_new_lem : Outcome b p c (mark_new b p c)
  unfolding mark_new
  mark_new_lem = ground (arith, k.allowed, k.raw, k.annotation, k.dirty)

module _ (host : Host) (i : Input) (b : Bool) (p : WikiPage) (c : Counts) (k : IsClear p) where
  by_receipt_lem :
      (raw : RawFile) (ann : Text) (r : Receipt) → Outcome b p c (by_receipt host i p c b raw ann r)
  unfolding by_receipt
  by_receipt_lem raw ann r = if_both (Outcome b p c) _ (mark_raw-pending b p c k) (
      if_both (Outcome b p c) _ (mark_annotation-pending b p c k)
        (if_both (Outcome b p c) _ (mark_synced_lem b p c k) (mark_new_lem b p c k)))

  by_status_lem :
      (raw : RawFile) (ann : Text) (o : Option FileStatus)
      → Outcome b p c (by_status host i p c b raw ann o)
  unfolding by_status
  by_status_lem raw ann none = mark_new_lem b p c k
  by_status_lem raw ann (some s) =
      if_both (Outcome b p c) _ (mark_raw-pending b p c k)
        (if_both (Outcome b p c) _ (mark_annotation-pending b p c k) (mark_synced_lem b p c k))

  failure_lem :
      (ann : Text) (o : Option FileStatus) → Outcome b p c (failure_by_legacy host i p c ann o)
  unfolding failure_by_legacy
  failure_lem ann none = mark_raw-error b p c k
  failure_lem ann (some s) =
      if_both (Outcome b p c) _ (mark_annotation-error b p c k) (mark_raw-error b p c k)

  mark_failure_lem :
      (r : Receipt) (raw : RawFile) (ann : Text) → Outcome b p c (mark_failure host i p c r raw ann)
  unfolding mark_failure
  mark_failure_lem r raw ann =
      if_both (Outcome b p c) _
        (if_both (Outcome b p c) _ (mark_annotation-error b p c k) (mark_raw-error b p c k))
        (failure_lem ann (legacy_status i.legacy raw))

module _ (host : Host) (i : Input) (p : WikiPage) (c : Counts) (k : IsClear p) where
  decide_page_lem :
      (found : Option RawFile) (receipt : Option Receipt)
      → Outcome (is_some found) p c (decide_page host i p c found receipt)
  unfolding decide_page by_legacy
  decide_page_lem found receipt =
      let raw = get_or empty_raw found in
      let ann = annotation_of host i p in
      let r = get_or empty_receipt receipt in
      let b = is_some found in
      if_both (Outcome b p c)
        (is_some found
          && is_some receipt
          && valid_current_failure r p.raw_path (fingerprint host raw.sha256 ann))
        (mark_failure_lem host i b p c k r raw ann)
        (if_both (Outcome b p c) (not (is_some receipt) || not (valid_receipt host r p.raw_path))
          (by_status_lem host i b p c k raw ann (legacy_status i.legacy raw))
          (by_receipt_lem host i b p c k raw ann r))

with_annotation-IsClear :
    (host : Host) (i : Input) (p : WikiPage) → IsClear p → IsClear (with_annotation host i p)
unfolding with_annotation
with_annotation-IsClear host i p k = ground (arith, k.allowed, k.raw, k.annotation, k.dirty)

with_annotation-IsSame :
    (host : Host) (i : Input) (p : WikiPage) → IsSame p (with_annotation host i p)
unfolding with_annotation
with_annotation-IsSame host i p = ground arith

IsSame-trans : {p q r : WikiPage} → IsSame p q → IsSame q r → IsSame p r
IsSame-trans h k =
    ground (arith, h.slug, h.id, h.raw_path, h.allowed, k.slug, k.id, k.raw_path, k.allowed)

clear_page-IsClear :
    (p : WikiPage) → (clear_page p).annotation_allowed ≡ true → IsClear (clear_page p)
unfolding clear_page
clear_page-IsClear p h = record { allowed = h; raw = refl; annotation = refl; dirty = refl }

unsafe_page :
    (b : Bool) (q : WikiPage) (c : Counts)
    → q.annotation_allowed ≡ false
    → q.raw_dirty ≡ false
    → q.annotation_dirty ≡ false
    → q.dirty ≡ false
    → Outcome b q c (record q { lifecycle_status = fresh }, c)
unsafe_page b q c h k l m = ground (arith, h, k, l, m)

safe_page :
    (host : Host) (i : Input) (b : Bool) (q : WikiPage) (c : Counts)
    → IsClear q
    → (found : Option RawFile) (receipt : Option Receipt) → is_some found ≡ b
    → Outcome b q c (decide_page host i (with_annotation host i q) c found receipt)
safe_page host i b q c k found receipt h =
    let w = with_annotation host i q in
    let (marked, counted, same) =
      decide_page_lem host i w c (with_annotation-IsClear host i q k) found receipt in
    (
      marked,
      subst (λ b'. IsCounted b' c (decide_page host i w c found receipt)) h counted,
      IsSame-trans (with_annotation-IsSame host i q) same,
    )

-- A page of the loop ends with marks that agree with its status, is counted under the raw file of
-- its path, and keeps its slug and identifier.
pub calculate_page_lem :
    (host : Host) (i : Input) (raws : List (Text × RawFile)) (c : Counts) (p : WikiPage)
    → IsMarked (calculate_page host i raws c p).0
      × IsCounted (is_some (lookup (clear_page p).raw_path raws)) c (calculate_page host i raws c p)
      × IsSame (clear_page p) (calculate_page host i raws c p).0
unfolding calculate_page
calculate_page_lem host i raws c p =
    let q = clear_page p in
    let b = is_some (lookup q.raw_path raws) in
    if_cases (Outcome b q c) (not q.annotation_allowed)
      (λ h. unsafe_page b q c (ground (arith, h)) refl refl refl)
      (λ h.
        safe_page host i b q c (clear_page-IsClear p (ground (arith, h))) (lookup q.raw_path raws)
          (lookup q.id i.receipts) refl)
