-- ===== src/Publish/Receipts.antt =====
-- cmd/olw_worker/cloud_publish.go: mergeCloudReceipts with its two merges, and
-- cloudSnapshotCurrent. encoding/json and utf8.ValidString are parameters.
pub mod Kept
pub mod Merged
mod Tests
use llm_wiki_bff.Core.{
  ℕ, zero, suc, Bool, true, false, not, ◌&&◌, ◌||◌, Option, none, some, List, [], ◌∷◌, ◌++◌, Result,
  ok, err, length, ltb, any, all, is_some, ◌==◌, if◌then◌else◌,
}
use llm_wiki_bff.Core.Int.{ℤ, pos, eqb_ℤ}
use llm_wiki_bff.Core.Text.{Text, codes, str_eq, contains, trim_space, has_suffix}
use llm_wiki_bff.Core.Dict.{lookup, insert}
use llm_wiki_bff.CloudRun.{trim_prefix}
use llm_wiki_bff.Json.{Document}
use llm_wiki_bff.Generation.{Host, Error}
use llm_wiki_bff.Generation.Paths.{path_clean, valid_digest}
use llm_wiki_bff.Lease.{StoreError, conflict, missing}
use llm_wiki_bff.Sources.{safe_raw_path, normalize, annotation_digest}
use llm_wiki_bff.Sources.SourceStatus.{Receipt, Artifact, empty_receipt, valid_receipt, decode}
use llm_wiki_bff.Publish.{
  Snapshot, ObjectConditions, does_not_exist, generation_match, ObjectAttrs, Bucket,
}

-- annotation.Object
pub record AnnotationObject : Type 0 where
  pub version : ℤ
  pub source_id : Text
  pub raw_path : Text
  pub body : Text
  pub sha256 : Text
  pub updated_at : Text
  pub updated_by : Text

-- json.Unmarshal of the two documents, json.Marshal of the receipts, and utf8.ValidString.
pub record Formats : Type 0 where
  pub parse : Text → Document
  pub marshal : Artifact → Text
  pub unmarshal : Text → Option AnnotationObject
  pub valid_utf8 : Text → Bool

pub data ReceiptError : Type 0 where
  receipt_invalid receipt_read receipt_write receipt_conflict : ReceiptError

-- sourcestatus.Path
abbrev pub receipts_path : Text
receipts_path = codes "cache/source_status.json"

-- annotation.ValidSourceID
unfoldable pub valid_source_id : Text → Bool
valid_source_id id =
    not (str_eq id [])
    && not (str_eq id (codes "."))
    && not (str_eq id (codes ".."))
    && not (any (λ c. c == 47 || c == 92) id)
    && str_eq (path_clean id) id

-- Object.Validate, whether it has no error.
unfoldable pub valid_annotation : Host → Formats → AnnotationObject → Text → Text → Bool
valid_annotation host formats o source_id raw_path =
    (eqb_ℤ o.version (pos 1) && str_eq o.source_id source_id && str_eq o.raw_path raw_path)
    && (formats.valid_utf8 o.body && str_eq (normalize o.body) o.body)
    && str_eq o.sha256 (annotation_digest host o.body)
    && not (str_eq (trim_space o.updated_by) [])
    && has_suffix o.updated_at (codes "Z")
    && host.rfc3339 o.updated_at

-- safeMappedRawPath
unfoldable pub safe_mapped_raw_path : Text → Bool
safe_mapped_raw_path raw_path =
    let name = trim_prefix raw_path (codes "raw/") in
    safe_raw_path raw_path && not (str_eq name []) && not (contains name (codes "/"))

-- normalizeCloudDigest(value) != ""
unfoldable pub digest_ok : Text → Bool
digest_ok value = not (str_eq value []) && valid_digest value

-- normalizeCloudTimestamp(value) != ""
unfoldable pub timestamp_ok : Host → Text → Bool
timestamp_ok host value = not (str_eq value [] || ltb 64 (length value)) && host.rfc3339 value

-- validCloudReceipt
unfoldable pub valid_cloud_receipt : Host → Text → Receipt → Bool
unfolding valid_source_id safe_mapped_raw_path digest_ok timestamp_ok
valid_cloud_receipt host source_id r =
    if not (valid_source_id source_id)
      || ltb 256 (length source_id)
      || not (safe_mapped_raw_path r.raw_path)
    then false
    else if any (λ d. not (str_eq d []) && not (digest_ok d))
        (r.last_ingested_raw_sha256 ∷ r.last_ingested_ann_sha256 ∷ r.last_ingest_fingerprint
          ∷ r.failed_fingerprint ∷ [])
    then false
    else if not (str_eq r.last_success_at []) && not (timestamp_ok host r.last_success_at)
    then false
    else if valid_receipt host r r.raw_path
    then str_eq r.error [] || str_eq r.error (codes "pipeline failed")
    else str_eq r.last_ingested_raw_sha256 []
      && str_eq r.last_ingested_ann_sha256 []
      && str_eq r.last_ingest_fingerprint []
      && str_eq r.last_success_at []
      && str_eq r.error (codes "pipeline failed")
      && digest_ok r.failed_fingerprint

-- The loop of normalizeCloudReceipts, with the raw paths that were seen.
unfoldable pub valid_receipts : Host → List (Text × Text) → List (Text × Receipt) → Bool
unfolding valid_cloud_receipt
valid_receipts host seen [] = true
valid_receipts host seen ((id, r) ∷ rs) =
    let again : Bool = elim (lookup r.raw_path seen) [
      | none ↦ false
      | some prior ↦ not (str_eq prior id)
    ] in
    let rest =
      valid_receipts host (if str_eq r.raw_path [] then seen else insert r.raw_path id seen) rs in
    if not (valid_cloud_receipt host id r)
    then false
    else if not (str_eq r.raw_path []) && again
    then false
    else rest

-- normalizeCloudReceipts, whether it has no error.
unfoldable pub normalize_receipts : Host → Artifact → Bool
unfolding valid_receipts
normalize_receipts host a = eqb_ℤ a.version (pos 1) && valid_receipts host [] a.sources

-- The receipt of mergeCloudSuccess.
unfoldable pub success_receipt : Text → Snapshot → Receipt
success_receipt now x = record {
  raw_path = x.raw_path;
  last_ingested_raw_sha256 = x.raw_sha256;
  last_ingested_ann_sha256 = x.annotation_sha;
  last_ingest_fingerprint = x.fingerprint;
  last_success_at = now;
  failed_fingerprint = [];
  error = [];
}

-- The receipt of mergeCloudFailure, from the one that was there.
unfoldable pub failure_receipt : Option Receipt → Snapshot → Receipt
failure_receipt prior x =
    let r : Receipt = elim prior [ none ↦ empty_receipt | some q ↦ q ] in
    record r {
      raw_path = x.raw_path;
      failed_fingerprint = x.fingerprint;
      error = codes "pipeline failed";
    }

-- The artifact from which an attempt starts.
unfoldable pub decoded : Host → Artifact × Option Error → Result ReceiptError Artifact
unfolding normalize_receipts
decoded host (a, some e) = err receipt_invalid
decoded host (a, none) = if normalize_receipts host a then ok a else err receipt_invalid

unfoldable pub start_artifact :
    Host → Formats → Result StoreError (Text × ℤ) → Result ReceiptError Artifact
unfolding decoded
start_artifact host formats (ok (data_, g)) = decoded host (decode (formats.parse data_))
start_artifact host formats (err missing) = ok (record { version = pos 1; sources = [] })
start_artifact host formats (err _) = err receipt_read

-- The condition of an attempt's write.
unfoldable pub receipts_condition : Result StoreError (Text × ℤ) → ObjectConditions
receipts_condition (ok (data_, g)) = generation_match g
receipts_condition (err e) = does_not_exist

module _ {S : Type 0} (bucket : Bucket S) (host : Host) (formats : Formats) (prefix : Text) where
  -- The annotation's half of cloudSnapshotCurrent.
  unfoldable pub annotation_current : Snapshot → Result StoreError (Text × ℤ) → Bool
  unfolding valid_annotation
  annotation_current x (err missing) = str_eq x.annotation_sha (annotation_digest host [])
  annotation_current x (err _) = false
  annotation_current x (ok (b, g)) = elim (formats.unmarshal b) [
    | none ↦ false
    | some o ↦
        valid_annotation host formats o x.source_id x.raw_path && str_eq o.sha256 x.annotation_sha
  ]

  -- The raw file's half: its digest is the snapshot's.
  unfoldable pub raw_current : Snapshot → Result StoreError (Text × ℤ) → Bool
  raw_current x (err e) = false
  raw_current x (ok (raw, g)) = str_eq (host.sha256_hex raw) x.raw_sha256

  -- cloudSnapshotCurrent
  unfoldable pub snapshot_current : S → Snapshot → S × Bool
  unfolding annotation_current raw_current
  snapshot_current s x =
      let (s', raw) = bucket.read s (prefix ++ x.raw_path) in
      let (s'', b) =
        bucket.read s' (prefix ++ (codes "cache/annotations/" ++ (x.source_id ++ codes ".json"))) in
      if raw_current x raw then (s'', annotation_current x b) else (s', false)

  -- The loops of mergeCloudSuccess and mergeCloudFailure, by the receipt that they store in a
  -- state.
  unfoldable pub merge_snapshots :
      (S → Artifact → Snapshot → Receipt) → List Snapshot → S → Artifact → S × Artifact
  unfolding snapshot_current
  merge_snapshots receipt [] s a = (s, a)
  merge_snapshots receipt (x ∷ xs) s a =
      let (s', current) = snapshot_current s x in
      let stored : Artifact = record a {
        sources = insert x.source_id (receipt s' a x) a.sources;
      } in
      merge_snapshots receipt xs (if x.tombstone then s else s')
        (if x.tombstone || not current then a else stored)

  -- What follows the write of an attempt.
  unfoldable pub after_receipts :
      S × Result StoreError ObjectAttrs
      → (S → S × Result ReceiptError Unit)
      → S × Result ReceiptError Unit
  after_receipts (s, ok a) retry = (s, ok tt)
  after_receipts (s, err conflict) retry = retry s
  after_receipts (s, err _) retry = (s, err receipt_write)

  -- An attempt from its artifact on.
  unfoldable pub attempt :
      (S → Artifact → S × Artifact)
      → S
      → ObjectConditions
      → Result ReceiptError Artifact
      → (S → S × Result ReceiptError Unit)
      → S × Result ReceiptError Unit
  unfolding after_receipts
  attempt merge s condition (err e) retry = (s, err e)
  attempt merge s condition (ok a) retry =
      let (s', a') = merge s a in
      after_receipts (bucket.write s' (prefix ++ receipts_path) (formats.marshal a') none condition)
        retry

  -- mergeCloudReceipts, with the attempts that are left.
  unfoldable pub merge_receipts :
      (S → Artifact → S × Artifact) → ℕ → S → S × Result ReceiptError Unit
  unfolding attempt start_artifact receipts_condition
  merge_receipts merge zero s = (s, err receipt_conflict)
  merge_receipts merge (suc n) s =
      let (s', r) = bucket.read s (prefix ++ receipts_path) in
      attempt merge s' (receipts_condition r) (start_artifact host formats r)
        (merge_receipts merge n)

  -- mergeCloudSuccess, with the time that a state of the store is met at, printed.
  unfoldable pub merge_success : (S → Text) → List Snapshot → S → S × Result ReceiptError Unit
  unfolding merge_receipts merge_snapshots success_receipt
  merge_success now snapshots =
      merge_receipts (merge_snapshots (λ s a. success_receipt (now s)) snapshots) 3

  -- mergeCloudFailure
  unfoldable pub merge_failure : List Snapshot → S → S × Result ReceiptError Unit
  unfolding merge_receipts merge_snapshots failure_receipt
  merge_failure snapshots =
      merge_receipts
        (merge_snapshots (λ s a x. failure_receipt (lookup x.source_id a.sources) x) snapshots) 3
