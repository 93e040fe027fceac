-- ===== src/Sources/SourceStatus.antt =====
-- internal/sourcestatus/status.go: the receipts that the worker writes for each source.
use llm_wiki_bff.Core.{
  Bool, false, not, ◌&&◌, ◌||◌, Option, none, some, List, [], ◌∷◌, ◌++◌, ok, err, any,
  if◌then◌else◌,
}
use llm_wiki_bff.Core.Int.{ℤ, pos}
use llm_wiki_bff.Core.Text.{Text, codes, str_eq, trim_space}
use llm_wiki_bff.Json.{
  Json, Fields, Document, obj, end, cut, garbled, field, decode_string, decode_int, skip_value,
  readable,
}
use llm_wiki_bff.Generation.{Host, Error, expected_object, duplicate_key, read_failed}
use llm_wiki_bff.Generation.Bounded.{bounded_map, ensure_json_eof}
use llm_wiki_bff.Generation.Paths.{valid_digest}

pub record Receipt : Type 0 where
  pub raw_path : Text
  pub last_ingested_raw_sha256 : Text
  pub last_ingested_ann_sha256 : Text
  pub last_ingest_fingerprint : Text
  pub last_success_at : Text
  pub failed_fingerprint : Text
  pub error : Text

abbrev pub empty_receipt : Receipt
empty_receipt = record {
  raw_path = [];
  last_ingested_raw_sha256 = [];
  last_ingested_ann_sha256 = [];
  last_ingest_fingerprint = [];
  last_success_at = [];
  failed_fingerprint = [];
  error = [];
}

-- Fingerprint
unfoldable pub fingerprint : Host → Text → Text → Text
fingerprint host raw annotation =
    host.sha256_hex (codes "lwc-ingest-v1" ++ (10 ∷ (raw ++ (10 ∷ (annotation ++ 10 ∷ [])))))

-- ValidReceipt
unfoldable pub valid_receipt : Host → Receipt → Text → Bool
valid_receipt host receipt raw_path =
    if not (str_eq receipt.raw_path raw_path)
      || str_eq (trim_space receipt.last_ingested_raw_sha256) []
      || str_eq (trim_space receipt.last_ingested_ann_sha256) []
      || str_eq (trim_space receipt.last_ingest_fingerprint) []
    then false
    else if not (valid_digest receipt.last_ingested_raw_sha256)
        || not (valid_digest receipt.last_ingested_ann_sha256)
        || not (valid_digest receipt.last_ingest_fingerprint)
    then false
    else if not (host.rfc3339 receipt.last_success_at)
    then false
    else str_eq receipt.last_ingest_fingerprint
        (fingerprint host receipt.last_ingested_raw_sha256 receipt.last_ingested_ann_sha256)

-- ValidCurrentFailure
unfoldable pub valid_current_failure : Receipt → Text → Text → Bool
valid_current_failure receipt raw_path print =
    str_eq receipt.raw_path raw_path
    && not (str_eq (trim_space receipt.error) [])
    && str_eq receipt.failed_fingerprint print

-- The variable after `dec.Decode` into a field.
abbrev put : {A B : Type 0} → Option A → (A → B) → Option B
put none f = none
put (some x) f = some (f x)

-- The `switch name` of Receipt.UnmarshalJSON.
unfoldable pub receipt_field : Receipt → Text → Json → Option Receipt
receipt_field r name v =
    if str_eq name (codes "raw_path")
    then put (decode_string r.raw_path v) (λ s. record r { raw_path = s })
    else if str_eq name (codes "last_ingested_raw_sha256")
    then put (decode_string r.last_ingested_raw_sha256 v)
        (λ s. record r { last_ingested_raw_sha256 = s })
    else if str_eq name (codes "last_ingested_ann_sha256")
    then put (decode_string r.last_ingested_ann_sha256 v)
        (λ s. record r { last_ingested_ann_sha256 = s })
    else if str_eq name (codes "last_ingest_fingerprint")
    then put (decode_string r.last_ingest_fingerprint v)
        (λ s. record r { last_ingest_fingerprint = s })
    else if str_eq name (codes "last_success_at")
    then put (decode_string r.last_success_at v) (λ s. record r { last_success_at = s })
    else if str_eq name (codes "failed_fingerprint")
    then put (decode_string r.failed_fingerprint v) (λ s. record r { failed_fingerprint = s })
    else if str_eq name (codes "error")
    then put (decode_string r.error v) (λ s. record r { error = s })
    else elim (skip_value v) [ none ↦ none | some u ↦ some r ]

-- The loop of Receipt.UnmarshalJSON.
unfoldable pub receipt_fields : List Text → Receipt → Fields → Option Receipt
receipt_fields seen r end = some r
receipt_fields seen r cut = none
receipt_fields seen r garbled = none
receipt_fields seen r (field name v fs) =
    if any (str_eq name) seen then none else elim (receipt_field r name v) [
      | none ↦ none
      | some r' ↦ receipt_fields (name ∷ seen) r' fs
    ]

-- `dec.Decode` into a Receipt: Receipt.UnmarshalJSON of a value that was read whole.
unfoldable pub decode_receipt : Json → Option Receipt
decode_receipt (obj fs) = if readable (obj fs) then receipt_fields [] empty_receipt fs else none
decode_receipt _ = none

pub record Artifact : Type 0 where
  pub version : ℤ
  pub sources : List (Text × Receipt)

-- The `switch name` of Decode. A failed DecodeBoundedMap leaves no sources.
unfoldable pub artifact_field : Artifact → Text → Json → Artifact × Option Error
artifact_field a name v =
    if str_eq name (codes "version")
    then elim (decode_int a.version v) [
      | none ↦ (a, some read_failed)
      | some n ↦ (record a { version = n }, none)
    ]
    else if str_eq name (codes "sources")
    then elim (bounded_map decode_receipt v) [
      | err e ↦ (record a { sources = [] }, some e)
      | ok m ↦ (record a { sources = m }, none)
    ]
    else elim (skip_value v) [ none ↦ (a, some read_failed) | some u ↦ (a, none) ]

-- The loop of Decode: the artifact as far as it was read, and the error.
unfoldable pub artifact_fields : List Text → Artifact → Fields → Artifact × Option Error
artifact_fields seen a end = (a, none)
artifact_fields seen a cut = (a, some read_failed)
artifact_fields seen a garbled = (a, some read_failed)
artifact_fields seen a (field name v fs) =
    if any (str_eq name) seen
    then (a, some duplicate_key)
    else let (a', e) = artifact_field a name v in
      elim e [ some e' ↦ (a', some e') | none ↦ artifact_fields (name ∷ seen) a' fs ]

-- The end of Decode: EnsureJSONEOF after a loop without an error.
unfoldable pub at_end : Document → Artifact × Option Error → Artifact × Option Error
at_end d (a, some e) = (a, some e)
at_end d (a, none) = elim (ensure_json_eof d.trailer) [ err e ↦ (a, some e) | ok u ↦ (a, none) ]

-- Decode
unfoldable pub decode : Document → Artifact × Option Error
decode d = elim d.value [
  | obj fs ↦ at_end d (artifact_fields [] (record { version = pos 0; sources = [] }) fs)
  | _ ↦ (record { version = pos 0; sources = [] }, some expected_object)
]
