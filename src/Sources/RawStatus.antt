-- ===== src/Sources/RawStatus.antt =====
-- internal/rawstatus/rawstatus.go: the status file of older workers, and the badge of raw files.
use llm_wiki_bff.Core.{
  ℕ, Bool, false, not, ◌&&◌, ◌||◌, Option, none, some, List, [], ◌∷◌, Result, ok, err, ◌>>=◌, ◌>>◌,
  ltb, length, if◌then◌else◌,
}
use llm_wiki_bff.Core.Int.{ℤ, pos, ltb_ℤ, eqb_ℤ}
use llm_wiki_bff.Core.Text.{Text, codes, str_eq}
use llm_wiki_bff.Core.Dict.{lookup}
use llm_wiki_bff.Json.{
  Json, Fields, Document, obj, end, cut, garbled, field, decode_string, decode_int, skip_value,
}
use llm_wiki_bff.Generation.{Host, Error, expected_object, read_failed}
use llm_wiki_bff.Generation.Bounded.{bounded_map, ensure_json_eof}
use llm_wiki_bff.Sources.{RawFile}

pub record FileStatus : Type 0 where
  pub path : Text
  pub sha256 : Text
  pub olw_status : Text
  pub ingested : Bool
  pub ingested_at : Text
  pub error : Text

abbrev pub empty_status : FileStatus
empty_status = record {
  path = [];
  sha256 = [];
  olw_status = [];
  ingested = false;
  ingested_at = [];
  error = [];
}

pub record Artifact : Type 0 where
  pub version : ℤ
  pub generated_at : Text
  pub file_count : ℤ
  pub files : List (Text × FileStatus)

-- The rows of Apply.
pub record File : Type 0 where
  pub name : Text
  pub size : ℤ
  pub updated : Text
  pub sha256 : Text
  pub ingested : Bool

-- EmptyArtifact
unfoldable pub empty_artifact : Host → ℕ → Artifact
empty_artifact host now = record {
  version = pos 1;
  generated_at = host.format_rfc3339 now;
  file_count = pos 0;
  files = [];
}

-- How encoding/json decodes a FileStatus by its tags is a parameter.
module _ (decode_status : Json → Option FileStatus) where
  -- The `switch name` of Decode.
  unfoldable pub artifact_field : Artifact → Text → Json → Result Error Artifact
  artifact_field a name v =
      if str_eq name (codes "version")
      then elim (decode_int a.version v) [
        | none ↦ err read_failed
        | some n ↦ ok (record a { version = n })
      ]
      else if str_eq name (codes "generated_at")
      then elim (decode_string a.generated_at v) [
        | none ↦ err read_failed
        | some s ↦ ok (record a { generated_at = s })
      ]
      else if str_eq name (codes "file_count")
      then elim (decode_int a.file_count v) [
        | none ↦ err read_failed
        | some n ↦ ok (record a { file_count = n })
      ]
      else if str_eq name (codes "files")
      then (bounded_map decode_status v >>= λ m. ok (record a { files = m }))
      else elim (skip_value v) [ none ↦ err read_failed | some u ↦ ok a ]

  -- The loop of Decode. A repeated name overwrites.
  unfoldable pub artifact_fields : Artifact → Fields → Result Error Artifact
  artifact_fields a end = ok a
  artifact_fields a cut = err read_failed
  artifact_fields a garbled = err read_failed
  artifact_fields a (field name v fs) = elim (artifact_field a name v) [
    | err e ↦ err e
    | ok a' ↦ artifact_fields a' fs
  ]

  -- Older artifacts omit file_count.
  unfoldable pub with_count : Artifact → Artifact
  with_count a =
      if eqb_ℤ a.file_count (pos 0) && ltb 0 (length a.files)
      then record a { file_count = pos (length a.files) }
      else a

  -- Decode
  unfoldable pub decode : Document → Result Error Artifact
  decode d = elim d.value [
    | obj fs ↦ do
      a ←
          artifact_fields
            (record { version = pos 0; generated_at = []; file_count = pos 0; files = [] }) fs
      ensure_json_eof d.trailer
      ok (with_count a)
    | Json.broken ↦ err read_failed
    | _ ↦ err expected_object
  ]

-- Count
unfoldable pub count : Artifact → ℤ
count a = if ltb_ℤ (pos 0) a.file_count then a.file_count else pos (length a.files)

-- isIngested
unfoldable pub is_ingested : RawFile → FileStatus → Bool
is_ingested raw status =
    if not (str_eq status.error [])
    then false
    else str_eq status.olw_status (codes "ingested") || str_eq status.olw_status (codes "compiled")

-- A missing key reads as the zero value.
unfoldable pub status_of : Artifact → Text → FileStatus
status_of a name = elim (lookup name a.files) [ none ↦ empty_status | some s ↦ s ]

-- Apply
unfoldable pub apply : Host → List RawFile → Artifact → List File
unfolding is_ingested status_of
apply host [] a = []
apply host (raw ∷ raws) a =
    record {
      name = raw.name;
      size = raw.size;
      updated = host.format_rfc3339 raw.updated;
      sha256 = raw.sha256;
      ingested = is_ingested raw (status_of a raw.name);
    }
    ∷ apply host raws a
