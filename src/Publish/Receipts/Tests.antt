-- ===== src/Publish/Receipts/Tests.antt =====
-- Runs of mergeCloudReceipts (cmd/olw_worker/cloud_publish.go) on a bucket of three objects.
use llm_wiki_bff.Core.{
  ℕ, zero, suc, ◌+◌, ◌==◌, ◌≡◌, refl, true, false, Bool, Option, none, some, List, [], ◌∷◌, Result,
  ok, err, length, if◌then◌else◌,
}
use llm_wiki_bff.Core.Int.{ℤ, pos}
use llm_wiki_bff.Core.Text.{Text, codes, str_eq}
use llm_wiki_bff.Json.{null, at_eof}
use llm_wiki_bff.Generation.{Host}
use llm_wiki_bff.Lease.{StoreError, conflict, missing}
use llm_wiki_bff.Sources.SourceStatus.{Artifact}
use llm_wiki_bff.Publish.{Snapshot, ObjectAttrs, Bucket}
use llm_wiki_bff.Publish.Receipts.{
  Formats, merge_receipts, merge_snapshots, success_receipt, merge_success, receipt_conflict,
}
use llm_wiki_bff.Publish.Receipts.Kept.{IsKept, merge_snapshots_keeps}
use llm_wiki_bff.Publish.Receipts.Merged.{IsMerged, merge_receipts_sound}

-- How often a write is still to be forestalled, and what was written.
abbrev Contention : Type 0
Contention = ℕ × List Text

-- A raw object stands there, and no annotation and no receipts.
read_from : Contention → Text → Contention × Result StoreError (Text × ℤ)
read_from s n =
    if str_eq n (codes "raw/a.pdf") then (s, ok (codes "bytes", pos 1)) else (s, err missing)

write_to : Contention → Text → Contention × Result StoreError ObjectAttrs
write_to (zero, ws) d =
    ((0, d ∷ ws), ok (record { generation = pos 2; size = pos (length d); sha256 = [] }))
write_to (suc k, ws) d = ((k, ws), err conflict)

abbrev contended : Bucket Contention
contended = record { read = read_from; write = λ s n d m c. write_to s d }

abbrev given_host : Host
given_host = record {
  sha256_hex = λ t. codes "d";
  json_text = λ s. s;
  rfc3339 = λ t. true;
  format_rfc3339 = λ t. codes "now";
}

abbrev given_formats : Formats
given_formats = record {
  parse = λ t. record { value = null; trailer = at_eof };
  marshal = λ a. if length a.sources == 1 then codes "one" else codes "none";
  unmarshal = λ t. none;
  valid_utf8 = λ t. true;
}

abbrev snapshot : Text → Text → Bool → Snapshot
snapshot id digest gone = record {
  source_id = id;
  raw_path = codes "raw/a.pdf";
  raw_sha256 = digest;
  annotation_sha = codes "d";
  fingerprint = codes "f";
  tombstone = gone;
}

-- The second snapshot is stale and the third is gone.
abbrev given_snapshots : List Snapshot
given_snapshots =
    snapshot (codes "s1") (codes "d") false
    ∷ snapshot (codes "s2") (codes "e") false
    ∷ snapshot (codes "s3") (codes "d") true
    ∷ []

abbrev successes : Contention → Artifact → Contention × Artifact
successes =
    merge_snapshots contended given_host given_formats [] (λ s a. success_receipt (codes "now"))
      given_snapshots

merges :
    merge_receipts contended given_host given_formats [] successes 3 (2, [])
    ≡ ((0, codes "one" ∷ []), ok tt)
unfolding merge_receipts read_from write_to str_eq merge_snapshots
    llm_wiki_bff.Sources.annotation_digest llm_wiki_bff.Core.Dict.insert
merges = refl

gives_up :
    merge_success contended given_host given_formats [] (λ s. codes "now") given_snapshots (3, [])
    ≡ ((0, []), err receipt_conflict)
unfolding merge_success read_from write_to str_eq
gives_up = refl

merge_receipts_sound_example :
    IsMerged contended given_host given_formats [] successes (0, codes "one" ∷ [])
merge_receipts_sound_example =
    merge_receipts_sound contended given_host given_formats [] successes 3 (2, [])
      (0, codes "one" ∷ []) merges

merge_snapshots_keeps_example :
    IsKept contended given_host given_formats []
      (λ s a. success_receipt (codes "now"))
      given_snapshots
      (record { version = pos 1; sources = [] })
      (successes (0, []) (record { version = pos 1; sources = [] })).1
      (codes "s1")
merge_snapshots_keeps_example =
    merge_snapshots_keeps contended given_host given_formats []
      (λ s a. success_receipt (codes "now")) given_snapshots (0, [])
      (record { version = pos 1; sources = [] }) (codes "s1")
