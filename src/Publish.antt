-- ===== src/Publish.antt =====
-- cmd/olw_worker/cloud_publish.go: publishCloudGenerationWithFiles and confirmManifestCommit. The
-- object store, the files of the workspace and the printing and reading of JSON are parameters.
pub mod Commit
pub mod Complete
pub mod Equal
pub mod Receipts
pub mod Stored
mod Tests
use llm_wiki_bff.Core.{
  ℕ, Bool, true, false, not, ◌&&◌, ◌||◌, Option, none, some, List, [], ◌∷◌, ◌++◌, Result, ok, err,
  length, if◌then◌else◌,
}
use llm_wiki_bff.Core.Int.{ℤ, pos, leb_ℤ, eqb_ℤ}
use llm_wiki_bff.Core.Text.{Text, codes, str_eq, str_ltb}
use llm_wiki_bff.Core.Sort.{sort_stable}
use llm_wiki_bff.Json.{Json, Document}
use llm_wiki_bff.Generation.{Host, Error, File, Manifest, generations_prefix}
use llm_wiki_bff.Generation.Decode.{empty_manifest, encode, decode}
use llm_wiki_bff.Generation.Validate.{validate}
use llm_wiki_bff.Lease.{StoreError, missing}

-- sourceSnapshot, as far as it is read here.
pub record Snapshot : Type 0 where
  pub source_id : Text
  pub raw_path : Text
  pub raw_sha256 : Text
  pub annotation_sha : Text
  pub fingerprint : Text
  pub tombstone : Bool

-- objectConditions, DoesNotExist or GenerationMatch.
pub data ObjectConditions : Type 0 where
  does_not_exist : ObjectConditions
  generation_match : ℤ → ObjectConditions

-- objectAttrs, with Metadata["sha256"].
pub record ObjectAttrs : Type 0 where
  pub generation : ℤ
  pub size : ℤ
  pub sha256 : Text

-- Read and Write of objectStore, each with the state after it. Write takes the data, the sha256 of
-- its metadata if it has any, and the conditions. Read is of the object's current generation; the
-- limit that it is given is the store's to check.
pub record Bucket (S : Type 0) : Type 0 where
  pub read : S → Text → S × Result StoreError (Text × ℤ)
  pub write : S → Text → Text → Option Text → ObjectConditions → S × Result StoreError ObjectAttrs

-- encoding/json between a document and its text.
pub record Codec : Type 0 where
  pub print : Json → Text
  pub parse : Text → Document

-- generationOutput, less the state of its file.
pub record Output : Type 0 where
  pub path : Text
  pub size : ℤ
  pub sha256 : Text

pub data PublishError : Type 0 where
  no_generation_id output_read output_changed upload_failed outcome_unknown conflicted :
      PublishError
  previous_invalid manifest_invalid : Error → PublishError

-- What confirmManifestCommit finds.
pub data Confirmed : Type 0 where
  committed : ℤ → Confirmed
  not_committed unknown : Confirmed

abbrev pub manifest_path : Text
manifest_path = codes ".lwc/publish/current.json"

-- The text whose digest is snapshotFingerprint.
unfoldable pub snapshot_text : List Snapshot → Text
snapshot_text [] = []
snapshot_text (x ∷ xs) =
    let rest = snapshot_text xs in
    if x.tombstone then rest else x.source_id ++ (0 ∷ (x.fingerprint ++ (10 ∷ rest)))

-- snapshotFingerprint
unfoldable pub snapshot_fingerprint : Host → List Snapshot → Text
unfolding snapshot_text
snapshot_fingerprint host xs = host.sha256_hex (snapshot_text xs)

unfoldable pub file_eq : File → File → Bool
file_eq f g =
    str_eq f.path g.path
    && eqb_ℤ f.size g.size
    && str_eq f.sha256 g.sha256
    && eqb_ℤ f.generation g.generation

unfoldable pub files_eq : List File → List File → Bool
unfolding file_eq
files_eq [] [] = true
files_eq [] (g ∷ gs) = false
files_eq (f ∷ fs) [] = false
files_eq (f ∷ fs) (g ∷ gs) = file_eq f g && files_eq fs gs

-- reflect.DeepEqual of two manifests.
unfoldable pub manifest_eq : Manifest → Manifest → Bool
unfolding files_eq
manifest_eq m n =
    eqb_ℤ m.version n.version
    && str_eq m.generation_id n.generation_id
    && str_eq m.previous_generation_id n.previous_generation_id
    && str_eq m.created_at n.created_at
    && str_eq m.input_fingerprint n.input_fingerprint
    && files_eq m.files n.files

-- The condition of the manifest's write.
unfoldable pub commit_condition : Option (Text × ℤ) → ObjectConditions
commit_condition none = does_not_exist
commit_condition (some (old_data, g)) = generation_match g

-- The outcome of an upload, before that of the uploads after it.
unfoldable pub add_row :
    {S : Type 0}
    → S × Result PublishError File
    → S × Result PublishError (List File)
    → S × Result PublishError (List File)
add_row (s, err e) rest = (s, err e)
add_row (s, ok f) (s', err e) = (s', err e)
add_row (s, ok f) (s', ok fs) = (s', ok (f ∷ fs))

module _ {S : Type 0} (bucket : Bucket S) (host : Host) (codec : Codec)
    (read_file : Text → Option Text) (prefix : Text) where
  -- The name of an object of the generation.
  unfoldable pub object_name : Text → Text → Text
  object_name id path = prefix ++ (generations_prefix ++ (id ++ 47 ∷ path))

  -- The row of an upload whose attributes match.
  unfoldable pub uploaded :
      Output → S × Result StoreError ObjectAttrs → S × Result PublishError File
  uploaded o (s, err e) = (s, err upload_failed)
  uploaded o (s, ok a) =
      if not (eqb_ℤ a.size o.size) || not (str_eq a.sha256 o.sha256) || leb_ℤ a.generation (pos 0)
      then (s, err upload_failed)
      else (
        s,
        ok (record { path = o.path; size = o.size; sha256 = o.sha256; generation = a.generation }),
      )

  -- A file that was read, if it has not changed since it was validated.
  unfoldable pub upload_bytes : S → Text → Output → Option Text → S × Result PublishError File
  unfolding uploaded object_name
  upload_bytes s id o none = (s, err output_read)
  upload_bytes s id o (some b) =
      let digest = host.sha256_hex b in
      if not (eqb_ℤ (pos (length b)) o.size) || not (str_eq digest o.sha256)
      then (s, err output_changed)
      else uploaded o (bucket.write s (object_name id o.path) b (some digest) does_not_exist)

  -- The loop over the files.
  unfoldable pub upload_files : S → Text → List Output → S × Result PublishError (List File)
  unfolding upload_bytes add_row
  upload_files s id [] = (s, ok [])
  upload_files s id (o ∷ os) =
      let one = upload_bytes s id o (read_file o.path) in
      let rest = upload_files one.0 id os in add_row one rest

  -- confirmManifestCommit after the read.
  unfoldable pub confirm_read : Text → Manifest → Result StoreError (Text × ℤ) → Confirmed
  unfolding manifest_eq
  confirm_read proposed m (err missing) = not_committed
  confirm_read proposed m (err _) = unknown
  confirm_read proposed m (ok (data_, g)) =
      if str_eq data_ proposed
      then committed g
      else elim (decode host (length data_) (codec.parse data_)) [
        | err e ↦ not_committed
        | ok readback ↦ if manifest_eq readback m then committed g else not_committed
      ]

  -- confirmManifestCommit
  unfoldable pub confirm_manifest_commit : S → Text → Manifest → S × Confirmed
  unfolding confirm_read
  confirm_manifest_commit s proposed m =
      let (s', r) = bucket.read s (prefix ++ manifest_path) in (s', confirm_read proposed m r)

  -- What is returned where the manifest's write failed.
  unfoldable pub after_failure : Manifest → S × Confirmed → S × Result PublishError (Manifest × ℤ)
  after_failure m (s, committed g) = (s, ok (m, g))
  after_failure m (s, not_committed) = (s, err conflicted)
  after_failure m (s, unknown) = (s, err outcome_unknown)

  unfoldable pub after_write :
      Text → Manifest → S × Result StoreError ObjectAttrs → S × Result PublishError (Manifest × ℤ)
  unfolding confirm_manifest_commit after_failure
  after_write data_ m (s, ok a) = (s, ok (m, a.generation))
  after_write data_ m (s, err e) = after_failure m (confirm_manifest_commit s data_ m)

  -- The write of the manifest.
  unfoldable pub commit : S → Option (Text × ℤ) → Manifest → S × Result PublishError (Manifest × ℤ)
  unfolding after_write commit_condition
  commit s old m =
      let data_ = codec.print (encode host m) in
      after_write data_ m (
        bucket.write s (prefix ++ manifest_path) data_ (some (host.sha256_hex data_))
          (commit_condition old))

  -- The manifest that publishCloudGenerationWithFiles assembles.
  unfoldable pub manifest_of : Text → ℕ → Text → Text → List File → Manifest
  manifest_of id now previous print_ files = record {
    version = pos 1;
    generation_id = id;
    previous_generation_id = previous;
    created_at = host.format_rfc3339 now;
    input_fingerprint = print_;
    files = sort_stable (λ f g. str_ltb f.path g.path) files;
  }

  -- From Validate on.
  unfoldable pub publish_valid :
      S → Option (Text × ℤ) → Manifest → Result Error Unit → S × Result PublishError (Manifest × ℤ)
  unfolding commit
  publish_valid s old m (err e) = (s, err (manifest_invalid e))
  publish_valid s old m (ok u) = commit s old m

  -- From the uploaded files on.
  unfoldable pub publish_files :
      Option (Text × ℤ)
      → (List File → Manifest)
      → S × Result PublishError (List File)
      → S × Result PublishError (Manifest × ℤ)
  unfolding publish_valid
  publish_files old assemble (s, err e) = (s, err e)
  publish_files old assemble (s, ok files) =
      publish_valid s old (assemble files) (validate host (assemble files))

  -- The manifest that was there, blank where there was none.
  unfoldable pub previous_manifest : Option (Text × ℤ) → Result Error Manifest
  previous_manifest none = ok empty_manifest
  previous_manifest (some (data_, g)) = decode host (length data_) (codec.parse data_)

  -- From the decoded old manifest on.
  unfoldable pub publish_from :
      S
      → ℕ
      → List Snapshot
      → List Output
      → Option (Text × ℤ)
      → Option Text
      → Result Error Manifest
      → S × Result PublishError (Manifest × ℤ)
  unfolding upload_files publish_files manifest_of snapshot_fingerprint
  publish_from s now snapshots outputs old drawn (err e) = (s, err (previous_invalid e))
  publish_from s now snapshots outputs old none (ok previous) = (s, err no_generation_id)
  publish_from s now snapshots outputs old (some id) (ok previous) =
      publish_files old
        (manifest_of id now previous.generation_id (snapshot_fingerprint host snapshots))
        (upload_files s id outputs)

  -- publishCloudGenerationWithFiles, with the identifier that was drawn and the time.
  unfoldable pub publish :
      S
      → Option Text
      → ℕ
      → List Snapshot
      → List Output
      → Option (Text × ℤ)
      → S × Result PublishError (Manifest × ℤ)
  unfolding previous_manifest publish_from
  publish s drawn now snapshots outputs old =
      publish_from s now snapshots outputs old drawn (previous_manifest old)
