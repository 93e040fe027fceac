-- ===== src/Generation/Decode.antt =====
-- internal/generation/manifest.go: the strict decoder of manifests, and what json.Marshal writes.
pub mod RoundTrip
pub mod Strict
use llm_wiki_bff.Core.{
  ℕ, Bool, true, false, not, ◌&&◌, Option, none, some, List, [], ◌∷◌, ◌++◌, Result, ok, err, ◌>>=◌,
  ◌>>◌, guard, ltb, leb, all, any, length, if◌then◌else◌,
}
use llm_wiki_bff.Core.Int.{ℤ, pos}
use llm_wiki_bff.Core.Text.{Text, codes, str_eq}
use llm_wiki_bff.Json.{
  null, Json, Items, Fields, Document, obj, arr, str, int, nil, torn, mangled, cons, end, cut,
  garbled, field, decode_string, decode_int,
}
use llm_wiki_bff.Generation.{
  Error, expected_object, expected_array, duplicate_key, read_failed, manifest_too_large,
  invalid_manifest, file_limit, unknown_field, missing_field, File, Manifest, Host, max_files,
  max_manifest_bytes,
}
use llm_wiki_bff.Generation.Bounded.{ensure_json_eof}
use llm_wiki_bff.Generation.Validate.{validate}

-- The result of `dec.Decode` into a field.
abbrev pub into : {A B : Type 0} → Option A → (A → B) → Result Error B
into none f = err read_failed
into (some x) f = ok (f x)

abbrev pub file_fields : List Text
file_fields = codes "path" ∷ codes "size" ∷ codes "sha256" ∷ codes "generation" ∷ []

abbrev pub manifest_fields : List Text
manifest_fields =
    codes "version"
    ∷ codes "generation_id"
    ∷ codes "created_at"
    ∷ codes "input_fingerprint"
    ∷ codes "files"
    ∷ []

abbrev pub empty_file : File
empty_file = record { path = []; size = pos 0; sha256 = []; generation = pos 0 }

abbrev pub empty_manifest : Manifest
empty_manifest = record {
  version = pos 0;
  generation_id = [];
  previous_generation_id = [];
  created_at = [];
  input_fingerprint = [];
  files = [];
}

-- The `switch name` of decodeManifestFile.
unfoldable pub decode_file_field : File → Text → Json → Result Error File
decode_file_field file name v =
    if str_eq name (codes "path")
    then into (decode_string file.path v) (λ s. record file { path = s })
    else if str_eq name (codes "size")
    then into (decode_int file.size v) (λ n. record file { size = n })
    else if str_eq name (codes "sha256")
    then into (decode_string file.sha256 v) (λ s. record file { sha256 = s })
    else if str_eq name (codes "generation")
    then into (decode_int file.generation v) (λ n. record file { generation = n })
    else err unknown_field

-- The loop of decodeManifestFile, with its variables `seen` and `file`.
unfoldable pub decode_file_fields : List Text → File → Fields → Result Error (List Text × File)
unfolding decode_file_field
decode_file_fields seen file end = ok (seen, file)
decode_file_fields seen file cut = err read_failed
decode_file_fields seen file garbled = err read_failed
decode_file_fields seen file (field name v fs) =
    if any (str_eq name) seen then err duplicate_key else elim (decode_file_field file name v) [
      | err e ↦ err e
      | ok file' ↦ decode_file_fields (name ∷ seen) file' fs
    ]

-- Every required name was seen.
unfoldable pub has_all : List Text → List Text → Bool
has_all required seen = all (λ name. any (str_eq name) seen) required

-- decodeManifestFile
unfoldable pub decode_manifest_file : Json → Result Error File
unfolding decode_file_fields has_all
decode_manifest_file (obj fs) = do
  (seen, file) ← decode_file_fields [] empty_file fs
  guard (has_all file_fields seen) missing_field
  ok file
decode_manifest_file _ = err expected_object

-- The loop of decodeManifestFiles, which appends to `files`.
unfoldable pub decode_files : List File → Items → Result Error (List File)
decode_files files nil = ok files
decode_files files torn = err read_failed
decode_files files mangled =
    if leb max_files (length files) then err file_limit else err expected_object
decode_files files (cons v xs) =
    if leb max_files (length files) then err file_limit else elim (decode_manifest_file v) [
      | err e ↦ err e
      | ok file ↦ decode_files (files ++ file ∷ []) xs
    ]

-- decodeManifestFiles
unfoldable pub decode_manifest_files : List File → Json → Result Error (List File)
unfolding decode_files
decode_manifest_files files (arr xs) = decode_files files xs
decode_manifest_files files Json.broken = err read_failed
decode_manifest_files files _ = err expected_array

-- The `switch name` of decodeManifestStrict.
unfoldable pub decode_manifest_field : Manifest → Text → Json → Result Error Manifest
decode_manifest_field m name v =
    if str_eq name (codes "version")
    then into (decode_int m.version v) (λ n. record m { version = n })
    else if str_eq name (codes "generation_id")
    then into (decode_string m.generation_id v) (λ s. record m { generation_id = s })
    else if str_eq name (codes "previous_generation_id")
    then into (decode_string m.previous_generation_id v)
        (λ s. record m { previous_generation_id = s })
    else if str_eq name (codes "created_at")
    then into (decode_string m.created_at v) (λ s. record m { created_at = s })
    else if str_eq name (codes "input_fingerprint")
    then into (decode_string m.input_fingerprint v) (λ s. record m { input_fingerprint = s })
    else if str_eq name (codes "files")
    then (decode_manifest_files m.files v >>= λ fs. ok (record m { files = fs }))
    else err unknown_field

-- The loop of decodeManifestStrict, with its variables `seen` and `manifest`.
unfoldable pub decode_fields : List Text → Manifest → Fields → Result Error (List Text × Manifest)
unfolding decode_manifest_field
decode_fields seen m end = ok (seen, m)
decode_fields seen m cut = err read_failed
decode_fields seen m garbled = err read_failed
decode_fields seen m (field name v fs) =
    if any (str_eq name) seen then err duplicate_key else elim (decode_manifest_field m name v) [
      | err e ↦ err e
      | ok m' ↦ decode_fields (name ∷ seen) m' fs
    ]

-- decodeManifestStrict
unfoldable pub decode_manifest_strict : Document → Result Error Manifest
unfolding ensure_json_eof
decode_manifest_strict d = elim d.value [
  | obj fs ↦ do
    (seen, m) ← decode_fields [] empty_manifest fs
    guard (has_all manifest_fields seen) missing_field
    ensure_json_eof d.trailer
    ok m
  | _ ↦ err expected_object
]

-- Decode, of `size` bytes that hold the document.
unfoldable pub decode : Host → ℕ → Document → Result Error Manifest
decode host size d =
    if ltb max_manifest_bytes size
    then err manifest_too_large
    else elim (decode_manifest_strict d) [
      | err e ↦ err invalid_manifest
      | ok m ↦ do validate host m; ok m
    ]

-- json.Marshal of a row, by the tags of its fields.
unfoldable pub encode_file : Host → File → Json
encode_file host f = obj (
    field (codes "path") (str (host.json_text f.path)) (
      field (codes "size") (int f.size) (
        field (codes "sha256") (str (host.json_text f.sha256))
          (field (codes "generation") (int f.generation) end))))

unfoldable pub encode_rows : Host → List File → Items
unfolding encode_file
encode_rows host [] = nil
encode_rows host (f ∷ fs) = cons (encode_file host f) (encode_rows host fs)

-- The rows: the program leaves the slice nil where there is none, which is written as null.
unfoldable pub encode_files : Host → List File → Json
unfolding encode_rows
encode_files host [] = null
encode_files host (f ∷ fs) = arr (encode_rows host (f ∷ fs))

-- `omitempty`
unfoldable pub encode_previous : Host → Text → Fields → Fields
encode_previous host [] rest = rest
encode_previous host (a ∷ s) rest =
    field (codes "previous_generation_id") (str (host.json_text (a ∷ s))) rest

-- json.Marshal of a manifest.
unfoldable pub encode : Host → Manifest → Json
unfolding encode_previous encode_files
encode host m = obj (
    field (codes "version") (int m.version) (
      field (codes "generation_id") (str (host.json_text m.generation_id)) (
        encode_previous host m.previous_generation_id (
          field (codes "created_at") (str (host.json_text m.created_at)) (
            field (codes "input_fingerprint") (str (host.json_text m.input_fingerprint))
              (field (codes "files") (encode_files host m.files) end))))))
