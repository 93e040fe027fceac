-- ===== src/Generation/Validate.antt =====
-- internal/generation/manifest.go: Manifest.Validate, ObjectPath and NewFile.
pub mod Exact
use llm_wiki_bff.Core.{
  ℕ, Bool, true, false, not, ◌&&◌, ◌||◌, List, [], ◌∷◌, ◌++◌, Result, ok, err, ltb, length,
  if◌then◌else◌,
}
use llm_wiki_bff.Core.Int.{ℤ, pos, ◌+ℤ◌, ◌-ℤ◌, ltb_ℤ, leb_ℤ, eqb_ℤ}
use llm_wiki_bff.Core.Text.{Text, codes, str_eq, str_ltb, trim_space}
use llm_wiki_bff.Generation.{
  Error, invalid_manifest, invalid_output, File, Manifest, Host, max_files, max_file_bytes,
  max_total_size, generations_prefix,
}
use llm_wiki_bff.Generation.Paths.{generation_owned, safe_generation_id, valid_digest}

-- The condition of the loop that refuses a row.
unfoldable pub bad_row : Text → File → Bool
bad_row last file =
    not (generation_owned file.path)
    || not (str_ltb last file.path)
    || ltb_ℤ file.size (pos 0)
    || ltb_ℤ (pos max_file_bytes) file.size
    || leb_ℤ file.generation (pos 0)
    || not (valid_digest file.sha256)

-- The loop of Validate over the rows, with its variables `total` and `last`.
unfoldable pub validate_files : ℤ → Text → List File → Result Error Unit
unfolding bad_row
validate_files total last [] = ok tt
validate_files total last (file ∷ files) =
    if bad_row last file
    then err invalid_manifest
    else if ltb_ℤ (pos max_total_size -ℤ file.size) total
    then err invalid_manifest
    else validate_files (total +ℤ file.size) file.path files

-- Manifest.Validate
unfoldable pub validate : Host → Manifest → Result Error Unit
unfolding validate_files
validate host m =
    if not (eqb_ℤ m.version (pos 1))
      || not (safe_generation_id m.generation_id)
      || (not (str_eq m.previous_generation_id [])
          && not (safe_generation_id m.previous_generation_id))
    then err invalid_manifest
    else if not (host.rfc3339 m.created_at)
        || str_eq (trim_space m.input_fingerprint) []
        || ltb max_files (length m.files)
    then err invalid_manifest
    else validate_files (pos 0) [] m.files

-- Manifest.ObjectPath
unfoldable pub object_path : Manifest → File → Text
object_path m file = generations_prefix ++ (m.generation_id ++ b'/' ∷ file.path)

-- NewFile
unfoldable pub new_file : Host → Text → Text → ℤ → Result Error File
new_file host path bytes generation =
    if not (generation_owned path) || leb_ℤ generation (pos 0)
    then err invalid_output
    else ok (record {
      path = path;
      size = pos (length bytes);
      sha256 = host.sha256_hex bytes;
      generation = generation;
    })
