-- ===== src/Generation.antt =====
-- internal/generation: the manifest of an immutable generation of outputs, its limits, and the
-- errors of its decoders. SHA-256 and time.Parse are taken from a `Host`.
pub mod Bounded
pub mod Decode
pub mod Find
pub mod Objects
pub mod Paths
mod Tests
pub mod Validate
use llm_wiki_bff.Core.{ℕ, ◌≡◌, Bool, true, List, String}
use llm_wiki_bff.Core.Int.{ℤ}
use llm_wiki_bff.Core.Text.{Text, codes}

abbrev pub max_files : ℕ
max_files = 10000

-- 64 << 20
abbrev pub max_file_bytes : ℕ
max_file_bytes = 67108864

-- 512 << 20
abbrev pub max_total_size : ℕ
max_total_size = 536870912

abbrev pub max_path_bytes : ℕ
max_path_bytes = 1024

-- 1024 + MaxFiles*(MaxPathBytes+192)
abbrev pub max_manifest_bytes : ℕ
max_manifest_bytes = 12161024

abbrev pub generations_prefix : Text
generations_prefix = codes ".lwc/publish/generations/"

pub data Error : Type 0 where
  expected_object expected_array duplicate_key entry_limit read_failed trailing_json : Error
  manifest_too_large invalid_manifest file_limit unknown_field missing_field : Error
  invalid_output : Error

pub record File : Type 0 where
  pub path : Text
  pub size : ℤ
  pub sha256 : Text
  pub generation : ℤ

pub record Manifest : Type 0 where
  pub version : ℤ
  pub generation_id : Text
  pub previous_generation_id : Text
  pub created_at : Text
  pub input_fingerprint : Text
  pub files : List File

-- What the program takes from the Go runtime and does not implement.
pub record Host : Type 0 where
  -- hex.EncodeToString of sha256.Sum256
  pub sha256_hex : Text → Text
  -- time.Parse(time.RFC3339, s) has no error
  pub rfc3339 : Text → Bool
  -- t.UTC().Format("2006-01-02T15:04:05Z07:00")
  pub format_rfc3339 : ℕ → Text
  -- The text that encoding/json writes for a string: invalid UTF-8 is replaced by U+FFFD.
  pub json_text : Text → Text
