-- ===== src/Sources.antt =====
-- The state of a project's sources: internal/storage (pages and raw files), internal/annotation
-- (digests), internal/sourcestatus (receipts of the worker), internal/rawstatus (its older status
-- file) and internal/sourcelifecycle (what all of that says of each page).
pub mod Lifecycle
pub mod RawStatus
pub mod SourceStatus
pub mod StateDb
mod Tests
use llm_wiki_bff.Core.{
  ℕ, zero, suc, ◌≡◌, refl, Bool, true, false, not, ◌&&◌, ◌||◌, List, [], ◌∷◌, ◌==◌, if◌then◌else◌,
}
use llm_wiki_bff.Core.Int.{ℤ}
use llm_wiki_bff.Core.Text.{Text, codes, str_eq, has_prefix, contains, split_on, join_by}
use llm_wiki_bff.Generation.{Host}
use llm_wiki_bff.Generation.Paths.{path_clean}

-- The values of LifecycleStatus that the program writes, and any that it was given.
pub data LifecycleStatus : Type 0 where
  fresh error content_pending notes_pending synced : LifecycleStatus
  given : Text → LifecycleStatus

-- storage.WikiPage, less Quality, Concepts, SourceURL and RawSource, which nothing here reads or
-- sets.
pub record WikiPage : Type 0 where
  pub slug : Text
  pub title : Text
  pub id : Text
  pub path : Text
  pub status : Text
  pub raw_path : Text
  pub annotation_allowed : Bool
  pub has_annotation : Bool
  pub annotation_dirty : Bool
  pub raw_dirty : Bool
  pub dirty : Bool
  pub lifecycle_status : LifecycleStatus
  pub ann_updated_at : Text

pub record RawFile : Type 0 where
  pub name : Text
  pub path : Text
  pub size : ℤ
  pub updated : ℕ
  pub sha256 : Text

pub record ObjectMeta : Type 0 where
  pub path : Text
  pub updated : ℕ
  pub sha256 : Text
  pub has_annotation : Bool

-- storage.SafeRawPath
unfoldable pub safe_raw_path : Text → Bool
safe_raw_path raw =
    not (str_eq raw (codes "raw/"))
    && not (has_prefix raw (codes "/"))
    && not (contains raw (codes "\\"))
    && str_eq (path_clean raw) raw
    && has_prefix raw (codes "raw/")

-- annotation.Normalize, its two replacements.
drop_crlf : Text → Text
drop_crlf [] = []
drop_crlf (a ∷ []) = a ∷ []
drop_crlf (a ∷ b ∷ s) =
    let rest = drop_crlf (b ∷ s) in if a == 13 && b == 10 then rest else a ∷ rest

cr_to_lf : Text → Text
cr_to_lf [] = []
cr_to_lf (a ∷ s) = (if a == 13 then 10 else a) ∷ cr_to_lf s

unfoldable pub normalize : Text → Text
unfolding drop_crlf cr_to_lf
normalize body = cr_to_lf (drop_crlf body)

-- annotation.Digest
unfoldable pub annotation_digest : Host → Text → Text
unfolding normalize
annotation_digest host body = host.sha256_hex (normalize body)

safe_test : safe_raw_path (codes "raw/a.pdf") ≡ true
unfolding safe_raw_path path_clean str_eq has_prefix contains split_on join_by
safe_test = refl

escape_test : safe_raw_path (codes "raw/../secret") ≡ false
unfolding safe_raw_path path_clean str_eq has_prefix contains split_on join_by
escape_test = refl
