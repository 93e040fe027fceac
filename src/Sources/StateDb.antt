-- ===== src/Sources/StateDb.antt =====
-- internal/rawstatus/sqlite.go: the status artifact from the rows of the worker's state database.
-- SQLite is a parameter: what reading the database gives.
use llm_wiki_bff.Core.{
  ℕ, ◌≡◌, refl, Bool, true, false, ◌∙◌, ap, none, some, List, [], ◌∷◌, ◌++◌, length, length-append,
  any, arith,
}
use llm_wiki_bff.Core.Int.{pos}
use llm_wiki_bff.Core.Text.{Text, str_eq}
use llm_wiki_bff.Core.Dict.{lookup, insert, lookup-insert, lookup-insert_self}
use llm_wiki_bff.Generation.{Host}
use llm_wiki_bff.Sources.{RawFile}
use llm_wiki_bff.Sources.RawStatus.{
  FileStatus, Artifact, empty_status, empty_artifact, is_ingested, count,
}

-- No database, an error on the way (stat, open, query, scan or the end of the rows), or its rows.
pub data StateDb : Type 0 where
  absent : StateDb
  failing : StateDb
  rows : List FileStatus → StateDb

-- The loop over the rows: the last row of a path wins.
unfoldable pub by_path : List (Text × FileStatus) → List FileStatus → List (Text × FileStatus)
by_path m [] = m
by_path m (s ∷ ss) = by_path (insert s.path s m) ss

-- byPath[path], the zero value where there is no row.
unfoldable pub read_row : List (Text × FileStatus) → Text → FileStatus
read_row m path = elim (lookup path m) [ none ↦ empty_status | some s ↦ s ]

-- The status that is stored for a raw file.
unfoldable pub row_of : List (Text × FileStatus) → RawFile → FileStatus
row_of m raw =
    let status = record (read_row m raw.path) { path = raw.path } in
    record status { ingested = is_ingested raw status }

-- The loop over the raw files.
unfoldable pub fill :
    List (Text × FileStatus) → List (Text × FileStatus) → List RawFile → List (Text × FileStatus)
fill m files [] = files
fill m files (raw ∷ raws) = fill m (insert raw.name (row_of m raw) files) raws

-- BuildFromStateDB: the artifact, and whether there was an error.
unfoldable pub build_from_state_db : Host → StateDb → List RawFile → ℕ → Artifact × Bool
build_from_state_db host db files now =
    let artifact = record (empty_artifact host now) { file_count = pos (length files) } in
    elim db [
      | absent ↦ (artifact, false)
      | failing ↦ (artifact, true)
      | rows ss ↦ (record artifact { files = fill (by_path [] ss) artifact.files files }, false)
    ]

fill-append :
    (m files : List (Text × FileStatus)) (xs ys : List RawFile)
    → fill m files (xs ++ ys) ≡ fill m (fill m files xs) ys
unfolding fill
fill-append m files [] ys = refl
fill-append m files (x ∷ xs) ys = fill-append m (insert x.name (row_of m x) files) xs ys

-- Files of other names leave an entry alone.
fill_keeps :
    (m files : List (Text × FileStatus)) (name : Text) (ys : List RawFile)
    → any (λ r. str_eq r.name name) ys ≡ false
    → lookup name (fill m files ys) ≡ lookup name files
unfolding fill
fill_keeps m files name [] h = refl
fill_keeps m files name (y ∷ ys) h =
    let rest = fill_keeps m (insert y.name (row_of m y) files) name ys (ground (arith, h)) in
    let step = lookup-insert y.name name (row_of m y) files in ground (arith, rest, step, h)

-- In the artifact from a readable database, the last raw file of a name has an entry under that
-- name: the last row of its path (or an empty row), with the path set and with the badge that
-- isIngested gives. FileCount, and Count with it, is the number of raw files.
pub build_from_state_db_lem :
    (host : Host) (ss : List FileStatus) (before after : List RawFile) (raw : RawFile) (now : ℕ)
    → any (λ r. str_eq r.name raw.name) after ≡ false
    → (lookup raw.name (build_from_state_db host (rows ss) (before ++ raw ∷ after) now).0.files
        ≡ some (row_of (by_path [] ss) raw))
      × (count (build_from_state_db host (rows ss) (before ++ raw ∷ after) now).0
          ≡ pos (length (before ++ raw ∷ after)))
unfolding build_from_state_db fill empty_artifact count
build_from_state_db_lem host ss before after raw now h =
    let m = by_path [] ss in
    let files = fill m [] before in
    (
      ap (lookup raw.name) (fill-append m [] before (raw ∷ after))
          ∙ fill_keeps m (insert raw.name (row_of m raw) files) raw.name after h
          ∙ lookup-insert_self raw.name (row_of m raw) files,
      ground (arith, length-append before (raw ∷ after)),
    )
