-- ===== src/Sources/Lifecycle.antt =====
-- internal/sourcelifecycle/lifecycle.go: Calculate decorates the compiled sources with what the
-- worker has to do, and appends the raw files that no source maps. Counts are natural numbers: a
-- project has fewer than 2^63 sources.
pub mod Covers
pub mod Pages
pub mod Receipts
pub mod Totals
use llm_wiki_bff.Core.{
  ℕ, zero, suc, ◌+◌, Bool, true, false, not, ◌&&◌, ◌||◌, Option, none, some, List, [], ◌∷◌, ◌++◌,
  ltb, ◌==◌, any, is_some, if◌then◌else◌,
}
use llm_wiki_bff.Core.Int.{pos}
use llm_wiki_bff.Core.Text.{Text, codes, str_eq, trim_space}
use llm_wiki_bff.Core.Dict.{lookup, insert}
use llm_wiki_bff.Generation.{Host}
use llm_wiki_bff.Sources.{
  WikiPage, RawFile, ObjectMeta, LifecycleStatus, fresh, error, content_pending, notes_pending,
  synced, safe_raw_path, annotation_digest,
}
use llm_wiki_bff.Sources.SourceStatus.{
  Receipt, empty_receipt, fingerprint, valid_receipt, valid_current_failure,
}
use llm_wiki_bff.Sources.RawStatus.{FileStatus}

pub record Input : Type 0 where
  pub sources : List WikiPage
  pub raw_files : List RawFile
  pub annotations : List (Text × ObjectMeta)
  pub receipts : List (Text × Receipt)
  pub legacy : List (Text × FileStatus)
  pub legacy_generated_at : ℕ

pub record Counts : Type 0 where
  pub new_raw : ℕ
  pub raw_dirty : ℕ
  pub annotation_dirty : ℕ

abbrev pub no_counts : Counts
no_counts = record { new_raw = 0; raw_dirty = 0; annotation_dirty = 0 }

-- RawFile{}
abbrev pub empty_raw : RawFile
empty_raw = record { name = []; path = []; size = pos 0; updated = 0; sha256 = [] }

abbrev pub get_or {ℓ} : {A : Type ℓ} → A → Option A → A
get_or d none = d
get_or d (some a) = a

abbrev pub or_else {ℓ} : {A : Type ℓ} → Option A → Option A → Option A
or_else none o = o
or_else (some a) o = some a

-- The map from paths to raw files; a later file of the same path wins.
unfoldable pub raws_by_path : List (Text × RawFile) → List RawFile → List (Text × RawFile)
raws_by_path m [] = m
raws_by_path m (raw ∷ raws) = raws_by_path (insert raw.path raw m) raws

-- legacyStatus
unfoldable pub legacy_status : List (Text × FileStatus) → RawFile → Option FileStatus
legacy_status statuses raw =
    if not (safe_raw_path raw.path)
    then none
    else elim (or_else (lookup raw.name statuses) (lookup raw.path statuses)) [
      | none ↦ none
      | some s ↦ if not (str_eq s.path []) && not (str_eq s.path raw.path) then none else some s
    ]

-- status.Ingested || OLWStatus == "ingested" || OLWStatus == "compiled"
unfoldable pub legacy_done : FileStatus → Bool
legacy_done s =
    s.ingested || str_eq s.olw_status (codes "ingested") || str_eq s.olw_status (codes "compiled")

-- The outcomes of a page: the page with its marks, and what it adds to the counts.
unfoldable pub mark_raw : LifecycleStatus → WikiPage → Counts → WikiPage × Counts
mark_raw status page counts = (
  record page { lifecycle_status = status; raw_dirty = true; dirty = true },
  record counts { raw_dirty = counts.raw_dirty + 1 },
)

unfoldable pub mark_annotation : LifecycleStatus → WikiPage → Counts → WikiPage × Counts
mark_annotation status page counts = (
  record page { lifecycle_status = status; annotation_dirty = true; dirty = true },
  record counts { annotation_dirty = counts.annotation_dirty + 1 },
)

unfoldable pub mark_synced : WikiPage → Counts → WikiPage × Counts
mark_synced page counts = (record page { lifecycle_status = synced }, counts)

unfoldable pub mark_new : Bool → WikiPage → Counts → WikiPage × Counts
mark_new raw_exists page counts = (
  record page { lifecycle_status = fresh },
  if raw_exists then record counts { new_raw = counts.new_raw + 1 } else counts,
)

-- The fields that the loop sets first.
unfoldable pub clear_page : WikiPage → WikiPage
clear_page page =
    let raw_path = trim_space page.raw_path in
    record page {
      raw_path = raw_path;
      annotation_allowed = safe_raw_path raw_path;
      has_annotation = false;
      annotation_dirty = false;
      raw_dirty = false;
      dirty = false;
      ann_updated_at = [];
    }

module _ (host : Host) (i : Input) where
  -- annotation.Digest("")
  unfoldable pub no_annotation : Text
  no_annotation = annotation_digest host []

  -- The digest of the page's annotation.
  unfoldable pub annotation_of : WikiPage → Text
  annotation_of page = elim (lookup page.id i.annotations) [
    | none ↦ no_annotation
    | some meta ↦ if str_eq meta.sha256 [] then no_annotation else meta.sha256
  ]

  -- What the metadata of the annotation sets.
  unfoldable pub with_annotation : WikiPage → WikiPage
  with_annotation page = elim (lookup page.id i.annotations) [
    | none ↦ page
    | some meta ↦ record page {
      has_annotation = meta.has_annotation;
      ann_updated_at =
          if meta.updated == 0 then page.ann_updated_at else host.format_rfc3339 meta.updated;
    }
  ]

  -- The end of markFailure, for a receipt without a success.
  unfoldable pub failure_by_legacy :
      WikiPage → Counts → Text → Option FileStatus → WikiPage × Counts
  failure_by_legacy page counts ann none = mark_raw error page counts
  failure_by_legacy page counts ann (some prior) =
      if legacy_done prior && not (str_eq ann no_annotation)
      then mark_annotation error page counts
      else mark_raw error page counts

  -- markFailure
  unfoldable pub mark_failure : WikiPage → Counts → Receipt → RawFile → Text → WikiPage × Counts
  unfolding failure_by_legacy
  mark_failure page counts receipt raw ann =
      if valid_receipt host receipt page.raw_path
      then (if str_eq receipt.last_ingested_raw_sha256 raw.sha256
            && not (str_eq receipt.last_ingested_ann_sha256 ann)
          then mark_annotation error page counts
          else mark_raw error page counts)
      else failure_by_legacy page counts ann (legacy_status i.legacy raw)

  -- A page without a valid receipt: by the legacy status, or new.
  unfoldable pub by_status :
      WikiPage → Counts → Bool → RawFile → Text → Option FileStatus → WikiPage × Counts
  by_status page counts raw_exists raw ann none = mark_new raw_exists page counts
  by_status page counts raw_exists raw ann (some legacy) =
      if (not (i.legacy_generated_at == 0) && ltb i.legacy_generated_at raw.updated)
        || not (str_eq legacy.error [])
        || not (legacy_done legacy)
      then mark_raw content_pending page counts
      else if not (str_eq ann no_annotation)
      then mark_annotation notes_pending page counts
      else mark_synced page counts

  unfoldable pub by_legacy : WikiPage → Counts → Bool → RawFile → Text → WikiPage × Counts
  unfolding by_status
  by_legacy page counts raw_exists raw ann =
      by_status page counts raw_exists raw ann (legacy_status i.legacy raw)

  -- A page with a valid receipt.
  unfoldable pub by_receipt :
      WikiPage → Counts → Bool → RawFile → Text → Receipt → WikiPage × Counts
  by_receipt page counts raw_exists raw ann receipt =
      if not raw_exists || not (str_eq receipt.last_ingested_raw_sha256 raw.sha256)
      then mark_raw content_pending page counts
      else if not (str_eq receipt.last_ingested_ann_sha256 ann)
      then mark_annotation notes_pending page counts
      else if str_eq (fingerprint host raw.sha256 ann) receipt.last_ingest_fingerprint
      then mark_synced page counts
      else mark_new raw_exists page counts

  -- The rest of the loop's body for a page with a safe raw path.
  unfoldable pub decide_page :
      WikiPage → Counts → Option RawFile → Option Receipt → WikiPage × Counts
  decide_page page counts found receipt =
      let raw = get_or empty_raw found in
      let ann = annotation_of page in
      let r = get_or empty_receipt receipt in
      if is_some found
        && is_some receipt
        && valid_current_failure r page.raw_path (fingerprint host raw.sha256 ann)
      then mark_failure page counts r raw ann
      else if not (is_some receipt) || not (valid_receipt host r page.raw_path)
      then by_legacy page counts (is_some found) raw ann
      else by_receipt page counts (is_some found) raw ann r

  -- The body of the loop over the sources.
  unfoldable pub calculate_page : List (Text × RawFile) → Counts → WikiPage → WikiPage × Counts
  unfolding clear_page
  calculate_page raws counts given =
      let page = clear_page given in
      if not page.annotation_allowed
      then (record page { lifecycle_status = fresh }, counts)
      else decide_page (with_annotation page) counts (lookup page.raw_path raws)
          (lookup page.id i.receipts)

  -- The loop over the sources.
  unfoldable pub calculate_pages :
      List (Text × RawFile) → Counts → List WikiPage → List WikiPage × Counts
  calculate_pages raws counts [] = ([], counts)
  calculate_pages raws counts (page ∷ pages) =
      let (page', counts') = calculate_page raws counts page in
      let (rest, counts'') = calculate_pages raws counts' pages in (page' ∷ rest, counts'')

-- The raw paths that the loop has marked as mapped.
unfoldable pub mapped_paths : List WikiPage → List Text
unfolding clear_page
mapped_paths [] = []
mapped_paths (page ∷ pages) =
    let cleared = clear_page page in
    if cleared.annotation_allowed then cleared.raw_path ∷ mapped_paths pages else mapped_paths pages

-- The page that is appended for a raw file.
unfoldable pub page_of_raw : RawFile → WikiPage
page_of_raw raw = record {
  slug = raw.path;
  title = raw.name;
  id = [];
  path = [];
  status = [];
  raw_path = raw.path;
  annotation_allowed = false;
  has_annotation = false;
  annotation_dirty = false;
  raw_dirty = false;
  dirty = false;
  lifecycle_status = fresh;
  ann_updated_at = [];
}

-- The loop over the raw files.
unfoldable pub append_unmapped : List Text → List RawFile → Counts → List WikiPage × Counts
unfolding page_of_raw
append_unmapped mapped [] counts = ([], counts)
append_unmapped mapped (raw ∷ raws) counts =
    let skip = any (str_eq raw.path) mapped in
    let (rest, counts') =
      append_unmapped mapped raws
        (if skip then counts else record counts { new_raw = counts.new_raw + 1 }) in
    (if skip then rest else page_of_raw raw ∷ rest, counts')

-- Calculate
unfoldable pub calculate : Host → Input → List WikiPage × Counts
calculate host i =
    let (pages, counts) =
      calculate_pages host i (raws_by_path [] i.raw_files) no_counts i.sources in
    let (appended, counts') = append_unmapped (mapped_paths i.sources) i.raw_files counts in
    (pages ++ appended, counts')
