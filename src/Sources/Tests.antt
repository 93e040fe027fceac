-- ===== src/Sources/Tests.antt =====
-- Concrete runs of the source lifecycle, and the theorems at them.
use llm_wiki_bff.Core.{◌≡◌, refl, ◌+◌, true, false, some, [], ◌∷◌, length, tally, All, here, there}
use llm_wiki_bff.Core.Int.{pos}
use llm_wiki_bff.Core.Text.{Text, codes, str_eq, trim_space}
use llm_wiki_bff.Generation.{Host}
use llm_wiki_bff.Generation.Paths.{valid_digest}
use llm_wiki_bff.Sources.{WikiPage, RawFile, fresh}
use llm_wiki_bff.Sources.SourceStatus.{Receipt, fingerprint, valid_receipt, valid_current_failure}
use llm_wiki_bff.Sources.RawStatus.{FileStatus}
use llm_wiki_bff.Sources.Lifecycle.{
  Input, no_counts, calculate, decide_page, annotation_of, raws_by_path,
}
use llm_wiki_bff.Sources.Lifecycle.Pages.{IsMarked}
use llm_wiki_bff.Sources.Lifecycle.Totals.{raw_work, annotation_work, is_new, calculate_totals}
use llm_wiki_bff.Sources.Lifecycle.Covers.{listed, calculate-listed}
use llm_wiki_bff.Sources.Lifecycle.Receipts.{ReceiptLaws, decide_page_receipt}

abbrev digest : Text
digest = codes "0123456789abcdef0123456789abcdef0123456789abcdef0123456789abcdef"

abbrev host : Host
host = record {
  sha256_hex = λ s. digest;
  rfc3339 = λ s. true;
  format_rfc3339 = λ t. codes "now";
  json_text = λ s. s;
}

abbrev page : WikiPage
page = record {
  slug = codes "a";
  title = codes "A";
  id = codes "id-a";
  path = codes "sources/a.md";
  status = [];
  raw_path = codes "raw/a.md";
  annotation_allowed = true;
  has_annotation = false;
  annotation_dirty = false;
  raw_dirty = false;
  dirty = false;
  lifecycle_status = fresh;
  ann_updated_at = [];
}

abbrev raw_a : RawFile
raw_a = record {
  name = codes "a.md";
  path = codes "raw/a.md";
  size = pos 3;
  updated = 5;
  sha256 = digest;
}

abbrev raw_b : RawFile
raw_b = record {
  name = codes "b.md";
  path = codes "raw/b.md";
  size = pos 4;
  updated = 6;
  sha256 = digest;
}

abbrev receipt : Receipt
receipt = record {
  raw_path = codes "raw/a.md";
  last_ingested_raw_sha256 = digest;
  last_ingested_ann_sha256 = digest;
  last_ingest_fingerprint = digest;
  last_success_at = codes "then";
  failed_fingerprint = [];
  error = [];
}

abbrev given_input : Input
given_input = record {
  sources = page ∷ [];
  raw_files = raw_a ∷ raw_b ∷ [];
  annotations = [];
  receipts = (codes "id-a", receipt) ∷ [];
  legacy = [];
  legacy_generated_at = 0;
}

calculate_totals_example :
    All IsMarked (calculate host given_input).0
    × ((calculate host given_input).1.raw_dirty ≡ raw_work (calculate host given_input).0)
    × ((calculate host given_input).1.annotation_dirty
        ≡ annotation_work (calculate host given_input).0)
    × ((calculate host given_input).1.new_raw + length given_input.sources
        ≡ tally (is_new (raws_by_path [] given_input.raw_files)) (calculate host given_input).0
          + length (calculate host given_input).0)
calculate_totals_example = calculate_totals host given_input

calculate-listed_example : listed raw_b.path (calculate host given_input).0 ≡ true
calculate-listed_example = calculate-listed host given_input raw_b (there here)

receipt_valid : valid_receipt host receipt page.raw_path ≡ true
unfolding valid_receipt str_eq trim_space valid_digest fingerprint
receipt_valid = refl

no_failure :
    valid_current_failure receipt page.raw_path
      (fingerprint host raw_a.sha256 (annotation_of host given_input page))
    ≡ false
unfolding valid_current_failure str_eq trim_space
no_failure = refl

decide_page_receipt_example :
    ReceiptLaws receipt raw_a
      (annotation_of host given_input page)
      (decide_page host given_input page no_counts (some raw_a) (some receipt)).0
decide_page_receipt_example =
    decide_page_receipt host given_input page no_counts raw_a receipt receipt_valid no_failure

abbrev row : FileStatus
row = record {
  path = codes "raw/a.md";
  sha256 = digest;
  olw_status = codes "compiled";
  ingested = false;
  ingested_at = [];
  error = [];
}
