-- ===== src/Sources/Lifecycle/Receipts.antt =====
-- The status of a page with a receipt, by Calculate (internal/sourcelifecycle/lifecycle.go) and the
-- tests of internal/sourcestatus/status.go.
use llm_wiki_bff.Core.{
  ◌≡◌, ◌↔◌, ◌≢◌, true, false, not, ◌&&◌, ◌||◌, inl, inr, some, arith, Bool-cases, if_cases,
}
use llm_wiki_bff.Core.Text.{Text, str_eq, str_eq_refl, str_eq_sound, ne_of_str_eq}
use llm_wiki_bff.Generation.{Host}
use llm_wiki_bff.Sources.{WikiPage, RawFile, content_pending, notes_pending, synced}
use llm_wiki_bff.Sources.SourceStatus.{Receipt, fingerprint, valid_receipt, valid_current_failure}
use llm_wiki_bff.Sources.Lifecycle.{
  Input, Counts, decide_page, by_receipt, annotation_of, mark_raw, mark_annotation, mark_synced,
  mark_new,
}

-- The fingerprint of a valid receipt is the one of its two digests.
valid_receipt-fingerprint :
    (host : Host) (r : Receipt) (path : Text)
    → valid_receipt host r path ≡ true
    → (r.raw_path ≡ path)
      × (r.last_ingest_fingerprint
          ≡ fingerprint host r.last_ingested_raw_sha256 r.last_ingested_ann_sha256)
unfolding valid_receipt
valid_receipt-fingerprint host r path h = ground (
  arith,
  h,
  str_eq_sound r.raw_path path,
  str_eq_sound r.last_ingest_fingerprint
      (fingerprint host r.last_ingested_raw_sha256 r.last_ingested_ann_sha256),
)

fingerprint_match :
    (host : Host) (r : Receipt) (raw ann : Text)
    → r.last_ingest_fingerprint
      ≡ fingerprint host r.last_ingested_raw_sha256 r.last_ingested_ann_sha256
    → r.last_ingested_raw_sha256 ≡ raw
    → r.last_ingested_ann_sha256 ≡ ann
    → str_eq (fingerprint host raw ann) r.last_ingest_fingerprint ≡ true
fingerprint_match host r raw ann h k l =
    let e : r.last_ingest_fingerprint ≡ fingerprint host raw ann = cc in
    rw e (str_eq_refl (fingerprint host raw ann))

-- What the worker has to do for a raw file with a valid receipt that records no current failure.
abbrev pub ReceiptLaws : Receipt → RawFile → Text → WikiPage → Type 0
ReceiptLaws r raw ann page =
    ((page.lifecycle_status ≡ content_pending) ↔ (r.last_ingested_raw_sha256 ≢ raw.sha256))
    × ((page.lifecycle_status ≡ notes_pending)
        ↔ ((r.last_ingested_raw_sha256 ≡ raw.sha256) × (r.last_ingested_ann_sha256 ≢ ann)))
    × ((page.lifecycle_status ≡ synced)
        ↔ ((r.last_ingested_raw_sha256 ≡ raw.sha256) × (r.last_ingested_ann_sha256 ≡ ann)))

by_receipt-laws :
    (host : Host) (i : Input) (p : WikiPage) (c : Counts) (raw : RawFile) (ann : Text) (r : Receipt)
    → r.last_ingest_fingerprint
      ≡ fingerprint host r.last_ingested_raw_sha256 r.last_ingested_ann_sha256
    → ReceiptLaws r raw ann (by_receipt host i p c true raw ann r).0
unfolding by_receipt mark_raw mark_annotation mark_synced mark_new
by_receipt-laws host i p c raw ann r h =
    elim (Bool-cases (str_eq r.last_ingested_raw_sha256 raw.sha256)) [
      | inr a ↦
          let a' = ne_of_str_eq r.last_ingested_raw_sha256 raw.sha256 a in
          (ground (arith, a, a'), ground (arith, a, a'), ground (arith, a, a'))
      | inl a ↦
          let a' = str_eq_sound r.last_ingested_raw_sha256 raw.sha256 a in
          elim (Bool-cases (str_eq r.last_ingested_ann_sha256 ann)) [
            | inr b ↦
                let b' = ne_of_str_eq r.last_ingested_ann_sha256 ann b in
                (
                  ground (arith, a, a', b, b'),
                  ground (arith, a, a', b, b'),
                  ground (arith, a, a', b, b'),
                )
            | inl b ↦
                let b' = str_eq_sound r.last_ingested_ann_sha256 ann b in
                let f = fingerprint_match host r raw.sha256 ann h a' b' in
                (
                  ground (arith, a, a', b, b', f),
                  ground (arith, a, a', b, b', f),
                  ground (arith, a, a', b, b', f),
                )
          ]
    ]

-- A page with a raw file at hand and a valid receipt that records no current failure is
-- content_pending exactly if the receipt has another raw digest, notes_pending exactly if only the
-- annotation digest is another, and synced exactly if both digests agree.
pub decide_page_receipt :
    (host : Host) (i : Input) (p : WikiPage) (c : Counts) (raw : RawFile) (r : Receipt)
    → valid_receipt host r p.raw_path ≡ true
    → valid_current_failure r p.raw_path (fingerprint host raw.sha256 (annotation_of host i p))
      ≡ false
    → ReceiptLaws r raw (annotation_of host i p) (decide_page host i p c (some raw) (some r)).0
unfolding decide_page
decide_page_receipt host i p c raw r h k =
    let ann = annotation_of host i p in
    let laws =
      by_receipt-laws host i p c raw ann r (valid_receipt-fingerprint host r p.raw_path h).1 in
    if_cases (λ (o : WikiPage × Counts). ReceiptLaws r raw ann o.0)
      (true && (true && valid_current_failure r p.raw_path (fingerprint host raw.sha256 ann)))
      (λ e. ground (arith, e, k))
      (λ _.
        if_cases (λ (o : WikiPage × Counts). ReceiptLaws r raw ann o.0)
          (false || not (valid_receipt host r p.raw_path)) (λ e. ground (arith, e, h)) (λ _. laws))
