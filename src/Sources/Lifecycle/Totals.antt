-- ===== src/Sources/Lifecycle/Totals.antt =====
-- The counts and the marks of the whole list that Calculate (internal/sourcelifecycle/lifecycle.go)
-- returns.
use llm_wiki_bff.Core.{
  ℕ, suc, ◌+◌, ◌≡◌, refl, Bool, true, false, ◌&&◌, inr, ap, List, [], ◌∷◌, length, length-append,
  any, tally, tally-append, All, All-append, arith, is_some, if◌then◌else◌, sym,
}
use mathlib.Core.Path.{subst}
use llm_wiki_bff.Core.Text.{Text, str_eq}
use llm_wiki_bff.Core.Dict.{lookup}
use llm_wiki_bff.Generation.{Host}
use llm_wiki_bff.Sources.{WikiPage, RawFile}
use llm_wiki_bff.Sources.Lifecycle.{
  Input, Counts, no_counts, raws_by_path, calculate_page, calculate_pages, append_unmapped,
  page_of_raw, mapped_paths, calculate,
}
use llm_wiki_bff.Sources.Lifecycle.Pages.{is_fresh, IsMarked, IsCounted, calculate_page_lem}

-- How many pages ask for raw work, and for annotation work.
abbrev pub raw_work : List WikiPage → ℕ
raw_work = tally (λ p. p.raw_dirty)

abbrev pub annotation_work : List WikiPage → ℕ
annotation_work = tally (λ p. p.annotation_dirty)

-- A page that is new by its status, with a safe raw path that names a raw file.
abbrev pub is_new : List (Text × RawFile) → WikiPage → Bool
is_new raws p =
    p.annotation_allowed && (is_fresh p.lifecycle_status && is_some (lookup p.raw_path raws))

abbrev IsTotal : Counts → List WikiPage × Counts → Type 0
IsTotal c (pages, d) =
    (d.raw_dirty ≡ c.raw_dirty + raw_work pages)
    × (d.annotation_dirty ≡ c.annotation_dirty + annotation_work pages)

-- What the loop over the sources leaves.
record PageTotals (raws : List (Text × RawFile)) (c : Counts) (n : ℕ) (r : List WikiPage × Counts)
    : Type 0 where
  total : IsTotal c r
  marked : All IsMarked r.0
  new : r.1.new_raw ≡ c.new_raw + tally (is_new raws) r.0
  len : length r.0 ≡ n

IsTotal-cons :
    (b : Bool) (c : Counts) (r : WikiPage × Counts) (s : List WikiPage × Counts)
    → IsCounted b c r
    → IsTotal r.1 s
    → IsTotal c (r.0 ∷ s.0, s.1)
IsTotal-cons b c r s k h = (ground (arith, k.raw, h.0), ground (arith, k.annotation, h.1))

PageTotals-cons :
    (raws : List (Text × RawFile)) (n : ℕ) (c : Counts) (r : WikiPage × Counts)
    (s : List WikiPage × Counts)
    → IsMarked r.0
    → IsCounted (is_some (lookup r.0.raw_path raws)) c r
    → PageTotals raws r.1 n s
    → PageTotals raws c (suc n) (r.0 ∷ s.0, s.1)
PageTotals-cons raws n c r s m k h = record {
  total = IsTotal-cons (is_some (lookup r.0.raw_path raws)) c r s k h.total;
  marked = (m, h.marked);
  new = ground (arith, k.new, h.new);
  len = ap suc h.len;
}

calculate_pages_total :
    (host : Host) (i : Input) (raws : List (Text × RawFile)) (c : Counts) (ps : List WikiPage)
    → PageTotals raws c (length ps) (calculate_pages host i raws c ps)
unfolding calculate_pages
calculate_pages_total host i raws c [] = record {
  total = ground arith;
  marked = tt;
  new = ground arith;
  len = refl;
}
calculate_pages_total host i raws c (p ∷ ps) =
    let r = calculate_page host i raws c p in
    let (marked, counted, same) = calculate_page_lem host i raws c p in
    PageTotals-cons raws (length ps) c r (calculate_pages host i raws r.1 ps) marked
      (subst (λ path. IsCounted (is_some (lookup path raws)) c r) (sym same.raw_path) counted)
      (calculate_pages_total host i raws r.1 ps)

page_of_raw-IsMarked : (raw : RawFile) → IsMarked (page_of_raw raw)
unfolding page_of_raw
page_of_raw-IsMarked raw = record { dirty = refl; marks = (refl, refl); unsafe_new = inr refl }

-- What the loop over the raw files leaves.
record RawTotals (all : List (Text × RawFile)) (c : Counts) (r : List WikiPage × Counts)
    : Type 0 where
  total : IsTotal c r
  marked : All IsMarked r.0
  new : r.1.new_raw ≡ c.new_raw + length r.0
  none_new : tally (is_new all) r.0 ≡ 0

RawTotals-step :
    (all : List (Text × RawFile)) (raw : RawFile) (skip : Bool) (c : Counts)
    (r : List WikiPage × Counts)
    → RawTotals all (if skip then c else record c { new_raw = c.new_raw + 1 }) r
    → RawTotals all c (if skip then r.0 else page_of_raw raw ∷ r.0, r.1)
unfolding page_of_raw
RawTotals-step all raw true c r h = record {
  total = h.total;
  marked = h.marked;
  new = h.new;
  none_new = h.none_new;
}
RawTotals-step all raw false c r h = record {
  total = (omega (arith, h.total.0), omega (arith, h.total.1));
  marked = (page_of_raw-IsMarked raw, h.marked);
  new = omega (arith, h.new);
  none_new = omega (arith, h.none_new);
}

append_unmapped_total :
    (all : List (Text × RawFile)) (mapped : List Text) (raws : List RawFile) (c : Counts)
    → RawTotals all c (append_unmapped mapped raws c)
unfolding append_unmapped
append_unmapped_total all mapped [] c = record {
  total = ground arith;
  marked = tt;
  new = ground arith;
  none_new = refl;
}
append_unmapped_total all mapped (raw ∷ raws) c =
    let skip = any (str_eq raw.path) mapped in
    let c' = if skip then c else record c { new_raw = c.new_raw + 1 } in
    RawTotals-step all raw skip c (append_unmapped mapped raws c')
      (append_unmapped_total all mapped raws c')

-- The marks of every page that Calculate returns agree with its status, RawDirty and
-- AnnotationDirty are the numbers of pages that are marked so, and NewRaw is the number of sources
-- that are new with a raw file at hand, plus the number of the pages that are appended.
pub calculate_totals :
    (host : Host) (i : Input)
    → All IsMarked (calculate host i).0
      × ((calculate host i).1.raw_dirty ≡ raw_work (calculate host i).0)
      × ((calculate host i).1.annotation_dirty ≡ annotation_work (calculate host i).0)
      × ((calculate host i).1.new_raw + length i.sources
          ≡ tally (is_new (raws_by_path [] i.raw_files)) (calculate host i).0
            + length (calculate host i).0)
unfolding calculate
calculate_totals host i =
    let raws = raws_by_path [] i.raw_files in
    let (pages, c) = calculate_pages host i raws no_counts i.sources in
    let (appended, d) = append_unmapped (mapped_paths i.sources) i.raw_files c in
    let h = calculate_pages_total host i raws no_counts i.sources in
    let k = append_unmapped_total raws (mapped_paths i.sources) i.raw_files c in
    (
      All-append IsMarked pages appended h.marked k.marked,
      omega (
        arith,
        h.total.0,
        k.total.0,
        tally-append (λ (p : WikiPage). p.raw_dirty) pages appended,
      ),
      omega (
        arith,
        h.total.1,
        k.total.1,
        tally-append (λ (p : WikiPage). p.annotation_dirty) pages appended,
      ),
      omega (
        arith,
        h.new,
        h.len,
        k.new,
        k.none_new,
        tally-append (is_new raws) pages appended,
        length-append pages appended,
      ),
    )
