-- ===== src/Sources/Lifecycle/Covers.antt =====
-- No raw file is lost in Calculate (internal/sourcelifecycle/lifecycle.go).
use llm_wiki_bff.Core.{
  ◌≡◌, refl, Bool, true, ◌||◌, ◌⊎◌, inl, inr, List, [], ◌∷◌, ◌++◌, any, Member, here, there, ◌+◌,
  arith, if◌then◌else◌, ◌∙◌, ap,
}
use llm_wiki_bff.Core.Text.{Text, str_eq, str_eq_refl}
use llm_wiki_bff.Generation.{Host}
use llm_wiki_bff.Sources.{WikiPage, RawFile}
use llm_wiki_bff.Sources.Lifecycle.{
  Input, Counts, no_counts, raws_by_path, calculate_page, calculate_pages, append_unmapped,
  page_of_raw, mapped_paths, calculate, clear_page,
}
use llm_wiki_bff.Sources.Lifecycle.Pages.{calculate_page_lem}

-- Some page has the path.
abbrev pub listed : Text → List WikiPage → Bool
listed path = any (λ p. str_eq path p.raw_path)

listed-append :
    (path : Text) (xs ys : List WikiPage)
    → listed path (xs ++ ys) ≡ (listed path xs || listed path ys)
listed-append path [] ys = refl
listed-append path (x ∷ xs) ys = ground (arith, listed-append path xs ys)

mapped_step :
    (b : Bool) (path q : Text) (rest : List Text)
    → any (str_eq path) (if b then q ∷ rest else rest) ≡ true
    → (str_eq path q ≡ true) ⊎ (any (str_eq path) rest ≡ true)
mapped_step b path q rest h = ground (arith, h)

-- A path that the loop marks as mapped is the path of a page.
mapped-listed :
    (host : Host) (i : Input) (raws : List (Text × RawFile)) (c : Counts) (path : Text)
    (ps : List WikiPage)
    → any (str_eq path) (mapped_paths ps) ≡ true
    → listed path (calculate_pages host i raws c ps).0 ≡ true
unfolding calculate_pages mapped_paths
mapped-listed host i raws c path [] h = h
mapped-listed host i raws c path (p ∷ ps) h =
    let r = calculate_page host i raws c p in
    let same = (calculate_page_lem host i raws c p).2 in
    elim (mapped_step (clear_page p).annotation_allowed path (clear_page p).raw_path
      (mapped_paths ps) h) [
        | inl e ↦ let e' = ap (str_eq path) same.raw_path ∙ e in ground (arith, e')
        | inr e ↦ let rest = mapped-listed host i raws r.1 path ps e in ground (arith, rest)
      ]

append_step :
    (skip : Bool) (raw : RawFile) (rest : List WikiPage)
    → (skip ≡ true) ⊎ (listed raw.path (if skip then rest else page_of_raw raw ∷ rest) ≡ true)
unfolding page_of_raw
append_step skip raw rest = ground (arith, str_eq_refl raw.path)

listed-skip :
    (path : Text) (skip : Bool) (p : WikiPage) (rest : List WikiPage)
    → listed path rest ≡ true
    → listed path (if skip then rest else p ∷ rest) ≡ true
listed-skip path skip p rest h = ground (arith, h)

-- A raw file is mapped, or a page is appended for it.
append_unmapped-listed :
    (mapped : List Text) (raw : RawFile) (raws : List RawFile) (c : Counts)
    → Member raw raws
    → (any (str_eq raw.path) mapped ≡ true)
      ⊎ (listed raw.path (append_unmapped mapped raws c).0 ≡ true)
unfolding append_unmapped
append_unmapped-listed mapped raw [] c m = elim m [ ]
append_unmapped-listed mapped raw (other ∷ raws) c here =
    let skip = any (str_eq raw.path) mapped in
    append_step skip raw
      (append_unmapped mapped raws (if skip then c else record c { new_raw = c.new_raw + 1 })).0
append_unmapped-listed mapped raw (other ∷ raws) c (there m) =
    let skip = any (str_eq other.path) mapped in
    let c' = if skip then c else record c { new_raw = c.new_raw + 1 } in
    elim (append_unmapped-listed mapped raw raws c' m) [
      | inl h ↦ inl h
      | inr h ↦
          inr (listed-skip raw.path skip (page_of_raw other) (append_unmapped mapped raws c').0 h)
    ]

-- Every raw file that Calculate is given is the raw file of some page that it returns, by its path.
pub calculate-listed :
    (host : Host) (i : Input) (raw : RawFile)
    → Member raw i.raw_files
    → listed raw.path (calculate host i).0 ≡ true
unfolding calculate
calculate-listed host i raw m =
    let raws = raws_by_path [] i.raw_files in
    let (pages, c) = calculate_pages host i raws no_counts i.sources in
    let mapped = mapped_paths i.sources in
    let (appended, d) = append_unmapped mapped i.raw_files c in
    let both = listed-append raw.path pages appended in
    elim (append_unmapped-listed mapped raw i.raw_files c m) [
      | inl h ↦
          let k = mapped-listed host i raws no_counts raw.path i.sources h in
          ground (arith, both, k)
      | inr h ↦ ground (arith, both, h)
    ]
