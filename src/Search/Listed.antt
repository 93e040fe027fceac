-- ===== src/Search/Listed.antt =====
-- The index that Build reads: each page has an entry (internal/search/search.go).
use llm_wiki_bff.Core.{
  ◌≡◌, refl, Bool, true, false, not, ◌||◌, Option, none, some, List, [], ◌∷◌, ◌++◌, arith, All,
  All-append, if_cases, if_both,
}
use llm_wiki_bff.Core.Text.{
  Text, codes, str_eq, str_eq_sound, str_eq_refl, has_prefix, trim_space, split_on,
}
use llm_wiki_bff.Core.Dict.{lookup, insert, has_key, lookup-insert}
use llm_wiki_bff.Sources.{WikiPage}
use llm_wiki_bff.Search.{Index, IndexedPage, index_key}
use llm_wiki_bff.Search.Lines.{Line}
use llm_wiki_bff.Search.Meta.{
  Entry, State, kind_of_path, entry_of_line, kind_prefix, pick_kind, entry_of_parsed, add_parsed,
  parse_index_line, section_after, add_entry, page_of, meta_line, meta_lines, parse_meta_index,
  build,
}

-- The type of a page, or none as yet.
IsKind : Text → Type 0
IsKind k = (str_eq k [] || str_eq k (codes "source") || str_eq k (codes "concept")) ≡ true

IsEntry : Option Entry → Type 0
IsEntry none = Unit
IsEntry (some e) = (str_eq e.kind (codes "source") || str_eq e.kind (codes "concept")) ≡ true

-- A page with its path and its status, that has an entry.
abbrev pub IsListed : List (Text × IndexedPage) → Text → Text → Text → WikiPage → Type 0
IsListed entries kind folder status p =
    (p.path ≡ folder ++ (p.slug ++ codes ".md"))
    × (p.status ≡ status)
    × (has_key (index_key kind p.slug) entries ≡ true)

abbrev pub AreListed : List (Text × IndexedPage) → List WikiPage → List WikiPage → Type 0
AreListed entries sources concepts =
    All (IsListed entries (codes "source") (codes "wiki/sources/") []) sources
    × All (IsListed entries (codes "concept") (codes "wiki/") (codes "published")) concepts

IsValid : State → Type 0
IsValid st = AreListed st.entries st.sources st.concepts × IsKind st.section

has_key-insert :
    (k j : Text) (v : IndexedPage) (m : List (Text × IndexedPage))
    → has_key j m ≡ true
    → has_key j (insert k v m) ≡ true
unfolding has_key lookup
has_key-insert k j v m h = ground (arith, lookup-insert k j v m)

has_key-insert_self :
    (k : Text) (v : IndexedPage) (m : List (Text × IndexedPage)) → has_key k (insert k v m) ≡ true
unfolding has_key
has_key-insert_self k v m = ground (arith, lookup-insert k k v m, str_eq_refl k)

insert-All :
    (kind folder status k : Text) (v : IndexedPage) (m : List (Text × IndexedPage))
    (ps : List WikiPage)
    → All (IsListed m kind folder status) ps
    → All (IsListed (insert k v m) kind folder status) ps
insert-All kind folder status k v m [] h = tt
insert-All kind folder status k v m (p ∷ ps) ((a, b, c), h) = (
  (a, b, has_key-insert k (index_key kind p.slug) v m c),
  insert-All kind folder status k v m ps h,
)

key_of :
    (e : Entry) (kind : Text) (v : IndexedPage) (m : List (Text × IndexedPage))
    → e.kind ≡ kind
    → has_key (index_key kind e.slug) (insert (index_key e.kind e.slug) v m) ≡ true
key_of e kind v m h = rw h (has_key-insert_self (index_key kind e.slug) v m)

page_of_source :
    (e : Entry) (v : IndexedPage) (m : List (Text × IndexedPage))
    → str_eq e.kind (codes "source") ≡ true
    → IsListed
        (insert (index_key e.kind e.slug) v m)
        (codes "source")
        (codes "wiki/sources/")
        []
        (page_of e)
unfolding page_of
page_of_source e v m h =
    if_cases
      (IsListed (insert (index_key e.kind e.slug) v m) (codes "source") (codes "wiki/sources/") [])
      (str_eq e.kind (codes "source"))
      (λ s. (refl, refl, key_of e (codes "source") v m (str_eq_sound e.kind (codes "source") h)))
      (λ c. absurd (ground (arith, h, c)))

page_of_concept :
    (e : Entry) (v : IndexedPage) (m : List (Text × IndexedPage))
    → str_eq e.kind (codes "source") ≡ false
    → str_eq e.kind (codes "concept") ≡ true
    → IsListed
        (insert (index_key e.kind e.slug) v m)
        (codes "concept")
        (codes "wiki/")
        (codes "published")
        (page_of e)
unfolding page_of
page_of_concept e v m h k =
    if_cases
      (IsListed (insert (index_key e.kind e.slug) v m) (codes "concept") (codes "wiki/")
        (codes "published"))
      (str_eq e.kind (codes "source")) (λ s. absurd (ground (arith, h, s)))
      (λ c. (refl, refl, key_of e (codes "concept") v m (str_eq_sound e.kind (codes "concept") k)))

add_entry-IsValid :
    (e : Entry) (st : State) → IsEntry (some e) → IsValid st → IsValid (add_entry e st)
unfolding add_entry IsValid IsEntry
add_entry-IsValid e st h ((ss, cs), k) =
    if_cases IsValid (str_eq e.kind (codes "source"))
      (λ s. (
        (
          All-append _ st.sources (page_of e ∷ [])
              (insert-All (codes "source") (codes "wiki/sources/") [] (index_key e.kind e.slug)
                (indexed e) st.entries st.sources ss)
              (page_of_source e (indexed e) st.entries s, tt),
          insert-All (codes "concept") (codes "wiki/") (codes "published") (index_key e.kind e.slug)
              (indexed e) st.entries st.concepts cs,
        ),
        k,
      ))
      (λ c. (
        (
          insert-All (codes "source") (codes "wiki/sources/") [] (index_key e.kind e.slug)
              (indexed e) st.entries st.sources ss,
          All-append _ st.concepts (page_of e ∷ [])
              (insert-All (codes "concept") (codes "wiki/") (codes "published")
                (index_key e.kind e.slug) (indexed e) st.entries st.concepts cs)
              (page_of_concept e (indexed e) st.entries c (ground (arith, h, c)), tt),
        ),
        k,
      ))
  where
    indexed : Entry → IndexedPage
    indexed e = record { title = e.title; description = e.description }

-- A pair of a type and a text.
abbrev IsPair : Text × Text → Type 0
IsPair r = IsKind r.0

source-IsKind : IsKind (codes "source")
unfolding IsKind str_eq
source-IsKind = refl

concept-IsKind : IsKind (codes "concept")
unfolding IsKind str_eq
concept-IsKind = refl

IsPrefix : Option (Text × Text) → Type 0
IsPrefix none = Unit
IsPrefix (some (p, k)) = IsKind k

kind_of_path-IsPair : (kind slug : Text) → IsKind kind → IsPair (kind_of_path kind slug)
unfolding kind_of_path
kind_of_path-IsPair kind slug h =
    if_both IsPair (has_prefix slug (codes "wiki/sources/")) source-IsKind (
      if_both IsPair (has_prefix slug (codes "sources/")) source-IsKind
        (if_both IsPair (has_prefix slug (codes "wiki/")) concept-IsKind h))

-- A type that is not empty is a kind of entry.
entry_of_line-IsEntry : (kind : Text) (l : Line) → IsKind kind → IsEntry (entry_of_line kind l)
unfolding entry_of_line IsEntry IsKind
entry_of_line-IsEntry kind l h =
    if_cases IsEntry (str_eq (kind_of_path kind l.slug).0 []) (λ e. tt)
      (λ e. ground (arith, e, kind_of_path-IsPair kind l.slug h))

kind_prefix-IsPrefix : (lower : Text) → IsPrefix (kind_prefix lower)
unfolding kind_prefix IsPrefix
kind_prefix-IsPrefix lower = if_both IsPrefix (has_prefix lower (codes "source:")) source-IsKind (
    if_both IsPrefix (has_prefix lower (codes "sources:")) source-IsKind (
      if_both IsPrefix (has_prefix lower (codes "concept:")) concept-IsKind
        (if_both IsPrefix (has_prefix lower (codes "concepts:")) concept-IsKind tt)))

pick_kind-IsPair :
    (section line : Text) (o : Option (Text × Text))
    → IsKind section
    → IsPrefix o
    → IsPair (pick_kind section line o)
unfolding pick_kind IsPrefix
pick_kind-IsPair section line none h k = h
pick_kind-IsPair section line (some (p, kind)) h k = k

entry_of_parsed-IsEntry :
    (kind : Text) (o : Option Line) → IsKind kind → IsEntry (entry_of_parsed kind o)
unfolding entry_of_parsed IsEntry
entry_of_parsed-IsEntry kind none h = tt
entry_of_parsed-IsEntry kind (some l) h = entry_of_line-IsEntry kind l h

add_parsed-IsValid :
    (o : Option Entry) (st : State) → IsEntry o → IsValid st → IsValid (add_parsed o st)
unfolding add_parsed
add_parsed-IsValid none st h k = k
add_parsed-IsValid (some e) st h k = add_entry-IsValid e st h k

toggle-IsValid : (st : State) (b : Bool) → IsValid st → IsValid (record st { in_frontmatter = b })
unfolding IsValid
toggle-IsValid st b h = h

section-IsValid :
    (st : State) (s : Text) → IsValid st → IsKind s → IsValid (record st { section = s })
unfolding IsValid
section-IsValid st s (h, k) k' = (h, k')

IsValid-section : (st : State) → IsValid st → IsKind st.section
unfolding IsValid
IsValid-section st (h, k) = k

-- Nothing is read yet.
abbrev blank : State
blank = record { sources = []; concepts = []; entries = []; section = []; in_frontmatter = false }

blank-IsValid : IsValid blank
unfolding IsValid IsKind str_eq
blank-IsValid = ((tt, tt), refl)

IsValid-listed : (st : State) → IsValid st → AreListed st.entries st.sources st.concepts
unfolding IsValid
IsValid-listed st h = h.0

module _ (to_lower : Text → Text) where
  parse_index_line-IsEntry :
      (raw section : Text) → IsKind section → IsEntry (parse_index_line to_lower raw section)
  unfolding parse_index_line
  parse_index_line-IsEntry raw section h =
      entry_of_parsed-IsEntry _ _ (pick_kind-IsPair section _ _ h (kind_prefix-IsPrefix _))

  section_after-IsKind :
      (section line : Text) → IsKind section → IsKind (section_after to_lower section line)
  unfolding section_after
  section_after-IsKind section line h =
      if_both IsKind _ source-IsKind (if_both IsKind _ concept-IsKind h)

  meta_line-IsValid : (line : Text) (st : State) → IsValid st → IsValid (meta_line to_lower line st)
  unfolding meta_line
  meta_line-IsValid line st h = if_both IsValid (str_eq line []) h (
      if_both IsValid (str_eq line (codes "---")) (toggle-IsValid st (not st.in_frontmatter) h) (
        if_both IsValid (st.in_frontmatter || has_prefix line (codes "_")) h (
          if_both IsValid (has_prefix line (codes "#"))
            (section-IsValid st _ h (section_after-IsKind st.section line (IsValid-section st h)))
            (add_parsed-IsValid _ st
              (parse_index_line-IsEntry line st.section (IsValid-section st h)) h))))

  meta_lines-IsValid :
      (ls : List Text) (st : State) → IsValid st → IsValid (meta_lines to_lower ls st)
  unfolding meta_lines
  meta_lines-IsValid [] st h = h
  meta_lines-IsValid (l ∷ ls) st h = meta_lines-IsValid ls _ (meta_line-IsValid (trim_space l) st h)

  -- Whatever meta/index.md holds and the index held before, Build leaves an index in which every
  -- source has the path wiki/sources/<slug>.md, every concept has the path wiki/<slug>.md and the
  -- status published, and the entries hold one of each page under its kind and slug, where Search
  -- looks for it.
  pub build-AreListed :
      (raw : Text) (idx : Index)
      → AreListed
          (build to_lower (some raw) idx).0.entries
          (build to_lower (some raw) idx).0.sources
          (build to_lower (some raw) idx).0.concepts
  unfolding build parse_meta_index
  build-AreListed raw idx =
      IsValid-listed _ (meta_lines-IsValid (split_on 10 raw) blank blank-IsValid)
