-- ===== src/Cache/Isolated.antt =====
-- What Query of internal/cache/cache.go leaves of the projects.
use llm_wiki_bff.Core.{
  ℕ, ◌≡◌, refl, ◌∙◌, Bool, true, false, ◌&&◌, Option, none, some, List, [], ◌∷◌, Result, ok, err,
  ◌>>=◌, length, ltb, ◌==◌, is_some, arith, if◌then◌else◌,
}
use mathlib.Core.Path.{subst}
use llm_wiki_bff.Core.Int.{ℤ}
use llm_wiki_bff.Core.Text.{Text, str_eq, str_eq_refl}
use llm_wiki_bff.Core.Dict.{lookup, insert, delete, AllEntries, insert-AllEntries, lookup-insert}
use llm_wiki_bff.Search
use llm_wiki_bff.Cache.{Entry, search_entries}
use llm_wiki_bff.Cache.Projects.{
  Project, Projects, LoadError, canceled, failed, panics, Reader, prefix_for_reader, index_by_slug,
  store_project, unmarshal_jsonl, collect_pages, load_jsonl, build_from_pages, build, ready,
  entries_of, search_ready, search, query,
}

-- The last entry of a slug.
abbrev pub latest : Text → List Entry → Option Entry
latest slug [] = none
latest slug (e ∷ es) =
    let rest = latest slug es in
    if is_some rest then rest else if str_eq e.slug slug then some e else none

-- The index of a project leads to the last entry of every slug.
abbrev pub IsIndexed : Text → Project → Type 0
IsIndexed prefix p = (slug : Text) → lookup slug p.by_slug ≡ latest slug p.entries

index_by_slug_lem :
    (es : List Entry) (m : List (Text × Entry)) (slug : Text)
    → lookup slug (index_by_slug es m)
      ≡ (if is_some (latest slug es) then latest slug es else lookup slug m)
unfolding index_by_slug
index_by_slug_lem [] m slug = refl
index_by_slug_lem (e ∷ es) m slug =
    ground (arith, index_by_slug_lem es (insert e.slug e m) slug, lookup-insert e.slug slug e m)

delete-insert : (k : Text) (p : Project) (m : Projects) → delete k (insert k p m) ≡ delete k m
unfolding delete insert
delete-insert k p [] = ground (arith, str_eq_refl k)
delete-insert k p ((j, q) ∷ m) = ground (arith, str_eq_refl k, delete-insert k p m)

-- The other projects are as before, and every index leads to the last entry of each slug.
record IsKept (reader : Reader) (m n : Projects) : Type 0 where
  isolated : delete (prefix_for_reader reader) n ≡ delete (prefix_for_reader reader) m
  indexed : AllEntries IsIndexed n

store_project-IsKept :
    (reader : Reader) (es : List Entry) (m : Projects)
    → AllEntries IsIndexed m
    → IsKept reader m (store_project reader es m)
unfolding store_project lookup
store_project-IsKept reader es m h = record {
  isolated = delete-insert (prefix_for_reader reader) _ m;
  indexed =
      insert-AllEntries IsIndexed (prefix_for_reader reader) _ m
        (λ slug. ground (arith, index_by_slug_lem es [] slug)) h;
}

-- What holds of the projects that a call leaves, where it succeeds.
abbrev After : {A : Type 0} → (A → Type 0) → Result LoadError A → Type 0
After P (ok a) = P a
After P (err e) = Unit

bind-After :
    {A B : Type 0} (P : B → Type 0) (r : Result LoadError A) (f : A → Result LoadError B)
    → ((a : A) → After P (f a))
    → After P (r >>= f)
bind-After P (ok a) f h = h a
bind-After P (err e) f h = tt

if-After :
    {A : Type 0} (P : A → Type 0) (b : Bool) (r q : Result LoadError A)
    → After P r
    → After P q
    → After P (if b then r else q)
if-After P true r q h k = h
if-After P false r q h k = k

IsKept-trans :
    (reader : Reader) (l m n : Projects) → IsKept reader l m → IsKept reader m n → IsKept reader l n
IsKept-trans reader l m n h k = record { isolated = k.isolated ∙ h.isolated; indexed = k.indexed }

load_jsonl-After :
    (decode : Text → Option Entry) (reader : Reader) (m : Projects)
    → AllEntries IsIndexed m
    → After (IsKept reader m) (load_jsonl decode reader m)
unfolding load_jsonl
load_jsonl-After decode reader m h = bind-After (IsKept reader m) reader.jsonl _ (λ data_.
    bind-After (IsKept reader m) (unmarshal_jsonl decode data_) _ (λ es.
      if-After (IsKept reader m) (length es == 0) (err failed) _ tt
        (store_project-IsKept reader es m h)))

build_from_pages-After :
    (reader : Reader) (m : Projects)
    → AllEntries IsIndexed m
    → After (λ r. IsKept reader m r.1) (build_from_pages reader m)
unfolding build_from_pages
build_from_pages-After reader m h =
    bind-After (λ r. IsKept reader m r.1) reader.listed _
      (λ listed.
        bind-After (λ r. IsKept reader m r.1) (collect_pages reader.pages) _
          (λ es.
            if-After (λ r. IsKept reader m r.1) (ltb 0 listed && (length es == 0)) (err failed) _ tt
              (store_project-IsKept reader _ m h)))

map-After :
    {A : Type 0} (P Q : A → Type 0) (r : Result LoadError A)
    → ((a : A) → P a → Q a)
    → After P r
    → After Q r
map-After P Q (ok a) f h = f a h
map-After P Q (err e) f h = tt

build-After :
    (decode : Text → Option Entry) (reader : Reader) (m : Projects)
    → AllEntries IsIndexed m
    → After (λ r. IsKept reader m r.1) (build decode reader m)
unfolding build
build-After decode reader m h =
    loaded (load_jsonl decode reader m) (load_jsonl-After decode reader m h)
  where
    found :
        (more : Projects)
        → IsKept reader m more
        → (o : Option Project)
        → After
            (λ r. IsKept reader m r.1)
            (elim o [ none ↦ build_from_pages reader more | some p ↦ ok (p.entries, more) ])
    found more k (some p) = k
    found more k none =
        map-After (λ r. IsKept reader more r.1) (λ r. IsKept reader m r.1)
          (build_from_pages reader more) (λ r q. IsKept-trans reader m more r.1 k q)
          (build_from_pages-After reader more k.indexed)

    loaded :
        (r : Result LoadError Projects)
        → After (IsKept reader m) r
        → After
            (λ r. IsKept reader m r.1)
            (elim r [
              | err canceled ↦ err canceled
              | err failed ↦ build_from_pages reader m
              | err panics ↦ build_from_pages reader m
              | ok more ↦ elim (lookup (prefix_for_reader reader) more) [
                | none ↦ build_from_pages reader more
                | some p ↦ ok (p.entries, more)
              ]
            ])
    loaded (ok more) k = found more k (lookup (prefix_for_reader reader) more)
    loaded (err canceled) k = tt
    loaded (err failed) k = build_from_pages-After reader m h
    loaded (err panics) k = build_from_pages-After reader m h

ready-After :
    (decode : Text → Option Entry) (reader : Reader) (m : Projects)
    → AllEntries IsIndexed m
    → After (IsKept reader m) (ready decode reader m)
unfolding ready
ready-After decode reader m h =
    loaded (load_jsonl decode reader m) (load_jsonl-After decode reader m h)
  where
    built :
        (r : Result LoadError (List Entry × Projects))
        → After (λ r. IsKept reader m r.1) r
        → After (IsKept reader m) (elim r [ ok built ↦ ok built.1 | err f ↦ err f ])
    built (ok x) k = k
    built (err e) k = tt

    loaded :
        (r : Result LoadError Projects)
        → After (IsKept reader m) r
        → After (IsKept reader m) (elim r [
          | ok more ↦ ok more
          | err e ↦ elim (build decode reader m) [ ok built ↦ ok built.1 | err f ↦ err f ]
        ])
    loaded (ok more) k = k
    loaded (err e) k = built (build decode reader m) (build-After decode reader m h)

module _ (decode : Text → Option Entry) (to_lower : Text → Text) (draw : ℕ → ℕ → ℕ) where
  -- The results are the reader's project's, and the projects are kept.
  abbrev Answers :
      Reader → Text → ℤ → Projects → List llm_wiki_bff.Search.Result × Projects → Type 0
  Answers reader text limit m r =
      IsKept reader m r.1
      × (search_entries to_lower draw (entries_of reader r.1) text limit ≡ some r.0)

  search_ready-After :
      (reader : Reader) (text : Text) (limit : ℤ) (m n : Projects)
      → IsKept reader m n
      → After (Answers reader text limit m) (search_ready decode to_lower draw reader text limit n)
  unfolding search_ready
  search_ready-After reader text limit m n k =
      found (search_entries to_lower draw (entries_of reader n) text limit) refl
    where
      found :
          (o : Option (List llm_wiki_bff.Search.Result))
          → search_entries to_lower draw (entries_of reader n) text limit ≡ o
          → After
              (Answers reader text limit m)
              (elim o [ none ↦ err panics | some rs ↦ ok (rs, n) ])
      found none e = tt
      found (some rs) e = (k, e)

  search-After :
      (reader : Reader) (text : Text) (limit : ℤ) (m n : Projects)
      → IsKept reader m n
      → After (Answers reader text limit m) (search decode to_lower draw reader text limit n)
  unfolding search
  search-After reader text limit m n k = found (lookup (prefix_for_reader reader) n)
    where
      then-After :
          (r : Result LoadError Projects)
          → After (IsKept reader n) r
          → After
              (Answers reader text limit m)
              (r >>= search_ready decode to_lower draw reader text limit)
      then-After (ok more) q =
          search_ready-After reader text limit m more (IsKept-trans reader m n more k q)
      then-After (err e) q = tt

      found :
          (o : Option Project)
          → After (Answers reader text limit m) (elim o [
            | some p ↦ search_ready decode to_lower draw reader text limit n
            | none ↦ ready decode reader n >>= search_ready decode to_lower draw reader text limit
          ])
      found (some p) = search_ready-After reader text limit m n k
      found none = then-After (ready decode reader n) (ready-After decode reader n k.indexed)

  query-After :
      (reader : Reader) (text : Text) (limit : ℤ) (m : Projects)
      → AllEntries IsIndexed m
      → After (Answers reader text limit m) (query decode to_lower draw reader text limit m)
  unfolding query
  query-After reader text limit m h =
      then-After (ready decode reader m) (ready-After decode reader m h)
    where
      then-After :
          (r : Result LoadError Projects)
          → After (IsKept reader m) r
          → After
              (Answers reader text limit m)
              (r >>= search decode to_lower draw reader text limit)
      then-After (ok more) q = search-After reader text limit m more q
      then-After (err e) q = tt

  -- Where Query returns results, they are what the search finds in the entries that the cache then
  -- has for the reader's project. The projects of other prefixes are as before, and the index of
  -- every project leads to the last entry of each slug if it did before.
  pub query_isolated :
      (reader : Reader) (text : Text) (limit : ℤ) (m : Projects)
      {rs : List llm_wiki_bff.Search.Result} {n : Projects}
      → AllEntries IsIndexed m
      → query decode to_lower draw reader text limit m ≡ ok (rs, n)
      → (search_entries to_lower draw (entries_of reader n) text limit ≡ some rs)
        × (delete (prefix_for_reader reader) n ≡ delete (prefix_for_reader reader) m)
        × AllEntries IsIndexed n
  query_isolated reader text limit m h e =
      let (k, s) =
        subst (After (Answers reader text limit m)) e (query-After reader text limit m h) in
      (s, k.isolated, k.indexed)
