-- ===== src/Cache/Projects.antt =====
-- The map of projects of internal/cache/cache.go: what fills it, and the searches that fill it
-- first. The entry of a line of JSON is a parameter, and a reader is what its calls answer.
use llm_wiki_bff.Core.{
  ℕ, ◌+◌, Bool, false, ◌&&◌, ◌||◌, Option, none, some, List, [], ◌∷◌, ◌++◌, Result, ok, err, ◌>>=◌,
  length, ltb, leb, any, ◌==◌, if◌then◌else◌,
}
use llm_wiki_bff.Core.Int.{ℤ}
use llm_wiki_bff.Core.Text.{Text, codes, str_eq, str_ltb, trim_space, split_on}
use llm_wiki_bff.Core.Dict.{lookup, insert}
use llm_wiki_bff.Core.Sort.{sort_stable}
use llm_wiki_bff.Generation.{max_files}
use llm_wiki_bff.Search
use llm_wiki_bff.Cache.{Entry, search_entries}

-- projectCache
pub record Project : Type 0 where
  pub entries : List Entry
  pub by_slug : List (Text × Entry)

abbrev pub Projects : Type 0
Projects = List (Text × Project)

-- An error, by whether the context is done.
pub data LoadError : Type 0 where
  canceled failed panics : LoadError

-- What the calls of a reader answer: Prefix and ViewToken, ReadFile of the JSON lines, the number
-- of concepts that ListConcepts lists, and the entries of their pages in the order in which the
-- channel gets them.
pub record Reader : Type 0 where
  pub prefix : Text
  pub view_token : Option Text
  pub jsonl : Result LoadError Text
  pub listed : Result LoadError ℕ
  pub pages : List (Result LoadError Entry)

-- prefixForReader
unfoldable pub prefix_for_reader : Reader → Text
prefix_for_reader reader = elim reader.view_token [
  | none ↦ reader.prefix
  | some token ↦
      if str_eq token [] || str_eq token (codes "legacy")
      then reader.prefix
      else reader.prefix ++ codes ":" ++ token
]

-- The loop that fills bySlug.
unfoldable pub index_by_slug : List Entry → List (Text × Entry) → List (Text × Entry)
index_by_slug [] m = m
index_by_slug (e ∷ es) m = index_by_slug es (insert e.slug e m)

-- c.projects[prefixForReader(reader)] = ...
unfoldable pub store_project : Reader → List Entry → Projects → Projects
unfolding prefix_for_reader index_by_slug
store_project reader entries projects =
    insert (prefix_for_reader reader)
      (record { entries = entries; by_slug = index_by_slug entries [] }) projects

-- The loop of unmarshalJSONL, with the number of entries so far.
unfoldable pub unmarshal_lines :
    (Text → Option Entry) → ℕ → List Text → Result LoadError (List Entry)
unmarshal_lines decode n [] = ok []
unmarshal_lines decode n (line ∷ lines) =
    let blank = length (trim_space line) == 0 in
    let rest = unmarshal_lines decode (if blank then n else n + 1) lines in
    if blank
    then rest
    else if leb max_files n
    then err failed
    else elim (decode (trim_space line)) [
      | none ↦ err failed
      | some e ↦ rest >>= (λ es. ok (e ∷ es))
    ]

-- unmarshalJSONL; a line has to fit the scanner's buffer of 16 MiB.
unfoldable pub unmarshal_jsonl : (Text → Option Entry) → Text → Result LoadError (List Entry)
unfolding unmarshal_lines
unmarshal_jsonl decode data_ =
    if any (λ l. leb 16777216 (length l)) (split_on 10 data_)
    then err failed
    else unmarshal_lines decode 0 (split_on 10 data_)

-- loadJSONL
unfoldable pub load_jsonl : (Text → Option Entry) → Reader → Projects → Result LoadError Projects
unfolding unmarshal_jsonl store_project
load_jsonl decode reader projects = do
  data_ ← reader.jsonl
  entries ← unmarshal_jsonl decode data_
  if length entries == 0 then err failed else ok (store_project reader entries projects)

-- The loop over the results of the pages.
unfoldable pub collect_pages : List (Result LoadError Entry) → Result LoadError (List Entry)
collect_pages [] = ok []
collect_pages (ok e ∷ rs) = collect_pages rs >>= (λ es. ok (e ∷ es))
collect_pages (err canceled ∷ rs) = err canceled
collect_pages (err failed ∷ rs) = collect_pages rs
collect_pages (err panics ∷ rs) = collect_pages rs

-- buildFromPages, without the file that it writes back.
unfoldable pub build_from_pages : Reader → Projects → Result LoadError (List Entry × Projects)
unfolding collect_pages store_project
build_from_pages reader projects = do
  listed ← reader.listed
  entries ← collect_pages reader.pages
  if ltb 0 listed && (length entries == 0)
      then err failed
      else (let sorted = sort_stable (λ a b. str_ltb a.slug b.slug) entries in
          ok (sorted, store_project reader sorted projects))

-- Build
unfoldable pub build :
    (Text → Option Entry) → Reader → Projects → Result LoadError (List Entry × Projects)
unfolding load_jsonl build_from_pages prefix_for_reader
build decode reader projects = elim (load_jsonl decode reader projects) [
  | err canceled ↦ err canceled
  | err failed ↦ build_from_pages reader projects
  | err panics ↦ build_from_pages reader projects
  | ok more ↦ elim (lookup (prefix_for_reader reader) more) [
    | none ↦ build_from_pages reader more
    | some p ↦ ok (p.entries, more)
  ]
]

-- All
unfoldable pub all_entries :
    (Text → Option Entry) → Reader → Projects → Result LoadError (List Entry × Projects)
unfolding load_jsonl build prefix_for_reader
all_entries decode reader projects = elim (lookup (prefix_for_reader reader) projects) [
  | some p ↦ ok (p.entries, projects)
  | none ↦ elim (load_jsonl decode reader projects) [
    | err canceled ↦ err canceled
    | err failed ↦ build decode reader projects
    | err panics ↦ build decode reader projects
    | ok more ↦ elim (lookup (prefix_for_reader reader) more) [
      | none ↦ build decode reader more
      | some p ↦ ok (p.entries, more)
    ]
  ]
]

-- IsReady
unfoldable pub is_ready : Text → Projects → Bool
is_ready prefix projects = elim (lookup prefix projects) [
  | none ↦ false
  | some p ↦ ltb 0 (length p.entries)
]

-- The method Entry.
unfoldable pub cached_entry : Reader → Text → Projects → Option Entry
unfolding prefix_for_reader
cached_entry reader slug projects = elim (lookup (prefix_for_reader reader) projects) [
  | none ↦ none
  | some p ↦ lookup slug p.by_slug
]

-- The projects after what Search does first: the project is there, or it is loaded or built.
unfoldable pub ready : (Text → Option Entry) → Reader → Projects → Result LoadError Projects
unfolding load_jsonl build
ready decode reader projects = elim (load_jsonl decode reader projects) [
  | ok more ↦ ok more
  | err e ↦ elim (build decode reader projects) [ ok built ↦ ok built.1 | err f ↦ err f ]
]

-- The entries of the reader's project, none where there is no project.
unfoldable pub entries_of : Reader → Projects → List Entry
unfolding prefix_for_reader
entries_of reader projects = elim (lookup (prefix_for_reader reader) projects) [
  | none ↦ []
  | some p ↦ p.entries
]

module _ (decode : Text → Option Entry) (to_lower : Text → Text) (draw : ℕ → ℕ → ℕ) where
  -- The part of Search after the project is there.
  unfoldable pub search_ready :
      Reader → Text → ℤ → Projects → Result LoadError (List llm_wiki_bff.Search.Result × Projects)
  unfolding entries_of search_entries
  search_ready reader query limit projects =
      elim (search_entries to_lower draw (entries_of reader projects) query limit) [
        | none ↦ err panics
        | some rs ↦ ok (rs, projects)
      ]

  -- Search
  unfoldable pub search :
      Reader → Text → ℤ → Projects → Result LoadError (List llm_wiki_bff.Search.Result × Projects)
  unfolding prefix_for_reader ready search_ready
  search reader query limit projects = elim (lookup (prefix_for_reader reader) projects) [
    | some p ↦ search_ready reader query limit projects
    | none ↦ ready decode reader projects >>= search_ready reader query limit
  ]

  -- Query
  unfoldable pub query :
      Reader → Text → ℤ → Projects → Result LoadError (List llm_wiki_bff.Search.Result × Projects)
  unfolding ready search
  query reader text limit projects = ready decode reader projects >>= search reader text limit
