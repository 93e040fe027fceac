-- ===== src/Generation/Find.antt =====
-- internal/generation/manifest.go: Manifest.File, over the Go library's sort.Search.
pub mod Exact
use llm_wiki_bff.Core.{
  ℕ, zero, suc, ◌+◌, ◌/◌, Bool, true, false, not, Option, none, some, List, length, get_elem?, ltb,
  if◌then◌else◌,
}
use llm_wiki_bff.Core.Text.{Text, str_eq, str_ltb}
use llm_wiki_bff.Generation.{File, Manifest}

-- The loop of sort.Search: `h := (i + j) / 2; if !f(h) { i = h + 1 } else { j = h }` while i < j.
search_loop : ℕ → (ℕ → Bool) → ℕ → ℕ → ℕ
search_loop zero f i j = i
search_loop (suc fuel) f i j = elim (ltb i j) [
  | false ↦ i
  | true ↦ elim (f ((i + j) / 2)) [
    | false ↦ search_loop fuel f ((i + j) / 2 + 1) j
    | true ↦ search_loop fuel f i ((i + j) / 2)
  ]
]

-- sort.Search(n, f): n rounds are enough, since each shortens the range.
unfoldable pub sort_search : ℕ → (ℕ → Bool) → ℕ
unfolding search_loop
sort_search n f = search_loop n f 0 n

-- m.Files[i].Path >= path
unfoldable pub at_or_above : Text → List File → ℕ → Bool
at_or_above path files i = elim (get_elem? files i) [
  | none ↦ false
  | some file ↦ not (str_ltb file.path path)
]

-- `if i < len(m.Files) && m.Files[i].Path == path`
unfoldable pub file_at : Text → List File → ℕ → Option File
file_at path files i = elim (get_elem? files i) [
  | none ↦ none
  | some file ↦ if str_eq file.path path then some file else none
]

-- Manifest.File
unfoldable pub find_file : Manifest → Text → Option File
unfolding sort_search at_or_above file_at
find_file m path = file_at path m.files (sort_search (length m.files) (at_or_above path m.files))
