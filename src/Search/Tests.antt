-- ===== src/Search/Tests.antt =====
-- Concrete runs of the search (internal/search/search.go).
use llm_wiki_bff.Core.{
  ℕ, ◌+◌, ◌≤◌, ◌≡◌, refl, true, Option, some, none, List, [], ◌∷◌, ◌++◌, All, length, keep, take,
  ◌==◌, arith,
}
use llm_wiki_bff.Core.Int.{pos}
use llm_wiki_bff.Core.Text.{Text, codes}
use llm_wiki_bff.Search.{
  Index, Result, Scored, hits, query_words, search_index, allocate, sort_scored, limit_of,
  strip_frontmatter,
}
use llm_wiki_bff.Search.Meta.{build}
use llm_wiki_bff.Search.Listed.{AreListed, build-AreListed}
use llm_wiki_bff.Search.Rank.{alternate, Descending, search_exact}
use llm_wiki_bff.Sources.{WikiPage}
use llm_wiki_bff.Search.Snippets.{LengthensLittle}
use llm_wiki_bff.Search.Total
use llm_wiki_bff.Search.Total.{search_total}

abbrev same : Text → Text
same s = s

abbrev no_index : Index
no_index = record { sources = []; concepts = []; entries = []; concept_bodies = [] }

abbrev meta : Text
meta =
    codes "---\na: b\n---\n# sources\n- [[one|First]] - the cat\n- two | Second | a cat and a dog\n"
    ++ codes "_note\n# concepts\n* [Third](wiki/three.md) : dog\nsources: four\n"

abbrev given_index : Index
given_index = (build same (some meta) no_index).0

-- The slugs and the titles of what a search finds.
outline : Option (List Result) → List (Text × Text)
outline none = []
outline (some []) = []
outline (some (r ∷ rs)) = (r.slug, r.title) ∷ outline (some rs)

finds :
    outline (search_index same given_index (codes "cat dog") (pos 0))
    ≡ (codes "two", codes "Second")
      ∷ (codes "three", codes "Third")
      ∷ (codes "one", codes "First")
      ∷ []
unfolding outline search_index build llm_wiki_bff.Core.Text.split_on llm_wiki_bff.Core.Text.str_eq
    llm_wiki_bff.Core.Text.trim_space llm_wiki_bff.Core.Text.has_prefix llm_wiki_bff.Core.Scan.cut
    llm_wiki_bff.Core.Text.contains llm_wiki_bff.Core.Scan.replace_all
    llm_wiki_bff.Core.Scan.replace_from llm_wiki_bff.Core.Runes.fields
    llm_wiki_bff.Core.Text.trim_suffix llm_wiki_bff.Core.Dict.lookup llm_wiki_bff.Core.Dict.insert
    llm_wiki_bff.Core.Scan.index_of llm_wiki_bff.CloudRun.trim_prefix
    llm_wiki_bff.Core.Sort.sort_stable
finds = refl

-- The two dashes that stripFrontmatter leaves.
strips : strip_frontmatter (codes "---\na: b\n---\nbody") ≡ codes "--\nbody"
unfolding strip_frontmatter llm_wiki_bff.Core.Text.has_prefix llm_wiki_bff.Core.Scan.index_of
strips = refl

build-AreListed_example : AreListed given_index.entries given_index.sources given_index.concepts
build-AreListed_example = build-AreListed same meta no_index

lengthens_little :
    (kind : Text) (ps : List WikiPage)
    → LengthensLittle same given_index (query_words same (codes "cat dog")) kind ps
lengthens_little kind [] = tt
lengthens_little kind (p ∷ ps) = (omega arith, lengthens_little kind ps)

search_total_example :
    Total.AreListed same given_index
      (codes "cat dog")
      (limit_of (pos 1))
      (search_index same given_index (codes "cat dog") (pos 1))
unfolding limit_of
search_total_example =
    search_total same given_index (codes "cat dog") (pos 1)
      (lengthens_little (codes "source") given_index.sources)
      (lengthens_little (codes "concept") given_index.concepts) (omega arith)

-- A hit with its score.
abbrev hit : ℕ → Text → Text → Text → Text → Scored
hit score slug title kind snippet = record {
  score = score;
  result = record { slug = slug; title = title; kind = kind; snippet = snippet };
}

abbrev given_sources : List Scored
given_sources =
    hit 1 (codes "one") (codes "First") (codes "source") (codes "the cat")
    ∷ hit 2 (codes "two") (codes "Second") (codes "source") (codes "a cat and a dog")
    ∷ []

abbrev given_concepts : List Scored
given_concepts = hit 1 (codes "three") (codes "Third") (codes "concept") (codes "dog") ∷ []

source_hits :
    hits same given_index (query_words same (codes "cat dog")) (codes "source") given_index.sources
    ≡ some given_sources
unfolding hits build llm_wiki_bff.Core.Text.split_on llm_wiki_bff.Core.Text.str_eq
    llm_wiki_bff.Core.Text.trim_space llm_wiki_bff.Core.Text.has_prefix llm_wiki_bff.Core.Scan.cut
    llm_wiki_bff.Core.Text.contains llm_wiki_bff.Core.Scan.replace_all
    llm_wiki_bff.Core.Scan.replace_from query_words llm_wiki_bff.Core.Runes.fields
    llm_wiki_bff.Core.Text.trim_suffix llm_wiki_bff.Core.Dict.lookup llm_wiki_bff.Core.Dict.insert
    llm_wiki_bff.Core.Scan.index_of
source_hits = refl

concept_hits :
    hits same given_index
      (query_words same (codes "cat dog"))
      (codes "concept")
      given_index.concepts
    ≡ some given_concepts
unfolding hits build llm_wiki_bff.Core.Text.split_on llm_wiki_bff.Core.Text.str_eq
    llm_wiki_bff.Core.Text.trim_space llm_wiki_bff.Core.Text.has_prefix llm_wiki_bff.Core.Scan.cut
    llm_wiki_bff.Core.Text.contains llm_wiki_bff.Core.Scan.replace_all
    llm_wiki_bff.Core.Scan.replace_from query_words llm_wiki_bff.Core.Runes.fields
    llm_wiki_bff.Core.Text.trim_suffix llm_wiki_bff.CloudRun.trim_prefix
    llm_wiki_bff.Core.Dict.lookup llm_wiki_bff.Core.Dict.insert llm_wiki_bff.Core.Scan.index_of
concept_hits = refl

search_exact_example :
    (search_index same given_index (codes "cat dog") (pos 2)
      ≡ allocate (limit_of (pos 2)) (
          take
            (limit_of (pos 2))
            (alternate (sort_scored given_sources) (sort_scored given_concepts))))
    × Descending (sort_scored given_sources)
    × Descending (sort_scored given_concepts)
    × ((k : ℕ)
        → (keep (λ r. r.score == k) (sort_scored given_sources)
            ≡ keep (λ r. r.score == k) given_sources)
          × (keep (λ r. r.score == k) (sort_scored given_concepts)
              ≡ keep (λ r. r.score == k) given_concepts))
search_exact_example =
    search_exact same given_index (codes "cat dog") (pos 2) given_sources given_concepts source_hits
      concept_hits
