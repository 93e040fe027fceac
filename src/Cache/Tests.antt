-- ===== src/Cache/Tests.antt =====
-- Concrete runs of the search in memory (internal/cache/cache.go).
use llm_wiki_bff.Core.{
  Result, ok, err, ℕ, zero, suc, ◌≤◌, ◌<◌, ◌≡◌, refl, Bool, true, false, ◌&&◌, ◌==◌, Option, none,
  some, List, [], ◌∷◌, length, keep, tally, ltb, arith, if◌then◌else◌,
}
use Prim.Native.Nat.{min}
use llm_wiki_bff.Core.Int.{pos, pos_part, leb_ℤ}
use llm_wiki_bff.Core.Text.{Text, codes}
use llm_wiki_bff.Core.Dict.{delete, AllEntries}
use llm_wiki_bff.Core.Runes.{fields}
use llm_wiki_bff.Search
use llm_wiki_bff.Cache.{Entry, Candidate, entry_score, total_weight, pick_one, search_entries}
use llm_wiki_bff.Cache.Projects.{Projects, Reader, failed, query, entries_of, prefix_for_reader}
use llm_wiki_bff.Cache.Isolated.{IsIndexed, query_isolated}
use llm_wiki_bff.Cache.Sample.{count, takes, pick_one_fair}
use llm_wiki_bff.Cache.Found.{search_entries_total}

abbrev same : Text → Text
same s = s

-- Every draw is the last one that is possible.
abbrev last_draw : ℕ → ℕ → ℕ
last_draw i zero = 0
last_draw i (suc b) = b

last_draw_below : (i b : ℕ) → 0 < b → last_draw i b < b
last_draw_below i zero h = h
last_draw_below i (suc b) h = omega arith

abbrev concept : Text → Text → Entry
concept slug body = record {
  slug = slug;
  title = slug;
  body = body;
  frontmatter = codes "map[]";
  sources = [];
}

abbrev three : List Entry
three =
    concept (codes "cat") (codes "a cat")
    ∷ concept (codes "dog") (codes "no")
    ∷ concept (codes "cow") (codes "cat-like")
    ∷ []

slugs : Option (List llm_wiki_bff.Search.Result) → List Text
slugs none = []
slugs (some []) = []
slugs (some (r ∷ rs)) = r.slug ∷ slugs (some rs)

both_in_order :
    slugs (search_entries same last_draw three (codes "cat") (pos 2))
    ≡ codes "cat" ∷ codes "cow" ∷ []
unfolding slugs search_entries fields llm_wiki_bff.Core.Text.space_width
    llm_wiki_bff.Core.Text.contains llm_wiki_bff.Core.Text.join_by llm_wiki_bff.Core.Text.trim_space
    llm_wiki_bff.Core.Scan.index_of llm_wiki_bff.Core.Sort.sort_stable
both_in_order = refl

last_one_drawn :
    slugs (search_entries same last_draw three (codes "cat") (pos 1)) ≡ codes "cow" ∷ []
unfolding slugs search_entries fields llm_wiki_bff.Core.Text.space_width
    llm_wiki_bff.Core.Text.contains llm_wiki_bff.Core.Text.join_by llm_wiki_bff.Core.Text.trim_space
    llm_wiki_bff.Core.Scan.index_of
last_one_drawn = refl

search_entries_total_example :
    (rs : List llm_wiki_bff.Search.Result) × (search_entries same last_draw three
        (codes "cat")
        (pos 1)
      ≡ some rs)
    × (length rs
        ≡ min
            (if leb_ℤ (pos 1) (pos 0) then 10 else pos_part (pos 1))
            (tally (λ e. ltb 0 (entry_score same e (fields (same (codes "cat"))))) three))
    × ((p : Text → Bool)
        → tally (λ r. p r.slug) rs
          ≤ tally (λ e. p e.slug && ltb 0 (entry_score same e (fields (same (codes "cat"))))) three)
search_entries_total_example =
    search_entries_total same last_draw three (codes "cat") (pos 1) last_draw_below
      (omega arith, (omega arith, (omega arith, tt)))

abbrev weighted : ℕ → Candidate
weighted n = record {
  result = record { slug = []; title = []; kind = []; snippet = [] };
  weight = n;
}

pick_one_fair_example :
    count
      (λ r. takes (λ c. c.weight == 5) (pick_one r (weighted 2 ∷ weighted 5 ∷ [])))
      (total_weight (weighted 2 ∷ weighted 5 ∷ []))
    ≡ total_weight (keep (λ c. c.weight == 5) (weighted 2 ∷ weighted 5 ∷ []))
pick_one_fair_example = pick_one_fair (λ c. c.weight == 5) (weighted 2 ∷ weighted 5 ∷ [])

-- Two lines, each the slug and the body of a concept, read at a view of the generation g.
abbrev pinned : Reader
pinned = record {
  prefix = codes "u/p";
  view_token = some (codes "g");
  jsonl = ok (codes "cat\n\ndog\n");
  listed = err failed;
  pages = [];
}

abbrev as_concept : Text → Option Entry
as_concept line = some (concept line line)

abbrev after_query : Projects
after_query =
    (
      codes "u/p:g",
      record {
        entries = concept (codes "cat") (codes "cat") ∷ concept (codes "dog") (codes "dog") ∷ [];
        by_slug =
            (codes "cat", concept (codes "cat") (codes "cat"))
            ∷ (codes "dog", concept (codes "dog") (codes "dog"))
            ∷ [];
      },
    )
    ∷ []

abbrev dog_found : List llm_wiki_bff.Search.Result
dog_found =
    record {
      slug = codes "dog";
      title = codes "dog";
      kind = codes "concept";
      snippet = codes "dog";
    }
    ∷ []

loads_and_finds :
    query as_concept same last_draw pinned (codes "dog") (pos 3) [] ≡ ok (dog_found, after_query)
unfolding query llm_wiki_bff.Core.Text.split_on llm_wiki_bff.Core.Text.trim_space
    llm_wiki_bff.Core.Dict.lookup llm_wiki_bff.Core.Dict.insert llm_wiki_bff.Core.Text.str_eq fields
    llm_wiki_bff.Core.Text.contains llm_wiki_bff.Core.Text.join_by llm_wiki_bff.Core.Scan.index_of
    llm_wiki_bff.Core.Sort.sort_stable
loads_and_finds = refl

query_isolated_example :
    (search_entries same last_draw (entries_of pinned after_query) (codes "dog") (pos 3)
      ≡ some dog_found)
    × (delete (prefix_for_reader pinned) after_query ≡ delete (prefix_for_reader pinned) [])
    × AllEntries IsIndexed after_query
query_isolated_example =
    query_isolated as_concept same last_draw pinned (codes "dog") (pos 3) [] tt loads_and_finds
