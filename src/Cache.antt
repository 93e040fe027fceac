-- ===== src/Cache.antt =====
-- internal/cache/cache.go: the concepts of projects in memory, and the search over them.
-- strings.ToLower and the draws of math/rand are parameters.
pub mod Sample
pub mod Found
pub mod Isolated
pub mod Projects
mod Tests
use llm_wiki_bff.Core.{
  ℕ, zero, suc, ◌+◌, ◌-◌, Bool, true, false, not, ◌&&◌, ◌||◌, Option, none, some, List, [], ◌∷◌,
  ◌++◌, length, take, drop, ltb, leb, map, ◌==◌, if◌then◌else◌,
}
use llm_wiki_bff.Core.Int.{ℤ, pos, pos_part, leb_ℤ}
use llm_wiki_bff.Core.Text.{Text, codes, contains, trim_space, join_by}
use llm_wiki_bff.Core.Runes.{fields}
use llm_wiki_bff.Core.Scan.{index_of}
use llm_wiki_bff.Core.Sort.{sort_stable}
use llm_wiki_bff.Search.{Result}

-- Entry, with its frontmatter as fmt.Sprint prints it.
pub record Entry : Type 0 where
  pub slug : Text
  pub title : Text
  pub body : Text
  pub frontmatter : Text
  pub sources : List Text

-- A candidate of Search with its weight.
pub record Candidate : Type 0 where
  pub result : Result
  pub weight : ℕ

-- Where the snippet starts: the first word that occurs, less 80.
unfoldable pub snippet_start : Text → List Text → ℕ
snippet_start lower [] = 0
snippet_start lower (word ∷ words) = elim (index_of lower word) [
  | none ↦ snippet_start lower words
  | some i ↦ i - 80
]

module _ (to_lower : Text → Text) where
  -- The points of a word in entryScore.
  unfoldable pub word_score : Entry → Text → ℕ
  word_score e word =
      (if contains (to_lower e.title) word then 5 else 0)
      + (if contains (to_lower (join_by 32 e.sources)) word then 3 else 0)
      + (if contains (to_lower e.body) word then 2 else 0)
      + (if contains (to_lower e.frontmatter) word then 1 else 0)

  -- entryScore
  unfoldable pub entry_score : Entry → List Text → ℕ
  unfolding word_score
  entry_score e [] = 0
  entry_score e (word ∷ words) = word_score e word + entry_score e words

  -- snippet; `none` is a slice out of range.
  unfoldable pub snippet : Entry → List Text → Option Text
  unfolding snippet_start
  snippet e words =
      let body = trim_space e.body in
      let text = if length body == 0 then e.title else body in
      let start = snippet_start (to_lower text) words in
      let end_ = if ltb (length text) (start + 200) then length text else start + 200 in
      if ltb end_ start then none else some (trim_space (take (end_ - start) (drop start text)))

  -- The loop over the entries.
  unfoldable pub candidates_of : List Text → List Entry → Option (List Candidate)
  unfolding entry_score snippet
  candidates_of words [] = some []
  candidates_of words (e ∷ es) =
      let rest = candidates_of words es in
      if entry_score e words == 0 then rest else elim (snippet e words) [
        | none ↦ none
        | some text ↦ elim rest [
          | none ↦ none
          | some cs ↦ some (
              record {
                result = record {
                  slug = e.slug;
                  title = e.title;
                  kind = codes "concept";
                  snippet = text;
                };
                weight = entry_score e words;
              }
              ∷ cs)
        ]
      ]

-- The sum of the weights.
unfoldable pub total_weight : List Candidate → ℕ
total_weight [] = 0
total_weight (c ∷ cs) = c.weight + total_weight cs

-- The candidate that a draw falls on, and the others. Where the draw falls on none, the code takes
-- the first.
unfoldable pub pick_from : ℕ → List Candidate → Option (Candidate × List Candidate)
pick_from pick [] = none
pick_from pick (c ∷ cs) =
    let rest = pick_from (pick - c.weight) cs in
    if ltb pick c.weight
    then some (c, cs)
    else elim rest [ none ↦ none | some (x, others) ↦ some (x, c ∷ others) ]

unfoldable pub pick_one : ℕ → List Candidate → Option (Candidate × List Candidate)
unfolding pick_from
pick_one pick [] = none
pick_one pick (c ∷ cs) = elim (pick_from pick (c ∷ cs)) [ none ↦ some (c, cs) | some x ↦ some x ]

-- The loop that samples, with the number of results that are still wanted and the draws of
-- rand.Intn by their place. `none` is a draw from nothing.
unfoldable pub sample : (ℕ → ℕ → ℕ) → ℕ → ℕ → List Candidate → Option (List Result)
unfolding total_weight pick_one
sample draw place zero cs = some []
sample draw place (suc n) [] = some []
sample draw place (suc n) (c ∷ cs) =
    if total_weight (c ∷ cs) == 0
    then none
    else elim (pick_one (draw place (total_weight (c ∷ cs))) (c ∷ cs)) [
      | none ↦ none
      | some (x, others) ↦ elim (sample draw (place + 1) n others) [
        | none ↦ none
        | some rs ↦ some (x.result ∷ rs)
      ]
    ]

-- The part of Search after the candidates.
unfoldable pub choose : (ℕ → ℕ → ℕ) → ℕ → List Candidate → Option (List Result)
unfolding sample
choose draw limit cs =
    if leb (length cs) limit
    then some (map (λ c. c.result) (sort_stable (λ a b. ltb b.weight a.weight) cs))
    else sample draw 0 limit cs

-- Search, in the entries of a project; `none` is a panic.
unfoldable pub search_entries :
    (Text → Text) → (ℕ → ℕ → ℕ) → List Entry → Text → ℤ → Option (List Result)
unfolding candidates_of choose
search_entries to_lower draw entries query limit =
    let words = fields (to_lower query) in
    if length words == 0 then some [] else elim (candidates_of to_lower words entries) [
      | none ↦ none
      | some cs ↦ choose draw (if leb_ℤ limit (pos 0) then 10 else pos_part limit) cs
    ]
