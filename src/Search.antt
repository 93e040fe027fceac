-- ===== src/Search.antt =====
-- internal/search/search.go: the index of a project's pages, and the search over it. The reading of
-- the index's file is in Meta. strings.ToLower is a parameter.
pub mod Lines
pub mod Meta
pub mod Listed
pub mod Rank
pub mod Snippets
pub mod Total
mod Tests
use llm_wiki_bff.Core.{
  ℕ, zero, suc, ◌+◌, ◌-◌, ◌^◌, Bool, true, false, not, ◌&&◌, ◌||◌, Option, none, some, List, [],
  ◌∷◌, ◌++◌, length, take, drop, ltb, leb, map, ◌==◌, is_some, if◌then◌else◌,
}
use llm_wiki_bff.Core.Int.{ℤ, pos, pos_part, leb_ℤ}
use llm_wiki_bff.Core.Text.{Text, codes, str_eq, contains, has_prefix}
use llm_wiki_bff.Core.Dict.{lookup, insert}
use llm_wiki_bff.Core.Runes.{fields, runes}
use llm_wiki_bff.Core.Scan.{index_of}
use llm_wiki_bff.Core.Sort.{sort_stable}
use llm_wiki_bff.Sources.{WikiPage}

-- A search hit; `kind` is its Type, "source" or "concept".
pub record Result : Type 0 where
  pub slug : Text
  pub title : Text
  pub kind : Text
  pub snippet : Text

pub record Citation : Type 0 where
  pub text : Text
  pub slug : Text
  pub kind : Text
  pub path : Text

-- scoredResult
pub record Scored : Type 0 where
  pub result : Result
  pub score : ℕ

-- indexedPage
pub record IndexedPage : Type 0 where
  pub title : Text
  pub description : Text

pub record Index : Type 0 where
  pub sources : List WikiPage
  pub concepts : List WikiPage
  pub entries : List (Text × IndexedPage)
  pub concept_bodies : List (Text × Text)

-- indexKey
unfoldable pub index_key : Text → Text → Text
index_key page_type slug = page_type ++ 0 ∷ slug

-- idx.entries[indexKey(...)], blank where there is none.
unfoldable pub entry_of : Index → Text → Text → IndexedPage
unfolding index_key
entry_of idx kind slug = elim (lookup (index_key kind slug) idx.entries) [
  | none ↦ record { title = []; description = [] }
  | some e ↦ e
]

-- entryTitle
unfoldable pub entry_title : Text → IndexedPage → Text
entry_title slug e = if not (str_eq e.title []) then e.title else slug

-- displayText
unfoldable pub display_text : Text → IndexedPage → Text
unfolding entry_title
display_text slug e = if not (str_eq e.description []) then e.description else entry_title slug e

-- The bigrams of a query without spaces.
unfoldable pub bigrams : List Text → List Text
bigrams [] = []
bigrams (a ∷ []) = []
bigrams (a ∷ b ∷ r) = (a ++ b) ∷ bigrams (b ∷ r)

-- matchScore
unfoldable pub match_score : Text → List Text → ℕ
match_score text [] = 0
match_score text (w ∷ ws) = (if contains text w then 1 else 0) + match_score text ws

-- stripFrontmatter
unfoldable pub strip_frontmatter : Text → Text
strip_frontmatter md =
    if has_prefix md (codes "---")
    then elim (index_of (drop 3 md) (codes "\n---")) [ none ↦ md | some i ↦ drop (i + 5) md ]
    else md

-- The loop of LoadConceptBodies that collects what the readers have sent so far: `none` where the
-- channel was empty.
unfoldable pub collect_bodies :
    List (Text × Text) → List (Option (Text × Text)) → List (Text × Text)
collect_bodies bodies [] = bodies
collect_bodies bodies (none ∷ rs) = collect_bodies bodies rs
collect_bodies bodies (some (slug, md) ∷ rs) =
    collect_bodies (insert slug (strip_frontmatter md) bodies) rs

-- LoadConceptBodies: the index after it, and whether it succeeded.
unfoldable pub load_concept_bodies : Index → List (Option (Text × Text)) → Index × Bool
unfolding collect_bodies
load_concept_bodies idx received =
    let bodies = collect_bodies idx.concept_bodies received in
    (record idx { concept_bodies = bodies }, ltb 0 (length bodies))

-- The least place of a word in the text.
unfoldable pub best_index : Text → List Text → Option ℕ → Option ℕ
best_index lower [] best = best
best_index lower (w ∷ ws) best = best_index lower ws (elim (index_of lower w) [
  | none ↦ best
  | some i ↦ elim best [ none ↦ some i | some b ↦ if ltb i b then some i else some b ]
])

-- text[start:end], `none` where Go panics.
unfoldable pub slice : Text → ℕ → ℕ → Option Text
slice text start end_ =
    if leb start end_ && leb end_ (length text)
    then some (take (end_ - start) (drop start text))
    else none

-- The end of makeSnippet around a match.
unfoldable pub snippet_around : Text → ℕ → ℕ → Option Text
unfolding slice
snippet_around text best max_len =
    let start = best - 40 in
    let end_ = if ltb (length text) (start + max_len) then length text else start + max_len in
    elim (slice text start end_) [
      | none ↦ none
      | some body ↦ some (
          (if ltb 0 start then codes "..." else [])
          ++ (body ++ (if ltb end_ (length text) then codes "..." else [])))
    ]

module _ (to_lower : Text → Text) where
  -- The words of a query.
  unfoldable pub query_words : Text → List Text
  unfolding bigrams
  query_words query =
      let lower = to_lower query in
      let words = fields lower in
      if leb (length words) 1 && ltb 2 (length (runes lower))
      then words ++ bigrams (runes lower)
      else words

  -- makeSnippet
  unfoldable pub make_snippet : Text → List Text → ℕ → Option Text
  unfolding best_index snippet_around
  make_snippet text words max_len = elim (best_index (to_lower text) words none) [
    | none ↦
        if ltb max_len (length text) then some (take max_len text ++ codes "...") else some text
    | some best ↦ snippet_around text best max_len
  ]

  -- searchableText
  unfoldable pub searchable_text : Index → Text → IndexedPage → Text
  searchable_text idx slug e = to_lower (
      (slug ++ (codes " " ++ (e.title ++ (codes " " ++ e.description))))
      ++ (elim (lookup slug idx.concept_bodies) [ none ↦ [] | some b ↦ codes " " ++ b ]))

  -- The hits among the pages of one kind; `none` where Go panics.
  unfoldable pub hits : Index → List Text → Text → List WikiPage → Option (List Scored)
  unfolding searchable_text match_score entry_of entry_title display_text make_snippet
  hits idx words kind [] = some []
  hits idx words kind (p ∷ ps) =
      let e = entry_of idx kind p.slug in
      let score = match_score (searchable_text idx p.slug e) words in
      let rest = hits idx words kind ps in
      if ltb 0 score
      then elim (make_snippet (display_text p.slug e) words 200) [
        | none ↦ none
        | some snippet ↦ elim rest [
          | none ↦ none
          | some hs ↦ some (
              record {
                score = score;
                result = record {
                  slug = p.slug;
                  title = entry_title p.slug e;
                  kind = kind;
                  snippet = snippet;
                };
              }
              ∷ hs)
        ]
      ]
      else rest

-- sortScoredResults
unfoldable pub sort_scored : List Scored → List Scored
sort_scored = sort_stable (λ a b. ltb b.score a.score)

-- limitScoredResults
unfoldable pub limit_scored : ℕ → List Scored → List Scored
limit_scored limit rs = if ltb limit (length rs) then take limit rs else rs

-- interleaveResults, with the room that is left.
unfoldable pub interleave : ℕ → List Scored → List Scored → List Result
interleave zero ss cs = []
interleave (suc n) [] [] = []
interleave (suc n) [] (c ∷ cs) = c.result ∷ interleave n [] cs
interleave (suc n) (s ∷ ss) [] = s.result ∷ interleave n ss []
interleave (suc zero) (s ∷ ss) (c ∷ cs) = s.result ∷ []
interleave (suc (suc n)) (s ∷ ss) (c ∷ cs) = s.result ∷ c.result ∷ interleave n ss cs

-- The limit of a search.
unfoldable pub limit_of : ℤ → ℕ
limit_of limit = if leb_ℤ limit (pos 0) then 10 else pos_part limit

-- The most results of 64 bytes for which make finds an address on a 64-bit machine.
abbrev pub max_capacity : ℕ
max_capacity = 2 ^ 42

-- make with a capacity, before what is put in: `none` is its panic.
unfoldable pub allocate : ℕ → List Result → Option (List Result)
allocate n results = if ltb max_capacity n then none else some results

-- The end of Search: the hits of both kinds, sorted, limited and interleaved.
unfoldable pub merge_hits : ℕ → Option (List Scored) → Option (List Scored) → Option (List Result)
unfolding sort_scored limit_scored interleave allocate
merge_hits n none cs = none
merge_hits n (some ss) none = none
merge_hits n (some ss) (some cs) =
    allocate n (interleave n (limit_scored n (sort_scored ss)) (limit_scored n (sort_scored cs)))

-- Search
unfoldable pub search_index : (Text → Text) → Index → Text → ℤ → Option (List Result)
unfolding hits query_words merge_hits limit_of
search_index to_lower idx query limit =
    let words = query_words to_lower query in
    merge_hits (limit_of limit) (hits to_lower idx words (codes "source") idx.sources)
      (hits to_lower idx words (codes "concept") idx.concepts)
