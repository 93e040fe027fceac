-- ===== src/Search/Total.antt =====
-- Search over an index, whatever the query and the limit (internal/search/search.go).
use llm_wiki_bff.Core.{
  ℕ, zero, suc, ◌≤◌, ◌≡◌, refl, Option, none, some, List, [], ◌∷◌, length, take, arith, map, All,
  ◌⊎◌, inl, inr, length-take, ltb, if_cases,
}
use llm_wiki_bff.Core.Int.{ℤ}
use llm_wiki_bff.Core.Text.{Text, codes}
use llm_wiki_bff.Core.Sort.{sort_stable-All}
use llm_wiki_bff.Search.{
  Index, Result, Scored, query_words, sort_scored, limit_of, merge_hits, search_index, allocate,
  max_capacity,
}
use llm_wiki_bff.Search.Rank.{alternate, ranked}
use llm_wiki_bff.Search.Snippets.{IsHit, AreHits, LengthensLittle, hits-AreHits}

take-All {κ} : (P : Result → Type κ) (n : ℕ) (rs : List Result) → All P rs → All P (take n rs)
take-All P zero rs h = tt
take-All P (suc n) [] h = tt
take-All P (suc n) (r ∷ rs) (p, h) = (p, take-All P n rs h)

map-All {κ} :
    (P : Result → Type κ) (rs : List Scored)
    → All (λ r. P r.result) rs
    → All P (map (λ r. r.result) rs)
map-All P [] h = tt
map-All P (r ∷ rs) (p, h) = (p, map-All P rs h)

alternate-All {κ} :
    (P : Result → Type κ) (ss cs : List Scored)
    → All (λ r. P r.result) ss
    → All (λ r. P r.result) cs
    → All P (alternate ss cs)
alternate-All P [] cs h k = map-All P cs k
alternate-All P (s ∷ ss) [] h k = map-All P (s ∷ ss) h
alternate-All P (s ∷ ss) (c ∷ cs) (p, h) (q, k) = (p, (q, alternate-All P ss cs h k))

module _ (to_lower : Text → Text) (idx : Index) (query : Text) where
  -- `r` is the result of a hit of a source or of a concept of the index.
  abbrev pub IsListed : Result → Type 0
  IsListed r =
      (h : Scored) × h.result ≡ r
      × (IsHit to_lower idx (query_words to_lower query) (codes "source") idx.sources h
          ⊎ IsHit to_lower idx (query_words to_lower query) (codes "concept") idx.concepts h)

  -- At most `n` results, each of a hit, and no panic.
  abbrev pub AreListed : ℕ → Option (List Result) → Type 0
  AreListed n none = ⊥
  AreListed n (some rs) = length rs ≤ n × All IsListed rs

  sources :
      (ss : List Scored)
      → All (IsHit to_lower idx (query_words to_lower query) (codes "source") idx.sources) ss
      → All (λ r. IsListed r.result) ss
  sources [] h = tt
  sources (s ∷ ss) (p, h) = ((s, refl, inl p), sources ss h)

  concepts :
      (cs : List Scored)
      → All (IsHit to_lower idx (query_words to_lower query) (codes "concept") idx.concepts) cs
      → All (λ r. IsListed r.result) cs
  concepts [] h = tt
  concepts (s ∷ ss) (p, h) = ((s, refl, inr p), concepts ss h)

  merge_hits-AreListed :
      (n : ℕ) (o o' : Option (List Scored))
      → n ≤ max_capacity
      → AreHits to_lower idx (query_words to_lower query) (codes "source") idx.sources o
      → AreHits to_lower idx (query_words to_lower query) (codes "concept") idx.concepts o'
      → AreListed n (merge_hits n o o')
  unfolding merge_hits sort_scored allocate
  merge_hits-AreListed n none o' b h k = elim h [ ]
  merge_hits-AreListed n (some ss) none b h k = elim k [ ]
  merge_hits-AreListed n (some ss) (some cs) b h k = rw (ranked n ss cs) (
      if_cases (AreListed n) (ltb max_capacity n) (λ e. absurd (ground (arith, e, b)))
        (λ e. (
          omega (arith, length-take n (alternate (sort_scored ss) (sort_scored cs))),
          take-All IsListed n _ (
              alternate-All IsListed (sort_scored ss) (sort_scored cs)
                (sort_stable-All _ _ ss (sources ss h)) (sort_stable-All _ _ cs (concepts cs k))),
        )))

  -- When lowering lengthens the description, or where it is empty the title, of no page that the
  -- index lists by more than 40 bytes, and the limit is not above what make can allocate, Search
  -- returns without a panic: at most as many results as the limit allows, each of a page that the
  -- index lists in its kind, with the title that the index has for it, a score above zero that
  -- counts the query's words in its text, and a snippet of at most 206 bytes.
  pub search_total :
      (limit : ℤ)
      → LengthensLittle to_lower idx (query_words to_lower query) (codes "source") idx.sources
      → LengthensLittle to_lower idx (query_words to_lower query) (codes "concept") idx.concepts
      → limit_of limit ≤ max_capacity
      → AreListed (limit_of limit) (search_index to_lower idx query limit)
  unfolding search_index
  search_total limit short shorter b =
      merge_hits-AreListed (limit_of limit) _ _ b
        (hits-AreHits to_lower idx (query_words to_lower query) (codes "source") idx.sources short)
        (hits-AreHits to_lower idx (query_words to_lower query) (codes "concept") idx.concepts
          shorter)
