-- ===== src/Search/Rank.antt =====
-- The order and the number of the hits of Search (internal/search/search.go).
use llm_wiki_bff.Core.{
  ℕ, zero, suc, ◌≤◌, ◌≡◌, refl, some, List, [], ◌∷◌, length, take, keep, arith, ltb, map, ◌==◌,
  Bool-cases, inl, inr, ap, ◌∙◌,
}
use llm_wiki_bff.Core.Int.{ℤ}
use llm_wiki_bff.Core.Text.{Text, codes}
use llm_wiki_bff.Core.Sort.{IsSorted, sort_stable-IsSorted, sort_stable-keep}
use llm_wiki_bff.Search.{
  Result, Scored, Index, query_words, hits, sort_scored, limit_scored, interleave, limit_of,
  merge_hits, search_index, allocate,
}

-- Sources and concepts by turns, a source first, and what is left of one kind.
abbrev pub alternate : List Scored → List Scored → List Result
alternate [] cs = map (λ c. c.result) cs
alternate (s ∷ ss) [] = map (λ c. c.result) (s ∷ ss)
alternate (s ∷ ss) (c ∷ cs) = s.result ∷ c.result ∷ alternate ss cs

take_nil : (n : ℕ) → take {A = Scored} n [] ≡ []
take_nil zero = refl
take_nil (suc n) = refl

take_all : (n : ℕ) (rs : List Scored) → length rs ≤ n → take n rs ≡ rs
take_all zero [] h = refl
take_all zero (r ∷ rs) h = absurd (omega arith)
take_all (suc n) [] h = refl
take_all (suc n) (r ∷ rs) h = ap (◌∷◌ r) (take_all n rs (omega arith))

interleave_sources :
    (n m : ℕ) (ss : List Scored)
    → n ≤ m
    → interleave n (take m ss) [] ≡ take n (map (λ c. c.result) ss)
unfolding interleave
interleave_sources zero m ss h = refl
interleave_sources (suc n) zero ss h = absurd (omega arith)
interleave_sources (suc n) (suc m) [] h = refl
interleave_sources (suc n) (suc m) (s ∷ ss) h =
    ap (◌∷◌ s.result) (interleave_sources n m ss (omega arith))

interleave_concepts :
    (n m : ℕ) (cs : List Scored)
    → n ≤ m
    → interleave n [] (take m cs) ≡ take n (map (λ c. c.result) cs)
unfolding interleave
interleave_concepts zero m cs h = refl
interleave_concepts (suc n) zero cs h = absurd (omega arith)
interleave_concepts (suc n) (suc m) [] h = refl
interleave_concepts (suc n) (suc m) (c ∷ cs) h =
    ap (◌∷◌ c.result) (interleave_concepts n m cs (omega arith))

pub interleave-take :
    (n m : ℕ) (ss cs : List Scored)
    → n ≤ m
    → interleave n (take m ss) (take m cs) ≡ take n (alternate ss cs)
unfolding interleave
interleave-take zero m ss cs h = refl
interleave-take (suc n) zero ss cs h = absurd (omega arith)
interleave-take (suc n) (suc m) [] cs h = interleave_concepts (suc n) (suc m) cs h
interleave-take (suc n) (suc m) (s ∷ ss) [] h = interleave_sources (suc n) (suc m) (s ∷ ss) h
interleave-take (suc zero) (suc m) (s ∷ ss) (c ∷ cs) h = refl
interleave-take (suc (suc n)) (suc m) (s ∷ ss) (c ∷ cs) h =
    ap (λ r. s.result ∷ c.result ∷ r) (interleave-take n m ss cs (omega arith))

pub limit_scored_lem : (n : ℕ) (rs : List Scored) → limit_scored n rs ≡ take n rs
unfolding limit_scored
limit_scored_lem n rs = elim (Bool-cases (ltb n (length rs))) [
  | inl e ↦ ground (arith, e)
  | inr e ↦ ground (arith, e, take_all n rs)
]

-- The scores stand in descending order.
abbrev pub Descending : List Scored → Type 0
Descending = IsSorted (λ a b. ltb b.score a.score)

sort_scored-IsSorted : (rs : List Scored) → Descending (sort_scored rs)
unfolding sort_scored
sort_scored-IsSorted =
    sort_stable-IsSorted (λ (a b : Scored). ltb b.score a.score) (λ x y h. ground arith)
      (λ x y z h k. ground arith)

pub ranked :
    (n : ℕ) (ss cs : List Scored)
    → interleave n (limit_scored n (sort_scored ss)) (limit_scored n (sort_scored cs))
      ≡ take n (alternate (sort_scored ss) (sort_scored cs))
ranked n ss cs =
    rw (limit_scored_lem n (sort_scored ss), limit_scored_lem n (sort_scored cs))
      (interleave-take n n (sort_scored ss) (sort_scored cs) (omega arith))

kept :
    (m : ℕ) (rs : List Scored)
    → keep (λ r. r.score == m) (sort_scored rs) ≡ keep (λ r. r.score == m) rs
unfolding sort_scored
kept m rs =
    sort_stable-keep (λ (a b : Scored). ltb b.score a.score) (λ r. r.score == m) rs
      (λ y z h k. ground arith)

-- When the search of both kinds yields hits `ss` and `cs`, Search returns the first of the sources
-- and concepts taken by turns, as many as the limit allows, unless the limit is above what make can
-- allocate; both run in descending order of score, and hits with the same score keep the order of
-- the index.
pub search_exact :
    (to_lower : Text → Text) (idx : Index) (query : Text) (limit : ℤ) (ss cs : List Scored)
    → hits to_lower idx (query_words to_lower query) (codes "source") idx.sources ≡ some ss
    → hits to_lower idx (query_words to_lower query) (codes "concept") idx.concepts ≡ some cs
    → (search_index to_lower idx query limit
        ≡ allocate
            (limit_of limit)
            (take (limit_of limit) (alternate (sort_scored ss) (sort_scored cs))))
      × Descending (sort_scored ss)
      × Descending (sort_scored cs)
      × ((k : ℕ)
          → (keep (λ r. r.score == k) (sort_scored ss) ≡ keep (λ r. r.score == k) ss)
            × (keep (λ r. r.score == k) (sort_scored cs) ≡ keep (λ r. r.score == k) cs))
unfolding search_index merge_hits
search_exact to_lower idx query limit ss cs h k = (
  ap
        (λ o.
          merge_hits (limit_of limit) o
            (hits to_lower idx (query_words to_lower query) (codes "concept") idx.concepts))
        h
      ∙ ap (merge_hits (limit_of limit) (some ss)) k
      ∙ ap (allocate (limit_of limit)) (ranked (limit_of limit) ss cs),
  sort_scored-IsSorted ss,
  sort_scored-IsSorted cs,
  λ m. (kept m ss, kept m cs),
)
