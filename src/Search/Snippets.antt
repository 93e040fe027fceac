-- ===== src/Search/Snippets.antt =====
-- The snippets that makeSnippet cuts out of a page's text (internal/search/search.go).
use llm_wiki_bff.Core.{
  ℕ, ◌+◌, ◌-◌, ◌≤◌, ◌<◌, ◌≡◌, refl, Bool, true, false, ◌&&◌, Option, none, some, List, [], ◌∷◌,
  ◌++◌, length, take, drop, arith, ltb, leb, if◌then◌else◌, length-append, length-take, if_both,
  if_cases, All, Member, here, there,
}
use llm_wiki_bff.Core.Text.{Text, codes, has_prefix}
use llm_wiki_bff.Core.Scan.{index_of}
use llm_wiki_bff.Sources.{WikiPage}
use llm_wiki_bff.Search.{
  Index, IndexedPage, Scored, best_index, slice, snippet_around, make_snippet, entry_of,
  entry_title, display_text, match_score, searchable_text, hits,
}

-- A place in a text of length `n`, if any.
abbrev pub Within : ℕ → Option ℕ → Type 0
Within n none = Unit
Within n (some i) = i ≤ n

pub index_of-Within : (s p : Text) → Within (length s) (index_of s p)
unfolding index_of
index_of-Within [] p = if_both (Within 0) (has_prefix [] p) (omega arith) tt
index_of-Within (a ∷ s) p =
    if_cases (Within (length (a ∷ s))) (has_prefix (a ∷ s) p) (λ e. omega arith)
      (λ e. later (index_of s p) (index_of-Within s p))
  where
    later :
        (o : Option ℕ)
        → Within (length s) o
        → Within (length (a ∷ s)) (elim o [ none ↦ none | some i ↦ some (i + 1) ])
    later none h = tt
    later (some i) h = omega arith

best_index-Within :
    (s : Text) (ws : List Text) (best : Option ℕ)
    → Within (length s) best
    → Within (length s) (best_index s ws best)
unfolding best_index
best_index-Within s [] best h = h
best_index-Within s (w ∷ ws) best h =
    best_index-Within s ws _ (nearer (index_of s w) best (index_of-Within s w) h)
  where
    nearer :
        (o best : Option ℕ)
        → Within (length s) o
        → Within (length s) best
        → Within (length s) (elim o [
          | none ↦ best
          | some i ↦ elim best [ none ↦ some i | some b ↦ if ltb i b then some i else some b ]
        ])
    nearer none best h k = k
    nearer (some i) none h k = h
    nearer (some i) (some b) h k = if_both (Within (length s)) (ltb i b) h k

-- A text of at most `n` bytes, and no panic.
abbrev IsShort : ℕ → Option Text → Type 0
IsShort n none = ⊥
IsShort n (some s) = length s ≤ n

slice-IsShort :
    (text : Text) (start end_ n : ℕ)
    → start ≤ end_
    → end_ ≤ length text
    → end_ ≤ start + n
    → IsShort n (slice text start end_)
unfolding slice
slice-IsShort text start end_ n h k l =
    if_cases (IsShort n) (leb start end_ && leb end_ (length text))
      (λ e. omega (arith, length-take (end_ - start) (drop start text)))
      (λ e. absurd (ground (arith, e)))

-- The dots before and after a body add at most six bytes.
dotted :
    (a b : Bool) (body : Text) (n : ℕ)
    → length body ≤ n
    → length ((if a then codes "..." else []) ++ (body ++ (if b then codes "..." else []))) ≤ n + 6
dotted true true body n h = omega (arith, length-append body (codes "..."))
dotted true false body n h = omega (arith, length-append body [])
dotted false true body n h = omega (arith, length-append body (codes "..."))
dotted false false body n h = omega (arith, length-append body [])

snippet_around-IsShort :
    (text : Text) (best n : ℕ)
    → best ≤ length text + 40
    → IsShort (n + 6) (snippet_around text best n)
unfolding snippet_around
snippet_around-IsShort text best n h =
    around (slice text start end_)
      (slice-IsShort text start end_ n (ground arith) (ground arith) (ground arith))
  where
    start : ℕ
    start = best - 40

    end_ : ℕ
    end_ = if ltb (length text) (start + n) then length text else start + n

    around :
        (o : Option Text)
        → IsShort n o
        → IsShort (n + 6) (elim o [
          | none ↦ none
          | some body ↦ some (
              (if ltb 0 start then codes "..." else [])
              ++ (body ++ (if ltb end_ (length text) then codes "..." else [])))
        ])
    around none h = h
    around (some body) h = dotted (ltb 0 start) (ltb end_ (length text)) body n h

make_snippet-IsShort :
    (to_lower : Text → Text) (text : Text) (words : List Text) (n : ℕ)
    → length (to_lower text) ≤ length text + 40
    → IsShort (n + 6) (make_snippet to_lower text words n)
unfolding make_snippet
make_snippet-IsShort to_lower text words n h =
    matched (best_index (to_lower text) words none)
      (best_index-Within (to_lower text) words none tt)
  where
    matched :
        (o : Option ℕ)
        → Within (length (to_lower text)) o
        → IsShort (n + 6) (elim o [
          | none ↦ if ltb n (length text) then some (take n text ++ codes "...") else some text
          | some best ↦ snippet_around text best n
        ])
    matched none k =
        if_cases (IsShort (n + 6)) (ltb n (length text))
          (λ e. omega (arith, length-append (take n text) (codes "..."), length-take n text))
          (λ e. ground (arith, e))
    matched (some best) k = snippet_around-IsShort text best n (omega arith)

module _ (to_lower : Text → Text) (idx : Index) (words : List Text) (kind : Text) where
  -- A hit of a page of the list: it has the page's slug and the indexed title, a score that counts
  -- the words, and a snippet of at most 206 bytes.
  abbrev pub IsHit : List WikiPage → Scored → Type 0
  IsHit ps h =
      (p : WikiPage) × Member p ps
      × (h.result.slug ≡ p.slug)
      × (h.result.title ≡ entry_title p.slug (entry_of idx kind p.slug))
      × (h.result.kind ≡ kind)
      × (h.score
          ≡ match_score (searchable_text to_lower idx p.slug (entry_of idx kind p.slug)) words)
      × 0 < h.score
      × length h.result.snippet ≤ 206

  -- Lowering lengthens no text of a page of the list that a snippet is cut from by more than 40
  -- bytes.
  abbrev pub LengthensLittle : List WikiPage → Type 0
  LengthensLittle ps =
      All
        (λ p.
          length (to_lower (display_text p.slug (entry_of idx kind p.slug)))
          ≤ length (display_text p.slug (entry_of idx kind p.slug)) + 40)
        ps

  -- Hits of pages of the list, and no panic.
  abbrev pub AreHits : List WikiPage → Option (List Scored) → Type 0
  AreHits ps none = ⊥
  AreHits ps (some hs) = All (IsHit ps) hs

  later :
      (p : WikiPage) (ps : List WikiPage) (hs : List Scored)
      → All (IsHit ps) hs
      → All (IsHit (p ∷ ps)) hs
  later p ps [] h = tt
  later p ps (x ∷ hs) ((q, m, a, b, c, d, e, f), h) =
      ((q, there m, a, b, c, d, e, f), later p ps hs h)

  later_hits :
      (p : WikiPage) (ps : List WikiPage) (o : Option (List Scored))
      → AreHits ps o
      → AreHits (p ∷ ps) o
  later_hits p ps none h = elim h [ ]
  later_hits p ps (some hs) h = later p ps hs h

  pub hits-AreHits :
      (ps : List WikiPage) → LengthensLittle ps → AreHits ps (hits to_lower idx words kind ps)
  unfolding hits
  hits-AreHits [] short = tt
  hits-AreHits (p ∷ ps) (fits, short) =
      if_cases (AreHits (p ∷ ps)) (ltb 0 score)
        (λ e.
          found e (make_snippet to_lower (display_text p.slug e_) words 200)
            (make_snippet-IsShort to_lower (display_text p.slug e_) words 200 fits)
            (hits to_lower idx words kind ps) (hits-AreHits ps short))
        (λ e. later_hits p ps (hits to_lower idx words kind ps) (hits-AreHits ps short))
    where
      e_ : IndexedPage
      e_ = entry_of idx kind p.slug

      score : ℕ
      score = match_score (searchable_text to_lower idx p.slug e_) words

      found :
          ltb 0 score ≡ true
          → (o : Option Text) → IsShort 206 o
          → (r : Option (List Scored)) → AreHits ps r
          → AreHits (p ∷ ps) (elim o [
            | none ↦ none
            | some snippet ↦ elim r [
              | none ↦ none
              | some hs ↦ some (
                  record {
                    score = score;
                    result = record {
                      slug = p.slug;
                      title = entry_title p.slug e_;
                      kind = kind;
                      snippet = snippet;
                    };
                  }
                  ∷ hs)
            ]
          ])
      found e none h r k = elim h [ ]
      found e (some s) h none k = elim k [ ]
      found e (some s) h (some hs) k =
          ((p, here, refl, refl, refl, refl, ground (arith, e), h), later p ps hs k)
