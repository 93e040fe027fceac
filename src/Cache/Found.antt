-- ===== src/Cache/Found.antt =====
-- What Search of internal/cache/cache.go finds in the entries of a project.
use llm_wiki_bff.Core.{
  ℕ, suc, ◌+◌, ◌-◌, ◌≤◌, ◌<◌, ◌≡◌, refl, ap, ◌∙◌, Bool, true, false, ◌&&◌, Option, none, some, List,
  [], ◌∷◌, length, All, take, drop, map, tally, tally_none, ltb, leb, ◌==◌, arith, if◌then◌else◌,
  Bool-cases, inl, inr,
}
use Prim.Native.Nat.{min}
use llm_wiki_bff.Core.Int.{ℤ, pos, pos_part, leb_ℤ}
use llm_wiki_bff.Core.Text.{Text, codes, trim_space}
use llm_wiki_bff.Core.Runes.{fields}
use llm_wiki_bff.Core.Scan.{index_of}
use llm_wiki_bff.Core.Sort.{sort_stable, sort_stable-tally, length-sort_stable}
use llm_wiki_bff.Search.{Result}
use llm_wiki_bff.Search.Snippets.{Within, index_of-Within}
use llm_wiki_bff.Cache.{
  Entry, Candidate, entry_score, snippet_start, snippet, candidates_of, choose, search_entries,
}
use llm_wiki_bff.Cache.Sample.{sample_total}

tally-map :
    {A B : Type 0} (f : A → B) (p : B → Bool) (xs : List A)
    → tally p (map f xs) ≡ tally (λ x. p (f x)) xs
tally-map f p [] = refl
tally-map f p (x ∷ xs) = ground (arith, tally-map f p xs)

length-map : {A B : Type 0} (f : A → B) (xs : List A) → length (map f xs) ≡ length xs
length-map f [] = refl
length-map f (x ∷ xs) = ap suc (length-map f xs)

start_within : (lower : Text) (words : List Text) → snippet_start lower words ≤ length lower - 80
unfolding snippet_start
start_within lower [] = omega arith
start_within lower (word ∷ words) =
    inside (start_within lower words) (index_of lower word) (index_of-Within lower word)
  where
    inside :
        snippet_start lower words ≤ length lower - 80
        → (o : Option ℕ) → Within (length lower) o
        → (elim o [ none ↦ snippet_start lower words | some i ↦ i - 80 ]) ≤ length lower - 80
    inside rest none h = rest
    inside rest (some i) h = omega (arith, h)

choose_total :
    (draw : ℕ → ℕ → ℕ) (limit : ℕ) (cs : List Candidate)
    → ((i b : ℕ) → 0 < b → draw i b < b)
    → tally (λ c. c.weight == 0) cs ≡ 0
    → (rs : List Result) × (choose draw limit cs ≡ some rs)
      × (length rs ≡ min limit (length cs))
      × ((p : Result → Bool) → tally p rs ≤ tally (λ c. p c.result) cs)
unfolding choose
choose_total draw limit cs d w = elim (Bool-cases (leb (length cs) limit)) [
  | inl b ↦
      let less = λ (a b : Candidate). ltb b.weight a.weight in
      let sorted = sort_stable less cs in
      (
        map (λ c. c.result) sorted,
        ground (arith, b),
        ground (arith, b, length-map (λ c. c.result) sorted, length-sort_stable less cs),
        λ p. omega (
          arith,
          tally-map (λ c. c.result) p sorted,
          sort_stable-tally less (λ c. p c.result) cs,
        ),
      )
  | inr b ↦ let (rs, f, l, q) = sample_total draw 0 limit cs d w in (rs, ground (arith, b, f), l, q)
]

-- The text that the snippet of an entry is cut from.
abbrev pub snippet_text : Entry → Text
snippet_text e = if length (trim_space e.body) == 0 then e.title else trim_space e.body

module _ (to_lower : Text → Text) where
  -- Lowering lengthens the text of an entry by at most 80 bytes.
  abbrev pub LengthensLittle : Entry → Type 0
  LengthensLittle e = length (to_lower (snippet_text e)) ≤ length (snippet_text e) + 80

  snippet_total :
      (e : Entry) (words : List Text)
      → LengthensLittle e
      → (text : Text) × (snippet to_lower e words ≡ some text)
  unfolding snippet
  snippet_total e words s =
      let text = snippet_text e in
      let start = snippet_start (to_lower text) words in
      let end_ = if ltb (length text) (start + 200) then length text else start + 200 in
      let low = start_within (to_lower text) words in
      let ordered : ltb end_ start ≡ false = ground (arith, low, s) in
      (
        _,
        ap (λ b. if b then none else some (trim_space (take (end_ - start) (drop start text))))
            ordered,
      )

  -- The candidates are the entries with a score, and have a weight.
  candidates_of_total :
      (words : List Text) (es : List Entry)
      → All LengthensLittle es
      → (cs : List Candidate) × (candidates_of to_lower words es ≡ some cs)
        × (length cs ≡ tally (λ e. ltb 0 (entry_score to_lower e words)) es)
        × (tally (λ c. c.weight == 0) cs ≡ 0)
        × ((p : Text → Bool)
            → tally (λ c. p c.result.slug) cs
              ≡ tally (λ e. p e.slug && ltb 0 (entry_score to_lower e words)) es)
  unfolding candidates_of
  candidates_of_total words [] h = ([], refl, refl, refl, λ p. refl)
  candidates_of_total words (e ∷ es) (h, hs) =
      let (cs, f, l, w, t) = candidates_of_total words es hs in
      let (text, g) = snippet_total e words h in
      elim (Bool-cases (entry_score to_lower e words == 0)) [
        | inl z ↦ (cs, ground (arith, z, f), ground (arith, z, l), w, λ p. ground (arith, z, t p))
        | inr z ↦ (
          record {
            result = record {
              slug = e.slug;
              title = e.title;
              kind = codes "concept";
              snippet = text;
            };
            weight = entry_score to_lower e words;
          }
              ∷ cs,
          ground (arith, z, f, g),
          ground (arith, z, l),
          ground (arith, z, w),
          λ p. ground (arith, z, t p),
        )
      ]

  -- Without words no entry has a score.
  unscored :
      (words : List Text) (es : List Entry)
      → (length words == 0) ≡ true
      → tally (λ e. ltb 0 (entry_score to_lower e words)) es ≡ 0
  unfolding entry_score
  unscored [] es h = tally_none _ es (λ e. refl)
  unscored (w ∷ ws) es h = absurd (ground (arith, h))

  -- With draws below their bounds, and where lowering lengthens no entry's text for the snippet by
  -- more than 80 bytes, Search ends without a panic for every query and limit. It returns as many
  -- results as the limit allows of the entries with a score, each of them an entry's that has a
  -- score, and no entry more often than it is there.
  pub search_entries_total :
      (draw : ℕ → ℕ → ℕ) (entries : List Entry) (query : Text) (limit : ℤ)
      → ((i b : ℕ) → 0 < b → draw i b < b)
      → All LengthensLittle entries
      → (rs : List Result) × (search_entries to_lower draw entries query limit ≡ some rs)
        × (length rs
            ≡ min
                (if leb_ℤ limit (pos 0) then 10 else pos_part limit)
                (tally (λ e. ltb 0 (entry_score to_lower e (fields (to_lower query)))) entries))
        × ((p : Text → Bool)
            → tally (λ r. p r.slug) rs
              ≤ tally
                  (λ e. p e.slug && ltb 0 (entry_score to_lower e (fields (to_lower query))))
                  entries)
  unfolding search_entries choose
  search_entries_total draw entries query limit d h =
      let words = fields (to_lower query) in
      let (cs, f, l, w, t) = candidates_of_total words entries h in
      elim (Bool-cases (length words == 0)) [
        | inl z ↦
            ([], ground (arith, z), ground (arith, unscored words entries z), λ p. omega arith)
        | inr z ↦
            let (rs, g, m, q) =
              choose_total draw (if leb_ℤ limit (pos 0) then 10 else pos_part limit) cs d w in
            (
              rs,
              ground (arith, z, f, g),
              m ∙ ap (min _) l,
              λ p. omega (arith, q (λ r. p r.slug), t p),
            )
      ]
