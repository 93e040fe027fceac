-- ===== src/Quality/Select/Bags.antt =====
-- What the loops of Select (internal/queryquality/core.go) put into the map of selected candidates.
use llm_wiki_bff.Core.{
  ℕ, zero, suc, ◌+◌, ◌≤◌, ◌<◌, ◌≡◌, refl, ap, sym, ◌∙◌, Bool, true, false, ◌||◌, some, List, [],
  ◌∷◌, ◌++◌, length, tally, any, any-append, arith,
}
use llm_wiki_bff.Core.Text.{Text, codes, str_eq}
use llm_wiki_bff.Core.Dict.{lookup, insert, has_key, has_key-insert, AllEntries, insert-AllEntries}
use llm_wiki_bff.Quality.{CandidateEvidence}
use llm_wiki_bff.Quality.Select.{
  SelectedCandidate, Selected, selection_decision, select_ranked, swap_first, explore,
}

-- An entry for a candidate that is selected, under its slug.
abbrev pub IsChosen : Text → SelectedCandidate → Type 0
IsChosen k d = (d.slug ≡ k) × (d.selected ≡ true)

-- One of the candidates has the slug.
abbrev pub has_slug : List CandidateEvidence → Text → Bool
has_slug xs k = any (λ x. str_eq x.slug k) xs

-- No candidate stands more often in the first list than in the second.
abbrev pub IsFewer : List CandidateEvidence → List CandidateEvidence → Type 0
IsFewer xs ys = (p : CandidateEvidence → Bool) → tally p xs ≤ tally p ys

-- The map holds the selected candidates and no more.
pub record Holds (xs : List CandidateEvidence) (m : Selected) : Type 0 where
  pub keys : (k : Text) → has_key k m ≡ has_slug xs k
  pub entries : AllEntries IsChosen m

pub Holds-empty : Holds [] []
unfolding has_key lookup
Holds-empty = record { keys = λ k. refl; entries = tt }

-- Another candidate is selected.
pub Holds-insert :
    (xs ys : List CandidateEvidence) (c : CandidateEvidence) (r : Text) (e : Bool) (m : Selected)
    → Holds xs m
    → ((k : Text) → has_slug ys k ≡ (str_eq c.slug k || has_slug xs k))
    → Holds ys (insert c.slug (selection_decision c true r e) m)
unfolding selection_decision
Holds-insert xs ys c r e m h split = record {
  keys = λ k.
      has_key-insert c.slug k (selection_decision c true r e) m
      ∙ ap (λ b. str_eq c.slug k || b) (h.keys k)
      ∙ sym (split k);
  entries =
      insert-AllEntries IsChosen c.slug (selection_decision c true r e) m (refl, refl) h.entries;
}

snoc_slug :
    (xs : List CandidateEvidence) (c : CandidateEvidence) (k : Text)
    → has_slug (xs ++ c ∷ []) k ≡ (str_eq c.slug k || has_slug xs k)
snoc_slug xs c k = ground (arith, any-append (λ x. str_eq x.slug k) xs (c ∷ []))

append_cons_slug :
    (xs ys : List CandidateEvidence) (c : CandidateEvidence) (k : Text)
    → has_slug ((xs ++ c ∷ []) ++ ys) k ≡ has_slug (xs ++ c ∷ ys) k
append_cons_slug [] ys c k = refl
append_cons_slug (x ∷ xs) ys c k = ap (λ b. str_eq x.slug k || b) (append_cons_slug xs ys c k)

-- The same map for lists with the same slugs.
Holds-slugs :
    (xs ys : List CandidateEvidence) (m : Selected)
    → ((k : Text) → has_slug xs k ≡ has_slug ys k)
    → Holds xs m
    → Holds ys m
Holds-slugs xs ys m e h = record { keys = λ k. h.keys k ∙ e k; entries = h.entries }

pub select_ranked-Holds :
    (cs xs : List CandidateEvidence) (m : Selected)
    → Holds xs m
    → Holds (xs ++ cs) (select_ranked cs m)
unfolding select_ranked
select_ranked-Holds [] xs m h =
    Holds-slugs xs (xs ++ []) m (λ k. ground (arith, any-append (λ x. str_eq x.slug k) xs [])) h
select_ranked-Holds (c ∷ cs) xs m h =
    Holds-slugs ((xs ++ c ∷ []) ++ cs) (xs ++ c ∷ cs) _ (append_cons_slug xs cs c) (
      select_ranked-Holds cs (xs ++ c ∷ []) _
        (Holds-insert xs (xs ++ c ∷ []) c (codes "selected") false m h (snoc_slug xs c)))

-- A swap within range keeps the candidates.
swap_first_total :
    (k : ℕ) (first : CandidateEvidence) (cs : List CandidateEvidence)
    → k < suc (length cs)
    → (x : CandidateEvidence) × (rest : List CandidateEvidence) × (swap_first k first cs
        ≡ some (x, rest))
      × (length rest ≡ length cs)
      × ((p : CandidateEvidence → Bool) → tally p (x ∷ rest) ≡ tally p (first ∷ cs))
unfolding swap_first
swap_first_total zero first cs h = (first, cs, refl, refl, λ p. refl)
swap_first_total (suc k) first [] h = absurd (omega arith)
swap_first_total (suc zero) first (c ∷ cs) h = (c, first ∷ cs, refl, refl, λ p. omega arith)
swap_first_total (suc (suc k)) first (c ∷ cs) h =
    let (x, rest, e, l, t) = swap_first_total (suc k) first cs (omega arith) in
    (x, c ∷ rest, ground (arith, e), omega (arith, l), λ p. omega (arith, t p))

explore_step :
    (draw : ℕ → ℕ → ℕ) (index n : ℕ) (c x : CandidateEvidence) (cs rest : List CandidateEvidence)
    (m : Selected)
    → swap_first (draw index (length (c ∷ cs))) c cs ≡ some (x, rest)
    → explore draw index (suc n) (c ∷ cs) m
      ≡ explore draw
          (index + 1)
          n
          rest
          (insert x.slug (selection_decision x true (codes "selected_for_exploration") true) m)
unfolding explore
explore_step draw index n c x cs rest m e = ground (arith, e)

-- The exploration, with draws in range, selects so many candidates as there are, at most `n`.
pub explore_total :
    (draw : ℕ → ℕ → ℕ) (index n : ℕ) (cs xs : List CandidateEvidence) (m : Selected)
    → ((i b : ℕ) → 0 < b → draw i b < b)
    → Holds xs m
    → n ≤ length cs
    → (ys : List CandidateEvidence) × (m' : Selected) × (explore draw index n cs m ≡ some m')
      × Holds (xs ++ ys) m'
      × (length ys ≡ n)
      × IsFewer ys cs
unfolding explore
explore_total draw index zero cs xs m d h l =
    ([], m, refl, select_ranked_nil, refl, λ p. omega arith)
  where
    select_ranked_nil : Holds (xs ++ []) m
    select_ranked_nil =
        Holds-slugs xs (xs ++ []) m (λ k. ground (arith, any-append (λ x. str_eq x.slug k) xs [])) h
explore_total draw index (suc n) [] xs m d h l = absurd (omega arith)
explore_total draw index (suc n) (c ∷ cs) xs m d h l =
    let (x, rest, e, z, t) =
      swap_first_total (draw index (length (c ∷ cs))) c cs
        (d index (length (c ∷ cs)) (omega arith)) in
    let (ys, m', e', h', z', f) =
      explore_total draw (index + 1) n rest (xs ++ x ∷ [])
        (insert x.slug (selection_decision x true (codes "selected_for_exploration") true) m) d
        (Holds-insert xs (xs ++ x ∷ []) x (codes "selected_for_exploration") true m h
          (snoc_slug xs x))
        (omega (arith, z)) in
    (
      x ∷ ys,
      m',
      explore_step draw index n c x cs rest m e ∙ e',
      Holds-slugs ((xs ++ x ∷ []) ++ ys) (xs ++ x ∷ ys) m' (append_cons_slug xs ys x) h',
      omega (arith, z'),
      λ p. omega (arith, f p, t p),
    )
