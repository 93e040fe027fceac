-- ===== src/Quality/Select/Chosen.antt =====
-- How many candidates Select selects, and which (internal/queryquality/core.go).
use llm_wiki_bff.Core.{
  ℕ, ◌+◌, ◌-◌, ◌≤◌, ◌<◌, ◌≡◌, refl, ap, sym, ◌∙◌, Bool, true, false, not, ◌&&◌, ◌||◌, Option, none,
  some, List, [], ◌∷◌, ◌++◌, length, take, drop, keep, map, tally, ◌==◌, tally-keep, tally-keep_and,
  tally-take, tally-or, tally-true, tally-append, tally-not, tally-and, tally-ext, tally_none,
  any-tally, length-append, length-take, length-drop, arith, is_some, if◌then◌else◌, Bool-cases,
  inl, inr,
}
use mathlib.Core.Path.{subst, ap₂}
use llm_wiki_bff.Core.Int.{ℤ}
use llm_wiki_bff.Core.Text.{Text, str_eq, str_eq_sound, str_eq_refl, str_eq_comm}
use llm_wiki_bff.Core.Dict.{lookup, has_key, lookup-AllEntries}
use llm_wiki_bff.Quality.{CandidateEvidence}
use llm_wiki_bff.Quality.Select.{
  SelectionInput, SelectedCandidate, Selected, min_int, limit_of, slots_of, eligible_of,
  ranked_slots, explored_slots, select_ranked, decisions, selected_of, omission, selection_decision,
}
use llm_wiki_bff.Quality.Select.Bags.{
  IsChosen, has_slug, IsFewer, Holds, Holds-empty, select_ranked-Holds, explore_total,
}

-- The slots fill what remains of the limit, as far as there are candidates.
slots_fill :
    (slots remaining generic : ℕ)
    → ranked_slots slots remaining generic + explored_slots slots remaining generic
      ≡ min_int remaining generic
unfolding ranked_slots explored_slots
slots_fill slots remaining generic = ground arith

explored_fits :
    (slots remaining generic : ℕ)
    → explored_slots slots remaining generic ≤ generic - ranked_slots slots remaining generic
unfolding ranked_slots explored_slots
explored_fits slots remaining generic = ground arith

ranked_fits : (slots remaining generic : ℕ) → ranked_slots slots remaining generic ≤ generic
unfolding ranked_slots
ranked_fits slots remaining generic = ground arith

length-keep :
    (q : CandidateEvidence → Bool) (xs : List CandidateEvidence)
    → length (keep q xs) + length (keep (λ x. not (q x)) xs) ≡ length xs
length-keep q xs = omega (
  arith,
  tally-keep (λ x. true) q xs,
  tally-true xs,
  tally-true (keep q xs),
  tally-true (keep (λ x. not (q x)) xs),
)

-- Select finds a map of selected candidates without a panic: of the eligible ones, as many as the
-- limit allows.
pub selected_of_total :
    (draw : ℤ → ℕ → ℕ → ℕ) (input : SelectionInput)
    → ((seed : ℤ) (i b : ℕ) → 0 < b → draw seed i b < b)
    → (xs : List CandidateEvidence) × (m : Selected) × (selected_of draw input ≡ some m)
      × Holds xs m
      × (length xs ≡ min_int (limit_of input) (length (eligible_of input.candidates)))
      × IsFewer xs (eligible_of input.candidates)
      × (tally (λ c. c.exact_identity_evidence) xs
          ≡ min_int
              (limit_of input)
              (tally (λ c. c.exact_identity_evidence) (eligible_of input.candidates)))
unfolding selected_of
selected_of_total draw input d =
    let eligible = eligible_of input.candidates in
    let exact = keep (λ c. c.exact_identity_evidence) eligible in
    let generic = keep (λ c. not c.exact_identity_evidence) eligible in
    let n = min_int (length exact) (limit_of input) in
    let remaining = limit_of input - n in
    let ranked = ranked_slots (slots_of input) remaining (length generic) in
    let explored = explored_slots (slots_of input) remaining (length generic) in
    let first = take n exact in
    let second = take ranked generic in
    let h = select_ranked-Holds first [] [] Holds-empty in
    let is_exact = λ (c : CandidateEvidence). c.exact_identity_evidence in
    let no_generic =
      tally-keep_and is_exact (λ c. not c.exact_identity_evidence) eligible
      ∙ tally_none _ eligible (λ c. ground arith) in
    let no_exact =
      tally-keep_and (λ c. not c.exact_identity_evidence) is_exact eligible
      ∙ tally_none _ eligible (λ c. ground arith) in
    let all_first : tally is_exact first ≡ length first = omega (
      arith,
      tally-not is_exact first,
      tally-take (λ c. not c.exact_identity_evidence) n exact,
      no_exact,
    ) in
    let all_exact : tally is_exact exact ≡ length exact =
      omega (arith, tally-not is_exact exact, no_exact) in
    let whole = length-keep (λ c. c.exact_identity_evidence) eligible in
    let count =
      λ (p : CandidateEvidence → Bool). tally-keep p (λ c. c.exact_identity_evidence) eligible in
    elim (Bool-cases (remaining == 0)) [
      | inl e ↦ (
        first,
        select_ranked first [],
        ground (arith, e),
        h,
        ground (arith, e, length-take n exact, whole),
        λ p. omega (arith, tally-take p n exact, count p),
        ground (arith, e, all_first, all_exact, length-take n exact, no_generic, count is_exact),
      )
      | inr e ↦
          let k = select_ranked-Holds second first (select_ranked first []) h in
          let (ys, m, r, held, l, f) =
            explore_total (draw input.seed) 0 explored (drop ranked generic) (first ++ second)
              (select_ranked second (select_ranked first [])) (d input.seed) k
              (omega (
                arith,
                length-drop ranked generic,
                explored_fits (slots_of input) remaining (length generic),
              )) in
          (
            (first ++ second) ++ ys,
            m,
            ground (arith, e, r),
            held,
            ground (
              arith,
              e,
              l,
              whole,
              length-append (first ++ second) ys,
              length-append first second,
              length-take n exact,
              length-take ranked generic,
              ranked_fits (slots_of input) remaining (length generic),
              slots_fill (slots_of input) remaining (length generic),
            ),
            λ p. omega (
              arith,
              f p,
              tally-append p (first ++ second) ys,
              tally-append p first second,
              tally-take p n exact,
              tally-take p ranked generic,
              count p,
            ),
            ground (
              arith,
              f is_exact,
              tally-append is_exact (first ++ second) ys,
              tally-append is_exact first second,
              tally-take is_exact ranked generic,
              all_first,
              all_exact,
              length-take n exact,
              no_generic,
              count is_exact,
            ),
          )
    ]

-- The first of some candidates that stand in a list of distinct slugs has a slug of its own.
slug_alone :
    (x : CandidateEvidence) (xs cs : List CandidateEvidence)
    → tally (λ c. str_eq x.slug c.slug) cs ≤ 1
    → tally (λ c. str_eq x.slug c.slug) (x ∷ xs) ≤ tally (λ c. str_eq x.slug c.slug) cs
    → has_slug xs x.slug ≡ false
slug_alone x xs cs one mine =
    any-tally (λ y. str_eq y.slug x.slug) xs
      (tally-ext (λ y. str_eq y.slug x.slug) (λ y. str_eq x.slug y.slug) xs
          (λ y. str_eq_comm y.slug x.slug)
        ∙ ground (arith, one, mine, str_eq_refl x.slug))

slugs_apart :
    (q : CandidateEvidence → Bool) (x c : CandidateEvidence) (xs : List CandidateEvidence)
    → has_slug xs x.slug ≡ false
    → ((str_eq x.slug c.slug && q c) && (has_slug xs c.slug && q c)) ≡ false
slugs_apart q x c xs alone = elim (Bool-cases (str_eq x.slug c.slug)) [
  | inr e ↦ ground (arith, e)
  | inl e ↦
      let other : has_slug xs c.slug ≡ false =
        subst (λ k. has_slug xs k ≡ false) (str_eq_sound x.slug c.slug e) alone in
      ground (arith, other)
]

-- In a list of distinct slugs, the candidates with a slug of `xs` are those of `xs`, whatever is
-- counted.
pub tally-has_slug :
    (q : CandidateEvidence → Bool) (xs cs : List CandidateEvidence)
    → ((k : Text) → tally (λ c. str_eq k c.slug) cs ≤ 1)
    → IsFewer xs cs
    → tally (λ c. has_slug xs c.slug && q c) cs ≡ tally q xs
tally-has_slug q [] cs d f = tally_none _ cs (λ c. refl)
tally-has_slug q (x ∷ xs) cs d f =
    let same = λ (c : CandidateEvidence). str_eq x.slug c.slug in
    let alone = slug_alone x xs cs (d x.slug) (f same) in
    let rest = tally-has_slug q xs cs d (λ p. omega (arith, f p)) in
    tally-ext (λ c. has_slug (x ∷ xs) c.slug && q c)
      (λ c. (same c && q c) || (has_slug xs c.slug && q c)) cs (λ c. ground arith)
    ∙ tally-or (λ c. same c && q c) (λ c. has_slug xs c.slug && q c) cs
        (λ c. slugs_apart q x c xs alone)
    ∙ ground (
      arith,
      rest,
      d x.slug,
      f (λ c. same c && q c),
      f (λ c. same c && not (q c)),
      tally-and same q cs,
      str_eq_refl x.slug,
    )

-- What is counted of the candidates and their decisions.
abbrev pub tally_decided :
    (CandidateEvidence → SelectedCandidate → Bool)
    → List CandidateEvidence
    → List SelectedCandidate
    → ℕ
tally_decided f [] ds = 0
tally_decided f (c ∷ cs) [] = 0
tally_decided f (c ∷ cs) (d ∷ ds) = (if f c d then 1 else 0) + tally_decided f cs ds

-- A decision selects what the map holds, and has the candidate's slug.
decision_sound :
    (c : CandidateEvidence) (xs : List CandidateEvidence) (m : Selected)
    (o : Option SelectedCandidate)
    → Holds xs m
    → lookup c.slug m ≡ o
    → ((elim o as (λ _. SelectedCandidate) [
      | none ↦ selection_decision c false (omission c) false
      | some d ↦ d
    ]).slug
        ≡ c.slug)
      × ((elim o as (λ _. SelectedCandidate) [
        | none ↦ selection_decision c false (omission c) false
        | some d ↦ d
      ]).selected
          ≡ has_slug xs c.slug)
unfolding selection_decision has_key
decision_sound c xs m none h e = (refl, ap is_some (sym e) ∙ h.keys c.slug)
decision_sound c xs m (some d) h e =
    let (s, t) = lookup-AllEntries IsChosen c.slug m h.entries e in
    (s, t ∙ ap is_some (sym e) ∙ h.keys c.slug)

pub decisions-slug :
    (cs xs : List CandidateEvidence) (m : Selected)
    → Holds xs m
    → map (λ d. d.slug) (decisions m cs) ≡ map (λ c. c.slug) cs
unfolding decisions
decisions-slug [] xs m h = refl
decisions-slug (c ∷ cs) xs m h =
    let (s, t) = decision_sound c xs m (lookup c.slug m) h refl in
    ap₂ ◌∷◌ s (decisions-slug cs xs m h)

pub decisions-tally :
    (q : CandidateEvidence → Bool) (cs xs : List CandidateEvidence) (m : Selected)
    → Holds xs m
    → tally_decided (λ c d. d.selected && q c) cs (decisions m cs)
      ≡ tally (λ c. has_slug xs c.slug && q c) cs
unfolding decisions
decisions-tally q [] xs m h = refl
decisions-tally q (c ∷ cs) xs m h =
    let (s, t) = decision_sound c xs m (lookup c.slug m) h refl in
    ground (arith, t, decisions-tally q cs xs m h)
