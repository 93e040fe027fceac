-- ===== src/Generation/Find/Exact.antt =====
-- Manifest.File (internal/generation/manifest.go) against membership in the manifest.
use llm_wiki_bff.Core.{
  ℕ, zero, suc, ◌+◌, ◌/◌, ◌≤◌, ◌<◌, ◌≡◌, refl, sym, ap, ◌↔◌, inl, inr, Bool, true, false, some,
  List, [], ◌∷◌, length, get_elem?, Member, here, there, ltb, arith, Bool-cases, Option-cases,
  All-member,
}
use mathlib.Core.Path.{subst}
use llm_wiki_bff.Core.Text.{
  Text, str_eq, str_eq_sound, str_eq_refl, str_ltb, str_ltb_irrefl, str_ltb_trans,
}
use llm_wiki_bff.Generation.{File, Manifest}
use llm_wiki_bff.Generation.Validate.Exact.{Sorted}
use llm_wiki_bff.Generation.Find.{search_loop, sort_search, at_or_above, file_at, find_file}

-- `r` is the first index below `n` at which the test holds, or `n`.
abbrev IsFirst : (ℕ → Bool) → ℕ → ℕ → Type 0
IsFirst f n r = (r ≤ n) × ((k : ℕ) → k < r → f k ≡ false) × ((k : ℕ) → r ≤ k → k < n → f k ≡ true)

module _ (f : ℕ → Bool) (fuel i j : ℕ) where
  search_loop-stop : ltb i j ≡ false → search_loop (suc fuel) f i j ≡ i
  unfolding search_loop
  search_loop-stop e = ground arith

  search_loop-right :
      ltb i j ≡ true
      → f ((i + j) / 2) ≡ false
      → search_loop (suc fuel) f i j ≡ search_loop fuel f ((i + j) / 2 + 1) j
  unfolding search_loop
  search_loop-right e d = ground arith

  search_loop-left :
      ltb i j ≡ true
      → f ((i + j) / 2) ≡ true
      → search_loop (suc fuel) f i j ≡ search_loop fuel f i ((i + j) / 2)
  unfolding search_loop
  search_loop-left e d = ground arith

module _ (f : ℕ → Bool) (n : ℕ) (mono : (i j : ℕ) → i ≤ j → j < n → f i ≡ true → f j ≡ true) where
  -- Below an index at which a monotone test fails it fails.
  fails_below : (m k : ℕ) → f m ≡ false → m < n → k < m + 1 → f k ≡ false
  fails_below m k e b p = elim (Bool-cases (f k)) [
    | inl t ↦ ground (arith, mono k m (omega arith) b t)
    | inr t ↦ t
  ]

  search_loop-IsFirst :
      (fuel i j : ℕ)
      → i ≤ j
      → j ≤ n
      → j ≤ i + fuel
      → ((k : ℕ) → k < i → f k ≡ false)
      → ((k : ℕ) → j ≤ k → k < n → f k ≡ true)
      → IsFirst f n (search_loop fuel f i j)
  unfolding search_loop
  search_loop-IsFirst zero i j h b c low high = (omega arith, low, λ k p q. high k (omega arith) q)
  search_loop-IsFirst (suc fuel) i j h b c low high = elim (Bool-cases (ltb i j)) [
    | inr stop ↦
        let done : IsFirst f n i = (omega arith, low, λ k p q. high k (ground arith) q) in
        subst (IsFirst f n) (sym (search_loop-stop f fuel i j stop)) done
    | inl more ↦
        let less : i < j = ground arith in
        elim (Bool-cases (f ((i + j) / 2))) [
          | inr miss ↦ subst (IsFirst f n) (sym (search_loop-right f fuel i j more miss)) (
              search_loop-IsFirst fuel ((i + j) / 2 + 1) j (omega arith) b (omega arith)
                (λ k p. fails_below ((i + j) / 2) k miss (omega arith) p) high)
          | inl hit ↦ subst (IsFirst f n) (sym (search_loop-left f fuel i j more hit)) (
              search_loop-IsFirst fuel i ((i + j) / 2) (omega arith) (omega arith) (omega arith) low
                (λ k p q. mono ((i + j) / 2) k p q hit))
        ]
  ]

  sort_search-IsFirst : IsFirst f n (sort_search n f)
  unfolding sort_search
  sort_search-IsFirst =
      search_loop-IsFirst n 0 n (omega arith) (omega arith) (omega arith)
        (λ k p. absurd (omega arith)) (λ k p q. absurd (omega arith))

Member-get :
    {f : File} (fs : List File)
    → Member f fs
    → (i : ℕ) × (i < length fs) × (get_elem? fs i ≡ some f)
Member-get [] m = elim m [ ]
Member-get (g ∷ fs) here = (0, omega arith, refl)
Member-get (g ∷ fs) (there m) = let (i, b, e) = Member-get fs m in (suc i, omega arith, e)

get-Member : {f : File} (fs : List File) (i : ℕ) → get_elem? fs i ≡ some f → Member f fs
get-Member [] i h = cc
get-Member {f} (g ∷ fs) zero h = let e : g ≡ f = cc in subst (λ x. Member x (g ∷ fs)) e here
get-Member (g ∷ fs) (suc i) h = there (get-Member fs i h)

get_in_range : (fs : List File) (i : ℕ) → i < length fs → (f : File) × (get_elem? fs i ≡ some f)
get_in_range [] i h = absurd (omega arith)
get_in_range (f ∷ fs) zero h = (f, refl)
get_in_range (f ∷ fs) (suc i) h = get_in_range fs i (omega arith)

-- The rows of a sorted manifest, by index.
Sorted-lt :
    (fs : List File) (i j : ℕ) {a b : File}
    → Sorted fs
    → i < j
    → get_elem? fs i ≡ some a
    → get_elem? fs j ≡ some b
    → str_ltb a.path b.path ≡ true
Sorted-lt [] i j s h p q = cc
Sorted-lt (f ∷ fs) i zero s h p q = absurd (omega arith)
Sorted-lt (f ∷ fs) zero (suc j) {a} {b} s h p q =
    let e : f ≡ a = cc in
    subst (λ (x : File). str_ltb x.path b.path ≡ true) e
      (All-member (λ g. str_ltb f.path g.path ≡ true) fs s.0 (get-Member fs j q))
Sorted-lt (f ∷ fs) (suc i) (suc j) s h p q = Sorted-lt fs i j s.1 (omega arith) p q

module _ (path : Text) (fs : List File) (s : Sorted fs) where
  at_or_above_mono :
      (i j : ℕ)
      → i ≤ j
      → j < length fs
      → at_or_above path fs i ≡ true
      → at_or_above path fs j ≡ true
  unfolding at_or_above
  at_or_above_mono i j h b t =
      let (x, p) = get_in_range fs i (omega arith) in
      let (y, q) = get_in_range fs j b in
      elim (Bool-cases (ltb i j)) [
        | inl less ↦ ground (
          arith,
          p,
          q,
          Sorted-lt fs i j {a = x} {b = y} s (ground arith) p q,
          str_ltb_trans x.path y.path path,
        )
        | inr same ↦ let e : i ≡ j = ground arith in subst (λ k. at_or_above path fs k ≡ true) e t
      ]

  -- The first row at or above the path is the row that has it.
  first_is :
      (f : File) (i r : ℕ)
      → get_elem? fs i ≡ some f
      → f.path ≡ path
      → i < length fs
      → IsFirst (at_or_above path fs) (length fs) r
      → r ≡ i
  unfolding at_or_above
  first_is f i r p e b (top, low, high) = elim (Bool-cases (ltb i r)) [
    | inl less ↦ absurd (ground (arith, p, e, low i (ground arith), str_ltb_irrefl path))
    | inr le ↦ elim (Bool-cases (ltb r i)) [
      | inr same ↦ ground arith
      | inl more ↦
          let (g, q) = get_in_range fs r (ground arith) in
          absurd (
            ground (
              arith,
              q,
              e,
              high r (omega arith) (ground arith),
              Sorted-lt fs r i {a = g} {b = f} s (ground arith) q p,
              ap (λ t. str_ltb g.path t) e,
            ))
    ]
  ]

  find-Member :
      (f : File)
      → Member f fs
      → f.path ≡ path
      → file_at path fs (sort_search (length fs) (at_or_above path fs)) ≡ some f
  unfolding file_at
  find-Member f m e =
      let (i, b, p) = Member-get fs m in
      let at =
        first_is f i _ p e b
          (sort_search-IsFirst (at_or_above path fs) (length fs) at_or_above_mono) in
      ground (arith, at, p, str_eq_refl path, ap (λ t. str_eq t path) e, ap (get_elem? fs) at)

-- In a manifest with ascending paths, File finds a row exactly if the manifest holds that row under
-- that path: every declared file is found by the binary search, and nothing else.
pub find_file_exact :
    (m : Manifest) (path : Text) (f : File)
    → Sorted m.files
    → (find_file m path ≡ some f) ↔ (Member f m.files × (f.path ≡ path))
unfolding find_file
find_file_exact m path f s = (
  λ h.
      let r : ℕ = sort_search (length m.files) (at_or_above path m.files) in
      elim (Option-cases (get_elem? m.files r)) [
        | inl e ↦ absurd (ground (arith, e))
        | inr (g, e) ↦
            let same : g ≡ f = ground (arith, e) in
            (get-Member m.files r (cc (e, same)), ground (arith, e, str_eq_sound g.path path))
      ],
  λ (k, e). find-Member path m.files s f k e,
)
