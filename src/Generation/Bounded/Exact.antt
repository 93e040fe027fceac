-- ===== src/Generation/Bounded/Exact.antt =====
-- What DecodeBoundedMap accepts (internal/generation/decode.go), against a plain reading of the
-- object.
use llm_wiki_bff.Core.{
  ℕ, ◌+◌, ◌≤◌, ◌≡◌, refl, ◌↔◌, inl, inr, false, Option, none, some, List, [], ◌∷◌, ◌++◌, ok, leb,
  any, length, arith, Option-cases, is_some, append_cons,
}
use mathlib.Core.List.{append-nil}
use llm_wiki_bff.Core.Text.{Text, str_eq, str_eq_sound, str_eq_refl}
use llm_wiki_bff.Core.Dict.{insert, lookup, lookup-insert}
use llm_wiki_bff.Json.{Json, Fields, obj, end, cut, garbled, field}
use llm_wiki_bff.Generation.{max_files}
use llm_wiki_bff.Generation.Bounded.{map_entries, bounded_map}

module _ {T : Type 0} (decode : Json → Option T) where
  -- All fields of an object that is read to its end, decoded, in the order of the document.
  abbrev pub all_fields : Fields → Option (List (Text × T))
  all_fields end = some []
  all_fields cut = none
  all_fields garbled = none
  all_fields (field k v fs) = elim (decode v) [
    | none ↦ none
    | some x ↦ elim (all_fields fs) [ none ↦ none | some r ↦ some ((k, x) ∷ r) ]
  ]

-- No key is among those given, or equal to an earlier one.
abbrev pub Fresh {ℓ} : {V : Type ℓ} → List Text → List (Text × V) → Type 0
Fresh seen [] = Unit
Fresh seen ((k, v) ∷ r) = (any (str_eq k) seen ≡ false) × Fresh (k ∷ seen) r

-- `insert` of a key that is not there appends.
insert_new {ℓ} :
    {V : Type ℓ} (k : Text) (v : V) (m : List (Text × V))
    → lookup k m ≡ none
    → insert k v m ≡ m ++ (k, v) ∷ []
unfolding insert lookup
insert_new k v [] h = refl
insert_new k v ((j, w) ∷ m) h = ground (arith, insert_new k v m)

-- The seen set holds the keys of the result.
abbrev Tracks {ℓ} : {V : Type ℓ} → List Text → List (Text × V) → Type 0
Tracks seen m = (k : Text) → any (str_eq k) seen ≡ is_some (lookup k m)

Tracks-insert {ℓ} :
    {V : Type ℓ} (k : Text) (v : V) (seen : List Text) (m : List (Text × V))
    → Tracks seen m
    → Tracks (k ∷ seen) (insert k v m)
Tracks-insert k v seen m t j =
    ground (arith, t j, lookup-insert k j v m, str_eq_sound k j, str_eq_sound j k, str_eq_refl k)

module _ {T : Type 0} (decode : Json → Option T) where
  all_fields-field :
      (k : Text) (v : Json) (fs : Fields) {x : T} {r : List (Text × T)}
      → decode v ≡ some x
      → all_fields decode fs ≡ some r
      → all_fields decode (field k v fs) ≡ some ((k, x) ∷ r)
  all_fields-field k v fs e h = rw (e, all_fields) (rw h)

  map_entries_sound :
      (seen : List Text) (n : ℕ) (acc : List (Text × T)) (fs : Fields) {m : List (Text × T)}
      → Tracks seen acc
      → n ≤ max_files
      → map_entries decode seen n acc fs ≡ ok m
      → (rest : List (Text × T)) × (all_fields decode fs ≡ some rest)
        × (m ≡ acc ++ rest)
        × (n + length rest ≤ max_files)
        × Fresh seen rest
  unfolding map_entries
  map_entries_sound seen n acc end {m} t b h = ([], refl, cc (append-nil acc), ground arith, tt)
  map_entries_sound seen n acc cut t b h = cc
  map_entries_sound seen n acc garbled t b h = ground arith
  map_entries_sound seen n acc (field k v fs) {m} t b h = elim (Option-cases (decode v)) [
    | inl e ↦ ground arith
    | inr (x, e) ↦
        let small : leb max_files n ≡ false = ground arith in
        let new : any (str_eq k) seen ≡ false = ground arith in
        let go : map_entries decode (k ∷ seen) (n + 1) (insert k x acc) fs ≡ ok m = ground arith in
        let (rest, r, p, q, f) =
          map_entries_sound (k ∷ seen) (n + 1) (insert k x acc) fs {m = m}
            (Tracks-insert k x seen acc t) (ground arith) go in
        (
          (k, x) ∷ rest,
          all_fields-field k v fs e r,
          cc (p, insert_new k x acc (ground (arith, t k)), append_cons acc (k, x) rest),
          ground arith,
          (new, f),
        )
  ]

  map_entries_complete :
      (seen : List Text) (n : ℕ) (acc : List (Text × T)) (fs : Fields) (rest : List (Text × T))
      → Tracks seen acc
      → all_fields decode fs ≡ some rest
      → n + length rest ≤ max_files
      → Fresh seen rest
      → map_entries decode seen n acc fs ≡ ok (acc ++ rest)
  unfolding map_entries
  map_entries_complete seen n acc end rest t r b f = cc (append-nil acc)
  map_entries_complete seen n acc cut rest t r b f = cc
  map_entries_complete seen n acc garbled rest t r b f = cc
  map_entries_complete seen n acc (field k v fs) [] t r b f = ground arith
  map_entries_complete seen n acc (field k v fs) ((j, x) ∷ rest) t r b (new, f) =
      let head : decode v ≡ some x = ground arith in
      let same : k ≡ j = ground arith in
      let ih =
        map_entries_complete (k ∷ seen) (n + 1) (insert k x acc) fs rest
          (Tracks-insert k x seen acc t) (ground arith) (ground arith) (rw same f) in
      let unseen : any (str_eq k) seen ≡ false = rw same new in
      let absent : lookup k acc ≡ none = ground (arith, t k) in
      ground (arith, ih, insert_new k x acc absent, append_cons acc (k, x) rest)

  -- DecodeBoundedMap accepts an object exactly when it is read to its end, has at most MaxFiles
  -- fields, no key twice, and a value for each that decodes; the result holds the fields in the
  -- order of the document.
  pub bounded_map_exact :
      (fs : Fields) (m : List (Text × T))
      → (bounded_map decode (obj fs) ≡ ok m)
        ↔ ((all_fields decode fs ≡ some m) × (length m ≤ max_files) × Fresh [] m)
  unfolding bounded_map lookup
  bounded_map_exact fs m = (
    λ h.
        let (rest, r, p, q, f) = map_entries_sound [] 0 [] fs {m = m} (λ k. refl) (omega arith) h in
        (cc (r, p), rw p (omega (arith, q)), rw p f),
    λ (r, b, f). map_entries_complete [] 0 [] fs m (λ k. refl) r (omega arith) f,
  )
