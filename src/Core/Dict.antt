-- ===== src/Core/Dict.antt =====
-- Go's `map[string]V` as an association list with one entry for a key. The program never depends
-- on the order in which Go ranges over a map.
use mathlib.Core.Path.{◌≡◌, refl, subst}
use mathlib.Core.Logic.{◌≢◌, inl, inr}
use mathlib.Core.Bool.{Bool, ◌||◌}
use mathlib.Core.Option.{Option, none, some}
use mathlib.Core.List.{List, [], ◌∷◌}
use native.Mathlib.Omega.{arith}
use Prim.Native.Nat.{◌+◌}
use llm_wiki_bff.Core.Tests.{is_some, if◌then◌else◌, if_both, Bool-cases}
use llm_wiki_bff.Core.Lists.{length}
use llm_wiki_bff.Core.Text.{Text, str_eq, str_eq_sound, str_eq_refl}

module _ {ℓ} {V : Type ℓ} where
  -- m[k] with its `ok`
  unfoldable pub lookup : Text → List (Text × V) → Option V
  lookup k [] = none
  lookup k ((j, v) ∷ m) = if str_eq j k then some v else lookup k m

  -- m[k] = v
  unfoldable pub insert : Text → V → List (Text × V) → List (Text × V)
  insert k v [] = (k, v) ∷ []
  insert k v ((j, w) ∷ m) = if str_eq j k then (k, v) ∷ m else (j, w) ∷ insert k v m

  -- delete(m, k)
  unfoldable pub delete : Text → List (Text × V) → List (Text × V)
  delete k [] = []
  delete k ((j, v) ∷ m) = if str_eq j k then m else (j, v) ∷ delete k m

  unfoldable pub has_key : Text → List (Text × V) → Bool
  unfolding lookup
  has_key k m = is_some (lookup k m)

  pub lookup-insert :
      (k j : Text) (v : V) (m : List (Text × V))
      → lookup j (insert k v m) ≡ (if str_eq k j then some v else lookup j m)
  unfolding lookup insert
  lookup-insert k j v [] = refl
  lookup-insert k j v ((i, w) ∷ m) = ground (
    arith,
    str_eq_sound i k,
    str_eq_sound i j,
    str_eq_sound k j,
    str_eq_refl i,
    str_eq_refl k,
    lookup-insert k j v m,
  )

  pub lookup-insert_self :
      (k : Text) (v : V) (m : List (Text × V)) → lookup k (insert k v m) ≡ some v
  lookup-insert_self k v m = ground (arith, lookup-insert k k v m, str_eq_refl k)

  pub lookup-insert_ne :
      (k j : Text) (v : V) (m : List (Text × V)) → k ≢ j → lookup j (insert k v m) ≡ lookup j m
  lookup-insert_ne k j v m h = ground (arith, lookup-insert k j v m, str_eq_sound k j)

  -- A new key makes one more entry.
  pub length-insert_new :
      (k : Text) (v : V) (m : List (Text × V))
      → lookup k m ≡ none
      → length (insert k v m) ≡ length m + 1
  unfolding lookup insert
  length-insert_new k v [] h = omega arith
  length-insert_new k v ((j, w) ∷ m) h = ground (arith, length-insert_new k v m)

  -- What holds of every key with its value.
  abbrev pub AllEntries {κ} : (Text → V → Type κ) → List (Text × V) → Type κ
  AllEntries P [] = Unit
  AllEntries P ((k, v) ∷ m) = P k v × AllEntries P m

  pub insert-AllEntries {κ} :
      (P : Text → V → Type κ) (k : Text) (v : V) (m : List (Text × V))
      → P k v
      → AllEntries P m
      → AllEntries P (insert k v m)
  unfolding insert
  insert-AllEntries P k v [] p h = (p, tt)
  insert-AllEntries P k v ((j, w) ∷ m) p (q, h) =
      if_both (AllEntries P) (str_eq j k) (p, h) (q, insert-AllEntries P k v m p h)

  pub lookup-AllEntries :
      (P : Text → V → Type 0) (k : Text) (m : List (Text × V)) {v : V}
      → AllEntries P m
      → lookup k m ≡ some v
      → P k v
  unfolding lookup
  lookup-AllEntries P k [] h e = cc
  lookup-AllEntries P k ((j, w) ∷ m) {v} (p, h) e = elim (Bool-cases (str_eq j k)) [
    | inl t ↦
        let a : w ≡ v = ground (arith, t, e) in
        subst (λ x. P x v) (str_eq_sound j k t) (subst (P j) a p)
    | inr t ↦ lookup-AllEntries P k m h (ground (arith, t, e))
  ]

  pub has_key-insert :
      (k j : Text) (v : V) (m : List (Text × V))
      → has_key j (insert k v m) ≡ (str_eq k j || has_key j m)
  unfolding has_key
  has_key-insert k j v m = ground (arith, lookup-insert k j v m)
