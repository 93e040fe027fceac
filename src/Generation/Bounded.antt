-- ===== src/Generation/Bounded.antt =====
-- internal/generation/decode.go: maps and lists decoded under the entry budget of a generation.
pub mod Exact
use llm_wiki_bff.Core.{
  ℕ, zero, suc, ◌+◌, Bool, true, false, Option, none, some, List, [], ◌∷◌, ◌++◌, Result, ok, err,
  ◌>>=◌, leb, any, length, if◌then◌else◌,
}
use llm_wiki_bff.Core.Text.{Text, str_eq}
use llm_wiki_bff.Core.Dict.{insert}
use llm_wiki_bff.Json.{
  Json, Items, Fields, Trailer, null, broken, bool, int, real, str, arr, obj, nil, torn, mangled,
  cons, end, cut, garbled, field, at_eof, another_value, malformed, decode_string,
}
use llm_wiki_bff.Generation.{
  Error, expected_object, expected_array, duplicate_key, entry_limit, read_failed, trailing_json,
  max_files,
}

module _ {T : Type 0} (decode : Json → Option T) where
  -- The loop of DecodeBoundedMap.
  unfoldable pub map_entries :
      List Text → ℕ → List (Text × T) → Fields → Result Error (List (Text × T))
  map_entries seen entries result end = ok result
  map_entries seen entries result cut = err read_failed
  map_entries seen entries result garbled =
      if leb max_files entries then err entry_limit else err read_failed
  map_entries seen entries result (field name v fs) =
      if leb max_files entries
      then err entry_limit
      else if any (str_eq name) seen
      then err duplicate_key
      else elim (decode v) [
        | none ↦ err read_failed
        | some x ↦ map_entries (name ∷ seen) (entries + 1) (insert name x result) fs
      ]

  -- DecodeBoundedMap
  unfoldable pub bounded_map : Json → Result Error (List (Text × T))
  unfolding map_entries
  bounded_map (obj fs) = map_entries [] 0 [] fs
  bounded_map broken = err read_failed
  bounded_map _ = err expected_object

-- The loop of DecodeBoundedStrings.
unfoldable pub string_entries : List Text → Items → Result Error (List Text)
unfolding decode_string
string_entries values nil = ok values
string_entries values torn = err read_failed
string_entries values mangled =
    if leb max_files (length values) then err entry_limit else err read_failed
string_entries values (cons v xs) =
    if leb max_files (length values) then err entry_limit else elim (decode_string [] v) [
      | none ↦ err read_failed
      | some s ↦ string_entries (values ++ s ∷ []) xs
    ]

-- DecodeBoundedStrings
unfoldable pub bounded_strings : Json → Result Error (List Text)
unfolding string_entries
bounded_strings (arr xs) = string_entries [] xs
bounded_strings broken = err read_failed
bounded_strings _ = err expected_array

-- The loop of DecodeBoundedStringLists.
unfoldable pub list_entries :
    List Text → ℕ → List (Text × List Text) → Fields → Result Error (List (Text × List Text))
unfolding bounded_strings
list_entries seen keys result end = ok result
list_entries seen keys result cut = err read_failed
list_entries seen keys result garbled =
    if leb max_files keys then err entry_limit else err read_failed
list_entries seen keys result (field name v fs) =
    if leb max_files keys
    then err entry_limit
    else if any (str_eq name) seen
    then err duplicate_key
    else elim (bounded_strings v) [
      | err e ↦ err e
      | ok list ↦ list_entries (name ∷ seen) (keys + 1) (insert name list result) fs
    ]

-- DecodeBoundedStringLists
unfoldable pub bounded_string_lists : Json → Result Error (List (Text × List Text))
unfolding list_entries
bounded_string_lists (obj fs) = list_entries [] 0 [] fs
bounded_string_lists broken = err read_failed
bounded_string_lists _ = err expected_object

-- EnsureJSONEOF
unfoldable pub ensure_json_eof : Trailer → Result Error Unit
ensure_json_eof at_eof = ok tt
ensure_json_eof another_value = err trailing_json
ensure_json_eof malformed = err read_failed
