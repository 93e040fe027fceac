-- ===== src/Json.antt =====
-- What encoding/json hands to the program's streaming decoders (json.Decoder's Token, More and
-- Decode): the document as a tree that is read from the left, in which `broken`, `torn`,
-- `mangled`, `cut` and `garbled` mark the place at which reading fails.
use llm_wiki_bff.Core.{Bool, true, false, ◌&&◌, Option, none, some, leb, if◌then◌else◌}
use llm_wiki_bff.Core.Int.{ℤ, pos, negsuc, max_int64}
use llm_wiki_bff.Core.Text.{Text}

mutual
  pub data Json : Type 0 where
    null broken : Json
    bool : Bool → Json
    int : ℤ → Json
    -- A number with a fraction or an exponent.
    real : Json
    str : Text → Json
    arr : Items → Json
    obj : Fields → Json

  -- The rest of an array: `]`, the end of the input, text at which More holds and Token fails, or
  -- one more value.
  pub data Items : Type 0 where
    nil torn mangled : Items
    cons : Json → Items → Items

  -- The rest of an object, in the same way. Token itself checks that a key is a string.
  pub data Fields : Type 0 where
    end cut garbled : Fields
    field : Text → Json → Fields → Fields

-- A value that can be read to its end.
unfoldable mutual
  pub readable : Json → Bool
  readable broken = false
  readable (arr xs) = readable_items xs
  readable (obj fs) = readable_fields fs
  readable _ = true

  pub readable_items : Items → Bool
  readable_items nil = true
  readable_items torn = false
  readable_items mangled = false
  readable_items (cons v xs) = readable v && readable_items xs

  pub readable_fields : Fields → Bool
  readable_fields end = true
  readable_fields cut = false
  readable_fields garbled = false
  readable_fields (field k v fs) = readable v && readable_fields fs

-- `dec.Decode(&v)` for a string variable that holds `old`: null leaves it as it is.
unfoldable pub decode_string : Text → Json → Option Text
decode_string old null = some old
decode_string old (str s) = some s
decode_string old _ = none

-- `dec.Decode(&v)` for an int or int64 variable: null leaves it, and a number out of range fails.
unfoldable pub decode_int : ℤ → Json → Option ℤ
decode_int old null = some old
decode_int old (int (pos n)) = if leb n max_int64 then some (pos n) else none
decode_int old (int (negsuc n)) = if leb n max_int64 then some (negsuc n) else none
decode_int old _ = none

-- `dec.Decode(&v)` for a bool variable.
unfoldable pub decode_bool : Bool → Json → Option Bool
decode_bool old null = some old
decode_bool old (bool b) = some b
decode_bool old _ = none

-- `dec.Decode(&ignored)` for a json.RawMessage.
unfoldable pub skip_value : Json → Option (Unit {0})
unfolding readable
skip_value v = if readable v then some tt else none

-- What stands behind the first value of the input.
pub data Trailer : Type 0 where
  at_eof another_value malformed : Trailer

pub record Document : Type 0 where
  pub value : Json
  pub trailer : Trailer
