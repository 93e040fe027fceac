-- ===== src/Generation/Paths.antt =====
-- internal/generation/manifest.go: which paths a generation owns, and the tests on identifiers and
-- digests. path.Clean and hex.DecodeString are those of the Go library.
use llm_wiki_bff.Core.{
  ℕ, ◌≡◌, refl, Bool, true, false, not, ◌&&◌, ◌||◌, List, [], ◌∷◌, leb, ltb, ◌==◌, all, any, length,
  reverse, if◌then◌else◌,
}
use llm_wiki_bff.Core.Text.{
  Text, codes, str_eq, has_prefix, has_suffix, trim_suffix, contains, split_on, join_by,
}
use llm_wiki_bff.Generation.{max_path_bytes}

-- One element of path.Clean, over the elements kept so far, the last first.
clean_element : Bool → List Text → Text → List Text
clean_element rooted kept seg =
    if str_eq seg [] || str_eq seg (codes ".")
    then kept
    else if str_eq seg (codes "..")
    then elim kept [
      | [] ↦ if rooted then [] else seg ∷ []
      | top ∷ rest ↦ if str_eq top (codes "..") then seg ∷ top ∷ rest else rest
    ]
    else seg ∷ kept

clean_elements : Bool → List Text → List Text → List Text
clean_elements rooted kept [] = reverse kept
clean_elements rooted kept (seg ∷ segs) = clean_elements rooted (clean_element rooted kept seg) segs

-- path.Clean(p)
unfoldable pub path_clean : Text → Text
unfolding clean_element clean_elements
path_clean p =
    let rooted = has_prefix p (codes "/") in
    let body = join_by b'/' (clean_elements rooted [] (split_on b'/' p)) in
    if rooted then b'/' ∷ body else if str_eq body [] then codes "." else body

unfoldable pub safe_path : Text → Bool
unfolding path_clean
safe_path p =
    not (str_eq p [])
    && leb (length p) max_path_bytes
    && not (has_prefix p (codes "/"))
    && str_eq (path_clean p) p
    && not (contains p (codes "\\"))
    && not (contains p (codes "//"))
    && not (contains p (codes "/./"))
    && not (contains p (codes ".."))

abbrev pub owned_names : List Text
owned_names =
    codes "wiki.toml"
    ∷ codes "synto.toml"
    ∷ codes "cache/id_map.json"
    ∷ codes "cache/concepts.jsonl"
    ∷ codes "cache/dormant_concepts.jsonl"
    ∷ codes "cache/raw_status.json"
    ∷ codes "cache/suggested_queries.json"
    ∷ codes ".olw/state.db"
    ∷ codes ".synto/state.db"
    ∷ codes ".synto/INDEX.json"
    ∷ []

-- GenerationOwned
unfoldable pub generation_owned : Text → Bool
unfolding safe_path
generation_owned rel =
    if has_prefix rel (codes "wiki/") then safe_path rel else any (str_eq rel) owned_names

-- GenerationOwnedWritePath
unfoldable pub generation_owned_write_path : Text → Bool
unfolding generation_owned
generation_owned_write_path rel =
    generation_owned rel
    || (has_suffix rel (codes ".tmp") && generation_owned (trim_suffix rel (codes ".tmp")))

unfoldable pub id_byte : ℕ → Bool
id_byte r =
    (leb b'a' r && leb r b'z')
    || (leb b'A' r && leb r b'Z')
    || (leb b'0' r && leb r b'9')
    || r == b'-'
    || r == b'_'

-- safeGenerationID
unfoldable pub safe_generation_id : Text → Bool
unfolding id_byte
safe_generation_id id = not (ltb (length id) 8 || ltb 128 (length id)) && all id_byte id

unfoldable pub hex_digit : ℕ → Bool
hex_digit r = (leb b'0' r && leb r b'9') || (leb b'a' r && leb r b'f') || (leb b'A' r && leb r b'F')

-- hex.DecodeString has no error and the text has 64 bytes, an even number.
unfoldable pub valid_digest : Text → Bool
unfolding hex_digit
valid_digest value = all hex_digit value && length value == 64

owned_test : generation_owned (codes "wiki/a/b.md") ≡ true
unfolding generation_owned has_prefix str_eq join_by split_on contains
owned_test = refl

climbing_test : generation_owned (codes "wiki/../x.md") ≡ false
unfolding generation_owned has_prefix str_eq join_by split_on
climbing_test = refl

clean_test : path_clean (codes "a//./b/../c/") ≡ codes "a/c"
unfolding path_clean has_prefix str_eq join_by split_on
clean_test = refl

clean_up_test : path_clean (codes "../../a") ≡ codes "../../a"
unfolding path_clean has_prefix str_eq join_by split_on
clean_up_test = refl
