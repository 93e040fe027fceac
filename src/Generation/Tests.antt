-- ===== src/Generation/Tests.antt =====
-- Runs of the generation modules (internal/generation) at small inputs.
use llm_wiki_bff.Core.{
  ◌≤◌, ◌≡◌, refl, ◌↔◌, true, some, [], ◌∷◌, ok, err, Member, length, arith, if◌then◌else◌, ◌==◌,
}
use llm_wiki_bff.Core.Int.{ℤ, pos, ◌+ℤ◌, ◌-ℤ◌}
use llm_wiki_bff.Core.Text.{
  Text, codes, str_eq, str_ltb, has_prefix, contains, split_on, join_by, trim_space,
}
use llm_wiki_bff.Core.Dict.{insert}
use llm_wiki_bff.Json.{Fields, obj, int, end, field, at_eof, decode_int}
use llm_wiki_bff.Generation.{
  invalid_manifest, File, Manifest, Host, duplicate_key, invalid_manifest, max_files,
}
use llm_wiki_bff.Generation.Bounded.{bounded_map}
use llm_wiki_bff.Generation.Bounded.Exact.{all_fields, Fresh, bounded_map_exact}
use llm_wiki_bff.Generation.Paths.{generation_owned, safe_generation_id, valid_digest}
use llm_wiki_bff.Generation.Validate.{validate, object_path, new_file}
use llm_wiki_bff.Generation.Validate.Exact.{IsWellFormed, validate_exact}
use llm_wiki_bff.Generation.Find.{find_file}
use llm_wiki_bff.Generation.Find.Exact.{find_file_exact}
use llm_wiki_bff.Generation.Objects.{NoClimb, object_path-injective, object_path-NoClimb}
use llm_wiki_bff.Generation.Decode.{decode, encode}
use llm_wiki_bff.Generation.Decode.RoundTrip.{IsPlain, decode-encode}
use llm_wiki_bff.Generation.Decode.Strict.{IsStrict, decode-IsStrict}

abbrev digest : Text
digest = codes "00112233445566778899aabbccddeeff00112233445566778899aabbccddeeff"

abbrev host : Host
host = record {
  sha256_hex = λ s. digest;
  rfc3339 = λ s. true;
  format_rfc3339 = λ t. [];
  json_text = λ s. s;
}

abbrev file_a : File
file_a = record { path = codes "wiki.toml"; size = pos 12; sha256 = digest; generation = pos 7 }

abbrev file_b : File
file_b = record { path = codes "wiki/a.md"; size = pos 30; sha256 = digest; generation = pos 8 }

abbrev sample : Manifest
sample = record {
  version = pos 1;
  generation_id = codes "gen_0001";
  previous_generation_id = codes "gen_0000";
  created_at = codes "2026-07-01T00:00:00Z";
  input_fingerprint = codes "f";
  files = file_a ∷ file_b ∷ [];
}

-- What a run computes with.
running : Unit {0}
unfolding validate generation_owned safe_generation_id valid_digest str_eq str_ltb has_prefix
    contains split_on join_by trim_space ◌+ℤ◌ ◌-ℤ◌
running = tt

accepted : validate host sample ≡ ok tt
unfolding running
accepted = refl

unsorted : validate host (record sample { files = file_b ∷ file_a ∷ [] }) ≡ err invalid_manifest
unfolding running
unsorted = refl

well_formed : IsWellFormed host sample
well_formed = (validate_exact host sample).0 accepted

validate_exact_example : (validate host sample ≡ ok tt) ↔ IsWellFormed host sample
validate_exact_example = validate_exact host sample

find_file_exact_example :
    (find_file sample (codes "wiki/a.md") ≡ some file_b)
    ↔ (Member file_b (file_a ∷ file_b ∷ []) × (file_b.path ≡ codes "wiki/a.md"))
find_file_exact_example = find_file_exact sample (codes "wiki/a.md") file_b well_formed.sorted

object_path-injective_example :
    (sample.generation_id ≡ sample.generation_id) × (file_b.path ≡ file_b.path)
object_path-injective_example =
    object_path-injective sample sample file_b file_b well_formed.id well_formed.id refl

object_path-NoClimb_example : NoClimb (object_path sample file_b)
object_path-NoClimb_example =
    object_path-NoClimb sample file_b well_formed.id (well_formed.rows.1).0.owned

made :
    new_file host (codes "wiki.toml") (codes "x = 1") (pos 3)
    ≡ ok (record { path = codes "wiki.toml"; size = pos 5; sha256 = digest; generation = pos 3 })
unfolding new_file running
made = refl

digest_valid : valid_digest digest ≡ true
unfolding valid_digest
digest_valid = refl

abbrev two_fields : Fields
two_fields = field (codes "a") (int (pos 1)) (field (codes "b") (int (pos 2)) end)

bounded_map_exact_example :
    (bounded_map (decode_int (pos 0)) (obj two_fields)
      ≡ ok ((codes "a", pos 1) ∷ (codes "b", pos 2) ∷ []))
    ↔ ((all_fields (decode_int (pos 0)) two_fields
          ≡ some ((codes "a", pos 1) ∷ (codes "b", pos 2) ∷ []))
        × (length {A = Text × ℤ} ((codes "a", pos 1) ∷ (codes "b", pos 2) ∷ []) ≤ max_files)
        × Fresh {V = ℤ} [] ((codes "a", pos 1) ∷ (codes "b", pos 2) ∷ []))
bounded_map_exact_example =
    bounded_map_exact (decode_int (pos 0)) two_fields ((codes "a", pos 1) ∷ (codes "b", pos 2) ∷ [])

repeated :
    bounded_map
      (decode_int (pos 0))
      (obj (field (codes "a") (int (pos 1)) (field (codes "a") (int (pos 2)) end)))
    ≡ err duplicate_key
unfolding bounded_map decode_int str_eq insert
repeated = refl

abbrev sample_plain : IsPlain host sample
sample_plain = record {
  generation_id = refl;
  previous = refl;
  created_at = refl;
  fingerprint = refl;
  rows = ((refl, refl), ((refl, refl), tt));
}

decode-encode_example :
    decode host 900 (record { value = encode host sample; trailer = at_eof })
    ≡ (if length sample.files == 0 then err invalid_manifest else ok sample)
decode-encode_example =
    decode-encode host 900 sample well_formed (omega arith, (omega arith, tt)) sample_plain
      (omega arith)

decode-IsStrict_example :
    IsStrict host 900 (record { value = encode host sample; trailer = at_eof }) sample
decode-IsStrict_example =
    decode-IsStrict host 900 (record { value = encode host sample; trailer = at_eof }) sample
      decode-encode_example
