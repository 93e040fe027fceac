-- ===== src/Generation/Decode/Strict.antt =====
-- What Decode (internal/generation/manifest.go) has checked of a manifest that it returns.
use llm_wiki_bff.Core.{
  ℕ, ◌≤◌, ◌≡◌, refl, true, false, List, [], ◌∷◌, ok, Result-cases, inl, inr, ap, any, arith,
}
use llm_wiki_bff.Core.Text.{Text, codes, str_eq}
use llm_wiki_bff.Json.{Json, Fields, Document, Trailer, obj, at_eof, end, cut, garbled, field}
use llm_wiki_bff.Generation.{Manifest, Host, max_manifest_bytes}
use llm_wiki_bff.Generation.Validate.Exact.{IsWellFormed, validate_exact}
use llm_wiki_bff.Generation.Validate.{validate}
use llm_wiki_bff.Generation.Decode.{
  manifest_fields, empty_manifest, has_all, decode_manifest_field, decode_fields,
  decode_manifest_strict, decode,
}

-- The names of an object that is read to its end, each known and none twice, given those before.
abbrev pub StrictNames : List Text → Fields → Type 0
StrictNames before end = Unit
StrictNames before cut = ⊥
StrictNames before garbled = ⊥
StrictNames before (field k v fs) =
    (any (str_eq k) before ≡ false)
    × (any (str_eq k) (codes "previous_generation_id" ∷ manifest_fields) ≡ true)
    × StrictNames (k ∷ before) fs

-- The names of an object, the last first, in front of those before.
abbrev pub names : List Text → Fields → List Text
names before end = before
names before cut = before
names before garbled = before
names before (field k v fs) = names (k ∷ before) fs

known_field :
    (m m' : Manifest) (k : Text) (v : Json)
    → decode_manifest_field m k v ≡ ok m'
    → any (str_eq k) (codes "previous_generation_id" ∷ manifest_fields) ≡ true
unfolding decode_manifest_field
known_field m m' k v h = ground arith

decode_fields-strict :
    (seen seen' : List Text) (m m' : Manifest) (fs : Fields)
    → decode_fields seen m fs ≡ ok (seen', m')
    → StrictNames seen fs × (seen' ≡ names seen fs)
unfolding decode_fields
decode_fields-strict seen seen' m m' end h = (tt, cc)
decode_fields-strict seen seen' m m' cut h = cc
decode_fields-strict seen seen' m m' garbled h = cc
decode_fields-strict seen seen' m m' (field k v fs) h =
    elim (Result-cases (decode_manifest_field m k v)) [
      | inr (e, p) ↦ ground (arith, p)
      | inl (n, p) ↦
          let (rest, same) = decode_fields-strict (k ∷ seen) seen' n m' fs (ground (arith, p)) in
          ((ground (arith, p), known_field m n k v p, rest), same)
    ]

-- What is known of a document from which a manifest was decoded.
pub record IsStrict (host : Host) (size : ℕ) (d : Document) (m : Manifest) : Type 0 where
  pub fits : size ≤ max_manifest_bytes
  pub fields : Fields
  pub object : d.value ≡ obj fields
  pub strict : StrictNames [] fields
  pub complete : has_all manifest_fields (names [] fields) ≡ true
  pub no_trailer : d.trailer ≡ at_eof
  pub well_formed : IsWellFormed host m

strict_object :
    (fs : Fields) (t : Trailer) (m : Manifest)
    → decode_manifest_strict (record { value = obj fs; trailer = t }) ≡ ok m
    → StrictNames [] fs × (has_all manifest_fields (names [] fs) ≡ true) × (t ≡ at_eof)
unfolding decode_manifest_strict
strict_object fs t m h = elim (Result-cases (decode_fields [] empty_manifest fs)) [
  | inr (e, p) ↦ ground (arith, p)
  | inl ((seen, n), p) ↦
      let (known, same) = decode_fields-strict [] seen empty_manifest n fs p in
      let complete : has_all manifest_fields seen ≡ true = ground (arith, p) in
      (known, rw (← same) complete, ground (arith, p))
]

strict_value :
    (v : Json) (t : Trailer) (m : Manifest)
    → decode_manifest_strict (record { value = v; trailer = t }) ≡ ok m
    → (fs : Fields) × (v ≡ obj fs)
unfolding decode_manifest_strict
strict_value (obj fs) t m h = (fs, refl)
strict_value _ t m h = cc

-- A manifest is returned only for a document within the size limit that is one object, read to its
-- end with nothing behind it, whose field names are known, occur once and include every required
-- one; and the manifest is well formed.
pub decode-IsStrict :
    (host : Host) (size : ℕ) (d : Document) (m : Manifest)
    → decode host size d ≡ ok m
    → IsStrict host size d m
unfolding decode
decode-IsStrict host size d m h = elim (Result-cases (decode_manifest_strict d)) [
  | inr (e, p) ↦ ground (arith, p)
  | inl (n, p) ↦
      let small : size ≤ max_manifest_bytes = ground arith in
      elim (Result-cases (validate host n)) [
        | inr (e, q) ↦ ground (arith, p, q)
        | inl (u, q) ↦
            let same : n ≡ m = ground (arith, p, q) in
            let (fs, object) = strict_value d.value d.trailer m (cc (p, same)) in
            let (strict, complete, eof) = strict_object fs d.trailer m (
              cc (
                p,
                same,
                ap (λ v. decode_manifest_strict (record { value = v; trailer = d.trailer })) object,
              )) in
            record {
              fits = small;
              fields = fs;
              object = object;
              strict = strict;
              complete = complete;
              no_trailer = eof;
              well_formed = (validate_exact host m).0 (cc (q, same));
            }
      ]
]
