-- ===== src/Generation/Decode/RoundTrip.antt =====
-- What json.Marshal writes of a manifest, Decode reads back (internal/generation/manifest.go).
use llm_wiki_bff.Core.{
  ℕ, ◌+◌, ◌≤◌, ◌≡◌, List, [], ◌∷◌, ◌++◌, ok, length, All, arith, length-append, append_cons, Result,
  err, if◌then◌else◌, ◌>>=◌, ◌==◌, Bool-cases, inl, inr, refl,
}
use mathlib.Core.List.{append-nil}
use llm_wiki_bff.Core.Int.{ℤ, pos, max_int64, ◌≤ℤ◌}
use llm_wiki_bff.Core.Text.{Text, str_eq}
use llm_wiki_bff.Json.{at_eof, decode_string, decode_int, int}
use llm_wiki_bff.Core.{some}
use llm_wiki_bff.Generation.{
  Error, expected_array, invalid_manifest, File, Manifest, Host, max_files, max_manifest_bytes,
}
use llm_wiki_bff.Generation.Validate.Exact.{IsRow, IsWellFormed, validate_exact}
use llm_wiki_bff.Generation.Decode.{
  decode_fields, has_all, decode_manifest_file, decode_manifest_files, decode_files,
  decode_manifest_strict, decode, encode_file, encode_rows, encode_files, encode,
}

-- The object generation of a row is an int64.
abbrev pub IsInt64 : File → Type 0
IsInt64 f = f.generation ≤ℤ pos max_int64

decode_int-pos : (old z : ℤ) → pos 0 ≤ℤ z → z ≤ℤ pos max_int64 → decode_int old (int z) ≡ some z
unfolding decode_int
decode_int-pos old z h k = ground arith

int64_max : (f : File) → IsRow f → f.size ≤ℤ pos max_int64
int64_max f r = ground (arith, r.size_bounded)

-- encoding/json writes the texts of a row and of a manifest as they are: they are valid UTF-8.
abbrev pub IsPlainRow : Host → File → Type 0
IsPlainRow host f = (host.json_text f.path ≡ f.path) × (host.json_text f.sha256 ≡ f.sha256)

pub record IsPlain (host : Host) (m : Manifest) : Type 0 where
  pub generation_id : host.json_text m.generation_id ≡ m.generation_id
  pub previous : host.json_text m.previous_generation_id ≡ m.previous_generation_id
  pub created_at : host.json_text m.created_at ≡ m.created_at
  pub fingerprint : host.json_text m.input_fingerprint ≡ m.input_fingerprint
  pub rows : All (IsPlainRow host) m.files

decode_file-encode :
    (host : Host) (f : File)
    → IsRow f
    → IsInt64 f
    → IsPlainRow host f
    → decode_manifest_file (encode_file host f) ≡ ok f
unfolding decode_manifest_file encode_file str_eq decode_string
decode_file-encode host f r h (p, q) = ground (
  arith,
  p,
  q,
  decode_int-pos (pos 0) f.size r.size_nonneg (int64_max f r),
  decode_int-pos (pos 0) f.generation (ground (arith, r.generation_pos)) h,
)

decode_files-encode :
    (host : Host) (acc fs : List File)
    → All IsRow fs
    → All IsInt64 fs
    → All (IsPlainRow host) fs
    → length acc + length fs ≤ max_files
    → decode_files acc (encode_rows host fs) ≡ ok (acc ++ fs)
unfolding decode_files encode_rows
decode_files-encode host acc [] r h p b = cc (append-nil acc)
decode_files-encode host acc (f ∷ fs) (r, rs) (h, hs) (p, ps) b = ground (
  arith,
  decode_file-encode host f r h p,
  length-append acc (f ∷ []),
  decode_files-encode host (acc ++ f ∷ []) fs rs hs ps (omega (arith, length-append acc (f ∷ []))),
  append_cons acc f fs,
)

decode_manifest_files-encode :
    (host : Host) (fs : List File)
    → All IsRow fs
    → All IsInt64 fs
    → All (IsPlainRow host) fs
    → length fs ≤ max_files
    → decode_manifest_files [] (encode_files host fs)
      ≡ (if length fs == 0 then err expected_array else ok fs)
unfolding decode_manifest_files encode_files
decode_manifest_files-encode host [] r h p b = refl
decode_manifest_files-encode host (f ∷ fs) r h p b =
    ground (arith, decode_files-encode host [] (f ∷ fs) r h p (omega (arith, b)))

-- The strict decoder reads back what json.Marshal wrote, with and without the optional field, as
-- far as it reads the rows.
strict-encode :
    (host : Host) (prev : Text) (m : Manifest) (r : Result Error (List File))
    → m.version ≡ pos 1
    → host.json_text prev ≡ prev
    → IsPlain host m
    → decode_manifest_files [] (encode_files host m.files) ≡ r
    → decode_manifest_strict (record {
      value = encode host (record m { previous_generation_id = prev });
      trailer = at_eof;
    })
      ≡ (r >>= (λ fs. ok (record m { previous_generation_id = prev; files = fs })))
unfolding decode_manifest_strict decode_fields has_all encode str_eq decode_string decode_int
strict-encode host [] m (ok fs) v q p h = rw (v, p.generation_id, p.created_at, p.fingerprint, h)
strict-encode host [] m (err e) v q p h = rw (v, p.generation_id, p.created_at, p.fingerprint, h)
strict-encode host (a ∷ s) m (ok fs) v q p h =
    rw (v, q, p.generation_id, p.created_at, p.fingerprint, h)
strict-encode host (a ∷ s) m (err e) v q p h =
    rw (v, q, p.generation_id, p.created_at, p.fingerprint, h)

-- A well-formed manifest whose texts are valid UTF-8, that json.Marshal has written into a file of
-- at most MaxManifestBytes bytes, is decoded and validated to itself if it has a row. Without a row
-- its files are written as null, and it is refused.
pub decode-encode :
    (host : Host) (size : ℕ) (m : Manifest)
    → IsWellFormed host m
    → All IsInt64 m.files
    → IsPlain host m
    → size ≤ max_manifest_bytes
    → decode host size (record { value = encode host m; trailer = at_eof })
      ≡ (if length m.files == 0 then err invalid_manifest else ok m)
unfolding decode
decode-encode host size m w h p b = elim (Bool-cases (length m.files == 0)) [
  | inl z ↦ ground (
    arith,
    b,
    z,
    strict-encode host m.previous_generation_id m (err expected_array) w.version p.previous p
        (ground (arith, z, decode_manifest_files-encode host m.files w.rows h p.rows w.count)),
  )
  | inr z ↦ ground (
    arith,
    b,
    z,
    strict-encode host m.previous_generation_id m (ok m.files) w.version p.previous p
        (ground (arith, z, decode_manifest_files-encode host m.files w.rows h p.rows w.count)),
    (validate_exact host m).1 w,
  )
]
