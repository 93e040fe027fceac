-- ===== src/Generation/Validate/Exact.antt =====
-- Manifest.Validate (internal/generation/manifest.go) accepts exactly the well-formed manifests.
use llm_wiki_bff.Core.{
  ℕ, ◌+◌, ◌≤◌, ◌≡◌, refl, ◌≢◌, ◌↔◌, ◌⊎◌, true, false, List, [], ◌∷◌, ok, err, ltb, length, arith,
  All, ap, if◌then◌else◌,
}
use llm_wiki_bff.Core.Int.{ℤ, pos, ◌+ℤ◌, ◌-ℤ◌, +ℤ-pos, -ℤ-pos, pos_part, ◌<ℤ◌, ◌≤ℤ◌}
use llm_wiki_bff.Core.Text.{
  Text, has_prefix, str_eq, str_eq_sound, str_eq_refl, str_eq_ne, ne_of_str_eq, str_ltb,
  str_ltb_trans, trim_space,
}
use llm_wiki_bff.Generation.{
  invalid_manifest, File, Manifest, Host, max_files, max_file_bytes, max_total_size,
}
use llm_wiki_bff.Generation.Paths.{generation_owned, safe_generation_id, valid_digest}
use llm_wiki_bff.Generation.Validate.{bad_row, validate_files, validate}

-- A row on its own.
pub record IsRow (f : File) : Type 0 where
  pub owned : generation_owned f.path ≡ true
  pub size_nonneg : pos 0 ≤ℤ f.size
  pub size_bounded : f.size ≤ℤ pos max_file_bytes
  pub generation_pos : pos 0 <ℤ f.generation
  pub digest : valid_digest f.sha256 ≡ true

-- Every row's path is below that of each later row.
abbrev pub Sorted : List File → Type 0
Sorted [] = Unit
Sorted (f ∷ fs) = All (λ g. str_ltb f.path g.path ≡ true) fs × Sorted fs

abbrev pub total_size : List File → ℕ
total_size [] = 0
total_size (f ∷ fs) = pos_part f.size + total_size fs

pub record IsWellFormed (host : Host) (m : Manifest) : Type 0 where
  pub version : m.version ≡ pos 1
  pub id : safe_generation_id m.generation_id ≡ true
  pub previous :
      (m.previous_generation_id ≡ []) ⊎ (safe_generation_id m.previous_generation_id ≡ true)
  pub created : host.rfc3339 m.created_at ≡ true
  pub fingerprint : trim_space m.input_fingerprint ≢ []
  pub count : length m.files ≤ max_files
  pub rows : All IsRow m.files
  pub sorted : Sorted m.files
  pub total : total_size m.files ≤ max_total_size

bad_row_iff :
    (last : Text) (f : File) → (bad_row last f ≡ false) ↔ (IsRow f × (str_ltb last f.path ≡ true))
unfolding bad_row
bad_row_iff last f = (
  λ h. (
    record {
      owned = ground arith;
      size_nonneg = ground arith;
      size_bounded = ground arith;
      generation_pos = ground arith;
      digest = ground arith;
    },
    ground arith,
  ),
  λ (r, l). ground (arith, r.owned, r.size_nonneg, r.size_bounded, r.generation_pos, r.digest),
)

-- The paths of the rows lie above `last` and ascend.
abbrev Ascends : Text → List File → Type 0
Ascends last [] = Unit
Ascends last (f ∷ fs) = (str_ltb last f.path ≡ true) × Ascends f.path fs

Ascends-above :
    (last : Text) (fs : List File) → Ascends last fs → All (λ g. str_ltb last g.path ≡ true) fs
Ascends-above last [] h = tt
Ascends-above last (f ∷ []) (h, k) = (h, tt)
Ascends-above last (f ∷ g ∷ fs) (h, (k, r)) =
    (h, Ascends-above last (g ∷ fs) (str_ltb_trans last f.path g.path h k, r))

Ascends-Sorted : (last : Text) (fs : List File) → Ascends last fs → Sorted fs
Ascends-Sorted last [] h = tt
Ascends-Sorted last (f ∷ fs) (h, k) = (Ascends-above f.path fs k, Ascends-Sorted f.path fs k)

Sorted-Ascends :
    (last : Text) (fs : List File)
    → All (λ g. str_ltb last g.path ≡ true) fs
    → Sorted fs
    → Ascends last fs
Sorted-Ascends last [] h s = tt
Sorted-Ascends last (f ∷ fs) (h, hs) (k, s) = (h, Sorted-Ascends f.path fs k s)

size_pos : (f : File) → IsRow f → f.size ≡ pos (pos_part f.size)
size_pos f r = ground (arith, r.size_nonneg)

size_small : (f : File) → IsRow f → pos_part f.size ≤ max_file_bytes
size_small f r = ground (arith, r.size_bounded, r.size_nonneg)

-- One row that is good on its own: the wrapped arithmetic is exact, and the sum decides.
validate_files-row :
    (t : ℕ) (last : Text) (f : File) (fs : List File)
    → IsRow f
    → str_ltb last f.path ≡ true
    → t ≤ max_total_size
    → validate_files (pos t) last (f ∷ fs) ≡ (
        if ltb max_total_size (t + pos_part f.size)
        then err invalid_manifest
        else validate_files (pos (t + pos_part f.size)) f.path fs)
unfolding validate_files
validate_files-row t last f fs r above b =
    let n : ℕ = pos_part f.size in
    let e : f.size ≡ pos n = size_pos f r in
    let small : n ≤ max_file_bytes = size_small f r in
    ground (
      arith,
      (bad_row_iff last f).1 (r, above),
      ap (λ (z : ℤ). pos max_total_size -ℤ z) e,
      ap (λ (z : ℤ). pos t +ℤ z) e,
      -ℤ-pos max_total_size n (omega arith) (omega arith),
      +ℤ-pos t n (omega arith),
    )

validate_files_sound :
    (t : ℕ) (last : Text) (fs : List File)
    → t ≤ max_total_size
    → validate_files (pos t) last fs ≡ ok tt
    → All IsRow fs × Ascends last fs × (t + total_size fs ≤ max_total_size)
unfolding validate_files
validate_files_sound t last [] b h = (tt, tt, omega arith)
validate_files_sound t last (f ∷ fs) b h =
    let (row, above) = (bad_row_iff last f).0 (ground arith) in
    let step = validate_files-row t last f fs row above b in
    let room : t + pos_part f.size ≤ max_total_size = ground (arith, step) in
    let (rows, up, sum) =
      validate_files_sound (t + pos_part f.size) f.path fs room (ground (arith, step)) in
    ((row, rows), (above, up), omega (arith, sum))

validate_files_complete :
    (t : ℕ) (last : Text) (fs : List File)
    → All IsRow fs
    → Ascends last fs
    → t + total_size fs ≤ max_total_size
    → validate_files (pos t) last fs ≡ ok tt
unfolding validate_files
validate_files_complete t last [] r a b = refl
validate_files_complete t last (f ∷ fs) (row, rows) (above, up) b = ground (
  arith,
  validate_files-row t last f fs row above (omega arith),
  validate_files_complete (t + pos_part f.size) f.path fs rows up (omega arith),
)

nonempty_above : (p : Text) → generation_owned p ≡ true → str_ltb [] p ≡ true
unfolding generation_owned str_ltb has_prefix str_eq
nonempty_above [] h = cc
nonempty_above (a ∷ p) h = refl

rows_above : (fs : List File) → All IsRow fs → All (λ g. str_ltb [] g.path ≡ true) fs
rows_above [] h = tt
rows_above (f ∷ fs) (r, h) = (nonempty_above f.path r.owned, rows_above fs h)

-- Validate accepts a manifest exactly when it is well formed: version, identifiers, time and
-- fingerprint; every row owned, sized, numbered and digested; the paths strictly ascending; and
-- the sizes within the total, summed without overflow.
pub validate_exact : (host : Host) (m : Manifest) → (validate host m ≡ ok tt) ↔ IsWellFormed host m
unfolding validate
validate_exact host m = (
  λ h.
      let (rows, up, sum) = validate_files_sound 0 [] m.files (omega arith) (ground arith) in
      record {
        version = ground arith;
        id = ground arith;
        previous = ground (arith, str_eq_sound m.previous_generation_id []);
        created = ground arith;
        fingerprint = ne_of_str_eq (trim_space m.input_fingerprint) [] (ground arith);
        count = ground arith;
        rows = rows;
        sorted = Ascends-Sorted [] m.files up;
        total = omega (arith, sum);
      },
  λ w. ground (
    arith,
    w.previous,
    str_eq_ne (trim_space m.input_fingerprint) [] w.fingerprint,
    str_eq_refl [],
    validate_files_complete 0 [] m.files w.rows
        (Sorted-Ascends [] m.files (rows_above m.files w.rows) w.sorted) (omega arith),
  ),
)
