-- ===== src/Publish/Equal.antt =====
-- reflect.DeepEqual of manifests (cmd/olw_worker/cloud_publish.go) is equality.
use llm_wiki_bff.Core.{◌≡◌, refl, true, List, [], ◌∷◌, arith}
use llm_wiki_bff.Core.Int.{ℤ, eqb_ℤ}
use llm_wiki_bff.Core.Text.{str_eq_sound, str_eq_refl}
use llm_wiki_bff.Generation.{File, Manifest}
use llm_wiki_bff.Publish.{file_eq, files_eq, manifest_eq}

pub eqb_sound : (a b : ℤ) → eqb_ℤ a b ≡ true → a ≡ b
eqb_sound a b h = ground arith

file_eq_sound : (f g : File) → file_eq f g ≡ true → f ≡ g
unfolding file_eq
file_eq_sound f g h =
    let p = str_eq_sound f.path g.path (ground arith) in
    let z = eqb_sound f.size g.size (ground arith) in
    let d = str_eq_sound f.sha256 g.sha256 (ground arith) in
    let n = eqb_sound f.generation g.generation (ground arith) in cc

files_eq_sound : (fs gs : List File) → files_eq fs gs ≡ true → fs ≡ gs
unfolding files_eq
files_eq_sound [] [] h = refl
files_eq_sound [] (g ∷ gs) h = cc
files_eq_sound (f ∷ fs) [] h = cc
files_eq_sound (f ∷ fs) (g ∷ gs) h =
    let e = file_eq_sound f g (ground arith) in let k = files_eq_sound fs gs (ground arith) in cc

pub manifest_eq_sound : (m n : Manifest) → manifest_eq m n ≡ true → m ≡ n
unfolding manifest_eq
manifest_eq_sound m n h =
    let v = eqb_sound m.version n.version (ground arith) in
    let i = str_eq_sound m.generation_id n.generation_id (ground arith) in
    let p = str_eq_sound m.previous_generation_id n.previous_generation_id (ground arith) in
    let c = str_eq_sound m.created_at n.created_at (ground arith) in
    let t = str_eq_sound m.input_fingerprint n.input_fingerprint (ground arith) in
    let fs = files_eq_sound m.files n.files (ground arith) in cc

eqb_refl : (a : ℤ) → eqb_ℤ a a ≡ true
eqb_refl a = ground arith

files_eq_refl : (fs : List File) → files_eq fs fs ≡ true
unfolding files_eq file_eq
files_eq_refl [] = refl
files_eq_refl (f ∷ fs) = ground (
  arith,
  str_eq_refl f.path,
  eqb_refl f.size,
  str_eq_refl f.sha256,
  eqb_refl f.generation,
  files_eq_refl fs,
)

pub manifest_eq_refl : (m : Manifest) → manifest_eq m m ≡ true
unfolding manifest_eq
manifest_eq_refl m = ground (
  arith,
  eqb_refl m.version,
  str_eq_refl m.generation_id,
  str_eq_refl m.previous_generation_id,
  str_eq_refl m.created_at,
  str_eq_refl m.input_fingerprint,
  files_eq_refl m.files,
)
