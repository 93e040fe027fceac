-- ===== src/Generation/Objects.antt =====
-- internal/generation/manifest.go: where the objects of a generation stand (ObjectPath), and the
-- rows that NewFile makes.
use llm_wiki_bff.Core.{
  ◌≤◌, ◌≡◌, ◌≢◌, refl, ap, true, false, List, [], ◌∷◌, ◌++◌, ok, All, All-append, all, any, length,
  arith, Bool-cases, inl, inr,
}
use llm_wiki_bff.Core.Int.{ℤ, pos}
use llm_wiki_bff.Core.Text.{Text, codes, str_eq, str_eq_sound, has_prefix, contains, split_on}
use llm_wiki_bff.Core.Split.{split_on-append, contains-split}
use llm_wiki_bff.Generation.{File, Manifest, Host, max_file_bytes, generations_prefix}
use llm_wiki_bff.Generation.Paths.{
  owned_names, safe_path, generation_owned, id_byte, safe_generation_id, valid_digest,
}
use llm_wiki_bff.Generation.Validate.{object_path, new_file}
use llm_wiki_bff.Generation.Validate.Exact.{IsRow}

-- Up to the first slash, two texts without a slash in their beginnings are compared.
cut_at_slash :
    (s t p q : Text)
    → all id_byte s ≡ true
    → all id_byte t ≡ true
    → s ++ b'/' ∷ p ≡ t ++ b'/' ∷ q
    → (s ≡ t) × (p ≡ q)
unfolding id_byte
cut_at_slash [] [] p q hs ht e = (refl, cc)
cut_at_slash [] (b ∷ t) p q hs ht e = ground arith
cut_at_slash (a ∷ s) [] p q hs ht e = ground arith
cut_at_slash (a ∷ s) (b ∷ t) p q hs ht e =
    let (x, y) = cut_at_slash s t p q (ground arith) (ground arith) (cc) in (cc x, y)

append_cancel : (xs s t : Text) → xs ++ s ≡ xs ++ t → s ≡ t
append_cancel [] s t e = e
append_cancel (x ∷ xs) s t e = append_cancel xs s t (cc)

-- Two generations never share an object: equal object paths come from equal generation
-- identifiers and equal relative paths.
pub object_path-injective :
    (m n : Manifest) (f g : File)
    → safe_generation_id m.generation_id ≡ true
    → safe_generation_id n.generation_id ≡ true
    → object_path m f ≡ object_path n g
    → (m.generation_id ≡ n.generation_id) × (f.path ≡ g.path)
unfolding object_path safe_generation_id
object_path-injective m n f g hm hn e =
    cut_at_slash m.generation_id n.generation_id f.path g.path (ground arith) (ground arith) (
      append_cancel generations_prefix (m.generation_id ++ b'/' ∷ f.path)
        (n.generation_id ++ b'/' ∷ g.path) e)

abbrev pub dots : Text
dots = codes ".."

-- No piece of the text between slashes is "..".
abbrev pub NoClimb : Text → Type 0
NoClimb p = All (λ seg. seg ≢ dots) (split_on b'/' p)

ne_dots : (seg : Text) → contains seg dots ≡ false → seg ≢ dots
unfolding contains has_prefix
ne_dots seg h e = ground (arith, ap (λ (t : Text). contains t dots) e)

All-ne_dots :
    (segs : List Text) → All (λ t. contains t dots ≡ false) segs → All (λ t. t ≢ dots) segs
All-ne_dots [] h = tt
All-ne_dots (s ∷ segs) (h, hs) = (ne_dots s h, All-ne_dots segs hs)

no_dots-NoClimb : (p : Text) → contains p dots ≡ false → NoClimb p
unfolding has_prefix
no_dots-NoClimb p h = All-ne_dots (split_on b'/' p) (contains-split b'/' p dots refl h)

safe_path-no_dots : (p : Text) → safe_path p ≡ true → contains p dots ≡ false
unfolding safe_path
safe_path-no_dots p h = ground arith

-- None of the fixed names has dots.
owned_names-no_dots :
    (p : Text) (names : List Text)
    → any (str_eq p) names ≡ true
    → All (λ n. contains n dots ≡ false) names
    → contains p dots ≡ false
owned_names-no_dots p [] h k = cc
owned_names-no_dots p (n ∷ names) h (k, ks) = elim (Bool-cases (str_eq p n)) [
  | inl e ↦ rw (str_eq_sound p n e) k
  | inr e ↦ owned_names-no_dots p names (ground arith) ks
]

fixed_names-no_dots : All (λ n. contains n dots ≡ false) owned_names
unfolding has_prefix contains
fixed_names-no_dots = ground arith

owned-no_dots : (p : Text) → generation_owned p ≡ true → contains p dots ≡ false
unfolding generation_owned
owned-no_dots p h = elim (Bool-cases (has_prefix p (codes "wiki/"))) [
  | inl e ↦ safe_path-no_dots p (ground arith)
  | inr e ↦ owned_names-no_dots p owned_names (ground arith) fixed_names-no_dots
]

id_byte-no_dots : (id : Text) → all id_byte id ≡ true → contains id dots ≡ false
unfolding id_byte contains has_prefix
id_byte-no_dots [] h = refl
id_byte-no_dots (a ∷ id) h = ground (arith, id_byte-no_dots id)

safe_id-NoClimb : (id : Text) → safe_generation_id id ≡ true → NoClimb id
unfolding safe_generation_id
safe_id-NoClimb id h = no_dots-NoClimb id (id_byte-no_dots id (ground arith))

NoClimb-append : (s t : Text) → NoClimb s → NoClimb t → NoClimb (s ++ b'/' ∷ t)
NoClimb-append s t h k =
    rw (split_on-append b'/' s t)
      (All-append (λ seg. seg ≢ dots) (split_on b'/' s) (split_on b'/' t) h k)

-- The objects of a generation stay below the directory of the generations: with a safe identifier
-- and an owned path, no component of the object's path is "..".
pub object_path-NoClimb :
    (m : Manifest) (f : File)
    → safe_generation_id m.generation_id ≡ true
    → generation_owned f.path ≡ true
    → NoClimb (object_path m f)
unfolding object_path has_prefix contains
object_path-NoClimb m f hm hf =
    NoClimb-append (codes ".lwc/publish/generations") (m.generation_id ++ b'/' ∷ f.path)
      (no_dots-NoClimb (codes ".lwc/publish/generations") refl)
      (NoClimb-append m.generation_id f.path (safe_id-NoClimb m.generation_id hm)
        (no_dots-NoClimb f.path (owned-no_dots f.path hf)))

-- A row that NewFile makes from at most MaxFileBytes bytes passes every test that Validate makes
-- of a row on its own, where SHA-256 digests are printed as 64 hexadecimal digits.
pub new_file-IsRow :
    (host : Host) (path bytes : Text) (generation : ℤ) (f : File)
    → ((s : Text) → valid_digest (host.sha256_hex s) ≡ true)
    → length bytes ≤ max_file_bytes
    → new_file host path bytes generation ≡ ok f
    → IsRow f × (f.path ≡ path) × (f.size ≡ pos (length bytes)) × (f.sha256 ≡ host.sha256_hex bytes)
unfolding new_file
new_file-IsRow host path bytes generation f hex small h = ground (arith, hex bytes)
