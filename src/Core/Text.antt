-- ===== src/Core/Text.antt =====
-- A Go string is its bytes. Equality and order are those of `==` and `<`, byte by byte; the other
-- functions are those of Go's package strings that the program calls.
use Prim.Native.Char.{code}
use Prim.Native.Nat.{ℕ, zero, suc, ◌-◌, compare, Ordering}
use Prim.Native.String.{String}
use mathlib.Core.Path.{◌≡◌, refl, ap}
use mathlib.Core.Logic.{◌≢◌, ◌↔◌}
use mathlib.Core.Bool.{Bool, true, false, ◌&&◌, ◌||◌}
use mathlib.Core.List.{List, [], ◌∷◌, ◌++◌, reverse}
use native.Mathlib.Omega.{arith}
use llm_wiki_bff.Core.Tests.{leb, ◌==◌, if◌then◌else◌}
use llm_wiki_bff.Core.Lists.{length, drop}

abbrev pub Text : Type 0
Text = List ℕ

-- The bytes of an ASCII literal.
abbrev pub codes : String → Text
codes String.[] = []
codes (String.◌∷◌ c s) = code c ∷ codes s

-- s == t
unfoldable pub str_eq : Text → Text → Bool
str_eq [] [] = true
str_eq [] (b ∷ t) = false
str_eq (a ∷ s) [] = false
str_eq (a ∷ s) (b ∷ t) = (a == b) && str_eq s t

-- s < t
unfoldable pub str_ltb : Text → Text → Bool
str_ltb s [] = false
str_ltb [] (b ∷ t) = true
str_ltb (a ∷ s) (b ∷ t) =
    let rest = str_ltb s t in
    elim (compare a b) [ Ordering.lt ↦ true | Ordering.eq ↦ rest | Ordering.gt ↦ false ]

pub str_eq_sound : (s t : Text) → str_eq s t ≡ true → s ≡ t
unfolding str_eq
str_eq_sound [] [] h = refl
str_eq_sound [] (b ∷ t) h = cc
str_eq_sound (a ∷ s) [] h = cc
str_eq_sound (a ∷ s) (b ∷ t) h = ground (arith, str_eq_sound s t)

pub str_eq_refl : (s : Text) → str_eq s s ≡ true
unfolding str_eq
str_eq_refl [] = refl
str_eq_refl (a ∷ s) = ground (arith, str_eq_refl s)

pub str_eq_comm : (s t : Text) → str_eq s t ≡ str_eq t s
unfolding str_eq
str_eq_comm [] [] = refl
str_eq_comm [] (b ∷ t) = refl
str_eq_comm (a ∷ s) [] = refl
str_eq_comm (a ∷ s) (b ∷ t) = ground (arith, str_eq_comm s t)

pub str_eq_iff : (s t : Text) → (str_eq s t ≡ true) ↔ (s ≡ t)
str_eq_iff s t = (str_eq_sound s t, λ e. rw e (str_eq_refl t))

pub str_eq_ne : (s t : Text) → s ≢ t → str_eq s t ≡ false
str_eq_ne s t h = ground (arith, str_eq_sound s t)

pub ne_of_str_eq : (s t : Text) → str_eq s t ≡ false → s ≢ t
ne_of_str_eq s t h e = ground (arith, str_eq_refl t, ap (λ (u : Text). str_eq u t) e)

pub str_ltb_irrefl : (s : Text) → str_ltb s s ≡ false
unfolding str_ltb
str_ltb_irrefl [] = refl
str_ltb_irrefl (a ∷ s) = ground (arith, str_ltb_irrefl s)

pub str_ltb_trans : (s t u : Text) → str_ltb s t ≡ true → str_ltb t u ≡ true → str_ltb s u ≡ true
unfolding str_ltb
str_ltb_trans s [] u h k = cc
str_ltb_trans s (b ∷ t) [] h k = cc
str_ltb_trans [] (b ∷ t) (c ∷ u) h k = refl
str_ltb_trans (a ∷ s) (b ∷ t) (c ∷ u) h k = ground (arith, str_ltb_trans s t u)

pub str_ltb_total : (s t : Text) → str_ltb s t ≡ false → str_ltb t s ≡ false → s ≡ t
unfolding str_ltb
str_ltb_total [] [] h k = refl
str_ltb_total [] (b ∷ t) h k = cc
str_ltb_total (a ∷ s) [] h k = cc
str_ltb_total (a ∷ s) (b ∷ t) h k = ground (arith, str_ltb_total s t)

-- strings.HasPrefix(s, p)
unfoldable pub has_prefix : Text → Text → Bool
has_prefix s [] = true
has_prefix [] (b ∷ p) = false
has_prefix (a ∷ s) (b ∷ p) = (a == b) && has_prefix s p

-- strings.HasSuffix(s, p)
unfoldable pub has_suffix : Text → Text → Bool
unfolding has_prefix
has_suffix s p = has_prefix (reverse s) (reverse p)

-- strings.TrimSuffix(s, p)
unfoldable pub trim_suffix : Text → Text → Text
unfolding has_suffix
trim_suffix s p = if has_suffix s p then reverse (drop (length p) (reverse s)) else s

-- strings.Contains(s, p)
unfoldable pub contains : Text → Text → Bool
unfolding has_prefix
contains [] p = has_prefix [] p
contains (a ∷ s) p = has_prefix (a ∷ s) p || contains s p

-- A white space character of three bytes, in UTF-8: U+1680, U+2000 to U+200A, U+2028, U+2029,
-- U+202F, U+205F and U+3000.
wide_space : ℕ → ℕ → ℕ → Bool
wide_space a b c =
    (a == 0xE1 && b == 0x9A && c == 0x80)
    || (a == 0xE2
        && b == 0x80
        && ((leb 0x80 c && leb c 0x8A) || c == 0xA8 || c == 0xA9 || c == 0xAF))
    || (a == 0xE2 && b == 0x81 && c == 0x9F)
    || (a == 0xE3 && b == 0x80 && c == 0x80)

narrow_space : ℕ → Bool
narrow_space a = (leb 9 a && leb a 13) || a == 32

-- The bytes of the white space character (unicode.IsSpace) that a text begins with, or 0.
unfoldable pub space_width : Text → ℕ
unfolding wide_space narrow_space
space_width [] = 0
space_width (a ∷ []) = if narrow_space a then 1 else 0
space_width (a ∷ b ∷ []) =
    if narrow_space a then 1 else if a == 0xC2 && (b == 0x85 || b == 0xA0) then 2 else 0
space_width (a ∷ b ∷ c ∷ s) =
    if narrow_space a
    then 1
    else if a == 0xC2 && (b == 0x85 || b == 0xA0)
    then 2
    else if wide_space a b c
    then 3
    else 0

-- The same at the end of a text, whose bytes are given in reverse.
space_width_back : Text → ℕ
unfolding wide_space narrow_space
space_width_back [] = 0
space_width_back (c ∷ []) = if narrow_space c then 1 else 0
space_width_back (c ∷ b ∷ []) =
    if narrow_space c then 1 else if b == 0xC2 && (c == 0x85 || c == 0xA0) then 2 else 0
space_width_back (c ∷ b ∷ a ∷ s) =
    if narrow_space c
    then 1
    else if b == 0xC2 && (c == 0x85 || c == 0xA0)
    then 2
    else if wide_space a b c
    then 3
    else 0

-- Drops `skip` bytes, and then white space characters of the given widths.
drop_spaces : (Text → ℕ) → ℕ → Text → Text
drop_spaces width skip [] = []
drop_spaces width (suc skip) (a ∷ s) = drop_spaces width skip s
drop_spaces width zero (a ∷ s) =
    let rest = drop_spaces width (width (a ∷ s) - 1) s in if width (a ∷ s) == 0 then a ∷ s else rest

-- strings.TrimSpace(s)
unfoldable pub trim_space : Text → Text
unfolding drop_spaces space_width space_width_back
trim_space s = reverse (drop_spaces space_width_back 0 (reverse (drop_spaces space_width 0 s)))

trims : trim_space (codes " a b\n") ≡ codes "a b"
unfolding trim_space
trims = refl

-- Puts a byte in front of the first segment.
abbrev pub glue : ℕ → List Text → List Text
glue a [] = (a ∷ []) ∷ []
glue a (t ∷ r) = (a ∷ t) ∷ r

-- strings.Split(s, sep) for a separator of one byte.
unfoldable pub split_on : ℕ → Text → List Text
split_on c [] = [] ∷ []
split_on c (a ∷ s) = if a == c then [] ∷ split_on c s else glue a (split_on c s)

-- strings.Join(segments, sep) for a separator of one byte.
unfoldable pub join_by : ℕ → List Text → Text
join_by c [] = []
join_by c (s ∷ []) = s
join_by c (s ∷ t ∷ r) = s ++ c ∷ join_by c (t ∷ r)
