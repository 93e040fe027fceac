-- ===== src/Core/Int.antt =====
-- Go's `int` and `int64` as integers over the native numbers. A sum is the wrapped one.
use Prim.Native.Nat.{ℕ, suc, ◌+◌, ◌-◌, ◌%◌, ◌≤◌, ◌<◌}
use mathlib.Core.Path.{◌≡◌, refl}
use mathlib.Core.Bool.{Bool}
use native.Mathlib.Omega.{arith}
use llm_wiki_bff.Core.Tests.{ltb, leb, ◌==◌, if◌then◌else◌}

-- `negsuc n` is -(n + 1).
pub data ℤ : Type 0 where
  pos : ℕ → ℤ
  negsuc : ℕ → ℤ

abbrev pub pos_part : ℤ → ℕ
pos_part (pos n) = n
pos_part (negsuc n) = 0

abbrev pub neg_part : ℤ → ℕ
neg_part (pos n) = 0
neg_part (negsuc n) = suc n

-- a - b, as an integer.
abbrev pub sub_ℕ : ℕ → ℕ → ℤ
sub_ℕ a b = if leb b a then pos (a - b) else negsuc (b - a - 1)

abbrev pub max_int64 : ℕ
max_int64 = 9223372036854775807

abbrev pub mod_int64 : ℕ
mod_int64 = 18446744073709551616

-- The two's-complement reading of a residue.
abbrev pub signed : ℕ → ℤ
signed n = if leb n max_int64 then pos n else negsuc (mod_int64 - n - 1)

-- a - b in 64 bits: the value itself where it fits.
unfoldable pub wrap : ℕ → ℕ → ℤ
wrap a b =
    if leb b a
    then signed ((a - b) % mod_int64)
    else signed ((mod_int64 - (b - a) % mod_int64) % mod_int64)

-- Go's `a + b` at 64 bits.
infixl 65 ◌+ℤ◌
unfoldable pub ◌+ℤ◌ : ℤ → ℤ → ℤ
unfolding wrap
a +ℤ b = wrap (pos_part a + pos_part b) (neg_part a + neg_part b)

-- Go's `a - b` at 64 bits.
infixl 65 ◌-ℤ◌
unfoldable pub ◌-ℤ◌ : ℤ → ℤ → ℤ
unfolding wrap
a -ℤ b = wrap (pos_part a + neg_part b) (neg_part a + pos_part b)

infix 50 ◌≤ℤ◌ ◌<ℤ◌
abbrev pub ◌≤ℤ◌ : ℤ → ℤ → Type 0
a ≤ℤ b = pos_part a + neg_part b ≤ pos_part b + neg_part a

abbrev pub ◌<ℤ◌ : ℤ → ℤ → Type 0
a <ℤ b = pos_part a + neg_part b < pos_part b + neg_part a

abbrev pub ltb_ℤ : ℤ → ℤ → Bool
ltb_ℤ a b = ltb (pos_part a + neg_part b) (pos_part b + neg_part a)

abbrev pub leb_ℤ : ℤ → ℤ → Bool
leb_ℤ a b = leb (pos_part a + neg_part b) (pos_part b + neg_part a)

abbrev pub eqb_ℤ : ℤ → ℤ → Bool
eqb_ℤ a b = (pos_part a + neg_part b) == (pos_part b + neg_part a)

-- Sums of counts that stay in range are plain sums.
pub +ℤ-pos : (a b : ℕ) → a + b ≤ max_int64 → pos a +ℤ pos b ≡ pos (a + b)
unfolding ◌+ℤ◌
+ℤ-pos a b h = ground arith

pub -ℤ-pos : (a b : ℕ) → b ≤ a → a ≤ max_int64 → pos a -ℤ pos b ≡ pos (a - b)
unfolding ◌-ℤ◌
-ℤ-pos a b h k = ground arith

overflow : pos max_int64 +ℤ pos 1 ≡ negsuc max_int64
unfolding ◌+ℤ◌
overflow = refl

below_zero : negsuc 4 +ℤ pos 3 ≡ negsuc 1
unfolding ◌+ℤ◌
below_zero = refl
