-- ===== src/Prelude/Int.antt =====
-- Signed integers over the native numbers, under the library's names, with Python's `<<` and `|`
-- on them: both work on two's complement of unbounded width.
use Prim.Native.Nat.{ℕ, suc, ◌+◌, ◌-◌, ◌*◌, ◌^◌, bit_and, bit_or}
use mathlib.Core.Path.{◌≡◌, refl}
use mathlib.Core.Bool.{Bool, true, false, ◌||◌}
use flex_stack.Prelude.Tests.{ltb, leb, ◌==◌}

-- `negsuc n` is -(n + 1).
pub data ℤ : Type 0 where
  pos : ℕ → ℤ
  negsuc : ℕ → ℤ

abbrev pub pos_part : ℤ → ℕ
pos_part (pos n) = n
pos_part (negsuc n) = 0

abbrev pub neg_part : ℤ → ℕ
neg_part (pos n) = 0
neg_part (negsuc n) = suc n

abbrev pub is_negative : ℤ → Bool
is_negative (pos n) = false
is_negative (negsuc n) = true

abbrev pub eq_ℤ : ℤ → ℤ → Bool
eq_ℤ a b = pos_part a + neg_part b == pos_part b + neg_part a

-- a < b
abbrev pub ltb_ℤ : ℤ → ℤ → Bool
ltb_ℤ a b = ltb (pos_part a + neg_part b) (pos_part b + neg_part a)

-- a ≤ b
abbrev pub leb_ℤ : ℤ → ℤ → Bool
leb_ℤ a b = leb (pos_part a + neg_part b) (pos_part b + neg_part a)

infixl 60 ◌<<ℤ◌
abbrev pub ◌<<ℤ◌ : ℤ → ℕ → ℤ
pos n <<ℤ k = pos (n * 2 ^ k)
negsuc n <<ℤ k = negsuc (suc n * 2 ^ k - 1)

-- `-(n + 1)` has the complement of the digits of `n`.
infixl 55 ◌¦ℤ◌
abbrev pub ◌¦ℤ◌ : ℤ → ℤ → ℤ
pos a ¦ℤ pos b = pos (bit_or a b)
pos a ¦ℤ negsuc b = negsuc (b - bit_and b a)
negsuc a ¦ℤ pos b = negsuc (a - bit_and a b)
negsuc a ¦ℤ negsuc b = negsuc (bit_and a b)

pub is_negative-or : (a b : ℤ) → is_negative (a ¦ℤ b) ≡ (is_negative a || is_negative b)
is_negative-or (pos a) (pos b) = refl
is_negative-or (pos a) (negsuc b) = refl
is_negative-or (negsuc a) (pos b) = refl
is_negative-or (negsuc a) (negsuc b) = refl

pub is_negative-shift : (a : ℤ) (k : ℕ) → is_negative (a <<ℤ k) ≡ is_negative a
is_negative-shift (pos a) k = refl
is_negative-shift (negsuc a) k = refl
