-- ===== src/Prelude/Bits.antt =====
-- `<<`, `>>`, `|` and `&` of Python on numbers that are not negative, and what they do to fields
-- that do not overlap.
use Prim.Native.Nat.{min, max, digits, bitwise, bit_and-bitwise, bit_or-bitwise}
use Prim.Native.Nat.{ℕ, zero, suc, ◌+◌, ◌-◌, ◌*◌, ◌/◌, ◌%◌, ◌^◌, ◌≤◌, ◌<◌, bit_and, bit_or}
use mathlib.Core.Path.{◌≡◌, refl, ap}
use native.Mathlib.Nat.{pow-suc, one-le-pow}
use native.Mathlib.Omega.{arith}

infixl 60 ◌<<◌ ◌>>>◌
abbrev pub ◌<<◌ : ℕ → ℕ → ℕ
x << k = x * 2 ^ k

abbrev pub ◌>>>◌ : ℕ → ℕ → ℕ
x >>> k = x / 2 ^ k

infixl 57 ◌&◌
abbrev pub ◌&◌ : ℕ → ℕ → ℕ
x & y = bit_and x y

infixl 55 ◌¦◌
abbrev pub ◌¦◌ : ℕ → ℕ → ℕ
x ¦ y = bit_or x y

-- The recursion on digits gives the same value for all fuel that reaches its first argument.
module _ (left : ℕ → ℕ) (join : ℕ → ℕ → ℕ) where
  enough_digits : (f g a b : ℕ) → a ≤ f → a ≤ g → digits left join f a b ≡ digits left join g a b
  enough_digits zero zero a b p q = refl
  enough_digits zero (suc g) zero b p q = refl
  enough_digits (suc f) zero zero b p q = refl
  enough_digits (suc f) (suc g) zero b p q = refl
  enough_digits zero (suc g) (suc a) b p q = absurd (omega arith)
  enough_digits (suc f) zero (suc a) b p q = absurd (omega arith)
  enough_digits (suc f) (suc g) (suc a) b p q =
      omega (arith, enough_digits f g (suc a / 2) (b / 2) (omega arith) (omega arith))

  lowest_digit :
      (a b : ℕ)
      → bitwise left join (suc a) b
        ≡ bitwise left join (suc a / 2) (b / 2) * 2 + join (suc a % 2) (b % 2)
  lowest_digit a b =
      omega (arith, enough_digits a (suc a / 2) (suc a / 2) (b / 2) (omega arith) (omega arith))

bit_or_lowest : (a b : ℕ) → bit_or a b ≡ bit_or (a / 2) (b / 2) * 2 + max (a % 2) (b % 2)
bit_or_lowest zero b = simp bit_or-bitwise (omega arith)
bit_or_lowest (suc a) b = simp bit_or-bitwise (lowest_digit (λ n. n) max a b)

bit_and_lowest : (a b : ℕ) → bit_and a b ≡ bit_and (a / 2) (b / 2) * 2 + min (a % 2) (b % 2)
bit_and_lowest zero b = simp bit_and-bitwise (omega arith)
bit_and_lowest (suc a) b = simp bit_and-bitwise (lowest_digit (λ n. 0) min a b)

bit_or-zero_below : (n a : ℕ) → a ≤ n → bit_or a 0 ≡ a
bit_or-zero_below n zero h = refl
bit_or-zero_below zero (suc a) h = absurd (omega arith)
bit_or-zero_below (suc n) (suc a) h =
    omega (arith, bit_or_lowest (suc a) 0, bit_or-zero_below n (suc a / 2) (omega arith))

bit_and-zero_below : (n a : ℕ) → a ≤ n → bit_and a 0 ≡ 0
bit_and-zero_below n zero h = refl
bit_and-zero_below zero (suc a) h = absurd (omega arith)
bit_and-zero_below (suc n) (suc a) h =
    omega (arith, bit_and_lowest (suc a) 0, bit_and-zero_below n (suc a / 2) (omega arith))

doubled : (x k : ℕ) → x * 2 ^ suc k ≡ 2 * (x * 2 ^ k)
doubled x k = omega (arith, ap (λ (t : ℕ). x * t) (pow-suc 2 k))

-- `(x << k) | y` is a sum where `y` fits into `k` bits.
shifted_or : (k x y : ℕ) → y < 2 ^ k → bit_or (x * 2 ^ k) y ≡ x * 2 ^ k + y
shifted_or zero x y h = ground (arith, bit_or-zero_below x x)
shifted_or (suc k) x y h = ground (
  arith,
  bit_or_lowest (x * 2 ^ suc k) y,
  doubled x k,
  shifted_or k x (y / 2) (omega (arith, pow-suc 2 k)),
)

pub or_fields : (k x z y : ℕ) → z ≡ x * 2 ^ k → y < 2 ^ k → bit_or z y ≡ z + y
or_fields k x z y e h = rw e (shifted_or k x y h)

shifted_and : (k x y : ℕ) → y < 2 ^ k → bit_and (x * 2 ^ k + y) (2 ^ k - 1) ≡ y
shifted_and zero x y h =
    ground (arith, bit_and-zero_below (x * 2 ^ 0 + y) (x * 2 ^ 0 + y) (omega arith))
shifted_and (suc k) x y h = ground (
  arith,
  bit_and_lowest (x * 2 ^ suc k + y) (2 ^ suc k - 1),
  doubled x k,
  pow-suc 2 k,
  shifted_and k x (y / 2) (omega (arith, pow-suc 2 k)),
)

-- `a & (2 ** k - 1)` is the remainder by `2 ** k`.
pub and_mask : (k a : ℕ) → bit_and a (2 ^ k - 1) ≡ a % 2 ^ k
and_mask k a = ground (arith, one-le-pow k 2, shifted_and k (a / 2 ^ k) (a % 2 ^ k))

shifted_digit : (k x y : ℕ) → y < 2 ^ k → bit_and (x * 2 ^ k + y) (2 ^ k) ≡ x % 2 * 2 ^ k
shifted_digit zero x y h = omega (arith, and_mask 1 (x * 2 ^ 0 + y))
shifted_digit (suc k) x y h = ground (
  arith,
  bit_and_lowest (x * 2 ^ suc k + y) (2 ^ suc k),
  doubled x k,
  doubled (x % 2) k,
  pow-suc 2 k,
  shifted_digit k x (y / 2) (omega (arith, pow-suc 2 k)),
)

-- `a & 128` keeps the digit of weight 128.
pub and_128 : (a : ℕ) → bit_and a 128 ≡ a / 128 % 2 * 128
and_128 a = ground (arith, shifted_digit 7 (a / 128) (a % 128) (omega arith))
