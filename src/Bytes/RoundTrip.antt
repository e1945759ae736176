-- ===== src/Bytes/RoundTrip.antt =====
-- What `to_bytes` writes, `from_bytes` reads back, and a number that is made of two fields is
-- written as one field after the other.
use Prim.Native.Nat.add
use mathlib.Core.List.{append_assoc, append-nil}
use native.Mathlib.Nat.{pow-suc, mod-eq_of_lt}
use native.Mathlib.Numerals.{add-one}
use flex_stack.Prelude.{
  ℕ, zero, suc, ◌+◌, ◌*◌, ◌/◌, ◌%◌, ◌^◌, ◌≤◌, ◌<◌, ◌≡◌, refl, ap, [], ◌∷◌, ◌++◌, length,
  length-append, arith,
}
use flex_stack.Bytes.{Bytes, AreBytes, big_endian, from_bytes_onto, from_bytes}

pub length-big_endian : (w n : ℕ) → length (big_endian w n) ≡ w
unfolding big_endian
length-big_endian zero n = refl
length-big_endian (suc w) n =
    omega
      (arith, length-append (big_endian w (n / 256)) (n % 256 ∷ []), length-big_endian w (n / 256))

pub AreBytes-append : (xs ys : Bytes) → AreBytes xs → AreBytes ys → AreBytes (xs ++ ys)
AreBytes-append [] ys hx hy = hy
AreBytes-append (x ∷ xs) ys hx hy = (hx.0, AreBytes-append xs ys hx.1 hy)

pub AreBytes-big_endian : (w n : ℕ) → AreBytes (big_endian w n)
unfolding big_endian
AreBytes-big_endian zero n = tt
AreBytes-big_endian (suc w) n =
    AreBytes-append (big_endian w (n / 256)) (n % 256 ∷ []) (AreBytes-big_endian w (n / 256))
      (omega arith, tt)

from_bytes_onto-snoc :
    (n b : ℕ) (bs : Bytes) → from_bytes_onto n (bs ++ b ∷ []) ≡ from_bytes_onto n bs * 256 + b
unfolding from_bytes_onto
from_bytes_onto-snoc n b [] = refl
from_bytes_onto-snoc n b (c ∷ bs) = from_bytes_onto-snoc (n * 256 + c) b bs

pub from_bytes-big_endian : (w n : ℕ) → n < 256 ^ w → from_bytes (big_endian w n) ≡ n
unfolding big_endian from_bytes
from_bytes-big_endian zero n h = omega arith
from_bytes-big_endian (suc w) n h = omega (
  arith,
  from_bytes_onto-snoc 0 (n % 256) (big_endian w (n / 256)),
  from_bytes-big_endian w (n / 256) (omega (arith, pow-suc 256 w)),
)

scaled : (x w : ℕ) → x * 256 ^ suc w ≡ 256 * (x * 256 ^ w)
scaled x w = omega (arith, ap (λ (t : ℕ). x * t) (pow-suc 256 w))

-- A number of two fields is written field by field.
pub big_endian_fields :
    (v w x y : ℕ)
    → y < 256 ^ w
    → big_endian (w + v) (x * 256 ^ w + y) ≡ big_endian v x ++ big_endian w y
unfolding big_endian
big_endian_fields v zero x y h = rw (add.zero, low_digits) (rw append-nil)
  where
    low_digits : x * 256 ^ 0 + y ≡ x
    low_digits = omega arith
big_endian_fields v (suc w) x y h =
    rw (add.suc, high_part, low_byte)
      (rw (big_endian_fields v w x (y / 256) (omega (arith, pow-suc 256 w)))
        (append_assoc (big_endian v x) (big_endian w (y / 256)) (y % 256 ∷ [])))
  where
    high_part : (x * 256 ^ suc w + y) / 256 ≡ x * 256 ^ w + y / 256
    high_part = omega (arith, scaled x w)

    low_byte : (x * 256 ^ suc w + y) % 256 ≡ y % 256
    low_byte = omega (arith, scaled x w)

from_bytes_onto-eq :
    (n : ℕ) (bs : Bytes) → from_bytes_onto n bs ≡ n * 256 ^ length bs + from_bytes bs
unfolding from_bytes
from_bytes_onto-eq n [] = omega arith
from_bytes_onto-eq n (b ∷ bs) = grind (
  arith,
  from_bytes_onto-eq (n * 256 + b) bs,
  from_bytes_onto-eq (0 * 256 + b) bs,
  scaled n (length bs),
)

pub from_bytes-cons :
    (b : ℕ) (bs : Bytes) → from_bytes (b ∷ bs) ≡ b * 256 ^ length bs + from_bytes bs
unfolding from_bytes
from_bytes-cons b bs = omega (arith, from_bytes_onto-eq (0 * 256 + b) bs)

byte_scaled : (b p : ℕ) → b < 256 → b * p ≤ 255 * p
byte_scaled b p h = grind arith

pub from_bytes-lt : (bs : Bytes) → AreBytes bs → from_bytes bs < 256 ^ length bs
from_bytes-lt [] h = unfold from_bytes in omega arith
from_bytes-lt (b ∷ bs) h = omega (
  arith,
  from_bytes-cons b bs,
  from_bytes-lt bs h.1,
  pow-suc 256 (length bs),
  byte_scaled b (256 ^ length bs) h.0,
)

one_byte : (b : ℕ) → b < 256 → big_endian 1 b ≡ b ∷ []
unfolding big_endian
one_byte b h = rw (mod-eq_of_lt h)

pub big_endian-from_bytes : (bs : Bytes) → AreBytes bs → big_endian (length bs) (from_bytes bs) ≡ bs
big_endian-from_bytes [] h = unfold big_endian in refl
big_endian-from_bytes (b ∷ bs) h =
    rw (← add-one, from_bytes-cons)
      (rw (big_endian_fields 1 (length bs) b (from_bytes bs) (from_bytes-lt bs h.1))
        (rw (big_endian-from_bytes bs h.1, one_byte b h.0) refl))

pub big_endian_two : (n : ℕ) → n < 65536 → big_endian 2 n ≡ n / 256 ∷ n % 256 ∷ []
unfolding big_endian
big_endian_two n h = rw (mod-eq_of_lt {n = n / 256} {m = 256} (omega arith))
