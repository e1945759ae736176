-- ===== src/Bytes.antt =====
-- Python's `int.to_bytes`, `int.from_bytes` and slices, in big-endian order. A `bytes` object is a
-- list of numbers below 256.
pub mod RoundTrip
use flex_stack.Prelude.{
  ℕ, zero, suc, ◌+◌, ◌-◌, ◌*◌, ◌/◌, ◌%◌, ◌^◌, ◌<◌, List, [], ◌∷◌, ◌++◌, take, drop, ltb, Result, ok,
  err, overflow_error, if◌then◌else◌,
}
use flex_stack.Prelude.Int.{ℤ, pos, negsuc}

abbrev pub Bytes : Type 0
Bytes = List ℕ

-- Every element is a byte.
abbrev pub AreBytes : Bytes → Type 0
AreBytes [] = Unit {0}
AreBytes (b ∷ bs) = (b < 256) × AreBytes bs

pub big_endian : ℕ → ℕ → Bytes
big_endian zero n = []
big_endian (suc w) n = big_endian w (n / 256) ++ (n % 256 ∷ [])

-- `n.to_bytes(w, "big")`
unfoldable pub to_bytes : ℕ → ℕ → Result Bytes
unfolding big_endian
to_bytes n w = if ltb n (256 ^ w) then ok (big_endian w n) else err overflow_error

-- The same for an integer that may be negative, which an unsigned width cannot hold.
unfoldable pub to_bytes_ℤ : ℤ → ℕ → Result Bytes
to_bytes_ℤ (pos n) w = to_bytes n w
to_bytes_ℤ (negsuc n) w = err overflow_error

pub from_bytes_onto : ℕ → Bytes → ℕ
from_bytes_onto n [] = n
from_bytes_onto n (b ∷ bs) = from_bytes_onto (n * 256 + b) bs

-- `int.from_bytes(bs, "big")`
unfoldable pub from_bytes : Bytes → ℕ
unfolding from_bytes_onto
from_bytes bs = from_bytes_onto 0 bs

-- `bs[a:b]`
abbrev pub slice : Bytes → ℕ → ℕ → Bytes
slice bs a b = take (b - a) (drop a bs)

-- `bs[0]`; the callers have tested the length.
abbrev pub first_byte : Bytes → ℕ
first_byte [] = 0
first_byte (b ∷ bs) = b
