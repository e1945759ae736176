-- ===== src/Geonet/PositionVector/Unsigned.antt =====
-- Integers that an unsigned field of the wire format can hold.
use flex_stack.Prelude.{ok, lt→ltb, ℕ, ◌^◌, ◌<◌, ◌≡◌, refl, err, true, false, overflow_error}
use flex_stack.Prelude.Int.{ℤ, pos, negsuc, pos_part, is_negative}
use flex_stack.Bytes.{to_bytes_ℤ, to_bytes, big_endian}

-- A number that is not negative and fits `w` bits.
abbrev pub IsUnsigned : ℕ → ℤ → Type 0
IsUnsigned w z = (is_negative z ≡ false) × (pos_part z < 2 ^ w)

pub pos-pos_part : (z : ℤ) → is_negative z ≡ false → pos (pos_part z) ≡ z
pos-pos_part (pos n) h = refl
pos-pos_part (negsuc n) h = cc

pub to_bytes_ℤ-negative :
    (z : ℤ) (w : ℕ) → is_negative z ≡ true → to_bytes_ℤ z w ≡ err overflow_error
unfolding to_bytes_ℤ
to_bytes_ℤ-negative (pos n) w h = cc
to_bytes_ℤ-negative (negsuc n) w h = refl

pub to_bytes_ℤ-eq :
    (z : ℤ) (w : ℕ)
    → is_negative z ≡ false
    → pos_part z < 256 ^ w
    → to_bytes_ℤ z w ≡ ok (big_endian w (pos_part z))
unfolding to_bytes_ℤ to_bytes
to_bytes_ℤ-eq (pos n) w e h = rw (lt→ltb _ _ h)
to_bytes_ℤ-eq (negsuc n) w e h = cc
