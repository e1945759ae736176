-- ===== src/Geonet/ExtendedHeaders/Layout.antt =====
-- Where the parts of an extended header stand in its octets.
use Prim.Native.Nat.add
use flex_stack.Prelude.{
  Result, err, ◌>>=◌, ap, ℕ, zero, suc, ◌+◌, ◌-◌, ◌<◌, ◌^◌, ◌≡◌, ◌∙◌, ◌++◌, [], ◌∷◌, length, drop,
  length-append, take-append, ok, lt→ltb, arith,
}
use flex_stack.Bytes.RoundTrip.{length-big_endian}
use flex_stack.Geonet.PositionVector.{LongPositionVector}
use flex_stack.Geonet.PositionVector.Long.{IsValidLong, long_bytes, long_wire}
use flex_stack.Bytes.{Bytes, big_endian, to_bytes, slice}

-- `to_bytes` of a number that fits.
pub to_bytes-eq : (n w : ℕ) → n < 256 ^ w → to_bytes n w ≡ ok (big_endian w n)
unfolding to_bytes
to_bytes-eq n w h = rw (lt→ltb _ _ h)

-- Dropping goes past a part of known width.
drop-past : (k n : ℕ) (xs ys : Bytes) → length xs ≡ k → drop (k + n) (xs ++ ys) ≡ drop n ys
drop-past zero n [] ys h = rw add.zero
drop-past zero n (x ∷ xs) ys h = absurd (omega arith)
drop-past (suc k) n [] ys h = absurd (omega arith)
drop-past (suc k) n (x ∷ xs) ys h = rw add.suc (drop-past k n xs ys (omega arith))

pub drop-first : (k : ℕ) (xs ys : Bytes) → length xs ≡ k → drop k (xs ++ ys) ≡ ys
drop-first k xs ys h = rw same at (drop-past k 0 xs ys h)
  where
    same : k + 0 ≡ k
    same = omega arith

pub slice-past :
    (k a b : ℕ) (xs ys : Bytes) → length xs ≡ k → slice (xs ++ ys) (k + a) (k + b) ≡ slice ys a b
slice-past k a b xs ys h = rw (drop-past k a xs ys h, same_width)
  where
    same_width : k + b - (k + a) ≡ b - a
    same_width = omega arith

pub slice-first : (k : ℕ) (xs ys : Bytes) → length xs ≡ k → slice (xs ++ ys) 0 k ≡ xs
slice-first k xs ys h = rw same_width (take-append k xs ys h)
  where
    same_width : k - 0 ≡ k
    same_width = omega arith

-- Sequence number, reserved octets and source position vector stand first in every extended header.
module _ (sn reserved : ℕ) (so_pv : LongPositionVector) (valid : IsValidLong so_pv) where
  abbrev pub prefix : Bytes → Bytes
  prefix tail = big_endian 2 sn ++ (big_endian 2 reserved ++ (long_bytes so_pv valid ++ tail))

  sn_width : length (big_endian 2 sn) ≡ 2
  sn_width = length-big_endian 2 sn

  reserved_width : length (big_endian 2 reserved) ≡ 2
  reserved_width = length-big_endian 2 reserved

  pv_width : length (long_bytes so_pv valid) ≡ 24
  pv_width = length-big_endian 24 (long_wire so_pv valid)

  module _ (tail : Bytes) where
    abbrev after_reserved : Bytes
    after_reserved = long_bytes so_pv valid ++ tail

    abbrev after_sn : Bytes
    after_sn = big_endian 2 reserved ++ after_reserved

    pub length-prefix : length (prefix tail) ≡ 28 + length tail
    length-prefix = omega (
      arith,
      length-append (big_endian 2 sn) after_sn,
      length-append (big_endian 2 reserved) after_reserved,
      length-append (long_bytes so_pv valid) tail,
      sn_width,
      reserved_width,
      pv_width,
    )

    pub slice_sn : slice (prefix tail) 0 2 ≡ big_endian 2 sn
    slice_sn = slice-first 2 (big_endian 2 sn) after_sn sn_width

    pub slice_reserved : slice (prefix tail) 2 4 ≡ big_endian 2 reserved
    slice_reserved =
        slice-past 2 0 2 (big_endian 2 sn) after_sn sn_width
        ∙ slice-first 2 (big_endian 2 reserved) after_reserved reserved_width

    pub slice_pv : slice (prefix tail) 4 28 ≡ long_bytes so_pv valid
    slice_pv =
        slice-past 2 2 26 (big_endian 2 sn) after_sn sn_width
        ∙ slice-past 2 0 24 (big_endian 2 reserved) after_reserved reserved_width
        ∙ slice-first 24 (long_bytes so_pv valid) tail pv_width

    pub slice_tail : (a b : ℕ) → slice (prefix tail) (28 + a) (28 + b) ≡ slice tail a b
    slice_tail a b =
        rw (past_sn a, past_sn b)
          (slice-past 2 (26 + a) (26 + b) (big_endian 2 sn) after_sn sn_width
            ∙ rw (past_reserved a, past_reserved b)
                (slice-past 2 (24 + a) (24 + b) (big_endian 2 reserved) after_reserved
                    reserved_width
                  ∙ slice-past 24 a b (long_bytes so_pv valid) tail pv_width))
      where
        past_sn : (n : ℕ) → 28 + n ≡ 2 + (26 + n)
        past_sn n = omega arith

        past_reserved : (n : ℕ) → 26 + n ≡ 2 + (24 + n)
        past_reserved n = omega arith

-- One field of known width after another.
pub length-field : (w n : ℕ) (ys : Bytes) → length (big_endian w n ++ ys) ≡ w + length ys
length-field w n ys = omega (arith, length-append (big_endian w n) ys, length-big_endian w n)

pub slice_field : (w n : ℕ) (ys : Bytes) → slice (big_endian w n ++ ys) 0 w ≡ big_endian w n
slice_field w n ys = slice-first w (big_endian w n) ys (length-big_endian w n)

pub slice_beyond :
    (w n a b : ℕ) (ys : Bytes) → slice (big_endian w n ++ ys) (w + a) (w + b) ≡ slice ys a b
slice_beyond w n a b ys = slice-past w a b (big_endian w n) ys (length-big_endian w n)

-- To append the rest of the packet and decode is one step of the chain.
pub then_decode :
    {A : Type 0} (encoded : Result Bytes) (rest : Bytes) (decode : Bytes → Result A) (bytes : Bytes)
    → (encoded >>= λ bs. ok (bs ++ rest)) ≡ ok bytes
    → (encoded >>= λ bs. decode (bs ++ rest)) ≡ decode bytes
then_decode (ok bs) rest decode bytes h = ap (λ r. r >>= decode) h
then_decode (err e) rest decode bytes h = cc
