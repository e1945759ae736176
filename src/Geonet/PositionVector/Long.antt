-- ===== src/Geonet/PositionVector/Long.antt =====
-- The 24 octets of the long position vector: what is written is read back, and what has a negative
-- field is not written.
use Prim.Native.Nat.{bit_or}
use mathlib.Core.List.{append-nil}
use flex_stack.Prelude.{
  [], ℕ, ◌+◌, ◌*◌, ◌/◌, ◌%◌, ◌^◌, ◌≤◌, ◌<◌, ◌≡◌, refl, ap, ◌∙◌, ◌++◌, length, length-append,
  take-append, ok, err, ◌>>=◌, lt→ltb, ge→ltb, Bool, true, false, ◌||◌, overflow_error, arith,
}
use flex_stack.Prelude.Bits.{◌&◌, ◌>>>◌, or_fields, and_mask}
use flex_stack.Prelude.Int.{ℤ, pos, pos_part, is_negative, is_negative-or, is_negative-shift}
use flex_stack.Bytes.{Bytes, big_endian, to_bytes, to_bytes_ℤ, from_bytes}
use flex_stack.Bytes.RoundTrip.{length-big_endian, from_bytes-big_endian}
use flex_stack.Geonet.Address
use flex_stack.Geonet.Address.RoundTrip
use flex_stack.Geonet.Address.RoundTrip.{decode-encode_to_int}
use native.Mathlib.Nat.{mod-eq_of_lt}
use flex_stack.Geonet.PositionVector.{
  tst_encode, LongPositionVector, pai_bit, truth_of_bit, pack_long, long_encode_to_int, long_encode,
  long_decode,
}
use flex_stack.Geonet.PositionVector.Unsigned.{IsUnsigned, pos-pos_part, to_bytes_ℤ-negative}

pub record IsValidLong (p : LongPositionVector) : Type 0 where
  pub address : Address.RoundTrip.IsValid p.gn_addr
  pub tst : p.tst.msec < 2 ^ 32
  pub latitude : IsUnsigned 32 p.latitude
  pub longitude : IsUnsigned 32 p.longitude
  pub s : IsUnsigned 15 p.s
  pub h : IsUnsigned 16 p.h

pai_bit-le : (b : Bool) → pai_bit b ≤ 1
pai_bit-le true = omega arith
pai_bit-le false = omega arith

truth_of_bit-pai_bit : (b : Bool) → truth_of_bit (pai_bit b) ≡ b
truth_of_bit-pai_bit true = refl
truth_of_bit-pai_bit false = refl

module _ (address tst la lo pai s h : ℕ) where
  abbrev pub wire : ℕ
  wire =
      address * 2 ^ 128 + tst * 2 ^ 96 + la * 2 ^ 64 + lo * 2 ^ 32 + pai * 2 ^ 31 + s * 2 ^ 16 + h

  module _ (ht : tst < 2 ^ 32) (hla : la < 2 ^ 32) (hlo : lo < 2 ^ 32) (hp : pai ≤ 1)
      (hs : s < 2 ^ 15) (hh : h < 2 ^ 16) where
    packed : pack_long address tst (pos la) (pos lo) pai (pos s) (pos h) ≡ pos wire
    unfolding pack_long
    packed =
        let z1 = bit_or (address * 2 ^ 128) (tst * 2 ^ 96) in
        let e1 =
          or_fields 128 address (address * 2 ^ 128) (tst * 2 ^ 96) (omega arith) (omega arith) in
        let z2 = bit_or z1 (la * 2 ^ 64) in
        let e2 =
          or_fields 96 (address * 2 ^ 32 + tst) z1 (la * 2 ^ 64) (omega (arith, e1))
            (omega arith) in
        let z3 = bit_or z2 (lo * 2 ^ 32) in
        let e3 =
          or_fields 64 (address * 2 ^ 64 + tst * 2 ^ 32 + la) z2 (lo * 2 ^ 32)
            (omega (arith, e1, e2)) (omega arith) in
        let z4 = bit_or z3 (pai * 2 ^ 31) in
        let e4 =
          or_fields 32 (address * 2 ^ 96 + tst * 2 ^ 64 + la * 2 ^ 32 + lo) z3 (pai * 2 ^ 31)
            (omega (arith, e1, e2, e3)) (omega arith) in
        let z5 = bit_or z4 (s * 2 ^ 16) in
        let e5 =
          or_fields 31 (address * 2 ^ 97 + tst * 2 ^ 65 + la * 2 ^ 33 + lo * 2 + pai) z4
            (s * 2 ^ 16) (omega (arith, e1, e2, e3, e4)) (omega arith) in
        let e6 =
          or_fields 16
            (address * 2 ^ 112 + tst * 2 ^ 80 + la * 2 ^ 48 + lo * 2 ^ 16 + pai * 2 ^ 15 + s) z5 h
            (omega (arith, e1, e2, e3, e4, e5)) (omega arith) in
        ap pos (omega (arith, e1, e2, e3, e4, e5, e6))

    read_fields :
        (wire / 2 ^ 128 ≡ address)
        × (wire / 2 ^ 96 % 2 ^ 32 ≡ tst)
        × ((wire >>> 64 & 0xFFFFFFFF) ≡ la)
        × ((wire >>> 32 & 0xFFFFFFFF) ≡ lo)
        × ((wire >>> 31 & 0x1) ≡ pai)
        × ((wire >>> 16 & 0x7FFF) ≡ s)
        × ((wire & 0xFFFF) ≡ h)
    read_fields = (
      omega arith,
      omega arith,
      omega (arith, and_mask 32 (wire / 2 ^ 64)),
      omega (arith, and_mask 32 (wire / 2 ^ 32)),
      omega (arith, and_mask 1 (wire / 2 ^ 31)),
      omega (arith, and_mask 15 (wire / 2 ^ 16)),
      omega (arith, and_mask 16 wire),
    )

pack_long_valid :
    (address tst : ℕ) (latitude longitude : ℤ) (pai : ℕ) (s h : ℤ)
    → tst < 2 ^ 32
    → pai ≤ 1
    → is_negative latitude ≡ false
    → pos_part latitude < 2 ^ 32
    → is_negative longitude ≡ false
    → pos_part longitude < 2 ^ 32
    → is_negative s ≡ false
    → pos_part s < 2 ^ 15
    → is_negative h ≡ false
    → pos_part h < 2 ^ 16
    → pack_long address tst latitude longitude pai s h
      ≡ pos
          (wire address tst (pos_part latitude) (pos_part longitude) pai (pos_part s) (pos_part h))
pack_long_valid address tst (pos la) (pos lo) pai (pos s) (pos h) ht hp _ hla _ hlo _ hs _ hh =
    packed address tst la lo pai s h ht hla hlo hp hs hh
pack_long_valid address tst _ _ pai _ _ ht hp n1 hla n2 hlo n3 hs n4 hh = cc

module _ (p : LongPositionVector) (valid : IsValidLong p) where
  open valid use {tst as ht, latitude as hla, longitude as hlo, s as hs, h as hh}

  abbrev pub long_wire : ℕ
  long_wire =
      wire (Address.encode_to_int p.gn_addr) p.tst.msec (pos_part p.latitude) (pos_part p.longitude)
        (pai_bit p.pai) (pos_part p.s) (pos_part p.h)

  long_encode_to_int-eq : long_encode_to_int p ≡ pos long_wire
  unfolding long_encode_to_int
  long_encode_to_int-eq = rw (mod-eq_of_lt ht) (
      pack_long_valid (Address.encode_to_int p.gn_addr) p.tst.msec p.latitude p.longitude
        (pai_bit p.pai) p.s p.h ht (pai_bit-le p.pai) hla.0 hla.1 hlo.0 hlo.1 hs.0 hs.1 hh.0 hh.1)

  long_wire-lt : long_wire < 2 ^ 192
  long_wire-lt = omega (
    arith,
    Address.RoundTrip.encode_to_int-lt p.gn_addr valid.address,
    ht,
    hla.1,
    hlo.1,
    pai_bit-le p.pai,
    hs.1,
    hh.1,
  )

  abbrev pub long_bytes : Bytes
  long_bytes = big_endian 24 long_wire

  pub long_encode-eq : long_encode p ≡ ok long_bytes
  unfolding long_encode to_bytes_ℤ to_bytes
  long_encode-eq = rw (long_encode_to_int-eq, lt→ltb _ _ long_wire-lt)

  long_read : from_bytes long_bytes ≡ long_wire
  long_read = from_bytes-big_endian 24 long_wire long_wire-lt

  long_fields :
      (long_wire / 2 ^ 128 ≡ Address.encode_to_int p.gn_addr)
      × (long_wire / 2 ^ 96 % 2 ^ 32 ≡ p.tst.msec)
      × ((long_wire >>> 64 & 0xFFFFFFFF) ≡ pos_part p.latitude)
      × ((long_wire >>> 32 & 0xFFFFFFFF) ≡ pos_part p.longitude)
      × ((long_wire >>> 31 & 0x1) ≡ pai_bit p.pai)
      × ((long_wire >>> 16 & 0x7FFF) ≡ pos_part p.s)
      × ((long_wire & 0xFFFF) ≡ pos_part p.h)
  long_fields =
      read_fields (Address.encode_to_int p.gn_addr) p.tst.msec (pos_part p.latitude)
        (pos_part p.longitude) (pai_bit p.pai) (pos_part p.s) (pos_part p.h) ht hla.1 hlo.1
        (pai_bit-le p.pai) hs.1 hh.1

  pub long_decode-eq : (rest : Bytes) → long_decode (long_bytes ++ rest) ≡ ok p
  unfolding long_decode
  long_decode-eq rest =
      rw
        (
          ge→ltb (length (long_bytes ++ rest)) 24 long_enough,
          take-append 24 long_bytes rest (length-big_endian 24 long_wire),
          long_read,
          long_fields.0,
          long_fields.1,
          long_fields.2,
          long_fields.3,
          long_fields.4,
          long_fields.5,
          long_fields.6,
          truth_of_bit-pai_bit p.pai,
          pos-pos_part p.latitude hla.0,
          pos-pos_part p.longitude hlo.0,
          pos-pos_part p.s hs.0,
          pos-pos_part p.h hh.0,
        )
        (decode-encode_to_int p.gn_addr valid.address (λ a. ok (record p { gn_addr = a })))
    where
      long_enough : 24 ≤ length (long_bytes ++ rest)
      long_enough = omega (arith, length-append long_bytes rest, length-big_endian 24 long_wire)

pub long_decode-exact :
    (p : LongPositionVector) (valid : IsValidLong p) → long_decode (long_bytes p valid) ≡ ok p
long_decode-exact p valid = rw append-nil at (long_decode-eq p valid [])

-- A long position vector whose fields are not negative and fit their widths is encoded, and the
-- octets, with whatever follows them in the packet, decode to the same vector.
pub long_decode-encode :
    (p : LongPositionVector) (rest : Bytes)
    → IsValidLong p
    → (long_encode p >>= λ bs. long_decode (bs ++ rest)) ≡ ok p
long_decode-encode p rest valid = rw (long_encode-eq p valid) (long_decode-eq p valid rest)

is_negative-pack_long :
    (address tst : ℕ) (latitude longitude : ℤ) (pai : ℕ) (s h : ℤ)
    → is_negative (pack_long address tst latitude longitude pai s h)
      ≡ (is_negative latitude || is_negative longitude || is_negative s || is_negative h)
unfolding pack_long
is_negative-pack_long address tst latitude longitude pai s h =
    simp (is_negative-or, is_negative-shift) (ground arith)

-- South of the equator or west of Greenwich, or with a negative speed or heading, the long position
-- vector is not encoded: the conversion to octets raises.
pub long_encode-negative :
    (p : LongPositionVector)
    → (is_negative p.latitude || is_negative p.longitude || is_negative p.s || is_negative p.h)
      ≡ true
    → long_encode p ≡ err overflow_error
unfolding long_encode long_encode_to_int
long_encode-negative p h = to_bytes_ℤ-negative (long_encode_to_int p) 24 (
    is_negative-pack_long (Address.encode_to_int p.gn_addr) (tst_encode p.tst) p.latitude
      p.longitude (pai_bit p.pai) p.s p.h
    ∙ h)
