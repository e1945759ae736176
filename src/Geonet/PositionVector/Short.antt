-- ===== src/Geonet/PositionVector/Short.antt =====
-- The 20 octets of the short position vector.
use Prim.Native.Nat.{bit_or}
use flex_stack.Prelude.{ℕ, ◌+◌, ◌*◌, ◌/◌, ◌%◌, ◌^◌, ◌<◌, ◌≡◌, ap, ok, ◌>>=◌, lt→ltb, false, arith}
use flex_stack.Prelude.Bits.{◌&◌, ◌>>>◌, or_fields, and_mask}
use flex_stack.Prelude.Int.{ℤ, pos, pos_part, is_negative}
use flex_stack.Bytes.{Bytes, big_endian, to_bytes, to_bytes_ℤ}
use flex_stack.Bytes.RoundTrip.{from_bytes-big_endian}
use flex_stack.Geonet.Address
use flex_stack.Geonet.Address.RoundTrip
use flex_stack.Geonet.Address.RoundTrip.{decode-encode_to_int}
use native.Mathlib.Nat.{mod-eq_of_lt}
use flex_stack.Geonet.PositionVector.{
  ShortPositionVector, pack_short, short_encode_to_int, short_encode, short_decode,
}
use flex_stack.Geonet.PositionVector.Unsigned.{IsUnsigned, pos-pos_part}

pub record IsValidShort (p : ShortPositionVector) : Type 0 where
  pub address : Address.RoundTrip.IsValid p.gn_addr
  pub tst : p.tst.msec < 2 ^ 32
  pub latitude : IsUnsigned 32 p.latitude
  pub longitude : IsUnsigned 32 p.longitude

abbrev pub wire4 : ℕ → ℕ → ℕ → ℕ → ℕ
wire4 address tst la lo = address * 2 ^ 96 + tst * 2 ^ 64 + la * 2 ^ 32 + lo

pack_short_valid :
    (address tst : ℕ) (latitude longitude : ℤ)
    → tst < 2 ^ 32
    → is_negative latitude ≡ false
    → pos_part latitude < 2 ^ 32
    → is_negative longitude ≡ false
    → pos_part longitude < 2 ^ 32
    → pack_short address tst latitude longitude
      ≡ pos (wire4 address tst (pos_part latitude) (pos_part longitude))
unfolding pack_short
pack_short_valid address tst (pos la) (pos lo) ht _ hla _ hlo =
    let z1 = bit_or (address * 2 ^ 96) (tst * 2 ^ 64) in
    let e1 = or_fields 96 address (address * 2 ^ 96) (tst * 2 ^ 64) (omega arith) (omega arith) in
    let z2 = bit_or z1 (la * 2 ^ 32) in
    let e2 =
      or_fields 64 (address * 2 ^ 32 + tst) z1 (la * 2 ^ 32) (omega (arith, e1)) (omega arith) in
    let e3 =
      or_fields 32 (address * 2 ^ 64 + tst * 2 ^ 32 + la) z2 lo (omega (arith, e1, e2))
        (omega arith) in
    ap pos (omega (arith, e1, e2, e3))
pack_short_valid address tst _ _ ht n1 hla n2 hlo = cc

module _ (p : ShortPositionVector) (valid : IsValidShort p) where
  open valid use {tst as ht, latitude as hla, longitude as hlo}

  abbrev pub short_wire : ℕ
  short_wire =
      wire4 (Address.encode_to_int p.gn_addr) p.tst.msec (pos_part p.latitude)
        (pos_part p.longitude)

  short_encode_to_int-eq : short_encode_to_int p ≡ pos short_wire
  unfolding short_encode_to_int
  short_encode_to_int-eq = rw (mod-eq_of_lt ht) (
      pack_short_valid (Address.encode_to_int p.gn_addr) p.tst.msec p.latitude p.longitude ht hla.0
        hla.1 hlo.0 hlo.1)

  short_wire-lt : short_wire < 2 ^ 160
  short_wire-lt =
      omega (arith, Address.RoundTrip.encode_to_int-lt p.gn_addr valid.address, ht, hla.1, hlo.1)

  abbrev pub short_bytes : Bytes
  short_bytes = big_endian 20 short_wire

  pub short_encode-eq : short_encode p ≡ ok short_bytes
  unfolding short_encode to_bytes_ℤ to_bytes
  short_encode-eq = rw (short_encode_to_int-eq, lt→ltb _ _ short_wire-lt)

  short_fields :
      (short_wire / 2 ^ 96 ≡ Address.encode_to_int p.gn_addr)
      × (short_wire / 2 ^ 64 % 2 ^ 32 ≡ p.tst.msec)
      × ((short_wire >>> 32 & 0xFFFFFFFF) ≡ pos_part p.latitude)
      × ((short_wire & 0xFFFFFFFF) ≡ pos_part p.longitude)
  short_fields = (
    omega (arith, ht, hla.1, hlo.1),
    omega (arith, ht, hla.1, hlo.1),
    omega (arith, ht, hla.1, hlo.1, and_mask 32 (short_wire / 2 ^ 32)),
    omega (arith, ht, hla.1, hlo.1, and_mask 32 short_wire),
  )

  pub short_decode-eq : short_decode short_bytes ≡ ok p
  unfolding short_decode
  short_decode-eq =
      rw
        (
          from_bytes-big_endian 20 short_wire short_wire-lt,
          short_fields.0,
          short_fields.1,
          short_fields.2,
          short_fields.3,
          pos-pos_part p.latitude hla.0,
          pos-pos_part p.longitude hlo.0,
        )
        (decode-encode_to_int p.gn_addr valid.address (λ a. ok (record p { gn_addr = a })))

-- A short position vector whose fields are not negative and fit their widths is encoded, and the 20
-- octets decode to the same vector.
pub short_decode-encode :
    (p : ShortPositionVector) → IsValidShort p → (short_encode p >>= short_decode) ≡ ok p
short_decode-encode p valid = rw (short_encode-eq p valid) (short_decode-eq p valid)
