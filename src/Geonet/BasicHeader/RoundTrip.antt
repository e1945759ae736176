-- ===== src/Geonet/BasicHeader/RoundTrip.antt =====
-- What the Basic Header's encoder writes, its decoder reads back.
use Prim.Native.Nat.{bit_or}
use flex_stack.Prelude.{
  ℕ, ◌+◌, ◌*◌, ◌/◌, ◌^◌, ◌≤◌, ◌<◌, ◌≡◌, refl, ◌++◌, length, length-append, take-append, ok, ◌>>=◌,
  lt→ltb, ge→ltb, arith,
}
use flex_stack.Prelude.Bits.{◌&◌, ◌>>>◌, or_fields, and_mask}
use flex_stack.Bytes.{Bytes, big_endian, to_bytes}
use flex_stack.Bytes.RoundTrip.{length-big_endian, from_bytes-big_endian}
use flex_stack.Geonet.BasicHeader.{
  BasicNh, any, basic_nh_value, basic_nh_of_value, LtBase, fifty_milliseconds, lt_base_value,
  lt_base_of_value, Lt, lt_encode_to_int, BasicHeader, encode_to_int, encode_to_bytes,
  decode_from_int, decode_from_bytes,
}

-- Every field has the width that the wire format gives it.
pub record IsValid (h : BasicHeader) : Type 0 where
  pub version : h.version < 16
  pub reserved : h.reserved < 256
  pub multiplier : h.lt.multiplier < 64
  pub rhl : h.rhl < 256

basic_nh_value-le : (nh : BasicNh) → basic_nh_value nh ≤ 2
basic_nh_value-le any = omega arith
basic_nh_value-le _ = omega arith

lt_base_value-le : (base : LtBase) → lt_base_value base ≤ 3
lt_base_value-le fifty_milliseconds = omega arith
lt_base_value-le _ = omega arith

basic_nh_of_value-value : (nh : BasicNh) → basic_nh_of_value (basic_nh_value nh) ≡ ok nh
basic_nh_of_value-value any = refl
basic_nh_of_value-value _ = refl

lt_base_of_value-value : (base : LtBase) → lt_base_of_value (lt_base_value base) ≡ ok base
lt_base_of_value-value fifty_milliseconds = refl
lt_base_of_value-value _ = refl

pub lt_encode_to_int-fields :
    (lt : Lt) → lt_encode_to_int lt ≡ lt.multiplier * 4 + lt_base_value lt.base
unfolding lt_encode_to_int
lt_encode_to_int-fields lt =
    or_fields 2 lt.multiplier (lt.multiplier * 2 ^ 2) (lt_base_value lt.base) (omega arith)
      (omega (arith, lt_base_value-le lt.base))

module _ (h : BasicHeader) (valid : IsValid h) where
  abbrev wire : ℕ
  wire =
      h.version * 2 ^ 28
      + basic_nh_value h.nh * 2 ^ 24
      + h.reserved * 2 ^ 16
      + h.lt.multiplier * 2 ^ 10
      + lt_base_value h.lt.base * 2 ^ 8
      + h.rhl

  pub encode_to_int-fields : encode_to_int h ≡ wire
  unfolding encode_to_int
  encode_to_int-fields =
      let nh = basic_nh_value h.nh in
      let lt = lt_encode_to_int h.lt in
      let first =
        or_fields 28 h.version (h.version * 2 ^ 28) (nh * 2 ^ 24) (omega arith)
          (omega (arith, basic_nh_value-le h.nh)) in
      let second =
        or_fields 24 (h.version * 16 + nh) (bit_or (h.version * 2 ^ 28) (nh * 2 ^ 24))
          (h.reserved * 2 ^ 16) (omega (arith, first)) (omega (arith, valid.reserved)) in
      let third =
        or_fields 16 (h.version * 2 ^ 12 + nh * 2 ^ 8 + h.reserved)
          (bit_or (bit_or (h.version * 2 ^ 28) (nh * 2 ^ 24)) (h.reserved * 2 ^ 16)) (lt * 2 ^ 8)
          (omega (arith, first, second))
          (omega
            (arith, lt_encode_to_int-fields h.lt, valid.multiplier, lt_base_value-le h.lt.base)) in
      omega (
        arith,
        first,
        second,
        third,
        lt_encode_to_int-fields h.lt,
        or_fields 8 (h.version * 2 ^ 20 + nh * 2 ^ 16 + h.reserved * 2 ^ 8 + lt)
            (bit_or (bit_or (bit_or (h.version * 2 ^ 28) (nh * 2 ^ 24)) (h.reserved * 2 ^ 16))
              (lt * 2 ^ 8))
            h.rhl (omega (arith, first, second, third)) (omega (arith, valid.rhl)),
      )

  encode_to_int-lt : encode_to_int h < 2 ^ 32
  encode_to_int-lt = omega (
    arith,
    encode_to_int-fields,
    valid.version,
    valid.reserved,
    valid.multiplier,
    valid.rhl,
    basic_nh_value-le h.nh,
    lt_base_value-le h.lt.base,
  )

  read_fields :
      let n = encode_to_int h in
      ((n >>> 28 & 0xF) ≡ h.version)
      × ((n >>> 24 & 0xF) ≡ basic_nh_value h.nh)
      × ((n >>> 16 & 0xFF) ≡ h.reserved)
      × ((n >>> 10 & 0x3F) ≡ h.lt.multiplier)
      × ((n >>> 8 & 0x03) ≡ lt_base_value h.lt.base)
      × ((n & 0xFF) ≡ h.rhl)
  read_fields =
      let n = encode_to_int h in
      let nh = basic_nh_value-le h.nh in
      let base = lt_base_value-le h.lt.base in
      (
        omega (arith, encode_to_int-fields, valid, nh, base, and_mask 4 (n / 2 ^ 28)),
        omega (arith, encode_to_int-fields, valid, nh, base, and_mask 4 (n / 2 ^ 24)),
        omega (arith, encode_to_int-fields, valid, nh, base, and_mask 8 (n / 2 ^ 16)),
        omega (arith, encode_to_int-fields, valid, nh, base, and_mask 6 (n / 2 ^ 10)),
        omega (arith, encode_to_int-fields, valid, nh, base, and_mask 2 (n / 2 ^ 8)),
        omega (arith, encode_to_int-fields, valid, nh, base, and_mask 8 n),
      )

  decode_from_int-encode : decode_from_int (encode_to_int h) ≡ ok h
  unfolding decode_from_int
  decode_from_int-encode = rw (
    read_fields.0,
    read_fields.1,
    read_fields.2,
    read_fields.3,
    read_fields.4,
    read_fields.5,
    basic_nh_of_value-value h.nh,
    lt_base_of_value-value h.lt.base,
  )

  abbrev wire_bytes : Bytes
  wire_bytes = big_endian 4 (encode_to_int h)

  pub encode_to_bytes-eq : encode_to_bytes h ≡ ok wire_bytes
  unfolding encode_to_bytes to_bytes
  encode_to_bytes-eq = rw (lt→ltb _ _ encode_to_int-lt)

  pub decode_from_bytes-eq : (rest : Bytes) → decode_from_bytes (wire_bytes ++ rest) ≡ ok h
  unfolding decode_from_bytes
  decode_from_bytes-eq rest =
      rw
        (
          ge→ltb (length (wire_bytes ++ rest)) 4 long_enough,
          take-append 4 wire_bytes rest (length-big_endian 4 (encode_to_int h)),
          from_bytes-big_endian 4 (encode_to_int h) encode_to_int-lt,
        )
        decode_from_int-encode
    where
      long_enough : 4 ≤ length (wire_bytes ++ rest)
      long_enough =
          omega (arith, length-append wire_bytes rest, length-big_endian 4 (encode_to_int h))

-- A header whose fields have the widths of the wire format is encoded, and the octets, with
-- whatever follows them in the packet, decode to the same header.
pub basic_decode-encode :
    (h : BasicHeader) (rest : Bytes)
    → IsValid h
    → (encode_to_bytes h >>= λ bs. decode_from_bytes (bs ++ rest)) ≡ ok h
basic_decode-encode h rest valid =
    rw (encode_to_bytes-eq h valid) (decode_from_bytes-eq h valid rest)
