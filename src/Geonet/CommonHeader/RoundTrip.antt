-- ===== src/Geonet/CommonHeader/RoundTrip.antt =====
-- What the Common Header's encoder writes, its decoder reads back, but for the reserved bits of the
-- flags, which the decoder clears.
use Prim.Native.Nat.{bit_or}
use flex_stack.Prelude.{
  ℕ, ◌+◌, ◌*◌, ◌/◌, ◌^◌, ◌≤◌, ◌<◌, ◌≡◌, refl, ◌++◌, length, length-append, take-append, ok, ◌>>=◌,
  lt→ltb, ge→ltb, arith,
}
use flex_stack.Prelude.Bits.{◌&◌, ◌>>>◌, or_fields, and_mask, and_128}
use flex_stack.Bytes.{Bytes, big_endian, to_bytes}
use flex_stack.Bytes.RoundTrip.{length-big_endian, from_bytes-big_endian}
use flex_stack.Geonet.Request.{
  CommonNh, any, common_nh_value, common_nh_of_value, HeaderType, any_type, header_type_value,
  header_type_of_value, Hst, unspecified, hst_value, hst_of_value, tc_encode_to_int,
}
use flex_stack.Geonet.Request.TrafficClasses.{tc_encode_to_int-lt, tc_decode-encode}
use flex_stack.Geonet.CommonHeader.{
  CommonHeader, encode_to_int, encode_to_bytes, decode_from_int, decode_from_bytes,
}

-- Every field has its width, and the header subtype is one of the header type's.
pub record IsValid (c : CommonHeader) : Type 0 where
  pub reserved : c.reserved < 16
  pub subtype : hst_of_value c.ht (hst_value c.hst) ≡ ok c.hst
  pub tc_id : c.tc.tc_id < 64
  pub flags : c.flags < 256
  pub pl : c.pl < 65536
  pub mhl : c.mhl < 256

common_nh_value-le : (nh : CommonNh) → common_nh_value nh ≤ 3
common_nh_value-le any = omega arith
common_nh_value-le _ = omega arith

common_nh_of_value-value : (nh : CommonNh) → common_nh_of_value (common_nh_value nh) ≡ ok nh
common_nh_of_value-value any = refl
common_nh_of_value-value _ = refl

header_type_value-le : (ht : HeaderType) → header_type_value ht ≤ 6
header_type_value-le any_type = omega arith
header_type_value-le _ = omega arith

header_type_of_value-value : (ht : HeaderType) → header_type_of_value (header_type_value ht) ≡ ok ht
header_type_of_value-value any_type = refl
header_type_of_value-value _ = refl

hst_value-le : (hst : Hst) → hst_value hst ≤ 2
hst_value-le unspecified = omega arith
hst_value-le _ = omega arith

-- The nine fields, from the left.
module _ (nh r ht hst tc flags pl mhl : ℕ) where
  abbrev wire : ℕ
  wire =
      nh * 2 ^ 60
      + r * 2 ^ 56
      + ht * 2 ^ 52
      + hst * 2 ^ 48
      + tc * 2 ^ 40
      + flags * 2 ^ 32
      + pl * 2 ^ 16
      + mhl * 2 ^ 8
      + r

  record Widths : Type 0 where
    nh_width : nh < 16
    r_width : r < 16
    ht_width : ht < 16
    hst_width : hst < 16
    tc_width : tc < 256
    flags_width : flags < 256
    pl_width : pl < 65536
    mhl_width : mhl < 256

  module _ (w : Widths) where
    joined :
        bit_or
          (bit_or
            (bit_or
              (bit_or
                (bit_or
                  (bit_or (bit_or (bit_or (nh * 2 ^ 60) (r * 2 ^ 56)) (ht * 2 ^ 52)) (hst * 2 ^ 48))
                  (tc * 2 ^ 40))
                (flags * 2 ^ 32))
              (pl * 2 ^ 16))
            (mhl * 2 ^ 8))
          r
        ≡ wire
    joined =
        let z1 = bit_or (nh * 2 ^ 60) (r * 2 ^ 56) in
        let e1 = or_fields 60 nh (nh * 2 ^ 60) (r * 2 ^ 56) (omega arith) (omega arith) in
        let n1 = nh * 16 + r in
        let z2 = bit_or z1 (ht * 2 ^ 52) in
        let e2 = or_fields 56 n1 z1 (ht * 2 ^ 52) (omega (arith, e1)) (omega arith) in
        let n2 = n1 * 16 + ht in
        let z3 = bit_or z2 (hst * 2 ^ 48) in
        let e3 = or_fields 52 n2 z2 (hst * 2 ^ 48) (omega (arith, e1, e2)) (omega arith) in
        let n3 = n2 * 16 + hst in
        let z4 = bit_or z3 (tc * 2 ^ 40) in
        let e4 = or_fields 48 n3 z3 (tc * 2 ^ 40) (omega (arith, e1, e2, e3)) (omega arith) in
        let n4 = n3 * 256 + tc in
        let z5 = bit_or z4 (flags * 2 ^ 32) in
        let e5 =
          or_fields 40 n4 z4 (flags * 2 ^ 32) (omega (arith, e1, e2, e3, e4)) (omega arith) in
        let n5 = n4 * 256 + flags in
        let z6 = bit_or z5 (pl * 2 ^ 16) in
        let e6 =
          or_fields 32 n5 z5 (pl * 2 ^ 16) (omega (arith, e1, e2, e3, e4, e5)) (omega arith) in
        let n6 = n5 * 65536 + pl in
        let z7 = bit_or z6 (mhl * 2 ^ 8) in
        let e7 =
          or_fields 16 n6 z6 (mhl * 2 ^ 8) (omega (arith, e1, e2, e3, e4, e5, e6)) (omega arith) in
        let n7 = n6 * 256 + mhl in
        let e8 = or_fields 8 n7 z7 r (omega (arith, e1, e2, e3, e4, e5, e6, e7)) (omega arith) in
        omega (arith, e1, e2, e3, e4, e5, e6, e7, e8)

    wire-lt : wire < 2 ^ 64
    wire-lt = omega arith

    read_fields :
        ((wire >>> 60 & 15) ≡ nh)
        × ((wire >>> 52 & 15) ≡ ht)
        × ((wire >>> 48 & 15) ≡ hst)
        × ((wire >>> 40 & 255) ≡ tc)
        × ((wire >>> 32 & 128) ≡ flags / 128 * 128)
        × ((wire >>> 16 & 65535) ≡ pl)
        × ((wire >>> 8 & 255) ≡ mhl)
        × ((wire & 255) ≡ r)
    read_fields = (
      omega (arith, and_mask 4 (wire / 2 ^ 60)),
      omega (arith, and_mask 4 (wire / 2 ^ 52)),
      omega (arith, and_mask 4 (wire / 2 ^ 48)),
      omega (arith, and_mask 8 (wire / 2 ^ 40)),
      omega (arith, and_128 (wire / 2 ^ 32)),
      omega (arith, and_mask 16 (wire / 2 ^ 16)),
      omega (arith, and_mask 8 (wire / 2 ^ 8)),
      omega (arith, and_mask 8 wire),
    )

-- The header with the reserved bits of the flags cleared.
abbrev pub with_mobility_alone : CommonHeader → CommonHeader
with_mobility_alone c = record c { flags = c.flags / 128 * 128 }

module _ (c : CommonHeader) (valid : IsValid c) where
  abbrev header_wire : ℕ
  header_wire =
      wire (common_nh_value c.nh) c.reserved (header_type_value c.ht) (hst_value c.hst)
        (tc_encode_to_int c.tc) c.flags c.pl c.mhl

  widths :
      Widths
        (common_nh_value c.nh)
        c.reserved
        (header_type_value c.ht)
        (hst_value c.hst)
        (tc_encode_to_int c.tc)
        c.flags
        c.pl
        c.mhl
  widths = record {
    nh_width = omega (arith, common_nh_value-le c.nh);
    r_width = valid.reserved;
    ht_width = omega (arith, header_type_value-le c.ht);
    hst_width = omega (arith, hst_value-le c.hst);
    tc_width = tc_encode_to_int-lt c.tc valid.tc_id;
    flags_width = valid.flags;
    pl_width = valid.pl;
    mhl_width = valid.mhl;
  }

  encode_to_int-eq : encode_to_int c ≡ header_wire
  unfolding encode_to_int
  encode_to_int-eq =
      joined (common_nh_value c.nh) c.reserved (header_type_value c.ht) (hst_value c.hst)
        (tc_encode_to_int c.tc) c.flags c.pl c.mhl widths

  header_wire-lt : header_wire < 2 ^ 64
  header_wire-lt =
      wire-lt (common_nh_value c.nh) c.reserved (header_type_value c.ht) (hst_value c.hst)
        (tc_encode_to_int c.tc) c.flags c.pl c.mhl widths

  decode_from_int-eq : decode_from_int header_wire ≡ ok (with_mobility_alone c)
  unfolding decode_from_int
  decode_from_int-eq =
      let f =
        read_fields (common_nh_value c.nh) c.reserved (header_type_value c.ht) (hst_value c.hst)
          (tc_encode_to_int c.tc) c.flags c.pl c.mhl widths in
      rw (
        f.0,
        f.1,
        f.2,
        f.3,
        f.4,
        f.5,
        f.6,
        f.7,
        common_nh_of_value-value c.nh,
        header_type_of_value-value c.ht,
        valid.subtype,
        tc_decode-encode c.tc valid.tc_id,
      )

  abbrev header_bytes : Bytes
  header_bytes = big_endian 8 header_wire

  pub encode_to_bytes-eq : encode_to_bytes c ≡ ok header_bytes
  unfolding encode_to_bytes to_bytes
  encode_to_bytes-eq = rw (encode_to_int-eq, lt→ltb _ _ header_wire-lt)

  pub decode_from_bytes-eq :
      (rest : Bytes) → decode_from_bytes (header_bytes ++ rest) ≡ ok (with_mobility_alone c)
  unfolding decode_from_bytes
  decode_from_bytes-eq rest =
      rw
        (
          ge→ltb (length (header_bytes ++ rest)) 8 long_enough,
          take-append 8 header_bytes rest (length-big_endian 8 header_wire),
          from_bytes-big_endian 8 header_wire header_wire-lt,
        )
        decode_from_int-eq
    where
      long_enough : 8 ≤ length (header_bytes ++ rest)
      long_enough = omega (arith, length-append header_bytes rest, length-big_endian 8 header_wire)

-- A header whose fields have their widths, and whose subtype belongs to its type, is encoded; the
-- octets, with whatever follows them, decode to the same header with the seven reserved bits of the
-- flags cleared.
pub common_decode-encode :
    (c : CommonHeader) (rest : Bytes)
    → IsValid c
    → (encode_to_bytes c >>= λ bs. decode_from_bytes (bs ++ rest)) ≡ ok (with_mobility_alone c)
common_decode-encode c rest valid =
    rw (encode_to_bytes-eq c valid) (decode_from_bytes-eq c valid rest)
