-- ===== src/Geonet/ExtendedHeaders/Gbc.antt =====
-- The 44 octets of the GeoBroadcast header.
use mathlib.Core.List.{append_assoc}
use flex_stack.Prelude.{ℕ, ◌+◌, ◌≤◌, ◌<◌, ◌≡◌, ◌∙◌, ◌++◌, length, ok, ◌>>=◌, ge→ltb, arith}
use flex_stack.Prelude.Int.{pos_part}
use flex_stack.Bytes.{Bytes, big_endian, slice}
use flex_stack.Bytes.RoundTrip.{from_bytes-big_endian}
use flex_stack.Geonet.PositionVector.Unsigned.{IsUnsigned, pos-pos_part, to_bytes_ℤ-eq}
use flex_stack.Geonet.PositionVector.Long.{IsValidLong, long_encode-eq, long_decode-exact}
use flex_stack.Geonet.ExtendedHeaders.{GbcExtendedHeader, gbc_encode, gbc_decode}
use flex_stack.Geonet.ExtendedHeaders.Layout.{
  to_bytes-eq, prefix, length-prefix, slice_sn, slice_reserved, slice_pv, slice_tail, slice_field,
  slice_beyond, length-field, then_decode,
}

pub record IsValidGbc (h : GbcExtendedHeader) : Type 0 where
  pub sn : h.sn < 65536
  pub reserved : h.reserved < 65536
  pub so_pv : IsValidLong h.so_pv
  pub latitude : IsUnsigned 32 h.latitude
  pub longitude : IsUnsigned 32 h.longitude
  pub a : h.a < 65536
  pub b : h.b < 65536
  pub angle : h.angle < 65536
  pub reserved2 : h.reserved2 < 65536

-- The area behind the prefix.
module _ (la lo a b angle reserved2 : ℕ) (rest : Bytes) where
  abbrev area_bytes : Bytes
  area_bytes =
      big_endian 4 la
      ++ (big_endian 4 lo
          ++ (big_endian 2 a
              ++ (big_endian 2 b ++ (big_endian 2 angle ++ (big_endian 2 reserved2 ++ rest)))))

  abbrev after_angle : Bytes
  after_angle = big_endian 2 reserved2 ++ rest

  abbrev after_b : Bytes
  after_b = big_endian 2 angle ++ after_angle

  abbrev after_a : Bytes
  after_a = big_endian 2 b ++ after_b

  abbrev after_lo : Bytes
  after_lo = big_endian 2 a ++ after_a

  abbrev after_la : Bytes
  after_la = big_endian 4 lo ++ after_lo

  length-area : 16 ≤ length area_bytes
  length-area = omega (
    arith,
    length-field 4 la after_la,
    length-field 4 lo after_lo,
    length-field 2 a after_a,
    length-field 2 b after_b,
    length-field 2 angle after_angle,
    length-field 2 reserved2 rest,
  )

  past_lo : (m n : ℕ) → slice area_bytes (8 + m) (8 + n) ≡ slice after_lo m n
  past_lo m n =
      rw (regroup m, regroup n)
        (slice_beyond 4 la (4 + m) (4 + n) after_la ∙ slice_beyond 4 lo m n after_lo)
    where
      regroup : (k : ℕ) → 8 + k ≡ 4 + (4 + k)
      regroup k = omega arith

  past_b : (m n : ℕ) → slice area_bytes (12 + m) (12 + n) ≡ slice after_b m n
  past_b m n =
      rw (regroup m, regroup n)
        (past_lo (2 + (2 + m)) (2 + (2 + n))
          ∙ slice_beyond 2 a (2 + m) (2 + n) after_a
          ∙ slice_beyond 2 b m n after_b)
    where
      regroup : (k : ℕ) → 12 + k ≡ 8 + (2 + (2 + k))
      regroup k = omega arith

  area_parts :
      (slice area_bytes 0 4 ≡ big_endian 4 la)
      × (slice area_bytes 4 8 ≡ big_endian 4 lo)
      × (slice area_bytes 8 10 ≡ big_endian 2 a)
      × (slice area_bytes 10 12 ≡ big_endian 2 b)
      × (slice area_bytes 12 14 ≡ big_endian 2 angle)
      × (slice area_bytes 14 16 ≡ big_endian 2 reserved2)
  area_parts = (
    slice_field 4 la after_la,
    slice_beyond 4 la 0 4 after_la ∙ slice_field 4 lo after_lo,
    past_lo 0 2 ∙ slice_field 2 a after_a,
    past_lo 2 4 ∙ slice_beyond 2 a 0 2 after_a ∙ slice_field 2 b after_b,
    past_b 0 2 ∙ slice_field 2 angle after_angle,
    past_b 2 4 ∙ slice_beyond 2 angle 0 2 after_angle ∙ slice_field 2 reserved2 rest,
  )

module _ (h : GbcExtendedHeader) (valid : IsValidGbc h) (rest : Bytes) where
  abbrev area : Bytes
  area = area_bytes (pos_part h.latitude) (pos_part h.longitude) h.a h.b h.angle h.reserved2 rest

  gbc_encode-eq :
      (gbc_encode h >>= λ bs. ok (bs ++ rest))
      ≡ ok (prefix h.sn h.reserved h.so_pv valid.so_pv area)
  unfolding gbc_encode
  gbc_encode-eq =
      rw
        (
          to_bytes-eq h.sn 2 valid.sn,
          to_bytes-eq h.reserved 2 valid.reserved,
          long_encode-eq h.so_pv valid.so_pv,
          to_bytes_ℤ-eq h.latitude 4 valid.latitude.0 valid.latitude.1,
          to_bytes_ℤ-eq h.longitude 4 valid.longitude.0 valid.longitude.1,
          to_bytes-eq h.a 2 valid.a,
          to_bytes-eq h.b 2 valid.b,
          to_bytes-eq h.angle 2 valid.angle,
          to_bytes-eq h.reserved2 2 valid.reserved2,
        )
        (simp append_assoc)

  gbc_decode-eq : gbc_decode (prefix h.sn h.reserved h.so_pv valid.so_pv area) ≡ ok h
  unfolding gbc_decode
  gbc_decode-eq =
      let part = slice_tail h.sn h.reserved h.so_pv valid.so_pv area in
      let parts =
        area_parts (pos_part h.latitude) (pos_part h.longitude) h.a h.b h.angle h.reserved2 rest in
      rw (
        ge→ltb _ 44 long_enough,
        slice_pv h.sn h.reserved h.so_pv valid.so_pv area,
        slice_sn h.sn h.reserved h.so_pv valid.so_pv area,
        slice_reserved h.sn h.reserved h.so_pv valid.so_pv area,
        part 0 4 ∙ parts.0,
        part 4 8 ∙ parts.1,
        part 8 10 ∙ parts.2,
        part 10 12 ∙ parts.3,
        part 12 14 ∙ parts.4,
        part 14 16 ∙ parts.5,
        long_decode-exact h.so_pv valid.so_pv,
        from_bytes-big_endian 2 h.sn valid.sn,
        from_bytes-big_endian 2 h.reserved valid.reserved,
        from_bytes-big_endian 4 (pos_part h.latitude) valid.latitude.1,
        from_bytes-big_endian 4 (pos_part h.longitude) valid.longitude.1,
        from_bytes-big_endian 2 h.a valid.a,
        from_bytes-big_endian 2 h.b valid.b,
        from_bytes-big_endian 2 h.angle valid.angle,
        from_bytes-big_endian 2 h.reserved2 valid.reserved2,
        pos-pos_part h.latitude valid.latitude.0,
        pos-pos_part h.longitude valid.longitude.0,
      )
    where
      long_enough : 44 ≤ length (prefix h.sn h.reserved h.so_pv valid.so_pv area)
      long_enough = omega (
        arith,
        length-prefix h.sn h.reserved h.so_pv valid.so_pv area,
        length-area (pos_part h.latitude) (pos_part h.longitude) h.a h.b h.angle h.reserved2 rest,
      )

-- A GeoBroadcast header whose fields fit, with an area north of the equator and east of Greenwich,
-- is encoded, and the octets, with whatever follows them in the packet, decode to the same header.
pub gbc_decode-encode :
    (h : GbcExtendedHeader) (rest : Bytes)
    → IsValidGbc h
    → (gbc_encode h >>= λ bs. gbc_decode (bs ++ rest)) ≡ ok h
gbc_decode-encode h rest valid =
    then_decode (gbc_encode h) rest gbc_decode _ (gbc_encode-eq h valid rest)
    ∙ gbc_decode-eq h valid rest
