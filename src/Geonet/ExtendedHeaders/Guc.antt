-- ===== src/Geonet/ExtendedHeaders/Guc.antt =====
-- The 48 octets of the GeoUnicast header, which are those of the Location Service reply too.
use mathlib.Core.List.{append_assoc}
use flex_stack.Prelude.{◌≤◌, ◌<◌, ◌≡◌, ◌∙◌, ◌++◌, length, ok, ◌>>=◌, ge→ltb, arith}
use flex_stack.Bytes.{Bytes}
use flex_stack.Bytes.RoundTrip.{from_bytes-big_endian}
use flex_stack.Geonet.PositionVector.Long.{IsValidLong, long_encode-eq, long_decode-exact}
use flex_stack.Geonet.ExtendedHeaders.Layout.{
  to_bytes-eq, prefix, length-prefix, slice_sn, slice_reserved, slice_pv, slice_tail, slice_field,
  length-field, then_decode,
}
use flex_stack.Geonet.PositionVector.Short.{
  IsValidShort, short_bytes, short_wire, short_encode-eq, short_decode-eq,
}
use flex_stack.Geonet.ExtendedHeaders.{GucExtendedHeader, guc_encode, guc_decode}

pub record IsValidGuc (h : GucExtendedHeader) : Type 0 where
  pub sn : h.sn < 65536
  pub reserved : h.reserved < 65536
  pub so_pv : IsValidLong h.so_pv
  pub de_pv : IsValidShort h.de_pv

module _ (h : GucExtendedHeader) (valid : IsValidGuc h) (rest : Bytes) where
  abbrev destination : Bytes
  destination = short_bytes h.de_pv valid.de_pv ++ rest

  guc_encode-eq :
      (guc_encode h >>= λ bs. ok (bs ++ rest))
      ≡ ok (prefix h.sn h.reserved h.so_pv valid.so_pv destination)
  unfolding guc_encode
  guc_encode-eq =
      rw
        (
          to_bytes-eq h.sn 2 valid.sn,
          to_bytes-eq h.reserved 2 valid.reserved,
          long_encode-eq h.so_pv valid.so_pv,
          short_encode-eq h.de_pv valid.de_pv,
        )
        (simp append_assoc)

  guc_decode-eq : guc_decode (prefix h.sn h.reserved h.so_pv valid.so_pv destination) ≡ ok h
  unfolding guc_decode
  guc_decode-eq = rw (
    ge→ltb _ 48 long_enough,
    slice_pv h.sn h.reserved h.so_pv valid.so_pv destination,
    slice_sn h.sn h.reserved h.so_pv valid.so_pv destination,
    slice_reserved h.sn h.reserved h.so_pv valid.so_pv destination,
    slice_tail h.sn h.reserved h.so_pv valid.so_pv destination 0 20
        ∙ slice_field 20 (short_wire h.de_pv valid.de_pv) rest,
    long_decode-exact h.so_pv valid.so_pv,
    short_decode-eq h.de_pv valid.de_pv,
    from_bytes-big_endian 2 h.sn valid.sn,
    from_bytes-big_endian 2 h.reserved valid.reserved,
  )
    where
      long_enough : 48 ≤ length (prefix h.sn h.reserved h.so_pv valid.so_pv destination)
      long_enough = omega (
        arith,
        length-prefix h.sn h.reserved h.so_pv valid.so_pv destination,
        length-field 20 (short_wire h.de_pv valid.de_pv) rest,
      )

-- A GeoUnicast header, or a Location Service reply header, whose fields fit is encoded, and the
-- octets, with whatever follows them in the packet, decode to the same header.
pub guc_decode-encode :
    (h : GucExtendedHeader) (rest : Bytes)
    → IsValidGuc h
    → (guc_encode h >>= λ bs. guc_decode (bs ++ rest)) ≡ ok h
guc_decode-encode h rest valid =
    then_decode (guc_encode h) rest guc_decode _ (guc_encode-eq h valid rest)
    ∙ guc_decode-eq h valid rest
