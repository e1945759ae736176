-- ===== src/Geonet/ExtendedHeaders/Tsb.antt =====
-- The 28 octets of the topological broadcast header.
use mathlib.Core.List.{append_assoc}
use flex_stack.Prelude.{◌≤◌, ◌<◌, ◌≡◌, ◌∙◌, ◌++◌, length, ok, ◌>>=◌, ge→ltb, arith}
use flex_stack.Bytes.{Bytes}
use flex_stack.Bytes.RoundTrip.{from_bytes-big_endian}
use flex_stack.Geonet.PositionVector.Long.{IsValidLong, long_encode-eq, long_decode-exact}
use flex_stack.Geonet.ExtendedHeaders.{TsbExtendedHeader, tsb_encode, tsb_decode}
use flex_stack.Geonet.ExtendedHeaders.Layout.{
  to_bytes-eq, prefix, length-prefix, slice_sn, slice_reserved, slice_pv, then_decode,
}

pub record IsValidTsb (h : TsbExtendedHeader) : Type 0 where
  pub sn : h.sn < 65536
  pub reserved : h.reserved < 65536
  pub so_pv : IsValidLong h.so_pv

module _ (h : TsbExtendedHeader) (valid : IsValidTsb h) (rest : Bytes) where
  tsb_encode-eq :
      (tsb_encode h >>= λ bs. ok (bs ++ rest))
      ≡ ok (prefix h.sn h.reserved h.so_pv valid.so_pv rest)
  unfolding tsb_encode
  tsb_encode-eq =
      rw
        (
          to_bytes-eq h.sn 2 valid.sn,
          to_bytes-eq h.reserved 2 valid.reserved,
          long_encode-eq h.so_pv valid.so_pv,
        )
        (simp append_assoc)

  tsb_decode-eq : tsb_decode (prefix h.sn h.reserved h.so_pv valid.so_pv rest) ≡ ok h
  unfolding tsb_decode
  tsb_decode-eq = rw (
    ge→ltb _ 28 long_enough,
    slice_pv h.sn h.reserved h.so_pv valid.so_pv rest,
    slice_sn h.sn h.reserved h.so_pv valid.so_pv rest,
    slice_reserved h.sn h.reserved h.so_pv valid.so_pv rest,
    long_decode-exact h.so_pv valid.so_pv,
    from_bytes-big_endian 2 h.sn valid.sn,
    from_bytes-big_endian 2 h.reserved valid.reserved,
  )
    where
      long_enough : 28 ≤ length (prefix h.sn h.reserved h.so_pv valid.so_pv rest)
      long_enough = omega (arith, length-prefix h.sn h.reserved h.so_pv valid.so_pv rest)

-- A topological broadcast header whose fields fit is encoded, and the octets, with whatever follows
-- them in the packet, decode to the same header.
pub tsb_decode-encode :
    (h : TsbExtendedHeader) (rest : Bytes)
    → IsValidTsb h
    → (tsb_encode h >>= λ bs. tsb_decode (bs ++ rest)) ≡ ok h
tsb_decode-encode h rest valid =
    then_decode (tsb_encode h) rest tsb_decode _ (tsb_encode-eq h valid rest)
    ∙ tsb_decode-eq h valid rest
