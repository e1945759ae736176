-- ===== src/Geonet/ExtendedHeaders/LsRequest.antt =====
-- The 36 octets of the Location Service request header.
use mathlib.Core.List.{append_assoc}
use flex_stack.Prelude.{◌^◌, ◌≤◌, ◌<◌, ◌≡◌, ◌∙◌, ◌++◌, length, ok, ◌>>=◌, ge→ltb, arith}
use flex_stack.Bytes.{Bytes, big_endian}
use flex_stack.Bytes.RoundTrip.{from_bytes-big_endian}
use flex_stack.Geonet.PositionVector.Long.{IsValidLong, long_encode-eq, long_decode-exact}
use flex_stack.Geonet.ExtendedHeaders.Layout.{
  to_bytes-eq, prefix, length-prefix, slice_sn, slice_reserved, slice_pv, slice_tail, slice_field,
  length-field, then_decode,
}
use flex_stack.Geonet.Address
use flex_stack.Geonet.Address.RoundTrip
use flex_stack.Geonet.ExtendedHeaders.{
  LsRequestExtendedHeader, ls_request_encode, ls_request_decode,
}

pub record IsValidLsRequest (h : LsRequestExtendedHeader) : Type 0 where
  pub sn : h.sn < 65536
  pub reserved : h.reserved < 65536
  pub so_pv : IsValidLong h.so_pv
  pub request_gn_addr : Address.RoundTrip.IsValid h.request_gn_addr

module _ (h : LsRequestExtendedHeader) (valid : IsValidLsRequest h) (rest : Bytes) where
  abbrev sought : Bytes
  sought = big_endian 8 (Address.encode_to_int h.request_gn_addr) ++ rest

  sought-lt : Address.encode_to_int h.request_gn_addr < 256 ^ 8
  sought-lt = Address.RoundTrip.encode_to_int-lt h.request_gn_addr valid.request_gn_addr

  ls_request_encode-eq :
      (ls_request_encode h >>= λ bs. ok (bs ++ rest))
      ≡ ok (prefix h.sn h.reserved h.so_pv valid.so_pv sought)
  unfolding ls_request_encode
  ls_request_encode-eq =
      rw
        (
          to_bytes-eq h.sn 2 valid.sn,
          to_bytes-eq h.reserved 2 valid.reserved,
          long_encode-eq h.so_pv valid.so_pv,
          to_bytes-eq (Address.encode_to_int h.request_gn_addr) 8 sought-lt,
        )
        (simp append_assoc)

  ls_request_decode-eq :
      ls_request_decode (prefix h.sn h.reserved h.so_pv valid.so_pv sought) ≡ ok h
  unfolding ls_request_decode
  ls_request_decode-eq = rw (
    ge→ltb _ 36 long_enough,
    slice_pv h.sn h.reserved h.so_pv valid.so_pv sought,
    slice_sn h.sn h.reserved h.so_pv valid.so_pv sought,
    slice_reserved h.sn h.reserved h.so_pv valid.so_pv sought,
    slice_tail h.sn h.reserved h.so_pv valid.so_pv sought 0 8
        ∙ slice_field 8 (Address.encode_to_int h.request_gn_addr) rest,
    long_decode-exact h.so_pv valid.so_pv,
    Address.RoundTrip.decode-big_endian h.request_gn_addr valid.request_gn_addr,
    from_bytes-big_endian 2 h.sn valid.sn,
    from_bytes-big_endian 2 h.reserved valid.reserved,
  )
    where
      long_enough : 36 ≤ length (prefix h.sn h.reserved h.so_pv valid.so_pv sought)
      long_enough = omega (
        arith,
        length-prefix h.sn h.reserved h.so_pv valid.so_pv sought,
        length-field 8 (Address.encode_to_int h.request_gn_addr) rest,
      )

-- A Location Service request header whose fields fit is encoded, and the octets, with whatever
-- follows them in the packet, decode to the same header.
pub ls_request_decode-encode :
    (h : LsRequestExtendedHeader) (rest : Bytes)
    → IsValidLsRequest h
    → (ls_request_encode h >>= λ bs. ls_request_decode (bs ++ rest)) ≡ ok h
ls_request_decode-encode h rest valid =
    then_decode (ls_request_encode h) rest ls_request_decode _ (ls_request_encode-eq h valid rest)
    ∙ ls_request_decode-eq h valid rest
