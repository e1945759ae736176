-- ===== src/Geonet/CommonHeader/Mobility.antt =====
-- The bit of the Common Header that says whether the station is mobile, from the sender's
-- management information base to the receiver.
use flex_stack.Prelude.{ℕ, ◌*◌, ◌/◌, ◌≤◌, ◌<◌, ◌≡◌, refl, ok, ◌>>=◌, ◌++◌, arith}
use flex_stack.Bytes.{Bytes}
use flex_stack.Geonet.Mib.{Mib, GnIsMobile, stationary, mobile, is_mobile_value}
use flex_stack.Geonet.Request.{
  GnDataRequest, hst_of_value, hst_value, single_hop, tsb, HeaderType, Hst,
}
use flex_stack.Geonet.CommonHeader.{
  initialize_with_request, initialize_beacon, request_mhl, encode_to_bytes, decode_from_bytes,
}
use flex_stack.Geonet.CommonHeader.RoundTrip.{IsValid, common_decode-encode}

is_mobile_value-le : (m : GnIsMobile) → is_mobile_value m ≤ 1
is_mobile_value-le stationary = omega arith
is_mobile_value-le mobile = omega arith

mobility_alone : (m : GnIsMobile) → is_mobile_value m * 128 / 128 * 128 ≡ is_mobile_value m * 128
mobility_alone m = omega arith

beacon_flag : (m : GnIsMobile) → is_mobile_value m / 128 * 128 ≡ 0
beacon_flag stationary = refl
beacon_flag mobile = refl

beacon-IsValid : (mib : Mib) → IsValid (initialize_beacon mib)
unfolding initialize_beacon
beacon-IsValid mib = record {
  reserved = omega arith;
  subtype = refl;
  tc_id = omega arith;
  flags = omega (arith, is_mobile_value-le mib.its_gn_is_mobile);
  pl = omega arith;
  mhl = omega arith;
}

-- The beacon's Common Header arrives with all flags clear, whatever the sender's mobility: a mobile
-- station's beacon says that it is stationary.
pub beacon_mobility_lost :
    (mib : Mib) (rest : Bytes)
    → (encode_to_bytes (initialize_beacon mib) >>= λ bs. decode_from_bytes (bs ++ rest))
      ≡ ok (record (initialize_beacon mib) { flags = 0 })
unfolding initialize_beacon
beacon_mobility_lost mib rest = rw (
  common_decode-encode (initialize_beacon mib) rest (beacon-IsValid mib),
  beacon_flag mib.its_gn_is_mobile,
)

mhl-lt : (ht : HeaderType) (hst : Hst) (hops : ℕ) → hops < 256 → request_mhl ht hst hops < 256
mhl-lt tsb single_hop hops h = omega arith
mhl-lt _ _ hops h = h

-- The Common Header that is made for a request arrives unchanged, mobility included, where the
-- subtype belongs to the type and the request's numbers fit their fields.
pub request_mobility_kept :
    (request : GnDataRequest) (mib : Mib) (rest : Bytes)
    → hst_of_value request.packet_transport_type.header_type
        (hst_value request.packet_transport_type.header_subtype)
      ≡ ok request.packet_transport_type.header_subtype
    → request.traffic_class.tc_id < 64
    → request.length < 65536
    → request.max_hop_limit < 256
    → (encode_to_bytes (initialize_with_request request mib) >>= λ bs.
        decode_from_bytes (bs ++ rest))
      ≡ ok (initialize_with_request request mib)
unfolding initialize_with_request
request_mobility_kept request mib rest subtype tc_id pl mhl = rw (
  common_decode-encode (initialize_with_request request mib) rest valid,
  mobility_alone mib.its_gn_is_mobile,
)
  where
    valid : IsValid (initialize_with_request request mib)
    valid = record {
      reserved = omega arith;
      subtype = subtype;
      tc_id = tc_id;
      flags = omega (arith, is_mobile_value-le mib.its_gn_is_mobile);
      pl = pl;
      mhl =
          mhl-lt request.packet_transport_type.header_type
            request.packet_transport_type.header_subtype request.max_hop_limit mhl;
    }
