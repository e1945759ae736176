-- ===== src/Geonet/CommonHeader.antt =====
-- src/flexstack/geonet/common_header.py: the Common Header, 8 octets.
pub mod RoundTrip
pub mod Mobility
use flex_stack.Prelude.{
  ℕ, ◌*◌, ◌/◌, ◌%◌, ◌^◌, ◌+◌, length, ltb, Result, ok, err, decode_error, ◌>>=◌, if◌then◌else◌,
}
use flex_stack.Prelude.Bits.{◌<<◌, ◌>>>◌, ◌&◌, ◌¦◌}
use flex_stack.Bytes.{Bytes, to_bytes, from_bytes, slice}
use flex_stack.Geonet.Mib.{Mib, is_mobile_value}
use flex_stack.Geonet.Request.{
  CommonNh, any, common_nh_value, common_nh_of_value, HeaderType, any_type, beacon, geounicast,
  geoanycast, geobroadcast, tsb, ls, header_type_value, header_type_of_value, Hst, unspecified,
  single_hop, hst_value, hst_of_value, TrafficClass, default_traffic_class, tc_encode_to_int,
  tc_decode_from_int, GnDataRequest,
}

pub record CommonHeader : Type 0 where
  pub nh : CommonNh
  pub reserved : ℕ
  pub ht : HeaderType
  pub hst : Hst
  pub tc : TrafficClass
  pub flags : ℕ
  pub pl : ℕ
  pub mhl : ℕ

-- One hop for a single-hop broadcast, else what the request asks for.
abbrev pub request_mhl : HeaderType → Hst → ℕ → ℕ
request_mhl tsb single_hop max_hop_limit = 1
request_mhl _ _ max_hop_limit = max_hop_limit

unfoldable pub initialize_with_request : GnDataRequest → Mib → CommonHeader
initialize_with_request request mib =
    let ht = request.packet_transport_type.header_type in
    let hst = request.packet_transport_type.header_subtype in
    record {
      nh = request.upper_protocol_entity;
      reserved = 0;
      ht = ht;
      hst = hst;
      tc = request.traffic_class;
      flags = is_mobile_value mib.its_gn_is_mobile << 7;
      pl = request.length;
      mhl = request_mhl ht hst request.max_hop_limit;
    }

unfoldable pub initialize_beacon : Mib → CommonHeader
initialize_beacon mib = record {
  nh = any;
  reserved = 0;
  ht = beacon;
  hst = unspecified;
  tc = default_traffic_class;
  flags = is_mobile_value mib.its_gn_is_mobile;
  pl = 0;
  mhl = 1;
}

unfoldable pub encode_to_int : CommonHeader → ℕ
encode_to_int h =
    common_nh_value h.nh << (4 + 8 * 7)
    ¦ h.reserved << (8 * 7)
    ¦ header_type_value h.ht << (4 + 8 * 6)
    ¦ hst_value h.hst << (8 * 6)
    ¦ tc_encode_to_int h.tc << (8 * 5)
    ¦ h.flags << (8 * 4)
    ¦ h.pl << (8 * 2)
    ¦ h.mhl << 8
    ¦ h.reserved

unfoldable pub encode_to_bytes : CommonHeader → Result Bytes
unfolding encode_to_int
encode_to_bytes h = to_bytes (encode_to_int h) 8

unfoldable pub decode_from_int : ℕ → Result CommonHeader
decode_from_int header = do
  nh ← common_nh_of_value (header >>> (4 + 8 * 7) & 15)
  ht ← header_type_of_value (header >>> (4 + 8 * 6) & 15)
  hst ← hst_of_value ht (header >>> (8 * 6) & 15)
  let tc = tc_decode_from_int (header >>> (8 * 5) & 255)
  let flags = header >>> (8 * 4) & 128
  let pl = header >>> (8 * 2) & 65535
  let mhl = header >>> 8 & 255
  let reserved = header & 255
  ok (record {
    nh = nh;
    reserved = reserved;
    ht = ht;
    hst = hst;
    tc = tc;
    flags = flags;
    pl = pl;
    mhl = mhl;
  })

unfoldable pub decode_from_bytes : Bytes → Result CommonHeader
unfolding decode_from_int
decode_from_bytes header =
    if ltb (length header) 8
    then err decode_error
    else decode_from_int (from_bytes (slice header 0 8))
