-- ===== src/Geonet/Request.antt =====
-- src/flexstack/geonet/service_access_point.py: the types of the GN-DATA primitives, and the
-- traffic class with its octet on the wire.
pub mod TrafficClasses
use flex_stack.Prelude.{
  ℕ, zero, suc, ◌*◌, ◌/◌, ◌%◌, ◌^◌, Bool, true, false, ◌||◌, ◌==◌, Option, none, some, Result, ok,
  err, value_error, if◌then◌else◌,
}
use flex_stack.Prelude.Bits.{◌<<◌, ◌>>>◌, ◌&◌, ◌¦◌}
use flex_stack.Prelude.Int.{ℤ, pos, pos_part, ltb_ℤ}
use flex_stack.Bytes.{Bytes, to_bytes, from_bytes}
use flex_stack.Geonet.Address.{GnAddress}
use flex_stack.Geonet.PositionVector.{LongPositionVector}

pub data CommonNh : Type 0 where
  any btp_a btp_b ipv6 : CommonNh

abbrev pub common_nh_value : CommonNh → ℕ
common_nh_value any = 0
common_nh_value btp_a = 1
common_nh_value btp_b = 2
common_nh_value ipv6 = 3

-- `CommonNH(v)`
abbrev pub common_nh_of_value : ℕ → Result CommonNh
common_nh_of_value zero = ok any
common_nh_of_value (suc zero) = ok btp_a
common_nh_of_value (suc (suc zero)) = ok btp_b
common_nh_of_value (suc (suc (suc zero))) = ok ipv6
common_nh_of_value (suc (suc (suc (suc v)))) = err value_error

pub data HeaderType : Type 0 where
  any_type beacon geounicast geoanycast geobroadcast tsb ls : HeaderType

abbrev pub header_type_value : HeaderType → ℕ
header_type_value any_type = 0
header_type_value beacon = 1
header_type_value geounicast = 2
header_type_value geoanycast = 3
header_type_value geobroadcast = 4
header_type_value tsb = 5
header_type_value ls = 6

-- `HeaderType(v)`
abbrev pub header_type_of_value : ℕ → Result HeaderType
header_type_of_value v =
    if v == 0
    then ok any_type
    else if v == 1
    then ok beacon
    else if v == 2
    then ok geounicast
    else if v == 3
    then ok geoanycast
    else if v == 4
    then ok geobroadcast
    else if v == 5
    then ok tsb
    else if v == 6
    then ok ls
    else err value_error

-- The members of `HeaderSubType`, `GeoAnycastHST`, `GeoBroadcastHST`, `TopoBroadcastHST` and
-- `LocationServiceHST`, which the source keeps in one field.
pub data Hst : Type 0 where
  unspecified : Hst
  geoanycast_circle geoanycast_rect geoanycast_elip : Hst
  geobroadcast_circle geobroadcast_rect geobroadcast_elip : Hst
  single_hop multi_hop : Hst
  ls_request ls_reply : Hst

abbrev pub hst_value : Hst → ℕ
hst_value unspecified = 0
hst_value geoanycast_circle = 0
hst_value geoanycast_rect = 1
hst_value geoanycast_elip = 2
hst_value geobroadcast_circle = 0
hst_value geobroadcast_rect = 1
hst_value geobroadcast_elip = 2
hst_value single_hop = 0
hst_value multi_hop = 1
hst_value ls_request = 0
hst_value ls_reply = 1

abbrev three_of : Hst → Hst → Hst → ℕ → Result Hst
three_of a b c zero = ok a
three_of a b c (suc zero) = ok b
three_of a b c (suc (suc zero)) = ok c
three_of a b c (suc (suc (suc v))) = err value_error

abbrev two_of : Hst → Hst → ℕ → Result Hst
two_of a b zero = ok a
two_of a b (suc zero) = ok b
two_of a b (suc (suc v)) = err value_error

abbrev one_of : Hst → ℕ → Result Hst
one_of a zero = ok a
one_of a (suc v) = err value_error

-- The enumeration that the header type selects, at a value.
abbrev pub hst_of_value : HeaderType → ℕ → Result Hst
hst_of_value geobroadcast v = three_of geobroadcast_circle geobroadcast_rect geobroadcast_elip v
hst_of_value tsb v = two_of single_hop multi_hop v
hst_of_value geoanycast v = three_of geoanycast_circle geoanycast_rect geoanycast_elip v
hst_of_value ls v = two_of ls_request ls_reply v
hst_of_value any_type v = one_of unspecified v
hst_of_value beacon v = one_of unspecified v
hst_of_value geounicast v = one_of unspecified v

pub record TrafficClass : Type 0 where
  pub scf : Bool
  pub channel_offload : Bool
  pub tc_id : ℕ

abbrev pub default_traffic_class : TrafficClass
default_traffic_class = record { scf = false; channel_offload = false; tc_id = 0 }

unfoldable pub set_scf : TrafficClass → Bool → TrafficClass
set_scf tc scf = record tc { scf = scf }

unfoldable pub set_channel_offload : TrafficClass → Bool → TrafficClass
set_channel_offload tc channel_offload = record tc { channel_offload = channel_offload }

unfoldable pub set_tc_id : TrafficClass → ℤ → Result TrafficClass
set_tc_id tc tc_id =
    if ltb_ℤ tc_id (pos 0) || ltb_ℤ (pos 63) tc_id
    then err value_error
    else ok (record tc { tc_id = pos_part tc_id })

-- Python's `int` of a `bool`
abbrev pub bit : Bool → ℕ
bit true = 1
bit false = 0

unfoldable pub tc_encode_to_int : TrafficClass → ℕ
tc_encode_to_int tc = bit tc.scf << 7 ¦ bit tc.channel_offload << 6 ¦ tc.tc_id

unfoldable pub tc_encode_to_bytes : TrafficClass → Result Bytes
unfolding tc_encode_to_int
tc_encode_to_bytes tc = to_bytes (tc_encode_to_int tc) 1

-- `bool(n)`
abbrev pub truth : ℕ → Bool
truth zero = false
truth (suc n) = true

unfoldable pub tc_decode_from_int : ℕ → TrafficClass
tc_decode_from_int tc = record {
  scf = truth (tc >>> 7 & 1);
  channel_offload = truth (tc >>> 6 & 1);
  tc_id = tc & 63;
}

unfoldable pub tc_decode_from_bytes : Bytes → TrafficClass
unfolding tc_decode_from_int
tc_decode_from_bytes bs = tc_decode_from_int (from_bytes bs)

pub record PacketTransportType : Type 0 where
  pub header_type : HeaderType
  pub header_subtype : Hst

pub record Area : Type 0 where
  pub latitude : ℤ
  pub longitude : ℤ
  pub a : ℕ
  pub b : ℕ
  pub angle : ℕ

-- src/flexstack/security/security_profiles.py
pub data SecurityProfile : Type 0 where
  no_security cooperative_awareness_message : SecurityProfile
  decentralized_environmental_notification_message vru_awareness_message : SecurityProfile

-- `communication_profile` has one value and is left out. A lifetime is in whole milliseconds.
pub record GnDataRequest : Type 0 where
  pub upper_protocol_entity : CommonNh
  pub packet_transport_type : PacketTransportType
  pub security_profile : SecurityProfile
  pub its_aid : ℕ
  pub security_permissions : Bytes
  pub traffic_class : TrafficClass
  pub length : ℕ
  pub payload : Bytes
  pub area : Area
  pub max_hop_limit : ℕ
  pub max_packet_lifetime : Option ℕ
  pub destination : Option GnAddress

pub data ResultCode : Type 0 where
  accepted maximum_length_exceeded maximum_lifetime_exceeded : ResultCode
  repetition_interval_too_small unsupported_traffic_class : ResultCode
  geographical_scope_too_large unspecified_code : ResultCode

-- The remaining lifetime is in whole seconds, as its callers give it.
pub record GnDataIndication : Type 0 where
  pub upper_protocol_entity : CommonNh
  pub packet_transport_type : PacketTransportType
  pub destination_area : Option Area
  pub source_position_vector : LongPositionVector
  pub traffic_class : TrafficClass
  pub remaining_packet_lifetime : Option ℕ
  pub remaining_hop_limit : Option ℕ
  pub length : ℕ
  pub payload : Bytes
