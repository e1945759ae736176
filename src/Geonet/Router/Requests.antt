-- ===== src/Geonet/Router/Requests.antt =====
-- The requests of the upper layers to src/flexstack/geonet/router.py, and its beacons. The sign
-- service is a parameter: what it makes of the octets to be signed, or the exception it raises.
use flex_stack.Prelude.{
  ℕ, [], ◌∷◌, ◌++◌, length, Bool, true, false, ◌&&◌, Option, none, some, Result, ok, err,
  value_error, not_implemented_error, ◌>>=◌, if◌then◌else◌,
}
use flex_stack.Prelude.Int.{ℤ}
use flex_stack.Floats.{Floats, Trig}
use flex_stack.Bytes.{Bytes}
use flex_stack.Geonet.Address.{GnAddress}
use flex_stack.Geonet.Mib.{Mib, GnSecurity, enabled, disabled}
use flex_stack.Geonet.PositionVector.{LongPositionVector, long_encode}
use flex_stack.Geonet.BasicHeader as Basic
use flex_stack.Geonet.BasicHeader.{
  BasicHeader, initialize_with_mib_and_rhl, initialize_with_mib_request_and_rhl, set_nh,
  secured_packet,
}
use flex_stack.Geonet.CommonHeader as Common
use flex_stack.Geonet.CommonHeader.{CommonHeader, initialize_with_request, initialize_beacon}
use flex_stack.Geonet.Request.{
  HeaderType, tsb, geobroadcast, geoanycast, geounicast, Hst, single_hop, GnDataRequest, ResultCode,
  accepted, geographical_scope_too_large, SecurityProfile, cooperative_awareness_message,
  vru_awareness_message, decentralized_environmental_notification_message,
}
use flex_stack.Geonet.ExtendedHeaders.{GbcExtendedHeader, gbc_initialize, gbc_encode}
use flex_stack.Geonet.LocationTable.{get_neighbours}
use flex_stack.Geonet.Router.{get_sequence_number, is_empty}
use flex_stack.Geonet.Router.Area.{
  GnForwardingAlgorithmResponse, area_forwarding, non_area_forwarding, discarted,
  gn_greedy_forwarding, gn_forwarding_algorithm_selection,
}
use flex_stack.Geonet.Router.Geo.{Link, too_large}
use flex_stack.Geonet.Router.LocationService.{
  Router, Step, mib_of, hop_limit, hand_over, hand_down, gn_data_request_guc,
}

pub record SnSignRequest : Type 0 where
  pub tbs_message_length : ℕ
  pub tbs_message : Bytes
  pub its_aid : ℕ
  pub permissions : Bytes
  pub permissions_length : ℕ
  -- Latitude, longitude and elevation.
  pub generation_location : Option (ℤ × ℤ × ℕ)

-- The signed message of a request.
pub record SignService : Type 0 where
  pub sign_cam : SnSignRequest → Result Bytes
  pub sign_request : SnSignRequest → Result Bytes
  pub sign_denm : SnSignRequest → Result Bytes

abbrev pub sign_request_of : GnDataRequest → Option (ℤ × ℤ × ℕ) → Bytes → SnSignRequest
sign_request_of request location tbs = record {
  tbs_message_length = length tbs;
  tbs_message = tbs;
  its_aid = request.its_aid;
  permissions = request.security_permissions;
  permissions_length = length request.security_permissions;
  generation_location = location;
}

abbrev pub is_enabled : GnSecurity → Bool
is_enabled disabled = false
is_enabled enabled = true

abbrev pub is_awareness : SecurityProfile → Bool
is_awareness cooperative_awareness_message = true
is_awareness vru_awareness_message = true
is_awareness _ = false

abbrev pub is_denm : SecurityProfile → Bool
is_denm decentralized_environmental_notification_message = true
is_denm _ = false

-- The packet of a single-hop broadcast after its Basic Header, with no media dependent data.
unfoldable pub shb_inner : CommonHeader → LongPositionVector → Bytes → Result Bytes
shb_inner common_header ego_pv payload = do
  common ← Common.encode_to_bytes common_header
  pv ← long_encode ego_pv
  ok (common ++ pv ++ (0 ∷ 0 ∷ 0 ∷ 0 ∷ []) ++ payload)

-- A Basic Header and what follows it, of which the latter is made first if it is signed.
unfoldable pub secured : BasicHeader → Result Bytes → Result Bytes
secured basic_header message = do
  sec_message ← message
  basic ← Basic.encode_to_bytes (set_nh basic_header secured_packet)
  ok (basic ++ sec_message)

unfoldable pub unsecured : BasicHeader → Result Bytes → Result Bytes
unsecured basic_header inner = do
  basic ← Basic.encode_to_bytes basic_header
  rest ← inner
  ok (basic ++ rest)

unfoldable pub shb_packet :
    Option SignService → Mib → LongPositionVector → GnDataRequest → Result Bytes
unfolding shb_inner secured unsecured
shb_packet sign_service mib ego_pv request =
    let basic_header = initialize_with_mib_request_and_rhl mib request.max_packet_lifetime 1 in
    let inner = shb_inner (initialize_with_request request mib) ego_pv request.payload in
    if is_enabled mib.its_gn_security
    then elim sign_service [
      | none ↦ err value_error
      | some service ↦ secured basic_header (
          inner >>= (λ tbs.
            let sign_request = sign_request_of request none tbs in
            if is_awareness request.security_profile
            then service.sign_cam sign_request
            else service.sign_request sign_request))
    ]
    else unsecured basic_header inner

unfoldable pub gbc_inner : CommonHeader → GbcExtendedHeader → Bytes → Result Bytes
gbc_inner common_header header payload = do
  common ← Common.encode_to_bytes common_header
  extended ← gbc_encode header
  ok (common ++ extended ++ payload)

-- The signed payload, for the security profile of warnings alone.
unfoldable pub gbc_signed :
    Option SignService
    → GnDataRequest
    → LongPositionVector
    → CommonHeader
    → GbcExtendedHeader
    → Result (Option Bytes)
unfolding gbc_inner
gbc_signed sign_service request ego_pv common_header header =
    if is_denm request.security_profile
    then elim sign_service [
      | none ↦ err not_implemented_error
      | some service ↦
          let location = some (ego_pv.latitude, ego_pv.longitude, 0xF000) in
          gbc_inner common_header header request.payload
          >>= (λ tbs. service.sign_denm (sign_request_of request location tbs))
          >>= (λ message. ok (some message))
    ]
    else ok none

-- `basic_header.encode_to_bytes() + inner`, the inner part first.
unfoldable pub gbc_request_packet :
    Option Bytes → BasicHeader → CommonHeader → GbcExtendedHeader → Bytes → Result Bytes
unfolding secured gbc_inner
gbc_request_packet (some message) basic_header common_header header payload =
    secured basic_header (ok message)
gbc_request_packet none basic_header common_header header payload = do
  inner ← gbc_inner common_header header payload
  basic ← Basic.encode_to_bytes basic_header
  ok (basic ++ inner)

unfoldable pub beacon_packet : Mib → LongPositionVector → Result Bytes
beacon_packet mib ego_pv = do
  basic ← Basic.encode_to_bytes (initialize_with_mib_and_rhl mib 1)
  common ← Common.encode_to_bytes (initialize_beacon mib)
  pv ← long_encode ego_pv
  ok (basic ++ common ++ pv)

module _ (fl : Floats) (hash : GnAddress → ℕ) (link : Link) (trig : Trig fl) where
  unfoldable pub gn_data_request_beacon : Router fl → Step fl (Unit {0})
  unfolding beacon_packet
  gn_data_request_beacon r =
      hand_over fl hash link r (beacon_packet (mib_of fl r) r.node.ego_position_vector)

  -- `if self._beacon_reset_event is not None: self._beacon_reset_event.set()`
  abbrev pub reset_beacon : Option Bool → Option Bool
  reset_beacon none = none
  reset_beacon (some is_set) = some true

  -- The beacon timer is reset if the packet was sent.
  abbrev pub after_shb : Step fl ResultCode → Step fl ResultCode
  after_shb s = elim s.answer [
    | ok accepted ↦ record s {
      router = record s.router { beacon_reset_event = reset_beacon s.router.beacon_reset_event };
    }
    | ok code ↦ s
    | err e ↦ s
  ]

  -- Without neighbours a message is printed, and the packet is sent nevertheless.
  unfoldable pub gn_data_request_shb :
      Option SignService → GnDataRequest → Router fl → Step fl ResultCode
  unfolding shb_packet
  gn_data_request_shb sign_service request r = after_shb (
      hand_down fl hash link r
        (shb_packet sign_service (mib_of fl r) r.node.ego_position_vector request))

  unfoldable pub send_gbc :
      Result GnForwardingAlgorithmResponse
      → Result Bytes
      → GnDataRequest
      → Router fl
      → Step fl ResultCode
  unfolding gn_greedy_forwarding
  send_gbc (err e) packet request r = record { router = r; sent = []; answer = err e }
  send_gbc (ok area_forwarding) packet request r = hand_down fl hash link r packet
  send_gbc (ok non_area_forwarding) packet request r =
      if gn_greedy_forwarding fl trig request.area.latitude request.area.longitude
        request.traffic_class.scf r.node
      then hand_down fl hash link r packet
      else record { router = r; sent = []; answer = ok accepted }
  send_gbc (ok discarted) packet request r = record { router = r; sent = []; answer = ok accepted }

  -- From step 2 on, when the payload is signed or need not be.
  unfoldable pub gbc_ready :
      Result (Option Bytes)
      → BasicHeader
      → CommonHeader
      → GbcExtendedHeader
      → GnDataRequest
      → Router fl
      → Step fl ResultCode
  unfolding send_gbc gn_forwarding_algorithm_selection gbc_request_packet
  gbc_ready (err e) basic_header common_header header request r = record {
    router = r;
    sent = [];
    answer = err e;
  }
  gbc_ready (ok sec_payload) basic_header common_header header request r =
      if is_empty fl (get_neighbours fl r.node.location_table) && request.traffic_class.scf
      then record { router = r; sent = []; answer = ok accepted }
      else send_gbc
          (gn_forwarding_algorithm_selection fl trig hash
            request.packet_transport_type.header_subtype request.area none r.node)
          (gbc_request_packet sec_payload basic_header common_header header request.payload) request
          r

  unfoldable pub gn_data_request_gbc :
      Option SignService → GnDataRequest → Router fl → Step fl ResultCode
  unfolding gbc_ready gbc_signed get_sequence_number too_large
  gn_data_request_gbc sign_service request r =
      let mib = mib_of fl r in
      let hops = hop_limit mib request.max_hop_limit in
      let ego_pv = r.node.ego_position_vector in
      let sn = get_sequence_number r.sequence_number in
      let common_header = initialize_with_request (record request { max_hop_limit = hops }) mib in
      let header = gbc_initialize request sn ego_pv in
      if too_large fl trig hash link request.packet_transport_type.header_subtype request.area
        r.node
      then record { router = r; sent = []; answer = ok geographical_scope_too_large }
      else gbc_ready (gbc_signed sign_service request ego_pv common_header header)
          (initialize_with_mib_request_and_rhl mib request.max_packet_lifetime hops) common_header
          header request (record r { sequence_number = sn })

  -- The same as a GeoBroadcast request.
  unfoldable pub gn_data_request_gac :
      Option SignService → GnDataRequest → Router fl → Step fl ResultCode
  unfolding gn_data_request_gbc
  gn_data_request_gac sign_service request r = gn_data_request_gbc sign_service request r

  unfoldable pub by_transport_type :
      HeaderType → Hst → Option SignService → GnDataRequest → Router fl → Step fl ResultCode
  unfolding gn_data_request_shb gn_data_request_gac gn_data_request_guc
  by_transport_type tsb single_hop sign_service request r =
      gn_data_request_shb sign_service request r
  by_transport_type geobroadcast _ sign_service request r =
      gn_data_request_gbc sign_service request r
  by_transport_type geoanycast _ sign_service request r = gn_data_request_gac sign_service request r
  by_transport_type geounicast _ sign_service request r =
      gn_data_request_guc fl hash link trig request r
  by_transport_type _ _ sign_service request r = record {
    router = r;
    sent = [];
    answer = err not_implemented_error;
  }

  unfoldable pub gn_data_request :
      Option SignService → GnDataRequest → Router fl → Step fl ResultCode
  unfolding by_transport_type
  gn_data_request sign_service request r =
      by_transport_type request.packet_transport_type.header_type
        request.packet_transport_type.header_subtype sign_service request r
