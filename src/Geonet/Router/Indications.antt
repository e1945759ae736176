-- ===== src/Geonet/Router/Indications.antt =====
-- The way of a received packet through src/flexstack/geonet/router.py, from its Basic Header to the
-- handler of its type, and the handlers of Location Service packets. An indication that is answered
-- is what the registered callback is called with. The verify service is a parameter.
pub mod SingleHop
pub mod Locating
use flex_stack.Prelude.{
  ℕ, ◌-◌, ◌++◌, [], drop, not, ltb, ◌==◌, Option, none, some, Result, ok, err, decap_error,
  not_implemented_error, ◌>>=◌, if◌then◌else◌,
}
use flex_stack.Floats.{Floats, Trig}
use flex_stack.Bytes.{Bytes, slice}
use flex_stack.Geonet.Address
use flex_stack.Geonet.Address.{GnAddress}
use flex_stack.Geonet.Mib.{Mib}
use flex_stack.Geonet.PositionVector.{LongPositionVector, ShortPositionVector}
use flex_stack.Geonet.BasicHeader as Basic
use flex_stack.Geonet.BasicHeader.{
  BasicHeader, initialize_with_mib_request_and_rhl, set_nh, set_rhl,
}
use flex_stack.Geonet.CommonHeader as Common
use flex_stack.Geonet.CommonHeader.{CommonHeader}
use flex_stack.Geonet.Request.{
  HeaderType, any_type, beacon, geounicast, geoanycast, geobroadcast, tsb, ls, Hst, single_hop,
  multi_hop, ls_request, ls_reply, GnDataIndication,
}
use flex_stack.Geonet.ExtendedHeaders.{
  LsRequestExtendedHeader, ls_request_encode, ls_request_decode, GucExtendedHeader, guc_initialize,
  guc_encode, guc_decode,
}
use flex_stack.Geonet.LocationTable.{
  Entry, LocationTable, get_entry, new_ls_request_packet, new_ls_reply_packet,
}
use flex_stack.Geonet.Router.{
  get_sequence_number, duplicate_address_detection, swallow, rate_exceeded, Handled,
  gn_data_indicate_shb, gn_data_indicate_tsb, gn_data_indicate_beacon,
}
use flex_stack.Geonet.Router.Geo.{Link, Done, gn_data_indicate_gbc}
use flex_stack.Geonet.Router.Anycast.{
  short_of, refreshed, guc_packet, gn_data_indicate_gac, gn_data_indicate_guc,
}
use flex_stack.Geonet.Router.LocationService.{
  Router, Step, mib_of, with_table, ls_common, hand_over, ls_answered,
}
use flex_stack.Geonet.Router.Requests.{is_enabled}

-- The plain message of a secured packet, if its verification succeeds.
abbrev pub VerifyService : Type 0
VerifyService = Bytes → Option Bytes

-- The answer to a Location Service request.
unfoldable pub ls_reply_packet : Mib → ℕ → LongPositionVector → ShortPositionVector → Result Bytes
ls_reply_packet mib sn ego_pv de_pv = do
  basic ←
      Basic.encode_to_bytes
        (initialize_with_mib_request_and_rhl mib none mib.its_gn_default_hop_limit)
  common ← Common.encode_to_bytes (ls_common ls_reply mib)
  extended ← guc_encode (guc_initialize sn ego_pv de_pv)
  ok (basic ++ common ++ extended)

unfoldable pub ls_request_forward_packet :
    BasicHeader → CommonHeader → LsRequestExtendedHeader → Bytes → Result Bytes
ls_request_forward_packet basic_header common_header header payload = do
  basic ← Basic.encode_to_bytes basic_header
  common ← Common.encode_to_bytes common_header
  extended ← ls_request_encode header
  ok (basic ++ common ++ extended ++ payload)

module _ (fl : Floats) (hash : GnAddress → ℕ) (link : Link) (trig : Trig fl) where
  abbrev pub Answer : Type 0
  Answer = Step fl (Option GnDataIndication)

  abbrev pub answered : Router fl → Result (Option GnDataIndication) → Answer
  answered r answer = record { router = r; sent = []; answer = answer }

  -- The end of a Location Service handler: no indication, and its `except` clauses.
  abbrev pub quiet : Step fl (Unit {0}) → Answer
  quiet s = record {
    router = s.router;
    sent = s.sent;
    answer = elim s.answer [ ok done ↦ ok none | err e ↦ swallow e ];
  }

  abbrev pub on_table : Router fl → Handled fl → Answer
  on_table r h = record { router = with_table fl h.table r; sent = h.sent; answer = h.answer }

  abbrev pub on_node : Router fl → Done fl (Option GnDataIndication) → Answer
  on_node r d = record { router = record r { node = d.node }; sent = d.sent; answer = d.answer }

  -- The location table's exception, or the rest of the handler.
  abbrev pub if_taken :
      Router fl → Result (Unit {0}) → LocationTable fl → (Router fl → Answer) → Answer
  if_taken r (err e) t rest = answered (with_table fl t r) (swallow e)
  if_taken r (ok done) t rest = rest (with_table fl t r)

  -- Steps 3 to 6 of the Location Service handlers, then the rest.
  abbrev pub unless_known :
      Router fl → GnAddress → Result (Unit {0}) × LocationTable fl → (Router fl → Answer) → Answer
  unless_known r so (taken, t) rest = elim (duplicate_address_detection (mib_of fl r) so) [
    | err e ↦ answered r (swallow e)
    | ok unique ↦ if_taken r taken t rest
  ]

  -- The reply to the source, if the table has it.
  abbrev pub reply_to : Option (Entry fl) → Router fl → Answer
  unfolding ls_reply_packet get_sequence_number
  reply_to none r = answered r (ok none)
  reply_to (some so_entry) r =
      let sn = get_sequence_number r.sequence_number in
      quiet (
        hand_over fl hash link (record r { sequence_number = sn })
          (ls_reply_packet (mib_of fl r) sn r.node.ego_position_vector
            (short_of so_entry.position_vector)))

  unfoldable pub ls_request_received :
      LsRequestExtendedHeader → Bytes → CommonHeader → BasicHeader → Router fl → Answer
  unfolding reply_to ls_request_forward_packet
  ls_request_received header payload common_header basic_header r =
      let so_entry = get_entry fl hash header.so_pv.gn_addr r.node.location_table in
      if Address.eq header.request_gn_addr (mib_of fl r).its_gn_local_gn_addr
      then reply_to so_entry r
      else if rate_exceeded fl (mib_of fl r) so_entry
      then answered r (ok none)
      else if ltb 0 (basic_header.rhl - 1)
      then quiet (
          hand_over fl hash link r (
            ls_request_forward_packet (set_rhl basic_header (basic_header.rhl - 1)) common_header
              header payload))
      else answered r (ok none)

  unfoldable pub gn_data_indicate_ls_request :
      ℕ → Bytes → CommonHeader → BasicHeader → Router fl → Answer
  unfolding ls_request_received
  gn_data_indicate_ls_request now packet common_header basic_header r =
      elim (ls_request_decode (slice packet 0 36)) [
        | err e ↦ answered r (err e)
        | ok header ↦
            let payload = drop 36 packet in
            unless_known r header.so_pv.gn_addr
              (new_ls_request_packet fl hash now header payload r.node.location_table)
              (ls_request_received header payload common_header basic_header)
      ]

  unfoldable pub ls_reply_received :
      GucExtendedHeader → Bytes → CommonHeader → BasicHeader → Router fl → Answer
  unfolding ls_answered guc_packet
  ls_reply_received header payload common_header basic_header r =
      let t = r.node.location_table in
      if Address.eq header.de_pv.gn_addr t.mib.its_gn_local_gn_addr
      then quiet (ls_answered fl hash link trig header.so_pv.gn_addr r)
      else if rate_exceeded fl t.mib (get_entry fl hash header.so_pv.gn_addr t)
      then answered r (ok none)
      else if ltb 0 (basic_header.rhl - 1)
      then quiet (
          hand_over fl hash link r (
            guc_packet fl trig hash link (set_rhl basic_header (basic_header.rhl - 1)) common_header
              (refreshed fl trig hash link (get_entry fl hash header.de_pv.gn_addr t) header)
              payload))
      else answered r (ok none)

  unfoldable pub gn_data_indicate_ls_reply :
      ℕ → Bytes → CommonHeader → BasicHeader → Router fl → Answer
  unfolding ls_reply_received
  gn_data_indicate_ls_reply now packet common_header basic_header r =
      elim (guc_decode (slice packet 0 48)) [
        | err e ↦ answered r (err e)
        | ok header ↦
            let payload = drop 48 packet in
            unless_known r header.so_pv.gn_addr
              (new_ls_reply_packet fl hash now header payload r.node.location_table)
              (ls_reply_received header payload common_header basic_header)
      ]

  unfoldable pub gn_data_indicate_ls :
      Hst → ℕ → Bytes → CommonHeader → BasicHeader → Router fl → Answer
  unfolding gn_data_indicate_ls_request gn_data_indicate_ls_reply
  gn_data_indicate_ls ls_request now packet common_header basic_header r =
      gn_data_indicate_ls_request now packet common_header basic_header r
  gn_data_indicate_ls ls_reply now packet common_header basic_header r =
      gn_data_indicate_ls_reply now packet common_header basic_header r
  gn_data_indicate_ls _ now packet common_header basic_header r =
      answered r (err not_implemented_error)

  -- The handler of a packet's type and subtype.
  unfoldable pub by_header_type :
      HeaderType → Hst → ℕ → Bytes → CommonHeader → BasicHeader → Router fl → Answer
  unfolding gn_data_indicate_ls gn_data_indicate_shb gn_data_indicate_tsb gn_data_indicate_beacon
      gn_data_indicate_gbc gn_data_indicate_gac gn_data_indicate_guc
  by_header_type any_type _ now packet common_header basic_header r =
      answered r (err not_implemented_error)
  by_header_type beacon _ now packet common_header basic_header r =
      on_table r (gn_data_indicate_beacon fl hash now packet r.node.location_table)
  by_header_type geounicast _ now packet common_header basic_header r =
      on_node r
        (gn_data_indicate_guc fl trig hash link now packet common_header basic_header r.node)
  by_header_type geoanycast _ now packet common_header basic_header r =
      on_node r
        (gn_data_indicate_gac fl trig hash link now packet common_header basic_header r.node)
  by_header_type geobroadcast _ now packet common_header basic_header r =
      on_node r
        (gn_data_indicate_gbc fl trig hash link now packet common_header basic_header r.node)
  by_header_type tsb single_hop now packet common_header basic_header r =
      on_table r
        (gn_data_indicate_shb fl hash now packet common_header basic_header r.node.location_table)
  by_header_type tsb multi_hop now packet common_header basic_header r =
      on_table r
        (gn_data_indicate_tsb fl hash now packet common_header basic_header r.node.location_table)
  by_header_type ls hst now packet common_header basic_header r =
      gn_data_indicate_ls hst now packet common_header basic_header r
  by_header_type _ _ now packet common_header basic_header r =
      answered r (err not_implemented_error)

  unfoldable pub process_common_header : ℕ → Bytes → BasicHeader → Router fl → Answer
  unfolding by_header_type
  process_common_header now packet basic_header r =
      elim (Common.decode_from_bytes (slice packet 0 8)) [
        | err e ↦ answered r (err e)
        | ok common_header ↦
            if ltb common_header.mhl basic_header.rhl
            then answered r (err decap_error)
            else by_header_type common_header.ht common_header.hst now (drop 8 packet) common_header
                basic_header r
      ]

  abbrev pub plain_message : Option VerifyService → Bytes → Option Bytes
  plain_message none packet = none
  plain_message (some verify) packet = verify packet

  -- A packet that cannot be verified is dropped.
  unfoldable pub process_security_header :
      Option VerifyService → ℕ → Bytes → BasicHeader → Router fl → Answer
  unfolding process_common_header
  process_security_header verify_service now packet basic_header r =
      elim (plain_message verify_service packet) [
        | none ↦ answered r (ok none)
        | some message ↦
            process_common_header now message (set_nh basic_header Basic.common_header) r
      ]

  unfoldable pub by_next_header :
      Basic.BasicNh → Option VerifyService → ℕ → Bytes → BasicHeader → Router fl → Answer
  unfolding process_security_header
  by_next_header Basic.any verify_service now packet basic_header r =
      answered r (err not_implemented_error)
  by_next_header Basic.common_header verify_service now packet basic_header r =
      if is_enabled (mib_of fl r).its_gn_security
      then answered r (ok none)
      else process_common_header now packet basic_header r
  by_next_header Basic.secured_packet verify_service now packet basic_header r =
      process_security_header verify_service now packet basic_header r

  unfoldable pub process_basic_header : Option VerifyService → ℕ → Bytes → Router fl → Answer
  unfolding by_next_header
  process_basic_header verify_service now packet r =
      elim (Basic.decode_from_bytes (slice packet 0 4)) [
        | err e ↦ answered r (err e)
        | ok basic_header ↦
            if not (basic_header.version == (mib_of fl r).its_gn_protocol_version)
            then answered r (err not_implemented_error)
            else by_next_header basic_header.nh verify_service now (drop 4 packet) basic_header r
      ]

  unfoldable pub gn_data_indicate : Option VerifyService → ℕ → Bytes → Router fl → Answer
  unfolding process_basic_header
  gn_data_indicate verify_service now packet r = process_basic_header verify_service now packet r
