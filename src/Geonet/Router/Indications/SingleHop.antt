-- ===== src/Geonet/Router/Indications/SingleHop.antt =====
-- A single-hop broadcast from a request at one router to the indication at another.
use mathlib.Core.List.{append-nil, append_assoc}
use flex_stack.Prelude.{
  ℕ, ◌<◌, ◌≡◌, ◌∙◌, refl, [], ◌∷◌, ◌++◌, length, true, false, ltb, ◌==◌, Option, none, some, Result,
  ok, arith,
}
use flex_stack.Prelude.{◌*◌}
use flex_stack.Prelude.Bits.{◌<<◌}
use flex_stack.Floats.{Floats, Trig}
use flex_stack.Bytes.{Bytes}
use flex_stack.Bytes.RoundTrip.{length-big_endian}
use flex_stack.Geonet.Address
use flex_stack.Geonet.Address.{GnAddress}
use flex_stack.Geonet.Mib.{Mib, disabled, GnIsMobile, is_mobile_value, stationary, mobile}
use flex_stack.Geonet.PositionVector.{LongPositionVector, long_encode, long_decode}
use flex_stack.Geonet.PositionVector.Long.{IsValidLong, long_encode-eq, long_decode-exact}
use flex_stack.Geonet.BasicHeader as Basic
use flex_stack.Geonet.BasicHeader.{
  BasicHeader, initialize_with_mib_request_and_rhl, set_value_in_millis, set_value_in_seconds,
}
use flex_stack.Geonet.BasicHeader.Lifetime.{set_value_bounds}
use flex_stack.Geonet.BasicHeader.RoundTrip as BasicTrip
use flex_stack.Geonet.CommonHeader as Common
use flex_stack.Geonet.CommonHeader.{CommonHeader, request_mhl, initialize_with_request}
use flex_stack.Geonet.CommonHeader.RoundTrip as CommonTrip
use flex_stack.Geonet.CommonHeader.RoundTrip.{with_mobility_alone}
use flex_stack.Geonet.ExtendedHeaders.Layout.{drop-first, slice-first}
use flex_stack.Geonet.Request.{tsb, single_hop, ResultCode, GnDataRequest, GnDataIndication}
use flex_stack.Geonet.Router.{tsb_indication, gn_data_indicate_shb}
use flex_stack.Geonet.Router.Reception.{gn_data_indicate_shb_taken}
use flex_stack.Geonet.Router.Geo.{Link}
use flex_stack.Geonet.Router.LocationService.{Router, Step, mib_of, hand_down}
use flex_stack.Geonet.Router.Requests.{
  is_enabled, SignService, by_transport_type, shb_inner, shb_packet, unsecured, after_shb,
  gn_data_request_shb, gn_data_request,
}
use flex_stack.Geonet.Router.Indications.{
  VerifyService, on_table, process_basic_header, by_next_header, by_header_type,
  process_common_header, gn_data_indicate,
}

-- Octets of a known width that encode a value and decode to one.
abbrev Part : {A : Type 0} → Result Bytes → ℕ → (Bytes → Result A) → A → Type 0
Part encoded width decode a =
    (bs : Bytes) × (encoded ≡ ok bs) × (length bs ≡ width) × (decode bs ≡ ok a)

basic-Part :
    (b : BasicHeader)
    → BasicTrip.IsValid b
    → Part (Basic.encode_to_bytes b) 4 Basic.decode_from_bytes b
basic-Part b v = (
  _,
  BasicTrip.encode_to_bytes-eq b v,
  length-big_endian 4 (Basic.encode_to_int b),
  rw append-nil at (BasicTrip.decode_from_bytes-eq b v []),
)

common-Part :
    (c : CommonHeader)
    → CommonTrip.IsValid c
    → Part (Common.encode_to_bytes c) 8 Common.decode_from_bytes (with_mobility_alone c)
common-Part c v = (
  _,
  CommonTrip.encode_to_bytes-eq c v,
  length-big_endian 8 _,
  rw append-nil at (CommonTrip.decode_from_bytes-eq c v []),
)

long-Part : (p : LongPositionVector) → IsValidLong p → Part (long_encode p) 24 long_decode p
long-Part p v = (_, long_encode-eq p v, length-big_endian 24 _, long_decode-exact p v)

basic-IsValid :
    (mib : Mib) (lifetime : Option ℕ)
    → BasicTrip.IsValid (initialize_with_mib_request_and_rhl mib lifetime 1)
unfolding initialize_with_mib_request_and_rhl set_value_in_seconds
basic-IsValid mib none = record {
  version = omega arith;
  reserved = omega arith;
  multiplier = (set_value_bounds (mib.its_gn_default_packet_lifetime * 1000)).0;
  rhl = omega arith;
}
basic-IsValid mib (some lifetime) = record {
  version = omega arith;
  reserved = omega arith;
  multiplier = (set_value_bounds lifetime).0;
  rhl = omega arith;
}

-- The request is for a single-hop broadcast and its fields fit the Common Header.
pub record IsSingleHop (request : GnDataRequest) : Type 0 where
  pub header_type : request.packet_transport_type.header_type ≡ tsb
  pub header_subtype : request.packet_transport_type.header_subtype ≡ single_hop
  pub tc_id : request.traffic_class.tc_id < 64
  pub pl : request.length < 65536

common-IsValid :
    (mib : Mib) (request : GnDataRequest)
    → IsSingleHop request
    → CommonTrip.IsValid (initialize_with_request request mib)
unfolding initialize_with_request
common-IsValid mib request v = record {
  reserved = omega arith;
  subtype = rw (v.header_type, v.header_subtype) refl;
  tc_id = v.tc_id;
  flags = mobility mib.its_gn_is_mobile;
  pl = v.pl;
  mhl = rw (v.header_type, v.header_subtype) (omega arith);
}
  where
    mobility : (m : GnIsMobile) → is_mobile_value m << 7 < 256
    mobility stationary = omega arith
    mobility mobile = omega arith

-- Four octets of media dependent data.
abbrev no_media : Bytes
no_media = 0 ∷ 0 ∷ 0 ∷ 0 ∷ []

module _ (fl : Floats) (hash : GnAddress → ℕ) (link : Link) (trig : Trig fl) where
  abbrev header_of : GnDataRequest → Router fl → CommonHeader
  header_of request r = initialize_with_request request (mib_of fl r)

  abbrev basic_of : GnDataRequest → Router fl → BasicHeader
  basic_of request r =
      initialize_with_mib_request_and_rhl (mib_of fl r) request.max_packet_lifetime 1

  -- What the upper layers of another station hear.
  abbrev pub heard : GnDataRequest → Router fl → GnDataIndication
  heard request r =
      tsb_indication single_hop (header_of request r) (basic_of request r)
        r.node.ego_position_vector request.payload

  after_shb-sent : (s : Step fl ResultCode) → (after_shb fl hash link trig s).sent ≡ s.sent
  after_shb-sent s = ground arith

  shb-sent :
      (sign_service : Option SignService) (request : GnDataRequest) (r : Router fl)
      (basic common pv : Bytes)
      → (mib_of fl r).its_gn_security ≡ disabled
      → Basic.encode_to_bytes (basic_of request r) ≡ ok basic
      → Common.encode_to_bytes (header_of request r) ≡ ok common
      → long_encode r.node.ego_position_vector ≡ ok pv
      → (gn_data_request_shb fl hash link trig sign_service request r).sent
        ≡ (basic ++ (common ++ (pv ++ (no_media ++ request.payload)))) ∷ []
  unfolding gn_data_request_shb shb_packet shb_inner unsecured
  shb-sent sign_service request r basic common pv unsigned b c p =
      after_shb-sent (
        hand_down fl hash link r
          (shb_packet sign_service (mib_of fl r) r.node.ego_position_vector request))
      ∙ rw (shb_packet, off, unsecured, shb_inner, b, c, p) (simp append_assoc refl)
    where
      off : is_enabled (mib_of fl r).its_gn_security ≡ false
      off = λ i. is_enabled (unsigned i)

  sends :
      (sign_service : Option SignService) (request : GnDataRequest) (r : Router fl)
      → IsSingleHop request
      → (gn_data_request fl hash link trig sign_service request r)
        ≡ gn_data_request_shb fl hash link trig sign_service request r
  unfolding gn_data_request by_transport_type
  sends sign_service request r v = λ i.
      by_transport_type fl hash link trig (v.header_type i) (v.header_subtype i) sign_service
        request r

  -- From the Common Header on, the packet is given to the handler of single-hop broadcasts.
  dispatched :
      (now : ℕ) (request : GnDataRequest) (r q : Router fl) (common rest : Bytes)
      → IsSingleHop request
      → length common ≡ 8
      → Common.decode_from_bytes common ≡ ok (with_mobility_alone (header_of request r))
      → process_common_header fl hash link trig now (common ++ rest) (basic_of request r) q
        ≡ on_table fl hash link trig q (
            gn_data_indicate_shb fl hash now rest
              (with_mobility_alone (header_of request r))
              (basic_of request r)
              q.node.location_table)
  unfolding process_common_header by_header_type initialize_with_request
      initialize_with_mib_request_and_rhl
  dispatched now request r q common rest v lc c =
      rw
        (
          process_common_header,
          slice-first 8 common rest lc,
          c,
          drop-first 8 common rest lc,
          one_hop,
          handler,
        )
        refl
    where
      one_hop :
          ltb
            (request_mhl request.packet_transport_type.header_type
              request.packet_transport_type.header_subtype request.max_hop_limit)
            1
          ≡ false
      one_hop =
          λ i. ltb (request_mhl (v.header_type i) (v.header_subtype i) request.max_hop_limit) 1

      handler :
          by_header_type fl hash link trig request.packet_transport_type.header_type
            request.packet_transport_type.header_subtype now rest
            (with_mobility_alone (header_of request r))
            (basic_of request r)
            q
          ≡ by_header_type fl hash link trig tsb single_hop now rest
              (with_mobility_alone (header_of request r))
              (basic_of request r)
              q
      handler = λ i.
          by_header_type fl hash link trig (v.header_type i) (v.header_subtype i) now rest
            (with_mobility_alone (header_of request r)) (basic_of request r) q

  hears :
      (verify_service : Option VerifyService) (now : ℕ) (request : GnDataRequest) (r q : Router fl)
      (basic common pv : Bytes)
      → IsSingleHop request
      → (mib_of fl q).its_gn_security ≡ disabled
      → (mib_of fl q).its_gn_protocol_version ≡ 1
      → Address.eq (mib_of fl q).its_gn_local_gn_addr r.node.ego_position_vector.gn_addr ≡ false
      → length basic ≡ 4
      → Basic.decode_from_bytes basic ≡ ok (basic_of request r)
      → length common ≡ 8
      → Common.decode_from_bytes common ≡ ok (with_mobility_alone (header_of request r))
      → length pv ≡ 24
      → long_decode pv ≡ ok r.node.ego_position_vector
      → let bs = basic ++ (common ++ (pv ++ (no_media ++ request.payload))) in
        let a = gn_data_indicate fl hash link trig verify_service now bs q in
        (a.sent ≡ []) × (a.answer ≡ ok (some (heard request r)))
  unfolding gn_data_indicate process_basic_header by_next_header initialize_with_mib_request_and_rhl
  hears verify_service now request r q basic common pv v plain version other lb b lc c lp p =
      let payload = no_media ++ request.payload in
      rw
        (
          process_basic_header,
          slice-first 4 basic (common ++ (pv ++ payload)) lb,
          b,
          drop-first 4 basic (common ++ (pv ++ payload)) lb,
          current,
          by_next_header,
          off,
          dispatched now request r q common (pv ++ payload) v lc c,
          gn_data_indicate_shb_taken fl hash now q.node.location_table (pv ++ payload)
              (with_mobility_alone (header_of request r)) (basic_of request r)
              r.node.ego_position_vector (rw (slice-first 24 pv payload lp) p) other,
          drop-first 24 pv payload lp,
        )
        (refl, refl)
    where
      current : (1 == (mib_of fl q).its_gn_protocol_version) ≡ true
      current = λ i. 1 == version i

      off : is_enabled (mib_of fl q).its_gn_security ≡ false
      off = λ i. is_enabled (plain i)

  -- A single-hop broadcast whose fields fit is requested at a router with security off and a position
  -- vector whose fields are not negative and fit. One packet is sent, whatever the sign service. A
  -- router with security off, protocol version 1 and another address, in any state and at any time,
  -- that receives the packet calls its callback with the payload, traffic class and upper protocol of
  -- the request and the sender's position vector, and sends nothing.
  pub gn_data_indicate-gn_data_request :
      (sign_service : Option SignService) (verify_service : Option VerifyService) (now : ℕ)
      (request : GnDataRequest) (r q : Router fl)
      → IsSingleHop request
      → IsValidLong r.node.ego_position_vector
      → (mib_of fl r).its_gn_security ≡ disabled
      → (mib_of fl q).its_gn_security ≡ disabled
      → (mib_of fl q).its_gn_protocol_version ≡ 1
      → Address.eq (mib_of fl q).its_gn_local_gn_addr r.node.ego_position_vector.gn_addr ≡ false
      → (bs : Bytes) × ((gn_data_request fl hash link trig sign_service request r).sent ≡ bs ∷ [])
        × (let a = gn_data_indicate fl hash link trig verify_service now bs q in
            (a.sent ≡ []) × (a.answer ≡ ok (some (heard request r))))
  gn_data_indicate-gn_data_request sign_service verify_service now request r q v pv off plain
        version other =
      let (basic, b, lb, b') =
        basic-Part (basic_of request r) (basic-IsValid (mib_of fl r) request.max_packet_lifetime) in
      let (common, c, lc, c') =
        common-Part (header_of request r) (common-IsValid (mib_of fl r) request v) in
      let (position, p, lp, p') = long-Part r.node.ego_position_vector pv in
      (
        _,
        (λ i. (sends sign_service request r v i).sent)
            ∙ shb-sent sign_service request r basic common position off b c p,
        hears verify_service now request r q basic common position v plain version other lb b' lc c'
            lp p',
      )
