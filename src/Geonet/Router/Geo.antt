-- ===== src/Geonet/Router/Geo.antt =====
-- The receiving of GeoBroadcast, GeoAnycast and GeoUnicast packets in src/flexstack/geonet/router.py.
-- The link layer, which may refuse a packet, is a parameter; what it is given is an output.
pub mod Sent
pub mod Dropped
use flex_stack.Prelude.{
  ℕ, ◌+◌, ◌-◌, ◌*◌, List, [], ◌∷◌, length, drop, Bool, true, false, not, ltb, ◌||◌, Option, none,
  some, Result, ok, err, packet_too_long, sending_error, if◌then◌else◌,
}
use flex_stack.Floats.{Floats, Trig}
use flex_stack.Bytes.{Bytes, slice}
use flex_stack.Geonet.Address.{GnAddress}
use flex_stack.Geonet.Mib as Mib
use flex_stack.Geonet.Mib.{Mib}
use flex_stack.Geonet.PositionVector.{LongPositionVector}
use flex_stack.Geonet.BasicHeader.{BasicHeader, set_rhl, get_value_in_seconds}
use flex_stack.Geonet.CommonHeader.{CommonHeader}
use flex_stack.Geonet.Request.{
  Area, Hst, GnDataIndication, ResultCode, accepted, maximum_length_exceeded, unspecified_code,
  HeaderType, geobroadcast,
}
use flex_stack.Geonet.ExtendedHeaders.{GbcExtendedHeader, gbc_decode}
use flex_stack.Geonet.LocationTable.{LocationTable, get_entry, get_neighbours, new_gbc_packet}
use flex_stack.Geonet.Geometry.{gn_geometric_function_f, compute_area_size_m2}
use flex_stack.Geonet.Router.{swallow, is_empty, rate_exceeded, duplicate_address_detection}
use flex_stack.Geonet.Router.Area.{
  GnForwardingAlgorithmResponse, area_forwarding, non_area_forwarding, discarted, Node,
  gn_greedy_forwarding, gn_area_cbf_forwarding, gn_forwarding_algorithm_selection, gbc_packet,
}

-- What the link layer makes of a packet: it sends it, or raises.
abbrev pub Link : Type 0
Link = Bytes → Result (Unit {0})

-- The result code of the sending.
abbrev pub confirm : Result (Unit {0}) → Result ResultCode
confirm (ok done) = ok accepted
confirm (err packet_too_long) = ok maximum_length_exceeded
confirm (err sending_error) = ok unspecified_code
confirm (err e) = err e

abbrev pub area_of : GbcExtendedHeader → Area
area_of header = record {
  latitude = header.latitude;
  longitude = header.longitude;
  a = header.a;
  b = header.b;
  angle = header.angle;
}

abbrev pub is_cbf : Mib.AreaForwardingAlgorithm → Bool
is_cbf Mib.cbf = true
is_cbf _ = false

-- `set_rhl(rhl - 1)`, which takes -1 for 255.
unfoldable pub lower : BasicHeader → BasicHeader
unfolding set_rhl
lower basic_header = set_rhl basic_header (basic_header.rhl + 255)

-- The indication of a packet for an area.
abbrev pub geo_indication :
    HeaderType
    → Hst
    → Option Area
    → CommonHeader
    → BasicHeader
    → LongPositionVector
    → Bytes
    → GnDataIndication
geo_indication header_type header_subtype area common_header basic_header source payload = record {
  upper_protocol_entity = common_header.nh;
  packet_transport_type = record { header_type = header_type; header_subtype = header_subtype };
  destination_area = area;
  source_position_vector = source;
  traffic_class = common_header.tc;
  remaining_packet_lifetime = some (get_value_in_seconds basic_header.lt);
  remaining_hop_limit = some basic_header.rhl;
  length = length payload;
  payload = payload;
}

module _ (fl : Floats) where
  -- The node after an operation, what it gave the link layer, and how it ended.
  pub record Done (A : Type 0) : Type 0 where
    pub node : Node fl
    pub sent : List Bytes
    pub answer : Result A

  abbrev pub stop : {A : Type 0} → Node fl → Result A → Done A
  stop node answer = record { node = node; sent = []; answer = answer }

  module _ (trig : Trig fl) (hash : GnAddress → ℕ) (link : Link) where
    open fl use {of_int, flt}
    open trig use {fle}

    -- `link_layer.send`, or the exception of the packet's encoding
    abbrev pub transmit : Node fl → Result Bytes → Done ResultCode
    transmit node (err e) = stop node (err e)
    transmit node (ok bs) = record { node = node; sent = bs ∷ []; answer = confirm (link bs) }

    -- What contention-based forwarding answers is dropped.
    abbrev pub buffered : Result Bool × Node fl → Done ResultCode
    buffered (ok b, node) = stop node (ok accepted)
    buffered (err e, node) = stop node (err e)

    unfoldable pub by_algorithm :
        Result GnForwardingAlgorithmResponse
        → BasicHeader
        → CommonHeader
        → GbcExtendedHeader
        → Bytes
        → Node fl
        → Done ResultCode
    unfolding gn_greedy_forwarding gn_area_cbf_forwarding gbc_packet
    by_algorithm (err e) basic_header common_header header packet node = stop node (err e)
    by_algorithm (ok area_forwarding) basic_header common_header header packet node =
        if is_cbf node.location_table.mib.its_gn_area_forwarding_algorithm
        then buffered
            (gn_area_cbf_forwarding fl trig hash basic_header common_header header packet node)
        else transmit node (gbc_packet fl trig hash basic_header common_header header packet)
    by_algorithm (ok non_area_forwarding) basic_header common_header header packet node =
        if gn_greedy_forwarding fl trig header.latitude header.longitude common_header.tc.scf node
        then transmit node (gbc_packet fl trig hash basic_header common_header header packet)
        else stop node (ok accepted)
    by_algorithm (ok discarted) basic_header common_header header packet node =
        stop node (ok accepted)

    -- Without neighbours, a packet whose traffic class asks to store it is sent at once.
    unfoldable pub gn_data_forward_gbc :
        BasicHeader → CommonHeader → GbcExtendedHeader → Bytes → Node fl → Done ResultCode
    unfolding by_algorithm gn_forwarding_algorithm_selection gbc_packet lower
    gn_data_forward_gbc basic_header common_header header packet node =
        let lowered = lower basic_header in
        if not (is_empty fl (get_neighbours fl node.location_table)) || not common_header.tc.scf
        then by_algorithm
            (gn_forwarding_algorithm_selection fl trig hash common_header.hst (area_of header)
              (some header.so_pv.gn_addr) node)
            lowered common_header header packet node
        else transmit node (gbc_packet fl trig hash lowered common_header header packet)

    -- The handler's answer after the forwarding, of which only an exception counts.
    abbrev pub then_deliver :
        Option GnDataIndication → Done ResultCode → Done (Option GnDataIndication)
    then_deliver indication d = record {
      node = d.node;
      sent = d.sent;
      answer = elim d.answer [ ok code ↦ ok indication | err e ↦ swallow e ];
    }

    unfoldable pub too_large : Hst → Area → Node fl → Bool
    unfolding compute_area_size_m2
    too_large hst area node =
        flt (of_int (node.location_table.mib.its_gn_max_geo_area_size * 1000000))
          (compute_area_size_m2 fl trig hst area)

    -- From step 7 on, after the location table.
    unfoldable pub gbc_received :
        Bool
        → CommonHeader
        → BasicHeader
        → GbcExtendedHeader
        → Bytes
        → Node fl
        → Done (Option GnDataIndication)
    unfolding gn_data_forward_gbc too_large
    gbc_received inside common_header basic_header header packet node =
        let indication =
          if inside
          then some (
              geo_indication geobroadcast common_header.hst (some (area_of header)) common_header
                basic_header header.so_pv packet)
          else none in
        if too_large common_header.hst (area_of header) node
        then stop node (ok indication)
        else if rate_exceeded fl node.location_table.mib
            (get_entry fl hash header.so_pv.gn_addr node.location_table)
        then stop node (ok indication)
        else if ltb 0 (basic_header.rhl - 1)
        then then_deliver indication
            (gn_data_forward_gbc basic_header common_header header packet node)
        else stop node (ok indication)

    -- An exception, or the rest of the handler, on the node with the changed table.
    abbrev pub after_table :
        Node fl
        → Result (Unit {0}) × LocationTable fl
        → (Node fl → Done (Option GnDataIndication))
        → Done (Option GnDataIndication)
    after_table node (ok done, t) rest = rest (record node { location_table = t })
    after_table node (err e, t) rest = stop (record node { location_table = t }) (swallow e)

    unfoldable pub known_area :
        ℕ
        → Result fl.Float
        → CommonHeader
        → BasicHeader
        → GbcExtendedHeader
        → Bytes
        → Node fl
        → Done (Option GnDataIndication)
    unfolding gbc_received
    known_area now (err e) common_header basic_header header packet node = stop node (err e)
    known_area now (ok area_f) common_header basic_header header packet node =
        elim (duplicate_address_detection node.location_table.mib header.so_pv.gn_addr) [
          | err e ↦ stop node (swallow e)
          | ok unique ↦
              after_table node (new_gbc_packet fl hash now header packet node.location_table)
                (gbc_received (fle (of_int 0) area_f) common_header basic_header header packet)
        ]

    unfoldable pub gn_data_indicate_gbc :
        ℕ → Bytes → CommonHeader → BasicHeader → Node fl → Done (Option GnDataIndication)
    unfolding known_area gn_geometric_function_f
    gn_data_indicate_gbc now packet common_header basic_header node =
        elim (gbc_decode (slice packet 0 44)) [
          | err e ↦ stop node (err e)
          | ok header ↦
              let ego = node.ego_position_vector in
              known_area now
                (gn_geometric_function_f fl trig common_header.hst (area_of header) ego.latitude
                  ego.longitude)
                common_header basic_header header (drop 44 packet) node
        ]
