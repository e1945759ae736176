-- ===== src/Geonet/Router/Anycast.antt =====
-- The receiving of GeoAnycast and GeoUnicast packets in src/flexstack/geonet/router.py.
pub mod Sent
pub mod Hops
pub mod Unicast
use flex_stack.Prelude.{
  ℕ, ◌-◌, ◌+◌, ◌++◌, drop, Bool, true, false, not, ltb, ◌==◌, ◌&&◌, Option, none, some, Result, ok,
  err, ◌>>=◌, if◌then◌else◌,
}
use flex_stack.Floats.{Floats, Trig}
use flex_stack.Bytes.{Bytes, slice}
use flex_stack.Geonet.Address
use flex_stack.Geonet.Address.{GnAddress}
use flex_stack.Geonet.PositionVector.{LongPositionVector, ShortPositionVector, tst_gt}
use flex_stack.Geonet.BasicHeader as Basic
use flex_stack.Geonet.BasicHeader.{BasicHeader, set_rhl}
use flex_stack.Geonet.CommonHeader as Common
use flex_stack.Geonet.CommonHeader.{CommonHeader}
use flex_stack.Geonet.Request.{Area, Hst, single_hop, GnDataIndication, geoanycast, geounicast}
use flex_stack.Geonet.ExtendedHeaders.{
  GbcExtendedHeader, gbc_decode, GucExtendedHeader, guc_encode, guc_decode, with_de_pv,
}
use flex_stack.Geonet.LocationTable.{
  Entry, get_entry, get_neighbours, new_gac_packet, new_guc_packet,
}
use flex_stack.Geonet.Geometry.{gn_geometric_function_f}
use flex_stack.Geonet.Router.{swallow, is_empty, rate_exceeded, duplicate_address_detection}
use flex_stack.Geonet.Router.Area.{Node, gn_greedy_forwarding, gbc_packet}
use flex_stack.Geonet.Router.Geo.{
  Link, lower, area_of, geo_indication, Done, stop, transmit, then_deliver, too_large, after_table,
}

-- The position vector of a table's entry in the shape of a destination's.
abbrev pub short_of : LongPositionVector → ShortPositionVector
short_of pv = record {
  gn_addr = pv.gn_addr;
  tst = pv.tst;
  latitude = pv.latitude;
  longitude = pv.longitude;
}

module _ (fl : Floats) (trig : Trig fl) (hash : GnAddress → ℕ) (link : Link) where
  open fl use {of_int}
  open trig use {fle}

  -- Whether the sender is inside the area, if its position is known and accurate.
  abbrev pub sender_inside : Hst → Area → Option (Entry fl) → Result Bool
  unfolding gn_geometric_function_f
  sender_inside hst area none = ok false
  sender_inside hst area (some se) =
      let pv = se.position_vector in
      if pv.pai
      then gn_geometric_function_f fl trig hst area pv.latitude pv.longitude
        >>= (λ f_se. ok (fle (of_int 0) f_se))
      else ok false

  -- Steps 10a to 13: the new hop limit is compared with 0 alone.
  unfoldable pub gac_forward :
      CommonHeader
      → BasicHeader
      → GbcExtendedHeader
      → Bytes
      → Node fl
      → Done fl (Option GnDataIndication)
  unfolding lower gn_greedy_forwarding gbc_packet
  gac_forward common_header basic_header header packet node =
      if basic_header.rhl == 1
      then stop fl node (ok none)
      else if is_empty fl (get_neighbours fl node.location_table) && common_header.tc.scf
      then stop fl node (ok none)
      else if gn_greedy_forwarding fl trig header.latitude header.longitude common_header.tc.scf
          node
      then then_deliver fl trig hash link none (
          transmit fl trig hash link node
            (gbc_packet fl trig hash (lower basic_header) common_header header packet))
      else stop fl node (ok none)

  unfoldable pub unless_inside :
      Result Bool
      → CommonHeader
      → BasicHeader
      → GbcExtendedHeader
      → Bytes
      → Node fl
      → Done fl (Option GnDataIndication)
  unfolding gac_forward
  unless_inside (err e) common_header basic_header header packet node = stop fl node (swallow e)
  unless_inside (ok true) common_header basic_header header packet node = stop fl node (ok none)
  unless_inside (ok false) common_header basic_header header packet node =
      gac_forward common_header basic_header header packet node

  -- Inside the area a packet is delivered and goes no further; outside it is only forwarded.
  unfoldable pub gac_received :
      Bool
      → CommonHeader
      → BasicHeader
      → GbcExtendedHeader
      → Bytes
      → Node fl
      → Done fl (Option GnDataIndication)
  unfolding unless_inside sender_inside too_large
  gac_received inside common_header basic_header header packet node =
      let so_entry = get_entry fl hash header.so_pv.gn_addr node.location_table in
      if inside
      then stop fl node (
          ok (
            some (
              geo_indication geoanycast common_header.hst (some (area_of header)) common_header
                basic_header header.so_pv packet)))
      else if too_large fl trig hash link common_header.hst (area_of header) node
      then stop fl node (ok none)
      else if rate_exceeded fl node.location_table.mib so_entry
      then stop fl node (ok none)
      else unless_inside (sender_inside common_header.hst (area_of header) so_entry) common_header
          basic_header header packet node

  unfoldable pub gac_known :
      ℕ
      → Result fl.Float
      → CommonHeader
      → BasicHeader
      → GbcExtendedHeader
      → Bytes
      → Node fl
      → Done fl (Option GnDataIndication)
  unfolding gac_received
  gac_known now (err e) common_header basic_header header packet node = stop fl node (err e)
  gac_known now (ok area_f) common_header basic_header header packet node =
      elim (duplicate_address_detection node.location_table.mib header.so_pv.gn_addr) [
        | err e ↦ stop fl node (swallow e)
        | ok unique ↦
            after_table fl trig hash link node
              (new_gac_packet fl hash now header packet node.location_table)
              (gac_received (fle (of_int 0) area_f) common_header basic_header header packet)
      ]

  unfoldable pub gn_data_indicate_gac :
      ℕ → Bytes → CommonHeader → BasicHeader → Node fl → Done fl (Option GnDataIndication)
  unfolding gac_known gn_geometric_function_f
  gn_data_indicate_gac now packet common_header basic_header node =
      elim (gbc_decode (slice packet 0 44)) [
        | err e ↦ stop fl node (err e)
        | ok header ↦
            let ego = node.ego_position_vector in
            gac_known now
              (gn_geometric_function_f fl trig common_header.hst (area_of header) ego.latitude
                ego.longitude)
              common_header basic_header header (drop 44 packet) node
      ]

  -- The header with the destination's position of the table, if that is a neighbour's and newer.
  abbrev pub refreshed : Option (Entry fl) → GucExtendedHeader → GucExtendedHeader
  refreshed none header = header
  refreshed (some de) header =
      if de.is_neighbour && tst_gt de.position_vector.tst header.de_pv.tst
      then with_de_pv header (short_of de.position_vector)
      else header

  unfoldable pub guc_packet : BasicHeader → CommonHeader → GucExtendedHeader → Bytes → Result Bytes
  guc_packet basic_header common_header header packet = do
    basic ← Basic.encode_to_bytes basic_header
    common ← Common.encode_to_bytes common_header
    extended ← guc_encode header
    ok (basic ++ common ++ extended ++ packet)

  -- Steps 9 to 15 of the forwarder.
  unfoldable pub guc_forward :
      CommonHeader
      → BasicHeader
      → GucExtendedHeader
      → Bytes
      → Node fl
      → Done fl (Option GnDataIndication)
  unfolding gn_greedy_forwarding guc_packet
  guc_forward common_header basic_header header packet node =
      if not (ltb 0 (basic_header.rhl - 1))
      then stop fl node (ok none)
      else if is_empty fl (get_neighbours fl node.location_table) && common_header.tc.scf
      then stop fl node (ok none)
      else if gn_greedy_forwarding fl trig header.de_pv.latitude header.de_pv.longitude
          common_header.tc.scf node
      then then_deliver fl trig hash link none (
          transmit fl trig hash link node
            (guc_packet (set_rhl basic_header (basic_header.rhl - 1)) common_header header packet))
      else stop fl node (ok none)

  unfoldable pub guc_received :
      CommonHeader
      → BasicHeader
      → GucExtendedHeader
      → Bytes
      → Node fl
      → Done fl (Option GnDataIndication)
  unfolding guc_forward
  guc_received common_header basic_header header packet node =
      let t = node.location_table in
      if Address.eq header.de_pv.gn_addr t.mib.its_gn_local_gn_addr
      then stop fl node (
          ok (
            some (
              geo_indication geounicast single_hop none common_header basic_header header.so_pv
                packet)))
      else if rate_exceeded fl t.mib (get_entry fl hash header.so_pv.gn_addr t)
      then stop fl node (ok none)
      else guc_forward common_header basic_header
          (refreshed (get_entry fl hash header.de_pv.gn_addr t) header) packet node

  unfoldable pub gn_data_indicate_guc :
      ℕ → Bytes → CommonHeader → BasicHeader → Node fl → Done fl (Option GnDataIndication)
  unfolding guc_received
  gn_data_indicate_guc now packet common_header basic_header node =
      elim (guc_decode (slice packet 0 48)) [
        | err e ↦ stop fl node (err e)
        | ok header ↦
            elim (duplicate_address_detection node.location_table.mib header.so_pv.gn_addr) [
              | err e ↦ stop fl node (swallow e)
              | ok unique ↦
                  after_table fl trig hash link node
                    (new_guc_packet fl hash now header (drop 48 packet) node.location_table)
                    (guc_received common_header basic_header header (drop 48 packet))
            ]
      ]
