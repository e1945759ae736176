-- ===== src/Geonet/Router/Geo/Dropped.antt =====
-- GeoBroadcast packets that the handler refuses.
use flex_stack.Prelude.{
  ℕ, ◌≡◌, refl, inl, inr, ◌⊎◌, drop, Bool, true, false, none, some, ok, err, duplicated_packet,
  zero_division_error, Bool-cases, arith,
}
use flex_stack.Prelude.Int.{ℤ}
use flex_stack.Floats.{Floats, Trig}
use flex_stack.Bytes.{Bytes, slice}
use flex_stack.Sets.{contains}
use flex_stack.Geonet.Address
use flex_stack.Geonet.Address.{GnAddress}
use flex_stack.Geonet.BasicHeader.{BasicHeader}
use flex_stack.Geonet.CommonHeader.{CommonHeader}
use flex_stack.Geonet.Request.{
  Hst, unspecified, single_hop, multi_hop, ls_request, ls_reply, geobroadcast_circle,
  geobroadcast_rect, geobroadcast_elip, geoanycast_circle, geoanycast_rect, geoanycast_elip,
}
use flex_stack.Geonet.ExtendedHeaders.{GbcExtendedHeader, gbc_decode}
use flex_stack.Geonet.LocationTable.{Entry, get_entry, new_gbc_packet}
use flex_stack.Geonet.LocationTable.Arrivals.{gbc, arrive}
use flex_stack.Geonet.LocationTable.Receive.{arrive-duplicate}
use flex_stack.Geonet.Geometry.{gn_geometric_function_f, calculate_distance}
use flex_stack.Geonet.Router.{duplicate_address_detection}
use flex_stack.Geonet.Router.Area.{Node}
use flex_stack.Geonet.Router.Geo.{Link, stop, area_of, known_area, gn_data_indicate_gbc}

-- The subtypes that are the shape of an area.
abbrev pub has_shape : Hst → Bool
has_shape geobroadcast_circle = true
has_shape geobroadcast_rect = true
has_shape geobroadcast_elip = true
has_shape geoanycast_circle = true
has_shape geoanycast_rect = true
has_shape geoanycast_elip = true
has_shape _ = false

module _ (fl : Floats) (trig : Trig fl) (hash : GnAddress → ℕ) (link : Link) where
  known-dropped :
      (now : ℕ) (f : fl.Float) (common_header : CommonHeader) (b : BasicHeader)
      (header : GbcExtendedHeader) (packet : Bytes) (node : Node fl)
      → (Address.eq node.location_table.mib.its_gn_local_gn_addr header.so_pv.gn_addr ≡ true)
        ⊎ ((entry : Entry fl) × (get_entry fl hash header.so_pv.gn_addr node.location_table
              ≡ some entry)
            × (contains header.sn entry.dpl.dpl_set ≡ true))
      → known_area fl trig hash link now (ok f) common_header b header packet node
        ≡ stop fl node (ok none)
  unfolding known_area duplicate_address_detection
  known-dropped now f common_header b header packet node (inl own) = rw (known_area, own) refl
  known-dropped now f common_header b header packet node (inr (entry, found, known)) =
      elim (Bool-cases
        (Address.eq node.location_table.mib.its_gn_local_gn_addr header.so_pv.gn_addr)) [
          | inl own ↦ rw (known_area, own) refl
          | inr other ↦ rw (known_area, other, refused) refl
        ]
    where
      refused :
          new_gbc_packet fl hash now header packet node.location_table
          ≡ (err duplicated_packet, node.location_table)
      refused =
          unfold arrive in
          arrive-duplicate fl hash now (gbc header packet) node.location_table header.sn entry refl
            found known

  -- A GeoBroadcast packet that decodes, whose area can be compared with the receiver's position, from
  -- the receiver's own address or with a sequence number that is in the duplicate packet list of its
  -- source's entry, is not delivered and not sent on, and the node stays as it was.
  pub gn_data_indicate_gbc-dropped :
      (now : ℕ) (packet : Bytes) (common_header : CommonHeader) (b : BasicHeader) (node : Node fl)
      (header : GbcExtendedHeader) (f : fl.Float)
      → gbc_decode (slice packet 0 44) ≡ ok header
      → gn_geometric_function_f fl trig common_header.hst
          (area_of header)
          node.ego_position_vector.latitude
          node.ego_position_vector.longitude
        ≡ ok f
      → (Address.eq node.location_table.mib.its_gn_local_gn_addr header.so_pv.gn_addr ≡ true)
        ⊎ ((entry : Entry fl) × (get_entry fl hash header.so_pv.gn_addr node.location_table
              ≡ some entry)
            × (contains header.sn entry.dpl.dpl_set ≡ true))
      → gn_data_indicate_gbc fl trig hash link now packet common_header b node
        ≡ stop fl node (ok none)
  unfolding gn_data_indicate_gbc
  gn_data_indicate_gbc-dropped now packet common_header b node header f decoded inside known =
      rw (gn_data_indicate_gbc, decoded, inside)
        (known-dropped now f common_header b header (drop 44 packet) node known)

  flat-raises :
      (hst : Hst) (header : GbcExtendedHeader) (lat lon : ℤ)
      → header.a ≡ 0
      → has_shape hst ≡ true
      → gn_geometric_function_f fl trig hst (area_of header) lat lon ≡ err zero_division_error
  unfolding gn_geometric_function_f calculate_distance
  flat-raises geobroadcast_circle header lat lon e s = ground arith
  flat-raises geobroadcast_rect header lat lon e s = ground arith
  flat-raises geobroadcast_elip header lat lon e s = ground arith
  flat-raises geoanycast_circle header lat lon e s = ground arith
  flat-raises geoanycast_rect header lat lon e s = ground arith
  flat-raises geoanycast_elip header lat lon e s = ground arith
  flat-raises unspecified header lat lon e s = ground arith
  flat-raises single_hop header lat lon e s = ground arith
  flat-raises multi_hop header lat lon e s = ground arith
  flat-raises ls_request header lat lon e s = ground arith
  flat-raises ls_reply header lat lon e s = ground arith

  -- A GeoBroadcast packet with a shape and a distance a of 0, whoever sends it, makes the handler raise
  -- ZeroDivisionError before it looks at the source.
  pub gn_data_indicate_gbc_flat :
      (now : ℕ) (packet : Bytes) (common_header : CommonHeader) (b : BasicHeader) (node : Node fl)
      (header : GbcExtendedHeader)
      → gbc_decode (slice packet 0 44) ≡ ok header
      → has_shape common_header.hst ≡ true
      → header.a ≡ 0
      → gn_data_indicate_gbc fl trig hash link now packet common_header b node
        ≡ stop fl node (err zero_division_error)
  unfolding gn_data_indicate_gbc known_area
  gn_data_indicate_gbc_flat now packet common_header b node header decoded shape flat =
      let ego = node.ego_position_vector in
      rw
        (
          gn_data_indicate_gbc,
          decoded,
          flat-raises common_header.hst header ego.latitude ego.longitude flat shape,
        )
        refl
