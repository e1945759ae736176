-- ===== src/Geonet/Router/Reception.antt =====
-- What the handler of single-hop broadcasts of src/flexstack/geonet/router.py does with a packet of
-- another station.
use flex_stack.Prelude.{
  drop-drop, ℕ, ◌≡◌, refl, sym, ◌∙◌, [], drop, true, false, some, none, ok, Option, length, ◌==◌,
  ◌||◌, if◌then◌else◌, Bool-cases, inl, inr,
}
use flex_stack.Geonet.Mib.{Mib}
use flex_stack.Floats.{Floats}
use flex_stack.Bytes.{Bytes, slice}
use flex_stack.Geonet.Address
use flex_stack.Geonet.Address.{GnAddress}
use flex_stack.Geonet.BasicHeader.{BasicHeader, get_value_in_seconds}
use flex_stack.Geonet.CommonHeader.{CommonHeader}
use flex_stack.Geonet.Request.{single_hop, tsb, GnDataIndication}
use flex_stack.Geonet.PositionVector.{
  LongPositionVector, tst_gt, long_decode, set_in_normal_timestamp_seconds,
}
use flex_stack.Geonet.Entry.{
  update_with_shb_packet, update_pv_and_pdr, update_position_vector, update_pdr, newer, new_entry,
  Dpl,
}
use flex_stack.Geonet.LocationTable.{
  Entry, LocationTable, get_entry, entry_or_new, new_shb_packet, receive, store,
}
use flex_stack.Geonet.LocationTable.Keys.{same_key_refl}
use flex_stack.Geonet.LocationTable.Refresh.{IsUnique, kept}
use flex_stack.Geonet.LocationTable.Arrivals.{shb, arrive, outcome, updated}
use flex_stack.Geonet.LocationTable.Receive.{get_entry-arrive}
use flex_stack.Geonet.Router.{
  tsb_indication, ended, known_source, gn_data_indicate_shb, duplicate_address_detection,
}

-- What the upper layer hears of a single-hop broadcast.
abbrev pub shb_indication :
    CommonHeader → BasicHeader → LongPositionVector → Bytes → GnDataIndication
shb_indication common_header basic_header source payload = record {
  upper_protocol_entity = common_header.nh;
  packet_transport_type = record { header_type = tsb; header_subtype = single_hop };
  destination_area = none;
  source_position_vector = source;
  traffic_class = common_header.tc;
  remaining_packet_lifetime = some (get_value_in_seconds basic_header.lt);
  remaining_hop_limit = some basic_header.rhl;
  length = length payload;
  payload = payload;
}

module _ (fl : Floats) where
  -- The later of the position vector of an entry, if it has one, and another.
  abbrev pub latest : Option (Entry fl) → LongPositionVector → LongPositionVector
  latest none pv = pv
  latest (some entry) pv =
      if entry.position_vector.tst.msec == 0 || tst_gt pv.tst entry.position_vector.tst
      then pv
      else entry.position_vector

  -- The numbers that an entry remembers.
  abbrev pub remembered : Option (Entry fl) → Dpl
  remembered none = record { dpl_set = []; dpl_deque = [] }
  remembered (some entry) = entry.dpl

  -- What the address of a neighbour finds, before and after a position vector is heard.
  abbrev pub Heard : ℕ → Mib → LongPositionVector → Option (Entry fl) → Option (Entry fl) → Type 0
  Heard now mib pv before after =
      (entry : Entry fl) × (after
        ≡ kept fl mib.its_gn_lifetime_loc_te (set_in_normal_timestamp_seconds now) (some entry))
      × (entry.position_vector ≡ latest before pv)
      × (entry.is_neighbour ≡ true)
      × (entry.tst ≡ pv.tst)
      × (entry.dpl ≡ remembered before)

  update-Heard :
      (now : ℕ) (mib : Mib) (pv : LongPositionVector) (packet : Bytes)
      (before after : Option (Entry fl))
      → after
        ≡ kept fl mib.its_gn_lifetime_loc_te
            (set_in_normal_timestamp_seconds now)
            (some (update_with_shb_packet fl mib pv packet (entry_or_new fl mib before)))
      → Heard now mib pv before after
  unfolding update_with_shb_packet update_pv_and_pdr update_position_vector update_pdr newer
      new_entry
  update-Heard now mib pv packet none after e = (_, e, refl, refl, refl, refl)
  update-Heard now mib pv packet (some entry) after e = (
    _,
    e,
    elim (Bool-cases (entry.position_vector.tst.msec == 0)) [
      | inl unset ↦ rw unset refl
      | inr set ↦ rw set refl
    ],
    refl,
    refl,
    refl,
  )

module _ (fl : Floats) (hash : GnAddress → ℕ) (now : ℕ) (t : LocationTable fl) where
  new_shb_packet-accepts :
      (pv : LongPositionVector) (packet : Bytes)
      → new_shb_packet fl hash now pv packet t ≡ (ok tt, (new_shb_packet fl hash now pv packet t).1)
  unfolding new_shb_packet receive store
  new_shb_packet-accepts pv packet = refl

  get_entry-new_shb_packet :
      (pv : LongPositionVector) (packet : Bytes)
      → IsUnique hash t.loc_t
      → get_entry fl hash pv.gn_addr (new_shb_packet fl hash now pv packet t).1
        ≡ kept fl t.mib.its_gn_lifetime_loc_te (set_in_normal_timestamp_seconds now) (
            some (
              update_with_shb_packet fl t.mib pv packet
                (entry_or_new fl t.mib (get_entry fl hash pv.gn_addr t))))
  unfolding arrive outcome updated
  get_entry-new_shb_packet pv packet u =
      get_entry-arrive fl hash now (shb pv packet) pv.gn_addr t u
      ∙ rw (same_key_refl hash pv.gn_addr) refl

  -- The handler tells the table of the packet and gives the indication.
  pub gn_data_indicate_shb_taken :
      (packet : Bytes) (common_header : CommonHeader) (basic_header : BasicHeader)
      (pv : LongPositionVector)
      → long_decode (slice packet 0 24) ≡ ok pv
      → Address.eq t.mib.its_gn_local_gn_addr pv.gn_addr ≡ false
      → let payload = drop 4 (drop 24 packet) in
        gn_data_indicate_shb fl hash now packet common_header basic_header t
        ≡ ended fl
            (new_shb_packet fl hash now pv payload t).1
            (ok (some (tsb_indication single_hop common_header basic_header pv payload)))
  unfolding gn_data_indicate_shb duplicate_address_detection
  gn_data_indicate_shb_taken packet common_header basic_header pv decoded other =
      rw
        (
          gn_data_indicate_shb,
          decoded,
          known_source,
          duplicate_address_detection,
          other,
          new_shb_packet-accepts pv (drop 4 (drop 24 packet)),
        )
        refl

  -- A single-hop broadcast that decodes, of a source whose address is not the receiver's, is not
  -- forwarded and is delivered: to the entity that the Common Header names, with the source's
  -- position vector, the traffic class, the lifetime and the hop limit of the headers, and the octets
  -- after the first 28. Where the keys of the table differ, the source's address then finds an entry
  -- that is a neighbour, if the position vector of the entry is fresh, and no entry otherwise. That
  -- is the packet's position vector, unless the source had an entry with one whose timestamp is
  -- not 0 and not older.
  pub gn_data_indicate_shb-delivered :
      (packet : Bytes) (common_header : CommonHeader) (basic_header : BasicHeader)
      (pv : LongPositionVector)
      → long_decode (slice packet 0 24) ≡ ok pv
      → Address.eq t.mib.its_gn_local_gn_addr pv.gn_addr ≡ false
      → IsUnique hash t.loc_t
      → let handled = gn_data_indicate_shb fl hash now packet common_header basic_header t in
        (handled.sent ≡ [])
        × (handled.answer
            ≡ ok (some (shb_indication common_header basic_header pv (drop 28 packet))))
        × Heard fl now t.mib pv
            (get_entry fl hash pv.gn_addr t)
            (get_entry fl hash pv.gn_addr handled.table)
  gn_data_indicate_shb-delivered packet common_header basic_header pv decoded other u =
      rw
        (
          sym (drop-drop 4 24 packet),
          gn_data_indicate_shb_taken packet common_header basic_header pv decoded other,
        )
        (
          refl,
          refl,
          update-Heard fl now t.mib pv (drop 4 (drop 24 packet)) (get_entry fl hash pv.gn_addr t) _
              (get_entry-new_shb_packet pv (drop 4 (drop 24 packet)) u),
        )
