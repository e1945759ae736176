-- ===== src/Geonet/LocationTable/Arrivals.antt =====
-- The `new_*_packet` methods of src/flexstack/geonet/location_table.py as one kind of step on the table.
use flex_stack.Prelude.{ℕ, ◌≡◌, refl, Bool, true, false, Option, none, some, Result, ok, err}
use flex_stack.Floats.{Floats}
use flex_stack.Bytes.{Bytes}
use flex_stack.Geonet.Address.{GnAddress}
use flex_stack.Geonet.Mib.{Mib}
use flex_stack.Geonet.PositionVector.{LongPositionVector, set_in_normal_timestamp_seconds}
use flex_stack.Geonet.ExtendedHeaders.{
  GbcExtendedHeader, TsbExtendedHeader, GucExtendedHeader, LsRequestExtendedHeader,
}
use flex_stack.Geonet.Entry.{
  new_entry, update_with_shb_packet, update_with_tsb_packet, update_with_gbc_packet,
}
use flex_stack.Geonet.LocationTable.{
  Entry, LocationTable, insert, get_entry, ensure_entry, entry_or_new, store, is_none,
  checked_update, receive, new_shb_packet, new_tsb_packet, new_gbc_packet, new_guc_packet,
  new_gac_packet, new_ls_request_packet, new_ls_reply_packet,
}
use flex_stack.Geonet.LocationTable.Refresh.{kept}

-- The packets that the location table is told of; `packet` is what follows the headers.
pub data Arrival : Type 0 where
  shb : LongPositionVector → Bytes → Arrival
  tsb : TsbExtendedHeader → Bytes → Arrival
  gbc : GbcExtendedHeader → Bytes → Arrival
  guc : GucExtendedHeader → Bytes → Arrival
  gac : GbcExtendedHeader → Bytes → Arrival
  ls_request : LsRequestExtendedHeader → Bytes → Arrival
  ls_reply : GucExtendedHeader → Bytes → Arrival

-- The address that the packet's table entry has.
abbrev pub sender : Arrival → GnAddress
sender (shb position_vector packet) = position_vector.gn_addr
sender (tsb header packet) = header.so_pv.gn_addr
sender (gbc header packet) = header.so_pv.gn_addr
sender (guc header packet) = header.so_pv.gn_addr
sender (gac header packet) = header.so_pv.gn_addr
sender (ls_request header packet) = header.so_pv.gn_addr
sender (ls_reply header packet) = header.so_pv.gn_addr

-- The sequence number of the packets that have one.
abbrev pub sequence_number : Arrival → Option ℕ
sequence_number (shb position_vector packet) = none
sequence_number (tsb header packet) = some header.sn
sequence_number (gbc header packet) = some header.sn
sequence_number (guc header packet) = some header.sn
sequence_number (gac header packet) = some header.sn
sequence_number (ls_request header packet) = some header.sn
sequence_number (ls_reply header packet) = some header.sn

module _ (fl : Floats) where
  -- What a packet does to its sender's entry.
  abbrev pub update : Mib → Arrival → Bool → Entry fl → Result (Unit {0}) × Entry fl
  update mib (shb pv packet) is_new entry = (ok tt, update_with_shb_packet fl mib pv packet entry)
  update mib (tsb header packet) is_new entry =
      update_with_tsb_packet fl mib packet header is_new entry
  update mib (gbc header packet) is_new entry = update_with_gbc_packet fl mib packet header entry
  update mib (guc header packet) is_new entry =
      checked_update fl mib header.sn header.so_pv packet is_new entry
  update mib (gac header packet) is_new entry =
      checked_update fl mib header.sn header.so_pv packet is_new entry
  update mib (ls_request header packet) is_new entry =
      checked_update fl mib header.sn header.so_pv packet is_new entry
  update mib (ls_reply header packet) is_new entry =
      checked_update fl mib header.sn header.so_pv packet is_new entry

  -- What an address finds after the packet's outcome: the table is refreshed unless the packet raised.
  unfoldable pub outcome : ℕ → ℕ → Result (Unit {0}) → Option (Entry fl) → Option (Entry fl)
  outcome lifetime now (ok done) found =
      kept fl lifetime (set_in_normal_timestamp_seconds now) found
  outcome lifetime now (err e) found = found

module _ (fl : Floats) (hash : GnAddress → ℕ) where
  unfoldable pub arrive : ℕ → Arrival → LocationTable fl → Result (Unit {0}) × LocationTable fl
  arrive now (shb position_vector packet) t = new_shb_packet fl hash now position_vector packet t
  arrive now (tsb header packet) t = new_tsb_packet fl hash now header packet t
  arrive now (gbc header packet) t = new_gbc_packet fl hash now header packet t
  arrive now (guc header packet) t = new_guc_packet fl hash now header packet t
  arrive now (gac header packet) t = new_gac_packet fl hash now header packet t
  arrive now (ls_request header packet) t = new_ls_request_packet fl hash now header packet t
  arrive now (ls_reply header packet) t = new_ls_reply_packet fl hash now header packet t

  -- The outcome of a packet for the entry of its sender, which is made if there is none.
  unfoldable pub updated : LocationTable fl → Arrival → Result (Unit {0}) × Entry fl
  updated t arrival =
      let found = get_entry fl hash (sender arrival) t in
      update fl t.mib arrival (is_none fl found) (entry_or_new fl t.mib found)

  pub arrive-receive :
      (now : ℕ) (arrival : Arrival) (t : LocationTable fl)
      → arrive now arrival t ≡ receive fl hash now (sender arrival) (update fl t.mib arrival) t
  unfolding arrive new_shb_packet new_tsb_packet new_gbc_packet new_guc_packet new_gac_packet
      new_ls_request_packet new_ls_reply_packet
  arrive-receive now (shb pv packet) t = refl
  arrive-receive now (tsb header packet) t = refl
  arrive-receive now (gbc header packet) t = refl
  arrive-receive now (guc header packet) t = refl
  arrive-receive now (gac header packet) t = refl
  arrive-receive now (ls_request header packet) t = refl
  arrive-receive now (ls_reply header packet) t = refl

  pub receive-known :
      (now : ℕ) (key : GnAddress) (f : Bool → Entry fl → Result (Unit {0}) × Entry fl)
      (t : LocationTable fl) (entry : Entry fl)
      → get_entry fl hash key t ≡ some entry
      → receive fl hash now key f t ≡ store fl hash now key (f false entry) t
  unfolding receive ensure_entry
  receive-known now key f t entry found = rw found refl

  pub receive-absent :
      (now : ℕ) (key : GnAddress) (f : Bool → Entry fl → Result (Unit {0}) × Entry fl)
      (t : LocationTable fl)
      → get_entry fl hash key t ≡ none
      → receive fl hash now key f t
        ≡ store fl hash now key
            (f true (new_entry fl t.mib))
            (record t { loc_t = insert hash key (new_entry fl t.mib) t.loc_t })
  unfolding receive ensure_entry
  receive-absent now key f t absent = rw absent refl
