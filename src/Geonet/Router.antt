-- ===== src/Geonet/Router.antt =====
-- The receiving of SHB, multi-hop TSB and beacon packets in src/flexstack/geonet/router.py. What a
-- handler gives the link layer is an output of the model, so the link layer's exceptions, which the
-- handlers drop, do not appear. Messages to the console are left out.
pub mod Forwarding
pub mod Reception
pub mod Area
pub mod Geo
pub mod Anycast
pub mod LocationService
pub mod Requests
pub mod Indications
use flex_stack.Prelude.{
  ℕ, ◌-◌, ◌*◌, ◌+◌, ◌%◌, ◌^◌, List, [], ◌∷◌, ◌++◌, length, drop, Bool, true, false, ltb, ◌==◌, ◌&&◌,
  Option, none, some, Result, ok, err, Error, duplicated_packet, dad_error, decode_error, ◌>>=◌,
  if◌then◌else◌,
}
use flex_stack.Floats.{Floats}
use flex_stack.Bytes.{Bytes, slice}
use flex_stack.Geonet.Address
use flex_stack.Geonet.Address.{GnAddress}
use flex_stack.Geonet.Mib.{Mib}
use flex_stack.Geonet.PositionVector.{LongPositionVector, long_decode}
use flex_stack.Geonet.BasicHeader as Basic
use flex_stack.Geonet.BasicHeader.{BasicHeader, get_value_in_seconds, set_rhl}
use flex_stack.Geonet.CommonHeader as Common
use flex_stack.Geonet.CommonHeader.{CommonHeader}
use flex_stack.Geonet.Request.{GnDataIndication, HeaderType, Hst, tsb, single_hop, multi_hop}
use flex_stack.Geonet.ExtendedHeaders.{TsbExtendedHeader, tsb_encode, tsb_decode}
use flex_stack.Geonet.LocationTable.{
  Entry, LocationTable, get_entry, get_neighbours, new_shb_packet, new_tsb_packet,
}

-- `get_sequence_number`, which returns the number that it stores.
unfoldable pub get_sequence_number : ℕ → ℕ
get_sequence_number sequence_number = (sequence_number + 1) % (2 ^ 16 - 1)

unfoldable pub duplicate_address_detection : Mib → GnAddress → Result (Unit {0})
duplicate_address_detection mib gn_addr =
    if Address.eq mib.its_gn_local_gn_addr gn_addr then err dad_error else ok tt

-- The `except` clauses of the handlers: these exceptions end in no indication.
abbrev pub swallow : Error → Result (Option GnDataIndication)
swallow dad_error = ok none
swallow duplicated_packet = ok none
swallow decode_error = ok none
swallow e = err e

-- The indication of a topological broadcast.
abbrev pub tsb_indication :
    Hst → CommonHeader → BasicHeader → LongPositionVector → Bytes → GnDataIndication
tsb_indication subtype common_header basic_header source payload = record {
  upper_protocol_entity = common_header.nh;
  packet_transport_type = record { header_type = tsb; header_subtype = subtype };
  destination_area = none;
  source_position_vector = source;
  traffic_class = common_header.tc;
  remaining_packet_lifetime = some (get_value_in_seconds basic_header.lt);
  remaining_hop_limit = some basic_header.rhl;
  length = length payload;
  payload = payload;
}

-- The packet with the lower hop limit.
unfoldable pub tsb_forward_packet :
    BasicHeader → CommonHeader → TsbExtendedHeader → Bytes → Result Bytes
tsb_forward_packet basic_header common_header header packet = do
  basic ← Basic.encode_to_bytes (set_rhl basic_header (basic_header.rhl - 1))
  common ← Common.encode_to_bytes common_header
  extended ← tsb_encode header
  ok (basic ++ common ++ extended ++ packet)

module _ (fl : Floats) where
  open fl use {of_int, flt}

  -- The table after a handler, what it gave the link layer, and how it ended.
  pub record Handled : Type 0 where
    pub table : LocationTable fl
    pub sent : List Bytes
    pub answer : Result (Option GnDataIndication)

  abbrev pub ended : LocationTable fl → Result (Option GnDataIndication) → Handled
  ended t answer = record { table = t; sent = []; answer = answer }

  -- An exception, or the rest of the handler on the changed table.
  abbrev pub after_table :
      Result (Unit {0}) × LocationTable fl → (LocationTable fl → Handled) → Handled
  after_table (ok done, t) rest = rest t
  after_table (err e, t) rest = ended t (swallow e)

  abbrev pub is_empty : List (Entry fl) → Bool
  is_empty [] = true
  is_empty (e ∷ es) = false

  -- `so_entry is not None and so_entry.pdr > itsGnMaxPacketDataRate * 1000`
  abbrev pub rate_exceeded : Mib → Option (Entry fl) → Bool
  rate_exceeded mib none = false
  rate_exceeded mib (some entry) = flt (of_int (mib.its_gn_max_packet_data_rate * 1000)) entry.pdr

  module _ (hash : GnAddress → ℕ) where
    abbrev pub known_source :
        ℕ → LocationTable fl → LongPositionVector → Bytes → (LocationTable fl → Handled) → Handled
    known_source now t pv packet rest = elim (duplicate_address_detection t.mib pv.gn_addr) [
      | err e ↦ ended t (swallow e)
      | ok unique ↦ after_table (new_shb_packet fl hash now pv packet t) rest
    ]

    -- The position vector, then four octets of media dependent data that are skipped.
    unfoldable pub gn_data_indicate_shb :
        ℕ → Bytes → CommonHeader → BasicHeader → LocationTable fl → Handled
    gn_data_indicate_shb now packet common_header basic_header t =
        elim (long_decode (slice packet 0 24)) [
          | err e ↦ ended t (swallow e)
          | ok pv ↦
              let payload = drop 4 (drop 24 packet) in
              known_source now t pv payload (λ t'.
                ended t'
                  (ok (some (tsb_indication single_hop common_header basic_header pv payload))))
        ]

    unfoldable pub gn_data_indicate_beacon : ℕ → Bytes → LocationTable fl → Handled
    gn_data_indicate_beacon now packet t = elim (long_decode (slice packet 0 24)) [
      | err e ↦ ended t (swallow e)
      | ok pv ↦ known_source now t pv (drop 24 packet) (λ t'. ended t' (ok none))
    ]

    abbrev pub send_or_raise : LocationTable fl → GnDataIndication → Result Bytes → Handled
    send_or_raise t indication (ok bs) = record {
      table = t;
      sent = bs ∷ [];
      answer = ok (some indication);
    }
    send_or_raise t indication (err e) = ended t (swallow e)

    -- Steps 7 to 12, with a link layer.
    unfoldable pub forward_tsb :
        BasicHeader → CommonHeader → TsbExtendedHeader → Bytes → LocationTable fl → Handled
    unfolding tsb_forward_packet
    forward_tsb basic_header common_header header packet t =
        let indication = tsb_indication multi_hop common_header basic_header header.so_pv packet in
        let deliver_alone = ended t (ok (some indication)) in
        if rate_exceeded t.mib (get_entry fl hash header.so_pv.gn_addr t)
        then deliver_alone
        else if ltb 0 (basic_header.rhl - 1)
        then if is_empty (get_neighbours fl t) && common_header.tc.scf
          then deliver_alone
          else send_or_raise t indication
              (tsb_forward_packet basic_header common_header header packet)
        else deliver_alone

    unfoldable pub gn_data_indicate_tsb :
        ℕ → Bytes → CommonHeader → BasicHeader → LocationTable fl → Handled
    unfolding forward_tsb
    gn_data_indicate_tsb now packet common_header basic_header t =
        elim (tsb_decode (slice packet 0 28)) [
          | err e ↦ ended t (err e)
          | ok header ↦
              let payload = drop 28 packet in
              elim (duplicate_address_detection t.mib header.so_pv.gn_addr) [
                | err e ↦ ended t (swallow e)
                | ok unique ↦
                    after_table (new_tsb_packet fl hash now header payload t)
                      (forward_tsb basic_header common_header header payload)
              ]
        ]
