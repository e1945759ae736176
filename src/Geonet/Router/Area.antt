-- ===== src/Geonet/Router/Area.antt =====
-- The forwarding algorithms of src/flexstack/geonet/router.py: greedy forwarding, the selection of
-- annex D, and contention-based forwarding with its buffer of packets that wait.
pub mod Greedy
pub mod Contention
use flex_stack.Prelude.{
  ℕ, List, [], ◌∷◌, ◌++◌, Bool, true, false, not, ◌==◌, ◌&&◌, Option, none, some, Result, ok, err,
  ◌>>=◌, if◌then◌else◌,
}
use flex_stack.Prelude.Int.{ℤ}
use flex_stack.Floats.{Floats, Trig}
use flex_stack.Bytes.{Bytes}
use flex_stack.Geonet.Address.{GnAddress}
use flex_stack.Geonet.Mib.{Mib}
use flex_stack.Geonet.PositionVector.{LongPositionVector}
use flex_stack.Geonet.BasicHeader as Basic
use flex_stack.Geonet.BasicHeader.{BasicHeader}
use flex_stack.Geonet.CommonHeader as Common
use flex_stack.Geonet.CommonHeader.{CommonHeader}
use flex_stack.Geonet.Request.{Area, Hst}
use flex_stack.Geonet.ExtendedHeaders.{GbcExtendedHeader, gbc_encode}
use flex_stack.Geonet.LocationTable.{Entry, LocationTable, same_key, get_entry, get_neighbours}
use flex_stack.Geonet.Geometry.{gn_geometric_function_f, distance_m}

pub data GnForwardingAlgorithmResponse : Type 0 where
  area_forwarding non_area_forwarding discarted : GnForwardingAlgorithmResponse

module _ (fl : Floats) where
  -- A packet of the CBF buffer: its timer's milliseconds and its octets.
  pub record Waiting : Type 0 where
    pub timeout_ms : fl.Float
    pub full_packet : Bytes

  -- What the forwarding reads and changes, beside the Location Service.
  pub record Node : Type 0 where
    pub ego_position_vector : LongPositionVector
    pub location_table : LocationTable fl
    pub cbf_buffer : List ((GnAddress × ℕ) × Waiting)

  module _ (trig : Trig fl) where
    open fl use {Float, of_int, fadd, fsub, fmul, fdiv, flt}
    open trig use {fle}

    -- The loop over the neighbours, with the smallest distance so far.
    unfoldable pub greedy_loop : ℤ → ℤ → Float → Bool → List (Entry fl) → Bool
    unfolding distance_m
    greedy_loop lat lon mfr progress_found [] = progress_found
    greedy_loop lat lon mfr progress_found (entry ∷ entries) =
        let pv = entry.position_vector in
        let d = distance_m fl trig lat lon pv.latitude pv.longitude in
        let nearer = flt d mfr in
        greedy_loop lat lon (if nearer then d else mfr) (if nearer then true else progress_found)
          entries

    unfoldable pub gn_greedy_forwarding : ℤ → ℤ → Bool → Node → Bool
    unfolding greedy_loop distance_m
    gn_greedy_forwarding dest_lat dest_lon scf node =
        let ego = node.ego_position_vector in
        let mfr = distance_m fl trig dest_lat dest_lon ego.latitude ego.longitude in
        if greedy_loop dest_lat dest_lon mfr false (get_neighbours fl node.location_table)
        then true
        else not scf

    -- `_cbf_compute_timeout_ms`
    unfoldable pub cbf_compute_timeout_ms : Mib → Float → Float
    cbf_compute_timeout_ms mib dist_m =
        let dist_max = of_int mib.its_gn_default_max_communication_range in
        let to_min = of_int mib.its_gn_cbf_min_time in
        let to_max = of_int mib.its_gn_cbf_max_time in
        if fle dist_max dist_m
        then to_min
        else fadd to_max (fmul (fdiv (fsub to_min to_max) dist_max) dist_m)

    module _ (hash : GnAddress → ℕ) where
      abbrev pub same_packet : GnAddress × ℕ → GnAddress × ℕ → Bool
      same_packet (a, sn) (b, sn') = same_key hash a b && sn == sn'

      -- `key in buffer`
      unfoldable pub is_waiting : GnAddress × ℕ → List ((GnAddress × ℕ) × Waiting) → Bool
      is_waiting key [] = false
      is_waiting key ((k, w) ∷ buffer) = if same_packet k key then true else is_waiting key buffer

      -- `del buffer[key]`
      unfoldable pub stop_waiting :
          GnAddress × ℕ → List ((GnAddress × ℕ) × Waiting) → List ((GnAddress × ℕ) × Waiting)
      stop_waiting key [] = []
      stop_waiting key ((k, w) ∷ buffer) =
          let rest = stop_waiting key buffer in if same_packet k key then buffer else (k, w) ∷ rest

      -- `_cbf_timeout`: what is sent, and the node after it. The timer has the octets of its packet.
      unfoldable pub cbf_timeout : GnAddress × ℕ → Bytes → Node → List Bytes × Node
      unfolding is_waiting stop_waiting
      cbf_timeout key full_packet node =
          if is_waiting key node.cbf_buffer
          then (full_packet ∷ [], record node { cbf_buffer = stop_waiting key node.cbf_buffer })
          else ([], node)

      -- `gn_area_cbf_forwarding`: whether the packet is buffered, and the node after it.
      abbrev pub buffer_packet : GnAddress × ℕ → Float → Result Bytes → Node → Result Bool × Node
      buffer_packet key timeout (err e) node = (err e, node)
      buffer_packet key timeout (ok full_packet) node = (
        ok true,
        record node {
          cbf_buffer =
              node.cbf_buffer
              ++ (key, record { timeout_ms = timeout; full_packet = full_packet }) ∷ [];
        },
      )

      -- The timeout of a new packet, from the distance of its source where both positions are known.
      abbrev pub timeout_for : Option (Entry fl) → Node → Float
      unfolding distance_m cbf_compute_timeout_ms
      timeout_for none node = of_int node.location_table.mib.its_gn_cbf_max_time
      timeout_for (some se) node =
          let ego = node.ego_position_vector in
          let pv = se.position_vector in
          if pv.pai && ego.pai
          then cbf_compute_timeout_ms node.location_table.mib
              (distance_m fl trig pv.latitude pv.longitude ego.latitude ego.longitude)
          else of_int node.location_table.mib.its_gn_cbf_max_time

      unfoldable pub gbc_packet :
          BasicHeader → CommonHeader → GbcExtendedHeader → Bytes → Result Bytes
      gbc_packet basic_header common_header header packet = do
        basic ← Basic.encode_to_bytes basic_header
        common ← Common.encode_to_bytes common_header
        extended ← gbc_encode header
        ok (basic ++ common ++ extended ++ packet)

      unfoldable pub gn_area_cbf_forwarding :
          BasicHeader → CommonHeader → GbcExtendedHeader → Bytes → Node → Result Bool × Node
      unfolding is_waiting stop_waiting gbc_packet distance_m cbf_compute_timeout_ms
      gn_area_cbf_forwarding basic_header common_header header packet node =
          let key : GnAddress × ℕ = (header.so_pv.gn_addr, header.sn) in
          if is_waiting key node.cbf_buffer
          then (ok false, record node { cbf_buffer = stop_waiting key node.cbf_buffer })
          else buffer_packet key
              (timeout_for (get_entry fl hash header.so_pv.gn_addr node.location_table) node)
              (gbc_packet basic_header common_header header packet) node

      -- The second part of annex D: the sender's position, if that is known and accurate.
      abbrev pub outside : Hst → Area → Option (Entry fl) → Result GnForwardingAlgorithmResponse
      unfolding gn_geometric_function_f
      outside hst area none = ok non_area_forwarding
      outside hst area (some se) =
          let pv = se.position_vector in
          if pv.pai
          then gn_geometric_function_f fl trig hst area pv.latitude pv.longitude
            >>= (λ f_se. ok (if fle (of_int 0) f_se then discarted else non_area_forwarding))
          else ok non_area_forwarding

      abbrev pub sender_entry : Option GnAddress → Node → Option (Entry fl)
      sender_entry none node = none
      sender_entry (some gn_addr) node = get_entry fl hash gn_addr node.location_table

      unfoldable pub gn_forwarding_algorithm_selection :
          Hst → Area → Option GnAddress → Node → Result GnForwardingAlgorithmResponse
      unfolding gn_geometric_function_f
      gn_forwarding_algorithm_selection hst area sender_gn_addr node =
          let ego = node.ego_position_vector in
          gn_geometric_function_f fl trig hst area ego.latitude ego.longitude >>= (λ f_ego.
            if fle (of_int 0) f_ego
            then ok area_forwarding
            else outside hst area (sender_entry sender_gn_addr node))
