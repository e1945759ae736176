-- ===== src/Vru/Clustering/Reception.antt =====
-- `VBSClusteringManager.on_received_vam`: what a received message changes.
use flex_stack.Prelude.{
  ℕ, ◌+◌, List, length, Bool, false, leb, ◌==◌, ◌||◌, Option, none, some, if◌then◌else◌,
}
use flex_stack.Prelude.Int.{ℤ}
use flex_stack.Floats.{Floats, Trig}
use flex_stack.Sets.{contains, discard, add}
use flex_stack.Dicts.{dict_get, dict_set}
use flex_stack.Vru.Constants.{min_cluster_size, max_cluster_distance}
use flex_stack.Vru.Clustering.{
  vru_active_standalone, vru_active_cluster_leader, vru_passive, cluster_disbanded_by_leader,
  ClusterBreakupReason, reception_of_cpm_containing_cluster, joined, join_waiting, ClusterState,
  Manager, NearbyCluster,
}
use flex_stack.Vru.Clustering.Creation.{dict_keys}
use flex_stack.Vru.Clustering.Operations.{do_leave_to_standalone}

-- `circular` is the bounding box, if it is a circle, with its radius, if that is given.
pub record ClusterInformation : Type 0 where
  pub cluster_id : Option ℕ
  pub cardinality_size : Option ℕ
  pub circular : Option (Option ℕ)

pub record ClusterOperation : Type 0 where
  -- The cluster identifiers of the joining and the leaving.
  pub join_info : Option (Option ℕ)
  pub leave_info : Option (Option ℕ)
  pub breakup_info : Option (Option ClusterBreakupReason)

-- A decoded message with all mandatory parts of its header and basic container. The cluster
-- information may be a container without its mandatory part (`some none`).
pub record Vam : Type 0 where
  pub station_id : ℕ
  pub latitude : ℤ
  pub longitude : ℤ
  pub speed_value : Option ℕ
  pub heading_value : Option ℕ
  pub cluster_information : Option (Option ClusterInformation)
  pub cluster_operation : Option ClusterOperation

-- `d.get(key, default)`
abbrev pub or_default {ℓ} : {A : Type ℓ} → A → Option A → A
or_default default none = default
or_default default (some a) = a

-- `field == value` where the field may be `None`
abbrev pub is_id : ℕ → Option ℕ → Bool
is_id id none = false
is_id id (some x) = x == id

-- `info and info.get("clusterId") == id`
abbrev pub names : ℕ → Option (Option ℕ) → Bool
names id none = false
names id (some info) = is_id id info

-- The leader's count of itself and the members that have announced themselves.
abbrev pub recount : List ℕ → ClusterState → ClusterState
recount members c = record c {
  pending_members = members;
  cardinality =
      if leb (length members + 1) min_cluster_size then min_cluster_size else length members + 1;
}

unfoldable pub track_join : ℕ → ClusterOperation → ClusterState → ClusterState
track_join sender op c =
    if names c.cluster_id op.join_info then recount (add sender c.pending_members) c else c

unfoldable pub track_leave : ℕ → ClusterOperation → ClusterState → ClusterState
track_leave sender op c =
    if names c.cluster_id op.leave_info then recount (discard sender c.pending_members) c else c

unfoldable pub track_members : ℕ → ClusterOperation → ClusterState → ClusterState
unfolding track_join track_leave
track_members sender op c = track_leave sender op (track_join sender op c)

module _ (fl : Floats) where
  -- `_complete_join`
  unfoldable pub complete_join : ℕ → ℕ → Manager fl → Manager fl
  complete_join now sender m = record m {
    join_substate = joined;
    joined_cluster_id = m.join_target_cluster_id;
    leader_station_id = some sender;
    last_leader_vam_time = some now;
    state = vru_passive;
  }

  -- A cluster message confirms the joining that waits for its cluster, whoever sends it.
  unfoldable pub confirm_join : ℕ → ℕ → ℕ → Manager fl → Manager fl
  unfolding complete_join
  confirm_join now sender c_id m = elim m.state [
    | vru_active_standalone ↦ elim m.join_substate [
      | join_waiting ↦ if is_id c_id m.join_target_cluster_id then complete_join now sender m else m
      | _ ↦ m
    ]
    | _ ↦ m
  ]

  unfoldable pub lead_operation : ℕ → ClusterOperation → Manager fl → Manager fl
  unfolding track_members
  lead_operation sender op m = elim m.state [
    | vru_active_cluster_leader ↦ elim m.cluster [
      | none ↦ m
      | some c ↦ record m { cluster = some (track_members sender op c) }
    ]
    | _ ↦ m
  ]

  -- The identifier of the entry for cluster 0, or 0.
  abbrev zero_id : Option (NearbyCluster fl) → ℕ
  zero_id none = 0
  zero_id (some c) = c.cluster_id

  abbrev disband : ℕ → Option ClusterBreakupReason → Manager fl → Manager fl
  disband now (some reception_of_cpm_containing_cluster) m = m
  disband now _ m = do_leave_to_standalone fl now cluster_disbanded_by_leader m

  unfoldable pub follow_breakup : ℕ → ℕ → ClusterOperation → Manager fl → Manager fl
  unfolding do_leave_to_standalone
  follow_breakup now sender op m = elim op.breakup_info [
    | none ↦ m
    | some reason ↦ elim m.state [
      | vru_passive ↦
          if is_id sender m.leader_station_id
            || is_id (zero_id (dict_get 0 m.nearby_clusters)) m.joined_cluster_id
          then disband now reason m
          else m
      | _ ↦ m
    ]
  ]

  unfoldable pub operation : ℕ → ℕ → Option ClusterOperation → Manager fl → Manager fl
  unfolding lead_operation follow_breakup
  operation now sender none m = m
  operation now sender (some op) m = follow_breakup now sender op (lead_operation sender op m)

  unfoldable pub refresh_heartbeat : ℕ → ℕ → Manager fl → Manager fl
  refresh_heartbeat now sender m = elim m.state [
    | vru_passive ↦
        if is_id sender m.leader_station_id then record m { last_leader_vam_time = some now } else m
    | _ ↦ m
  ]

  module _ (trig : Trig fl) where
    open fl use {of_int, fdiv}
    open trig use {of_ℤ}

    unfoldable pub see_vru : ℕ → Vam → Manager fl → Manager fl
    see_vru now vam m = record m {
      nearby_vrus =
          dict_set vam.station_id
            (record {
              station_id = vam.station_id;
              lat = fdiv (of_ℤ vam.latitude) (of_int 10000000);
              lon = fdiv (of_ℤ vam.longitude) (of_int 10000000);
              speed = fdiv (of_int (or_default 0 vam.speed_value)) (of_int 100);
              heading = fdiv (of_int (or_default 0 vam.heading_value)) (of_int 10);
              last_seen = now;
            })
            m.nearby_vrus;
    }

    abbrev radius_of : Option (Option ℕ) → Option fl.Float
    radius_of none = none
    radius_of (some radius) = some (of_int (or_default max_cluster_distance radius))

    unfoldable pub see_cluster : ℕ → Vam → ClusterInformation → Manager fl → Manager fl
    see_cluster now vam info m =
        let c_id = or_default 0 info.cluster_id in
        record m {
          nearby_clusters =
              dict_set c_id
                (record {
                  cluster_id = c_id;
                  leader_station_id = vam.station_id;
                  cardinality = or_default 1 info.cardinality_size;
                  lat = fdiv (of_ℤ vam.latitude) (of_int 10000000);
                  lon = fdiv (of_ℤ vam.longitude) (of_int 10000000);
                  speed = fdiv (of_int (or_default 0 vam.speed_value)) (of_int 100);
                  heading = fdiv (of_int (or_default 0 vam.heading_value)) (of_int 10);
                  bounding_box_radius = radius_of info.circular;
                  last_seen = now;
                })
                m.nearby_clusters;
          seen_cluster_ids =
              if contains c_id (dict_keys m.seen_cluster_ids)
              then m.seen_cluster_ids
              else dict_set c_id now m.seen_cluster_ids;
        }

    -- What follows the table of devices.
    unfoldable pub go_on : ℕ → Vam → Manager fl → Manager fl
    unfolding operation refresh_heartbeat
    go_on now vam m =
        refresh_heartbeat now vam.station_id (operation now vam.station_id vam.cluster_operation m)

    unfoldable pub by_information :
        ℕ → Vam → Option (Option ClusterInformation) → Manager fl → Manager fl
    unfolding go_on see_cluster confirm_join
    by_information now vam none m = go_on now vam m
    by_information now vam (some none) m = m
    by_information now vam (some (some info)) m = go_on now vam (
        confirm_join now vam.station_id (or_default 0 info.cluster_id) (see_cluster now vam info m))

    unfoldable pub process_received_vam : ℕ → Vam → Manager fl → Manager fl
    unfolding see_vru by_information
    process_received_vam now vam m =
        by_information now vam vam.cluster_information (see_vru now vam m)

    -- A message without a mandatory part of its header or basic container changes nothing.
    unfoldable pub on_received_vam : ℕ → Option Vam → Manager fl → Manager fl
    on_received_vam now none m = m
    on_received_vam now (some vam) m = process_received_vam now vam m
