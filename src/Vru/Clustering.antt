-- ===== src/Vru/Clustering.antt =====
-- The state of `VBSClusteringManager` of
-- src/flexstack/facilities/vru_awareness_service/vru_clustering.py. Times are in whole milliseconds, where the source has seconds; a method that
-- reads its clock twice is given one reading. The lock is left out: each call is one step.
pub mod Operations
pub mod Creation
pub mod Reception
pub mod Maintenance
pub mod Containers
pub mod Calls
pub mod Invariant
pub mod Histories
pub mod Transitions
pub mod Silence
pub mod Members
pub mod Leading
pub mod Announcements
pub mod Identifiers
pub mod Phases
pub mod Messages
pub mod Joining
use flex_stack.Prelude.{
  ℕ, zero, suc, ◌-◌, ◌<◌, List, [], ◌∷◌, Bool, true, false, ltb, leb, ◌&&◌, Option, none, some,
  if◌then◌else◌,
}
use flex_stack.Floats.{Floats}
use flex_stack.Sets.{contains}
use flex_stack.Dicts.{dict_filter}

pub data VbsState : Type 0 where
  vru_idle vru_active_standalone vru_active_cluster_leader vru_passive : VbsState

pub data ClusterLeaveReason : Type 0 where
  leave_not_provided cluster_leader_lost cluster_disbanded_by_leader : ClusterLeaveReason
  out_of_cluster_bounding_box out_of_cluster_speed_range : ClusterLeaveReason
  leave_joining_another_cluster cancelled_join failed_join safety_condition : ClusterLeaveReason

pub data ClusterBreakupReason : Type 0 where
  breakup_not_provided clustering_purpose_completed : ClusterBreakupReason
  leader_moved_out_of_bounding_box breakup_joining_another_cluster : ClusterBreakupReason
  entering_low_risk_area reception_of_cpm_containing_cluster : ClusterBreakupReason

pub data JoinSubstate : Type 0 where
  no_join join_notify join_waiting joined join_cancelled join_failed : JoinSubstate

pub data LeaveSubstate : Type 0 where
  no_leave leave_notify : LeaveSubstate

-- The profile names that the cluster's bit string knows, and any other.
pub data VruProfile : Type 0 where
  pedestrian bicyclist_and_light_vru_vehicle motorcyclist animal other_profile : VruProfile

-- The radius is in whole metres: it has the one value that the constructor gives it.
pub record ClusterState : Type 0 where
  pub cluster_id : ℕ
  pub cardinality : ℕ
  pub profiles : List VruProfile
  pub radius : ℕ
  pub breakup_started : Option ℕ
  pub breakup_reason : Option ClusterBreakupReason
  pub pending_members : List ℕ

module _ (fl : Floats) where
  open fl use {Float}

  pub record NearbyVru : Type 0 where
    pub station_id : ℕ
    pub lat : Float
    pub lon : Float
    pub speed : Float
    pub heading : Float
    pub last_seen : ℕ

  pub record NearbyCluster : Type 0 where
    pub cluster_id : ℕ
    pub leader_station_id : ℕ
    pub cardinality : ℕ
    pub lat : Float
    pub lon : Float
    pub speed : Float
    pub heading : Float
    pub bounding_box_radius : Option Float
    pub last_seen : ℕ

  pub record Manager : Type 0 where
    pub own_station_id : ℕ
    pub own_vru_profile : VruProfile
    pub state : VbsState
    pub cluster : Option ClusterState
    pub joined_cluster_id : Option ℕ
    pub leader_station_id : Option ℕ
    pub last_leader_vam_time : Option ℕ
    pub join_substate : JoinSubstate
    pub join_target_cluster_id : Option ℕ
    pub join_started : Option ℕ
    pub join_leave_reason : Option ClusterLeaveReason
    pub join_leave_started : Option ℕ
    pub leave_substate : LeaveSubstate
    pub leave_reason : Option ClusterLeaveReason
    pub leave_cluster_id : Option ℕ
    pub leave_started : Option ℕ
    pub nearby_vrus : List (ℕ × NearbyVru)
    pub nearby_clusters : List (ℕ × NearbyCluster)
    pub seen_cluster_ids : List (ℕ × ℕ)

  -- `VBSClusteringManager(own_station_id, own_vru_profile)`
  unfoldable pub new_manager : ℕ → VruProfile → Manager
  new_manager own_station_id own_vru_profile = record {
    own_station_id = own_station_id;
    own_vru_profile = own_vru_profile;
    state = vru_active_standalone;
    cluster = none;
    joined_cluster_id = none;
    leader_station_id = none;
    last_leader_vam_time = none;
    join_substate = no_join;
    join_target_cluster_id = none;
    join_started = none;
    join_leave_reason = none;
    join_leave_started = none;
    leave_substate = no_leave;
    leave_reason = none;
    leave_cluster_id = none;
    leave_started = none;
    nearby_vrus = [];
    nearby_clusters = [];
    seen_cluster_ids = [];
  }
