-- ===== src/Vru/Clustering/Containers.antt =====
-- What `VBSClusteringManager` says of itself: the containers of its messages and whether to send one.
use flex_stack.Prelude.{
  ℕ, zero, suc, ◌+◌, ◌-◌, ◌/◌, List, [], ◌∷◌, length, Bool, true, false, ltb, Option, none, some,
  if◌then◌else◌,
}
use flex_stack.Prelude.Bits.{◌¦◌}
use flex_stack.Floats.{Floats}
use flex_stack.Vru.Constants.{time_cluster_join_notification, time_cluster_breakup_warning}
use flex_stack.Vru.Clustering.{
  vru_idle, vru_active_standalone, vru_active_cluster_leader, vru_passive, ClusterLeaveReason,
  leave_not_provided, ClusterBreakupReason, breakup_not_provided, join_notify, join_cancelled,
  join_failed, no_leave, leave_notify, VruProfile, pedestrian, bicyclist_and_light_vru_vehicle,
  motorcyclist, animal, other_profile, ClusterState, Manager,
}
use flex_stack.Vru.Clustering.Reception.{or_default}

pub record InformationContainer : Type 0 where
  pub cluster_id : ℕ
  pub radius : ℕ
  pub cardinality_size : ℕ
  pub profiles : Option ℕ

pub data OperationContainer : Type 0 where
  -- The cluster and the quarter seconds left.
  cluster_join_info : ℕ → ℕ → OperationContainer
  cluster_leave_info : ℕ → ClusterLeaveReason → OperationContainer
  cluster_breakup_info : ClusterBreakupReason → ℕ → OperationContainer

abbrev pub eq_profile : VruProfile → VruProfile → Bool
eq_profile pedestrian pedestrian = true
eq_profile bicyclist_and_light_vru_vehicle bicyclist_and_light_vru_vehicle = true
eq_profile motorcyclist motorcyclist = true
eq_profile animal animal = true
eq_profile other_profile other_profile = true
eq_profile _ _ = false

-- `name in profiles`
abbrev pub has_profile : VruProfile → List VruProfile → Bool
has_profile p [] = false
has_profile p (q ∷ profiles) = if eq_profile p q then true else has_profile p profiles

abbrev pub mask_if : VruProfile → ℕ → List VruProfile → ℕ → ℕ
mask_if p mask profiles bit = if has_profile p profiles then bit ¦ mask else bit

-- `_encode_cluster_profiles`: the one byte
unfoldable pub encode_cluster_profiles : List VruProfile → ℕ
encode_cluster_profiles profiles = mask_if animal 16 profiles (
    mask_if motorcyclist 32 profiles
      (mask_if bicyclist_and_light_vru_vehicle 64 profiles (mask_if pedestrian 128 profiles 0)))

-- A set that is not empty is encoded.
abbrev pub encode_if_any : List VruProfile → Option ℕ
unfolding encode_cluster_profiles
encode_if_any [] = none
encode_if_any (p ∷ profiles) = some (encode_cluster_profiles (p ∷ profiles))

-- `min(127, int(max(0.0, limit - (now - started)) / 0.25))`
unfoldable pub quarters_left : ℕ → ℕ → ℕ → ℕ
quarters_left now started limit =
    let quarters = (limit + started - now) / 250 in if ltb 127 quarters then 127 else quarters

-- `started or now`
abbrev pub or_now : ℕ → Option ℕ → ℕ
or_now now none = now
or_now now (some zero) = now
or_now now (some (suc t)) = suc t

module _ (fl : Floats) where
  abbrev pub join_info : ℕ → Manager fl → OperationContainer
  unfolding quarters_left
  join_info now m =
      cluster_join_info (or_default 0 m.join_target_cluster_id)
        (quarters_left now (or_now now m.join_started) time_cluster_join_notification)

  abbrev pub join_leave_info : Manager fl → OperationContainer
  join_leave_info m =
      cluster_leave_info (or_default 0 m.join_target_cluster_id)
        (or_default leave_not_provided m.join_leave_reason)

  -- The leave notification, in both states that have one.
  unfoldable pub leave_info : Manager fl → Option OperationContainer
  leave_info m = elim m.leave_substate [
    | no_leave ↦ none
    | leave_notify ↦ some (
        cluster_leave_info (or_default 0 m.leave_cluster_id)
          (or_default leave_not_provided m.leave_reason))
  ]

  unfoldable pub standalone_operation_container : ℕ → Manager fl → Option OperationContainer
  unfolding leave_info quarters_left
  standalone_operation_container now m = elim m.join_substate [
    | join_notify ↦ some (join_info now m)
    | join_cancelled ↦ some (join_leave_info m)
    | join_failed ↦ some (join_leave_info m)
    | _ ↦ leave_info m
  ]

  abbrev pub breakup_info : ℕ → Option ℕ → ClusterState → Option OperationContainer
  unfolding quarters_left
  breakup_info now none c = none
  breakup_info now (some started) c = some (
      cluster_breakup_info (or_default breakup_not_provided c.breakup_reason)
        (quarters_left now started time_cluster_breakup_warning))

  unfoldable pub leader_operation_container : ℕ → Manager fl → Option OperationContainer
  unfolding quarters_left
  leader_operation_container now m = elim m.cluster [
    | none ↦ none
    | some c ↦ breakup_info now c.breakup_started c
  ]

  unfoldable pub get_cluster_operation_container : ℕ → Manager fl → Option OperationContainer
  unfolding standalone_operation_container leader_operation_container leave_info
  get_cluster_operation_container now m = elim m.state [
    | vru_idle ↦ none
    | vru_active_standalone ↦ standalone_operation_container now m
    | vru_active_cluster_leader ↦ leader_operation_container now m
    | vru_passive ↦ leave_info m
  ]

  abbrev pub information_of : ClusterState → InformationContainer
  unfolding encode_cluster_profiles
  information_of c = record {
    cluster_id = c.cluster_id;
    radius = if ltb c.radius 1 then 1 else c.radius;
    cardinality_size = c.cardinality;
    profiles = encode_if_any c.profiles;
  }

  unfoldable pub get_cluster_information_container : Manager fl → Option InformationContainer
  unfolding encode_cluster_profiles
  get_cluster_information_container m = elim m.state [
    | vru_active_cluster_leader ↦ elim m.cluster [ none ↦ none | some c ↦ some (information_of c) ]
    | _ ↦ none
  ]

  unfoldable pub should_transmit_vam : Manager fl → Bool
  should_transmit_vam m = elim m.state [
    | vru_idle ↦ false
    | vru_active_standalone ↦ true
    | vru_active_cluster_leader ↦ true
    | vru_passive ↦ elim m.leave_substate [ no_leave ↦ false | leave_notify ↦ true ]
  ]

  unfoldable pub get_cluster_id : Manager fl → Option ℕ
  get_cluster_id m = elim m.state [
    | vru_active_cluster_leader ↦ elim m.cluster [ none ↦ none | some c ↦ some c.cluster_id ]
    | vru_passive ↦ m.joined_cluster_id
    | _ ↦ none
  ]

  unfoldable pub get_nearby_vru_count : Manager fl → ℕ
  get_nearby_vru_count m = length m.nearby_vrus

  unfoldable pub get_nearby_cluster_count : Manager fl → ℕ
  get_nearby_cluster_count m = length m.nearby_clusters
