-- ===== src/Vru/Clustering/Invariant.antt =====
-- The invariant of the clustering state machine and that every call keeps it.
use flex_stack.Prelude.{ℕ, ◌≡◌, Bool, true, false, Option, none, some, ok, arith}
use flex_stack.Floats.{Floats}
use flex_stack.Vru.Clustering.{
  VbsState, vru_active_standalone, vru_active_cluster_leader, vru_passive, ClusterLeaveReason,
  ClusterBreakupReason, JoinSubstate, join_notify, join_waiting, joined, join_cancelled,
  join_failed, LeaveSubstate, no_leave, leave_notify, Manager, new_manager,
}
use flex_stack.Vru.Clustering.Operations.{
  set_vru_role_on, set_vru_role_off, initiate_join, cancel_join, confirm_join_failed,
  trigger_leave_cluster, trigger_breakup_cluster, do_leave_to_standalone,
}
use flex_stack.Vru.Clustering.Maintenance.{
  Outcome, update_leader, update_passive, advance_join, advance_leave,
}

abbrev pub is_some {ℓ} : {A : Type ℓ} → Option A → Bool
is_some none = false
is_some (some a) = true

abbrev pub is_leader : VbsState → Bool
is_leader vru_active_cluster_leader = true
is_leader _ = false

abbrev pub is_passive : VbsState → Bool
is_passive vru_passive = true
is_passive _ = false

abbrev pub is_joined : JoinSubstate → Bool
is_joined joined = true
is_joined _ = false

-- The substates that wait for the joining to go on, and those that tell of its end.
abbrev pub is_joining : JoinSubstate → Bool
is_joining join_notify = true
is_joining join_waiting = true
is_joining _ = false

abbrev pub is_given_up : JoinSubstate → Bool
is_given_up join_cancelled = true
is_given_up join_failed = true
is_given_up _ = false

abbrev pub is_leaving : LeaveSubstate → Bool
is_leaving no_leave = false
is_leaving leave_notify = true

module _ (fl : Floats) where
  pub record Inv (m : Manager fl) : Type 0 where
    -- A leader, and no other, has a cluster of its own.
    pub leads : is_some m.cluster ≡ is_leader m.state
    -- A passive device, and no other, has joined a cluster with a leader that was heard.
    pub member : is_joined m.join_substate ≡ is_passive m.state
    pub in_cluster : is_some m.joined_cluster_id ≡ is_passive m.state
    pub led : is_some m.leader_station_id ≡ is_passive m.state
    pub heard : is_some m.last_leader_vam_time ≡ is_passive m.state
    -- The notifications have their times.
    pub joins : is_joining m.join_substate ≡ true → is_some m.join_started ≡ true
    pub targets : is_joining m.join_substate ≡ true → is_some m.join_target_cluster_id ≡ true
    pub gives_up : is_given_up m.join_substate ≡ true → is_some m.join_leave_started ≡ true
    pub leaves : is_leaving m.leave_substate ≡ true → is_some m.leave_started ≡ true

  pub new_manager-Inv : (id : ℕ) (p : _) → Inv (new_manager fl id p)
  unfolding new_manager
  new_manager-Inv id p = ground arith

  pub role_on-Inv : (m : Manager fl) → Inv m → Inv (set_vru_role_on fl m)
  unfolding set_vru_role_on
  role_on-Inv m v = ground arith

  pub role_off-Inv : (m : Manager fl) → Inv m → Inv (set_vru_role_off fl m)
  unfolding set_vru_role_off
  role_off-Inv m v = ground arith

  pub initiate_join-Inv : (now id : ℕ) (m : Manager fl) → Inv m → Inv (initiate_join fl now id m).1
  unfolding initiate_join
  initiate_join-Inv now id m v = ground arith

  pub cancel_join-Inv : (now : ℕ) (m : Manager fl) → Inv m → Inv (cancel_join fl now m)
  unfolding cancel_join
  cancel_join-Inv now m v = ground arith

  pub confirm_join_failed-Inv :
      (now : ℕ) (m : Manager fl) → Inv m → Inv (confirm_join_failed fl now m)
  unfolding confirm_join_failed
  confirm_join_failed-Inv now m v = ground arith

  pub trigger_leave_cluster-Inv :
      (now : ℕ) (reason : ClusterLeaveReason) (m : Manager fl)
      → Inv m
      → Inv (trigger_leave_cluster fl now reason m)
  unfolding trigger_leave_cluster do_leave_to_standalone
  trigger_leave_cluster-Inv now reason m v = ground (arith, cancel_join-Inv now m v)

  pub trigger_breakup_cluster-Inv :
      (now : ℕ) (reason : ClusterBreakupReason) (m : Manager fl)
      → Inv m
      → Inv (trigger_breakup_cluster fl now reason m).1
  unfolding trigger_breakup_cluster
  trigger_breakup_cluster-Inv now reason m v = ground arith

  -- In a state that keeps the invariant, `update` raises nothing, and what it leaves keeps it.
  unfoldable pub Fine : Outcome fl → Type 0
  Fine o = (o.0 ≡ ok tt) × Inv o.1

  pub advance_join-Fine :
      (now : ℕ) (m : Manager fl)
      → Inv m
      → m.state ≡ vru_active_standalone
      → Fine (advance_join fl now m)
  unfolding Fine advance_join confirm_join_failed
  advance_join-Fine now m v e = ground arith

  pub advance_leave-Fine : (now : ℕ) (m : Manager fl) → Inv m → Fine (advance_leave fl now m)
  unfolding Fine advance_leave
  advance_leave-Fine now m v = ground arith

  pub update_leader-Fine :
      (now : ℕ) (m : Manager fl)
      → Inv m
      → m.state ≡ vru_active_cluster_leader
      → Fine (update_leader fl now m)
  unfolding Fine update_leader
  update_leader-Fine now m v e = ground arith

  pub update_passive-Fine :
      (now : ℕ) (m : Manager fl) → Inv m → m.state ≡ vru_passive → Fine (update_passive fl now m)
  unfolding Fine update_passive do_leave_to_standalone
  update_passive-Fine now m v e = ground (arith, advance_leave-Fine now m v)
