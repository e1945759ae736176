-- ===== src/Vru/Clustering/Phases.antt =====
-- How the phases of joining, leaving and breaking up end.
use flex_stack.Prelude.{
  ℕ, ◌≡◌, refl, ◌≤◌, ◌+◌, ◌-◌, if◌then◌else◌, ◌∙◌, true, false, none, some, arith, leb,
}
use flex_stack.Floats.{Floats}
use flex_stack.Vru.Clustering.{
  vru_active_standalone, vru_active_cluster_leader, vru_passive, ClusterLeaveReason,
  ClusterBreakupReason, failed_join, cluster_leader_lost, no_join, join_notify, join_waiting,
  join_failed, ClusterState, Manager,
}
use flex_stack.Vru.Clustering.Operations.{
  initiate_join, confirm_join_failed, trigger_breakup_cluster, do_leave_to_standalone,
}
use flex_stack.Vru.Clustering.Maintenance.{
  update, expire_nearby_tables, by_state, update_standalone, update_leader, update_passive,
  advance_join, advance_leave,
}
use flex_stack.Vru.Clustering.Invariant.{is_some}
use flex_stack.Vru.Constants.{
  time_cluster_join_notification, time_cluster_join_success, time_cluster_leave_notification,
  time_cluster_breakup_warning, time_cluster_continuity,
}
use flex_stack.Vru.Clustering.Containers.{
  cluster_leave_info, cluster_breakup_info, get_cluster_operation_container,
  standalone_operation_container, leave_info, quarters_left, leader_operation_container,
}

module _ (fl : Floats) where
  notify-update :
      (started now : ℕ) (m : Manager fl)
      → m.state ≡ vru_active_standalone
      → m.join_substate ≡ join_notify
      → m.join_started ≡ some started
      → started + time_cluster_join_notification ≤ now
      → ((update fl now m).1.state ≡ vru_active_standalone)
        × (((update fl now m).1.join_substate ≡ join_waiting)
            × (((update fl now m).1.join_started ≡ some now)
                × ((update fl now m).1.join_target_cluster_id ≡ m.join_target_cluster_id)))
  unfolding update expire_nearby_tables by_state update_standalone advance_join advance_leave
  notify-update started now m e f g l = ground arith

  waiting-update :
      (started now : ℕ) (m : Manager fl)
      → m.state ≡ vru_active_standalone
      → m.join_substate ≡ join_waiting
      → m.join_started ≡ some started
      → started + time_cluster_join_success ≤ now
      → ((update fl now m).1.state ≡ vru_active_standalone)
        × (((update fl now m).1.join_substate ≡ join_failed)
            × (((update fl now m).1.join_leave_started ≡ some now)
                × (((update fl now m).1.join_leave_reason ≡ some failed_join)
                    × ((update fl now m).1.join_target_cluster_id ≡ m.join_target_cluster_id))))
  unfolding update expire_nearby_tables by_state update_standalone advance_join advance_leave
      confirm_join_failed
  waiting-update started now m e f g l = ground arith

  failed-update :
      (started now : ℕ) (m : Manager fl)
      → m.state ≡ vru_active_standalone
      → m.join_substate ≡ join_failed
      → m.join_leave_started ≡ some started
      → started + time_cluster_leave_notification ≤ now
      → ((update fl now m).1.state ≡ vru_active_standalone)
        × (((update fl now m).1.join_substate ≡ no_join)
            × ((update fl now m).1.join_target_cluster_id ≡ none))
  unfolding update expire_nearby_tables by_state update_standalone advance_join advance_leave
  failed-update started now m e f g l = ground arith

  failed-container :
      (now id : ℕ) (m : Manager fl)
      → m.state ≡ vru_active_standalone
      → m.join_substate ≡ join_failed
      → m.join_leave_reason ≡ some failed_join
      → m.join_target_cluster_id ≡ some id
      → get_cluster_operation_container fl now m ≡ some (cluster_leave_info id failed_join)
  unfolding get_cluster_operation_container standalone_operation_container
  failed-container now id m e f g h = ground arith

  lost-update :
      (heard now : ℕ) (m : Manager fl)
      → m.state ≡ vru_passive
      → m.last_leader_vam_time ≡ some heard
      → heard + time_cluster_continuity ≤ now
      → (update fl now m).1
        ≡ do_leave_to_standalone fl now cluster_leader_lost (expire_nearby_tables fl now m)
  unfolding update expire_nearby_tables by_state update_passive do_leave_to_standalone
  lost-update heard now m e f l = ground arith

  initiate-notify :
      (now id : ℕ) (m : Manager fl)
      → m.state ≡ vru_active_standalone
      → m.join_substate ≡ no_join
      → ((initiate_join fl now id m).1.state ≡ vru_active_standalone)
        × (((initiate_join fl now id m).1.join_substate ≡ join_notify)
            × (((initiate_join fl now id m).1.join_started ≡ some now)
                × ((initiate_join fl now id m).1.join_target_cluster_id ≡ some id)))
  unfolding initiate_join
  initiate-notify now id m e f = ground arith

  -- A standalone device begins to join a cluster and no message answers. An update after the
  -- notification's time makes it wait, a next one after the time for success makes the joining fail,
  -- and the messages then name the cluster as left for that reason; a last update after the time of
  -- that notification ends the procedure. The device is standalone all along.
  pub join-unanswered :
      (t0 t1 t2 t3 now id : ℕ) (m : Manager fl)
      → m.state ≡ vru_active_standalone
      → m.join_substate ≡ no_join
      → t0 + time_cluster_join_notification ≤ t1
      → t1 + time_cluster_join_success ≤ t2
      → t2 + time_cluster_leave_notification ≤ t3
      → (((update fl t1 (initiate_join fl t0 id m).1).1.state ≡ vru_active_standalone)
          × ((update fl t1 (initiate_join fl t0 id m).1).1.join_substate ≡ join_waiting))
        × ((get_cluster_operation_container fl now
                (update fl t2 (update fl t1 (initiate_join fl t0 id m).1).1).1
              ≡ some (cluster_leave_info id failed_join))
            × (((update fl t3
                    (update fl t2 (update fl t1 (initiate_join fl t0 id m).1).1).1).1.state
                  ≡ vru_active_standalone)
                × (((update fl t3
                        (update fl t2
                          (update fl t1 (initiate_join fl t0 id m).1).1).1).1.join_substate
                      ≡ no_join)
                    × ((update fl t3
                          (update fl t2
                            (update fl t1
                              (initiate_join fl t0 id m).1).1).1).1.join_target_cluster_id
                        ≡ none))))
  join-unanswered t0 t1 t2 t3 now id m e f l1 l2 l3 =
      let s0 = initiate-notify t0 id m e f in
      let m0 = (initiate_join fl t0 id m).1 in
      let s1 = notify-update t0 t1 m0 s0.0 s0.1.0 s0.1.1.0 l1 in
      let m1 = (update fl t1 m0).1 in
      let s2 = waiting-update t1 t2 m1 s1.0 s1.1.0 s1.1.1.0 l2 in
      let m2 = (update fl t2 m1).1 in
      let target = s2.1.1.1.1 ∙ s1.1.1.1 ∙ s0.1.1.1 in
      (
        (s1.0, s1.1.0),
        (
          failed-container now id m2 s2.0 s2.1.0 s2.1.1.1.0 target,
          failed-update t2 t3 m2 s2.0 s2.1.0 s2.1.1.0 l3,
        ),
      )

  left-container :
      (now asked id : ℕ) (reason : ClusterLeaveReason) (m : Manager fl)
      → m.joined_cluster_id ≡ some id
      → get_cluster_operation_container fl asked (do_leave_to_standalone fl now reason m)
        ≡ some (cluster_leave_info id reason)
  unfolding get_cluster_operation_container standalone_operation_container leave_info
      do_leave_to_standalone
  left-container now asked id reason m e = ground arith

  left-update :
      (now asked later : ℕ) (reason : ClusterLeaveReason) (m : Manager fl)
      → now + time_cluster_leave_notification ≤ later
      → ((update fl later (do_leave_to_standalone fl now reason m)).1.state ≡ vru_active_standalone)
        × (get_cluster_operation_container fl asked
              (update fl later (do_leave_to_standalone fl now reason m)).1
            ≡ none)
  unfolding get_cluster_operation_container standalone_operation_container leave_info
      do_leave_to_standalone update expire_nearby_tables by_state update_standalone advance_join
      advance_leave
  left-update now asked later reason m l = ground arith

  -- A member that has not heard its leader for the time of continuity leaves at the next update: its
  -- messages name the cluster as left for that reason, until an update after the notification's time.
  pub leader_lost-left :
      (last now asked later id : ℕ) (m : Manager fl)
      → m.state ≡ vru_passive
      → m.joined_cluster_id ≡ some id
      → m.last_leader_vam_time ≡ some last
      → last + time_cluster_continuity ≤ now
      → now + time_cluster_leave_notification ≤ later
      → ((update fl now m).1.state ≡ vru_active_standalone)
        × ((get_cluster_operation_container fl asked (update fl now m).1
              ≡ some (cluster_leave_info id cluster_leader_lost))
            × (((update fl later (update fl now m).1).1.state ≡ vru_active_standalone)
                × (get_cluster_operation_container fl asked (update fl later (update fl now m).1).1
                    ≡ none)))
  unfolding do_leave_to_standalone expire_nearby_tables
  leader_lost-left last now asked later id m e f g l l' =
      let m' = expire_nearby_tables fl now m in
      rw (lost-update last now m e g l) (
        refl,
        (
          left-container now asked id cluster_leader_lost m' f,
          left-update now asked later cluster_leader_lost m' l',
        ),
      )

  -- A leader that starts to break its cluster up, for which no warning runs, tells the reason and the
  -- quarter seconds left. An update before the warning's time leaves it the leader of the cluster, and
  -- one at that time or later makes it standalone without one.
  pub breakup-ends :
      (started now : ℕ) (reason : ClusterBreakupReason) (m : Manager fl) (c : ClusterState)
      → m.state ≡ vru_active_cluster_leader
      → m.cluster ≡ some c
      → c.breakup_started ≡ none
      → ((trigger_breakup_cluster fl started reason m).0 ≡ true)
        × ((get_cluster_operation_container fl now (trigger_breakup_cluster fl started reason m).1
              ≡ some (
                  cluster_breakup_info reason
                    (quarters_left now started time_cluster_breakup_warning)))
            × (((update fl now (trigger_breakup_cluster fl started reason m).1).1.state ≡ (
                  if leb time_cluster_breakup_warning (now - started)
                  then vru_active_standalone
                  else vru_active_cluster_leader))
                × (is_some (update fl now (trigger_breakup_cluster fl started reason m).1).1.cluster
                    ≡ (if leb time_cluster_breakup_warning (now - started) then false else true))))
  unfolding trigger_breakup_cluster get_cluster_operation_container leader_operation_container
      update expire_nearby_tables by_state update_leader
  breakup-ends started now reason m c e f g = ground arith
