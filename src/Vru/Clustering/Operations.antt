-- ===== src/Vru/Clustering/Operations.antt =====
-- The operations of `VBSClusteringManager` that the device itself starts: its role, joining, leaving
-- and the breaking up of its cluster.
use flex_stack.Prelude.{ℕ, Bool, true, false, Option, none, some}
use flex_stack.Floats.{Floats}
use flex_stack.Vru.Clustering.{
  vru_idle, vru_active_standalone, vru_active_cluster_leader, vru_passive, ClusterLeaveReason,
  cancelled_join, failed_join, ClusterBreakupReason, no_join, join_notify, join_waiting,
  join_cancelled, join_failed, no_leave, leave_notify, ClusterState, Manager,
}

module _ (fl : Floats) where
  unfoldable pub set_vru_role_on : Manager fl → Manager fl
  set_vru_role_on m = elim m.state [
    | vru_idle ↦ record m { state = vru_active_standalone }
    | vru_active_standalone ↦ m
    | vru_active_cluster_leader ↦ m
    | vru_passive ↦ m
  ]

  unfoldable pub set_vru_role_off : Manager fl → Manager fl
  set_vru_role_off m = record m {
    state = vru_idle;
    cluster = none;
    joined_cluster_id = none;
    leader_station_id = none;
    last_leader_vam_time = none;
    join_substate = no_join;
    leave_substate = no_leave;
  }

  unfoldable pub initiate_join : ℕ → ℕ → Manager fl → Bool × Manager fl
  initiate_join now cluster_id m = elim m.state [
    | vru_idle ↦ (false, m)
    | vru_active_standalone ↦ elim m.join_substate [
      | no_join ↦ (
        true,
        record m {
          join_substate = join_notify;
          join_target_cluster_id = some cluster_id;
          join_started = some now;
        },
      )
      | _ ↦ (false, m)
    ]
    | vru_active_cluster_leader ↦ (false, m)
    | vru_passive ↦ (false, m)
  ]

  abbrev begin_cancel : ℕ → Manager fl → Manager fl
  begin_cancel now m = record m {
    join_leave_reason = some cancelled_join;
    join_leave_started = some now;
    join_substate = join_cancelled;
  }

  unfoldable pub cancel_join : ℕ → Manager fl → Manager fl
  cancel_join now m = elim m.join_substate [
    | join_notify ↦ begin_cancel now m
    | join_waiting ↦ begin_cancel now m
    | _ ↦ m
  ]

  unfoldable pub confirm_join_failed : ℕ → Manager fl → Manager fl
  confirm_join_failed now m = elim m.join_substate [
    | join_waiting ↦ record m {
      join_leave_reason = some failed_join;
      join_leave_started = some now;
      join_substate = join_failed;
    }
    | _ ↦ m
  ]

  -- `_do_leave_to_standalone`
  unfoldable pub do_leave_to_standalone : ℕ → ClusterLeaveReason → Manager fl → Manager fl
  do_leave_to_standalone now reason m = record m {
    leave_substate = leave_notify;
    leave_reason = some reason;
    leave_cluster_id = m.joined_cluster_id;
    leave_started = some now;
    joined_cluster_id = none;
    leader_station_id = none;
    last_leader_vam_time = none;
    join_substate = no_join;
    join_target_cluster_id = none;
    state = vru_active_standalone;
  }

  unfoldable pub trigger_leave_cluster : ℕ → ClusterLeaveReason → Manager fl → Manager fl
  unfolding do_leave_to_standalone cancel_join
  trigger_leave_cluster now reason m = elim m.state [
    | vru_idle ↦ m
    | vru_active_standalone ↦ elim m.join_substate [ join_notify ↦ cancel_join now m | _ ↦ m ]
    | vru_active_cluster_leader ↦ m
    | vru_passive ↦ do_leave_to_standalone now reason m
  ]

  -- The warning phase of a cluster starts unless it has started.
  abbrev warn : ℕ → ClusterBreakupReason → Option ℕ → Manager fl → ClusterState → Bool × Manager fl
  warn now reason none m c = (
    true,
    record m {
      cluster = some (record c { breakup_started = some now; breakup_reason = some reason });
    },
  )
  warn now reason (some started) m c = (false, m)

  unfoldable pub trigger_breakup_cluster : ℕ → ClusterBreakupReason → Manager fl → Bool × Manager fl
  trigger_breakup_cluster now reason m = elim m.state [
    | vru_idle ↦ (false, m)
    | vru_active_standalone ↦ (false, m)
    | vru_active_cluster_leader ↦ elim m.cluster [
      | none ↦ (false, m)
      | some c ↦ warn now reason c.breakup_started m c
    ]
    | vru_passive ↦ (false, m)
  ]
