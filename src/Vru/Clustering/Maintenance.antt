-- ===== src/Vru/Clustering/Maintenance.antt =====
-- `VBSClusteringManager.update`: what time alone changes. An `assert` that fails raises, and the
-- object stays as far changed as it is.
use flex_stack.Prelude.{
  ℕ, ◌-◌, Bool, false, ltb, leb, Option, none, some, Result, ok, err, assertion_error,
  if◌then◌else◌,
}
use flex_stack.Floats.{Floats}
use flex_stack.Dicts.{dict_filter}
use flex_stack.Vru.Constants.{
  t_genvammax, time_cluster_join_notification, time_cluster_join_success,
  time_cluster_leave_notification, time_cluster_breakup_warning, time_cluster_continuity,
}
use flex_stack.Vru.Clustering.{
  vru_idle, vru_active_standalone, vru_active_cluster_leader, vru_passive, cluster_leader_lost,
  no_join, join_notify, join_waiting, joined, join_cancelled, join_failed, no_leave, leave_notify,
  Manager, NearbyVru, NearbyCluster,
}
use flex_stack.Vru.Clustering.Operations.{confirm_join_failed, do_leave_to_standalone}

module _ (fl : Floats) where
  abbrev pub Outcome : Type 0
  Outcome = Result (Unit {0}) × Manager fl

  abbrev pub done : Manager fl → Outcome
  done m = (ok tt, m)

  -- What follows a part that may raise.
  abbrev pub and_then : Outcome → (Manager fl → Outcome) → Outcome
  and_then (ok d, m) rest = rest m
  and_then (err e, m) rest = (err e, m)

  -- `assert started is not None`, and the change if the time since then has reached the limit.
  abbrev pub if_over : ℕ → Option ℕ → ℕ → Manager fl → Manager fl → Outcome
  if_over now none limit m changed = (err assertion_error, m)
  if_over now (some started) limit m changed =
      done (if leb limit (now - started) then changed else m)

  -- `_expire_nearby_tables`
  unfoldable pub expire_nearby_tables : ℕ → Manager fl → Manager fl
  expire_nearby_tables now m = record m {
    nearby_vrus =
        dict_filter (λ (v : NearbyVru fl). ltb (now - v.last_seen) t_genvammax) m.nearby_vrus;
    nearby_clusters =
        dict_filter (λ (c : NearbyCluster fl). ltb (now - c.last_seen) t_genvammax)
          m.nearby_clusters;
  }

  -- The end of the joining procedure that failed or was cancelled.
  abbrev end_join : Manager fl → Manager fl
  end_join m = record m {
    join_substate = no_join;
    join_target_cluster_id = none;
    join_leave_reason = none;
    join_leave_started = none;
  }

  unfoldable pub advance_join : ℕ → Manager fl → Outcome
  unfolding confirm_join_failed
  advance_join now m = elim m.join_substate [
    | no_join ↦ done m
    | join_notify ↦ if_over now m.join_started time_cluster_join_notification m (record m {
      join_substate = join_waiting;
      join_started = some now;
      state = vru_active_standalone;
    })
    | join_waiting ↦
        if_over now m.join_started time_cluster_join_success m (confirm_join_failed fl now m)
    | joined ↦ done m
    | join_cancelled ↦
        if_over now m.join_leave_started time_cluster_leave_notification m (end_join m)
    | join_failed ↦ if_over now m.join_leave_started time_cluster_leave_notification m (end_join m)
  ]

  abbrev end_leave : Manager fl → Manager fl
  end_leave m = record m {
    leave_substate = no_leave;
    leave_reason = none;
    leave_cluster_id = none;
    leave_started = none;
  }

  -- The end of the leave notification, in both states that have one.
  unfoldable pub advance_leave : ℕ → Manager fl → Outcome
  advance_leave now m = elim m.leave_substate [
    | no_leave ↦ done m
    | leave_notify ↦ if_over now m.leave_started time_cluster_leave_notification m (end_leave m)
  ]

  unfoldable pub update_standalone : ℕ → Manager fl → Outcome
  unfolding advance_join advance_leave
  update_standalone now m = and_then (advance_join now m) (advance_leave now)

  -- A cluster whose warning phase is over is given up.
  abbrev disband_if_over : ℕ → Option ℕ → Manager fl → Manager fl
  disband_if_over now none m = m
  disband_if_over now (some started) m =
      if leb time_cluster_breakup_warning (now - started)
      then record m { cluster = none; state = vru_active_standalone }
      else m

  unfoldable pub update_leader : ℕ → Manager fl → Outcome
  update_leader now m = elim m.cluster [
    | none ↦ done m
    | some c ↦ done (disband_if_over now c.breakup_started m)
  ]

  abbrev leader_lost : ℕ → Option ℕ → Bool
  leader_lost now none = false
  leader_lost now (some heard) = leb time_cluster_continuity (now - heard)

  unfoldable pub update_passive : ℕ → Manager fl → Outcome
  unfolding do_leave_to_standalone advance_leave
  update_passive now m =
      if leader_lost now m.last_leader_vam_time
      then done (do_leave_to_standalone fl now cluster_leader_lost m)
      else advance_leave now m

  unfoldable pub by_state : ℕ → Manager fl → Outcome
  unfolding update_standalone update_leader update_passive
  by_state now m = elim m.state [
    | vru_idle ↦ done m
    | vru_active_standalone ↦ update_standalone now m
    | vru_active_cluster_leader ↦ update_leader now m
    | vru_passive ↦ update_passive now m
  ]

  unfoldable pub update : ℕ → Manager fl → Outcome
  unfolding expire_nearby_tables by_state
  update now m = by_state now (expire_nearby_tables now m)
