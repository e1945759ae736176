-- ===== src/Vru/Clustering/Histories.antt =====
-- Every history of calls of the clustering manager keeps the invariant of its state.
use flex_stack.Prelude.{ℕ, ◌≡◌, refl, List, [], ◌∷◌, Option, none, some, ok, err, arith}
use flex_stack.Floats.{Floats, Trig}
use flex_stack.Vru.Clustering.{
  vru_active_standalone, vru_passive, ClusterLeaveReason, cluster_disbanded_by_leader, join_waiting,
  Manager,
}
use flex_stack.Vru.Clustering.Operations.{do_leave_to_standalone}
use flex_stack.Vru.Clustering.Creation.{lead, prune_seen, unique_cluster_id, try_create_cluster}
use flex_stack.Vru.Clustering.Reception.{
  Vam, ClusterInformation, or_default, ClusterOperation, on_received_vam, go_on, by_information,
  process_received_vam, complete_join, confirm_join, lead_operation, follow_breakup, operation,
  refresh_heartbeat, see_vru, see_cluster,
}
use flex_stack.Vru.Clustering.Maintenance.{
  Outcome, and_then, update, expire_nearby_tables, by_state, update_standalone, advance_join,
  advance_leave,
}
use flex_stack.Vru.Clustering.Calls.{
  Call, role_on, role_off, cancel, confirm_failed, tick, create, join, leave, breakup, receive,
  call, run,
}
use flex_stack.Vru.Clustering.Invariant.{
  Inv, Fine, role_on-Inv, role_off-Inv, initiate_join-Inv, cancel_join-Inv, confirm_join_failed-Inv,
  trigger_leave_cluster-Inv, trigger_breakup_cluster-Inv, advance_join-Fine, advance_leave-Fine,
  update_leader-Fine, update_passive-Fine,
}

module _ (fl : Floats) where
  pub expire-Inv : (now : ℕ) (m : Manager fl) → Inv fl m → Inv fl (expire_nearby_tables fl now m)
  unfolding expire_nearby_tables
  expire-Inv now m v = ground arith

  and_then-Fine :
      (o : Outcome fl) (rest : Manager fl → Outcome fl)
      → Fine fl o
      → ((m : Manager fl) → Inv fl m → Fine fl (rest m))
      → Fine fl (and_then fl o rest)
  unfolding Fine
  and_then-Fine (ok d, m) rest f g = g m f.1
  and_then-Fine (err e, m) rest f g = f

  by_state-Fine : (now : ℕ) (m : Manager fl) → Inv fl m → Fine fl (by_state fl now m)
  unfolding Fine by_state update_standalone
  by_state-Fine now m v = ground (
    arith,
    update_leader-Fine fl now m v,
    update_passive-Fine fl now m v,
    advance_join-Fine fl now m v,
    and_then-Fine (advance_join fl now m) (advance_leave fl now),
    advance_leave-Fine fl now,
  )

  pub update-Fine : (now : ℕ) (m : Manager fl) → Inv fl m → Fine fl (update fl now m)
  unfolding update
  update-Fine now m v = by_state-Fine now _ (expire-Inv now m v)

  complete-Inv :
      (now sender : ℕ) (m : Manager fl)
      → Inv fl m
      → m.state ≡ vru_active_standalone
      → m.join_substate ≡ join_waiting
      → Inv fl (complete_join fl now sender m)
  unfolding complete_join
  complete-Inv now sender m v e f = ground arith

  confirm-Inv :
      (now sender c_id : ℕ) (m : Manager fl) → Inv fl m → Inv fl (confirm_join fl now sender c_id m)
  unfolding confirm_join
  confirm-Inv now sender c_id m v = ground (arith, complete-Inv now sender m v)

  lead-Inv :
      (sender : ℕ) (op : ClusterOperation) (m : Manager fl)
      → Inv fl m
      → Inv fl (lead_operation fl sender op m)
  unfolding lead_operation
  lead-Inv sender op m v = ground arith

  leave-Inv :
      (now : ℕ) (reason : ClusterLeaveReason) (m : Manager fl)
      → Inv fl m
      → m.state ≡ vru_passive
      → Inv fl (do_leave_to_standalone fl now reason m)
  unfolding do_leave_to_standalone
  leave-Inv now reason m v e = ground arith

  breakup-Inv :
      (now sender : ℕ) (op : ClusterOperation) (m : Manager fl)
      → Inv fl m
      → Inv fl (follow_breakup fl now sender op m)
  unfolding follow_breakup
  breakup-Inv now sender op m v = ground (arith, leave-Inv now cluster_disbanded_by_leader m v)

  heartbeat-Inv :
      (now sender : ℕ) (m : Manager fl) → Inv fl m → Inv fl (refresh_heartbeat fl now sender m)
  unfolding refresh_heartbeat
  heartbeat-Inv now sender m v = ground arith

  operation-Inv :
      (now sender : ℕ) (o : Option ClusterOperation) (m : Manager fl)
      → Inv fl m
      → Inv fl (operation fl now sender o m)
  unfolding operation
  operation-Inv now sender none m v = v
  operation-Inv now sender (some op) m v = breakup-Inv now sender op _ (lead-Inv sender op m v)

  module _ (trig : Trig fl) where
    see_vru-Inv :
        (now : ℕ) (vam : Vam) (m : Manager fl) → Inv fl m → Inv fl (see_vru fl trig now vam m)
    unfolding see_vru
    see_vru-Inv now vam m v = ground arith

    see_cluster-Inv :
        (now : ℕ) (vam : Vam) (info : ClusterInformation) (m : Manager fl)
        → Inv fl m
        → Inv fl (see_cluster fl trig now vam info m)
    unfolding see_cluster
    see_cluster-Inv now vam info m v = ground arith

    go_on-Inv : (now : ℕ) (vam : Vam) (m : Manager fl) → Inv fl m → Inv fl (go_on fl trig now vam m)
    unfolding go_on
    go_on-Inv now vam m v =
        heartbeat-Inv now vam.station_id _
          (operation-Inv now vam.station_id vam.cluster_operation m v)

    information-Inv :
        (now : ℕ) (vam : Vam) (info : Option (Option ClusterInformation)) (m : Manager fl)
        → Inv fl m
        → Inv fl (by_information fl trig now vam info m)
    unfolding by_information
    information-Inv now vam none m v = go_on-Inv now vam m v
    information-Inv now vam (some none) m v = v
    information-Inv now vam (some (some info)) m v = go_on-Inv now vam _ (
        confirm-Inv now vam.station_id (or_default 0 info.cluster_id) _
          (see_cluster-Inv now vam info m v))

    process-Inv :
        (now : ℕ) (vam : Vam) (m : Manager fl)
        → Inv fl m
        → Inv fl (process_received_vam fl trig now vam m)
    unfolding process_received_vam
    process-Inv now vam m v =
        information-Inv now vam vam.cluster_information _ (see_vru-Inv now vam m v)

    receive-Inv :
        (now : ℕ) (vam : Option Vam) (m : Manager fl)
        → Inv fl m
        → Inv fl (on_received_vam fl trig now vam m)
    unfolding on_received_vam
    receive-Inv now none m v = v
    receive-Inv now (some vam) m v = process-Inv now vam m v

    lead_cluster-Inv :
        (o : Option ℕ) (m : Manager fl)
        → Inv fl m
        → m.state ≡ vru_active_standalone
        → Inv fl (lead fl trig o m).1
    lead_cluster-Inv none m v e = v
    lead_cluster-Inv (some id) m v e = ground arith

    prune-Inv : (now : ℕ) (m : Manager fl) → Inv fl m → Inv fl (prune_seen fl trig now m)
    prune-Inv now m v = ground arith

    create-Inv :
        (now : ℕ) (draw : ℕ → ℕ) (own_lat own_lon : fl.Float) (m : Manager fl)
        → Inv fl m
        → Inv fl (try_create_cluster fl trig now draw own_lat own_lon m).1
    unfolding try_create_cluster
    create-Inv now draw own_lat own_lon m v = ground (
      arith,
      lead_cluster-Inv (unique_cluster_id fl trig draw (prune_seen fl trig now m)) _
          (prune-Inv now m v),
    )

    -- Every call on a manager with the invariant keeps it, and raises nothing: no assertion of `update`
    -- fails.
    pub call-Fine :
        (now : ℕ) (c : Call fl) (m : Manager fl) → Inv fl m → Fine fl (call fl trig now c m)
    unfolding call Fine
    call-Fine now role_on m v = (refl, role_on-Inv fl m v)
    call-Fine now role_off m v = (refl, role_off-Inv fl m v)
    call-Fine now cancel m v = (refl, cancel_join-Inv fl now m v)
    call-Fine now confirm_failed m v = (refl, confirm_join_failed-Inv fl now m v)
    call-Fine now tick m v = update-Fine now m v
    call-Fine now (create draw own_lat own_lon) m v =
        (refl, create-Inv now draw own_lat own_lon m v)
    call-Fine now (join cluster_id) m v = (refl, initiate_join-Inv fl now cluster_id m v)
    call-Fine now (leave reason) m v = (refl, trigger_leave_cluster-Inv fl now reason m v)
    call-Fine now (breakup reason) m v = (refl, trigger_breakup_cluster-Inv fl now reason m v)
    call-Fine now (receive vam) m v = (refl, receive-Inv now vam m v)

    pub run-Inv : (cs : List (ℕ × Call fl)) (m : Manager fl) → Inv fl m → Inv fl (run fl trig cs m)
    unfolding run Fine
    run-Inv [] m v = v
    run-Inv ((now, c) ∷ cs) m v = run-Inv cs _ (call-Fine now c m v).1
