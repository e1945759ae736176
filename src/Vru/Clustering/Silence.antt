-- ===== src/Vru/Clustering/Silence.antt =====
-- A passive device is silent: with a clock that does not go back, its leave notification is over
-- before it can join again.
use flex_stack.Prelude.{ℕ, ◌≡◌, ◌≤◌, List, [], ◌∷◌, Bool, true, false, Option, none, some, arith}
use flex_stack.Floats.{Floats, Trig}
use flex_stack.Vru.Clustering.{
  vru_passive, ClusterLeaveReason, cluster_disbanded_by_leader, cluster_leader_lost, JoinSubstate,
  join_notify, join_waiting, joined, VruProfile, Manager, new_manager,
}
use flex_stack.Vru.Clustering.Operations.{
  set_vru_role_on, set_vru_role_off, initiate_join, cancel_join, confirm_join_failed,
  trigger_leave_cluster, trigger_breakup_cluster, do_leave_to_standalone,
}
use flex_stack.Vru.Clustering.Creation.{lead, prune_seen, unique_cluster_id, try_create_cluster}
use flex_stack.Vru.Clustering.Reception.{
  Vam, ClusterInformation, or_default, go_on, by_information, ClusterOperation, on_received_vam,
  process_received_vam, complete_join, confirm_join, lead_operation, follow_breakup, operation,
  refresh_heartbeat, see_vru, see_cluster,
}
use flex_stack.Vru.Clustering.Maintenance.{
  update, expire_nearby_tables, by_state, update_standalone, update_leader, update_passive,
  advance_join, advance_leave,
}
use flex_stack.Vru.Clustering.Calls.{
  Call, role_on, role_off, cancel, confirm_failed, tick, create, join, leave, breakup, receive,
  call, run,
}
use flex_stack.Vru.Clustering.Invariant.{is_leaving, Inv, Fine, new_manager-Inv}
use flex_stack.Vru.Clustering.Histories.{expire-Inv, call-Fine, run-Inv}
use flex_stack.Vru.Clustering.Containers.{should_transmit_vam}

abbrev pub is_past_notice : JoinSubstate → Bool
is_past_notice join_waiting = true
is_past_notice joined = true
is_past_notice _ = false

module _ (fl : Floats) where
  pub record Quiet (now : ℕ) (m : Manager fl) : Type 0 where
    pub past : is_leaving m.leave_substate ≡ true → or_default 0 m.leave_started ≤ now
    pub before :
        m.join_substate ≡ join_notify
        → is_leaving m.leave_substate ≡ true
        → or_default 0 m.leave_started ≤ or_default 0 m.join_started
    pub over : is_past_notice m.join_substate ≡ true → is_leaving m.leave_substate ≡ false

  later-Quiet : (now now' : ℕ) (m : Manager fl) → now ≤ now' → Quiet now m → Quiet now' m
  later-Quiet now now' m l q = ground arith

  update-Quiet :
      (now : ℕ) (m : Manager fl) → Inv fl m → Quiet now m → Quiet now (update_standalone fl now m).1
  unfolding update_standalone advance_join advance_leave confirm_join_failed
  update-Quiet now m v q = ground arith

  initiate-Quiet :
      (now cluster_id : ℕ) (m : Manager fl)
      → Quiet now m
      → Quiet now (initiate_join fl now cluster_id m).1
  unfolding initiate_join
  initiate-Quiet now cluster_id m q = ground arith

  do_leave-Quiet :
      (now : ℕ) (reason : ClusterLeaveReason) (m : Manager fl)
      → Quiet now (do_leave_to_standalone fl now reason m)
  unfolding do_leave_to_standalone
  do_leave-Quiet now reason m = ground arith

  by_state-Quiet :
      (now : ℕ) (m : Manager fl) → Inv fl m → Quiet now m → Quiet now (by_state fl now m).1
  unfolding by_state update_leader update_passive advance_leave
  by_state-Quiet now m v q =
      ground (arith, update-Quiet now m v q, do_leave-Quiet now cluster_leader_lost m)

  tick-Quiet : (now : ℕ) (m : Manager fl) → Inv fl m → Quiet now m → Quiet now (update fl now m).1
  unfolding update expire_nearby_tables
  tick-Quiet now m v q =
      by_state-Quiet now _ (expire-Inv fl now m v)
        (record { past = q.past; before = q.before; over = q.over })

  breakup-Quiet :
      (now sender : ℕ) (op : ClusterOperation) (m : Manager fl)
      → Quiet now m
      → Quiet now (follow_breakup fl now sender op m)
  unfolding follow_breakup
  breakup-Quiet now sender op m q = ground (arith, do_leave-Quiet now cluster_disbanded_by_leader m)

  lead-Quiet :
      (now sender : ℕ) (op : ClusterOperation) (m : Manager fl)
      → Quiet now m
      → Quiet now (lead_operation fl sender op m)
  unfolding lead_operation
  lead-Quiet now sender op m q = ground arith

  operation-Quiet :
      (now sender : ℕ) (o : Option ClusterOperation) (m : Manager fl)
      → Quiet now m
      → Quiet now (operation fl now sender o m)
  unfolding operation
  operation-Quiet now sender none m q = q
  operation-Quiet now sender (some op) m q =
      breakup-Quiet now sender op _ (lead-Quiet now sender op m q)

  heartbeat-Quiet :
      (now sender : ℕ) (m : Manager fl)
      → Quiet now m
      → Quiet now (refresh_heartbeat fl now sender m)
  unfolding refresh_heartbeat
  heartbeat-Quiet now sender m q = ground arith

  module _ (trig : Trig fl) where
    go_on-Quiet :
        (now : ℕ) (vam : Vam) (m : Manager fl) → Quiet now m → Quiet now (go_on fl trig now vam m)
    unfolding go_on
    go_on-Quiet now vam m q =
        heartbeat-Quiet now vam.station_id _
          (operation-Quiet now vam.station_id vam.cluster_operation m q)

    confirm-Quiet :
        (now sender c_id : ℕ) (m : Manager fl)
        → Quiet now m
        → Quiet now (confirm_join fl now sender c_id m)
    unfolding confirm_join complete_join
    confirm-Quiet now sender c_id m q = ground arith

    information-Quiet :
        (now : ℕ) (vam : Vam) (info : Option (Option ClusterInformation)) (m : Manager fl)
        → Quiet now m
        → Quiet now (by_information fl trig now vam info m)
    unfolding by_information see_cluster
    information-Quiet now vam none m q = go_on-Quiet now vam m q
    information-Quiet now vam (some none) m q = q
    information-Quiet now vam (some (some info)) m q = go_on-Quiet now vam _ (
        confirm-Quiet now vam.station_id (or_default 0 info.cluster_id)
          (see_cluster fl trig now vam info m)
          (record { past = q.past; before = q.before; over = q.over }))

    receive-Quiet :
        (now : ℕ) (vam : Option Vam) (m : Manager fl)
        → Quiet now m
        → Quiet now (on_received_vam fl trig now vam m)
    unfolding on_received_vam process_received_vam see_vru
    receive-Quiet now none m q = q
    receive-Quiet now (some vam) m q =
        information-Quiet now vam vam.cluster_information (see_vru fl trig now vam m)
          (record { past = q.past; before = q.before; over = q.over })

    lead_cluster-Quiet :
        (now : ℕ) (o : Option ℕ) (m : Manager fl) → Quiet now m → Quiet now (lead fl trig o m).1
    lead_cluster-Quiet now none m q = q
    lead_cluster-Quiet now (some id) m q = record {
      past = q.past;
      before = q.before;
      over = q.over;
    }

    create-Quiet :
        (now : ℕ) (draw : ℕ → ℕ) (own_lat own_lon : fl.Float) (m : Manager fl)
        → Quiet now m
        → Quiet now (try_create_cluster fl trig now draw own_lat own_lon m).1
    unfolding try_create_cluster
    create-Quiet now draw own_lat own_lon m q =
        let pruned = prune_seen fl trig now m in
        ground (
          arith,
          lead_cluster-Quiet now (unique_cluster_id fl trig draw pruned) pruned
              (record { past = q.past; before = q.before; over = q.over }),
        )

    call-Quiet :
        (now : ℕ) (c : Call fl) (m : Manager fl)
        → Inv fl m
        → Quiet now m
        → Quiet now (call fl trig now c m).1
    unfolding call set_vru_role_on set_vru_role_off cancel_join confirm_join_failed
        trigger_leave_cluster trigger_breakup_cluster
    call-Quiet now role_on m v q = ground arith
    call-Quiet now role_off m v q = ground arith
    call-Quiet now cancel m v q = ground arith
    call-Quiet now confirm_failed m v q = ground arith
    call-Quiet now tick m v q = tick-Quiet now m v q
    call-Quiet now (create draw own_lat own_lon) m v q = create-Quiet now draw own_lat own_lon m q
    call-Quiet now (join cluster_id) m v q = initiate-Quiet now cluster_id m q
    call-Quiet now (leave reason) m v q = ground (arith, do_leave-Quiet now reason m)
    call-Quiet now (breakup reason) m v q = ground arith
    call-Quiet now (receive vam) m v q = receive-Quiet now vam m q

    -- The times of the calls, from a time on, do not go back.
    abbrev pub InOrder : ℕ → List (ℕ × Call fl) → Type 0
    InOrder start [] = Unit {0}
    InOrder start ((now, c) ∷ cs) = (start ≤ now) × InOrder now cs

    run-Quiet :
        (start : ℕ) (cs : List (ℕ × Call fl)) (m : Manager fl)
        → InOrder start cs
        → Inv fl m
        → Quiet start m
        → (end : ℕ) × Quiet end (run fl trig cs m)
    unfolding run Fine
    run-Quiet start [] m o v q = (start, q)
    run-Quiet start ((now, c) ∷ cs) m o v q =
        run-Quiet now cs _ o.1 (call-Fine fl trig now c m v).1
          (call-Quiet now c m v (later-Quiet start now m o.0 q))

    passive-silent :
        (now : ℕ) (m : Manager fl)
        → Inv fl m
        → Quiet now m
        → m.state ≡ vru_passive
        → should_transmit_vam fl m ≡ false
    unfolding should_transmit_vam
    passive-silent now m v q e = ground arith

    -- After any calls on a new manager, at times that do not go back, a device in the passive state
    -- does not transmit.
    pub run-passive_silent :
        (id : ℕ) (p : VruProfile) (cs : List (ℕ × Call fl))
        → InOrder 0 cs
        → (run fl trig cs (new_manager fl id p)).state ≡ vru_passive
        → should_transmit_vam fl (run fl trig cs (new_manager fl id p)) ≡ false
    unfolding new_manager
    run-passive_silent id p cs o e =
        let v = new_manager-Inv fl id p in
        let ended = run-Quiet 0 cs _ o v (ground arith) in
        passive-silent ended.0 _ (run-Inv fl trig cs _ v) ended.1 e
