-- ===== src/Vru/Clustering/Leading.antt =====
-- The cluster of a leading device over any calls, and over the messages that it receives.
use flex_stack.Prelude.{
  ℕ, ◌≡◌, refl, sym, ap, List, [], ◌∷◌, Option, none, some, arith, Option-cases, inl, inr,
}
use flex_stack.Floats.{Floats, Trig}
use flex_stack.Vru.Clustering.{ClusterBreakupReason, VruProfile, ClusterState, Manager, new_manager}
use flex_stack.Vru.Clustering.Operations.{
  set_vru_role_on, set_vru_role_off, initiate_join, cancel_join, confirm_join_failed,
  trigger_leave_cluster, trigger_breakup_cluster, do_leave_to_standalone,
}
use flex_stack.Vru.Clustering.Creation.{lead, prune_seen, unique_cluster_id, try_create_cluster}
use flex_stack.Vru.Clustering.Reception.{
  Vam, ClusterInformation, or_default, go_on, by_information, ClusterOperation, on_received_vam,
  process_received_vam, complete_join, confirm_join, lead_operation, follow_breakup, operation,
  refresh_heartbeat, see_vru, see_cluster,
}
use flex_stack.Vru.Clustering.Maintenance.{
  update, expire_nearby_tables, by_state, update_standalone, update_leader, update_passive,
  advance_join, advance_leave,
}
use flex_stack.Vru.Clustering.Calls.{
  Call, role_on, role_off, cancel, confirm_failed, tick, create, join, leave, breakup, receive,
  call, run,
}
use flex_stack.Vru.Clustering.Members.{Counted, track-Counted}

abbrev pub Counts : Option ClusterState → Type 0
Counts none = Unit {0}
Counts (some c) = Counted c

module _ (fl : Floats) where
  track-Counts :
      (sender : ℕ) (op : ClusterOperation) (m : Manager fl)
      → Counts m.cluster
      → Counts (lead_operation fl sender op m).cluster
  unfolding lead_operation
  track-Counts sender op m k = elim (Option-cases m.cluster) [
    | inl e ↦ ground arith
    | inr (c, e) ↦ ground (arith, track-Counted sender op c)
  ]

  breakup-cluster :
      (now sender : ℕ) (op : ClusterOperation) (m : Manager fl)
      → (follow_breakup fl now sender op m).cluster ≡ m.cluster
  unfolding follow_breakup do_leave_to_standalone
  breakup-cluster now sender op m = ground arith

  heartbeat-cluster :
      (now sender : ℕ) (m : Manager fl) → (refresh_heartbeat fl now sender m).cluster ≡ m.cluster
  unfolding refresh_heartbeat
  heartbeat-cluster now sender m = ground arith

  confirm-cluster :
      (now sender c_id : ℕ) (m : Manager fl)
      → (confirm_join fl now sender c_id m).cluster ≡ m.cluster
  unfolding confirm_join complete_join
  confirm-cluster now sender c_id m = ground arith

  tick-Counts : (now : ℕ) (m : Manager fl) → Counts m.cluster → Counts (update fl now m).1.cluster
  unfolding update expire_nearby_tables by_state update_standalone update_leader update_passive
      advance_join advance_leave do_leave_to_standalone confirm_join_failed
  tick-Counts now m k = ground arith

  warn-Counts :
      (now : ℕ) (reason : ClusterBreakupReason) (m : Manager fl)
      → Counts m.cluster
      → Counts (trigger_breakup_cluster fl now reason m).1.cluster
  unfolding trigger_breakup_cluster
  warn-Counts now reason m k = ground arith

  operation-Counts :
      (now sender : ℕ) (o : Option ClusterOperation) (m : Manager fl)
      → Counts m.cluster
      → Counts (operation fl now sender o m).cluster
  unfolding operation
  operation-Counts now sender none m k = k
  operation-Counts now sender (some op) m k =
      rw (breakup-cluster now sender op (lead_operation fl sender op m))
        (track-Counts sender op m k)

  module _ (trig : Trig fl) where
    go_on-Counts :
        (now : ℕ) (vam : Vam) (m : Manager fl)
        → Counts m.cluster
        → Counts (go_on fl trig now vam m).cluster
    unfolding go_on
    go_on-Counts now vam m k =
        rw
          (heartbeat-cluster now vam.station_id
            (operation fl now vam.station_id vam.cluster_operation m))
          (operation-Counts now vam.station_id vam.cluster_operation m k)

    information-Counts :
        (now : ℕ) (vam : Vam) (info : Option (Option ClusterInformation)) (m : Manager fl)
        → Counts m.cluster
        → Counts (by_information fl trig now vam info m).cluster
    unfolding by_information see_cluster
    information-Counts now vam none m k = go_on-Counts now vam m k
    information-Counts now vam (some none) m k = k
    information-Counts now vam (some (some info)) m k =
        let seen = see_cluster fl trig now vam info m in
        let c_id = or_default 0 info.cluster_id in
        go_on-Counts now vam (confirm_join fl now vam.station_id c_id seen)
          (rw (confirm-cluster now vam.station_id c_id seen) k)

    receive-Counts :
        (now : ℕ) (vam : Option Vam) (m : Manager fl)
        → Counts m.cluster
        → Counts (on_received_vam fl trig now vam m).cluster
    unfolding on_received_vam process_received_vam see_vru
    receive-Counts now none m k = k
    receive-Counts now (some vam) m k =
        information-Counts now vam vam.cluster_information (see_vru fl trig now vam m) k

    lead-Counts :
        (o : Option ℕ) (m : Manager fl) → Counts m.cluster → Counts (lead fl trig o m).1.cluster
    lead-Counts none m k = k
    lead-Counts (some id) m k = record { distinct = tt; counted = refl }

    create-Counts :
        (now : ℕ) (draw : ℕ → ℕ) (own_lat own_lon : fl.Float) (m : Manager fl)
        → Counts m.cluster
        → Counts (try_create_cluster fl trig now draw own_lat own_lon m).1.cluster
    unfolding try_create_cluster
    create-Counts now draw own_lat own_lon m k =
        let pruned = prune_seen fl trig now m in
        ground (arith, lead-Counts (unique_cluster_id fl trig draw pruned) pruned k)

    call-Counts :
        (now : ℕ) (c : Call fl) (m : Manager fl)
        → Counts m.cluster
        → Counts (call fl trig now c m).1.cluster
    unfolding call set_vru_role_on set_vru_role_off cancel_join confirm_join_failed initiate_join
        trigger_leave_cluster do_leave_to_standalone
    call-Counts now role_on m k = ground arith
    call-Counts now role_off m k = tt
    call-Counts now cancel m k = ground arith
    call-Counts now confirm_failed m k = ground arith
    call-Counts now tick m k = tick-Counts now m k
    call-Counts now (create draw own_lat own_lon) m k = create-Counts now draw own_lat own_lon m k
    call-Counts now (join cluster_id) m k = ground arith
    call-Counts now (leave reason) m k = ground arith
    call-Counts now (breakup reason) m k = warn-Counts now reason m k
    call-Counts now (receive vam) m k = receive-Counts now vam m k

    run-Counts :
        (cs : List (ℕ × Call fl)) (m : Manager fl)
        → Counts m.cluster
        → Counts (run fl trig cs m).cluster
    unfolding run
    run-Counts [] m k = k
    run-Counts ((now, c) ∷ cs) m k = run-Counts cs _ (call-Counts now c m k)

    -- After any calls on a new manager, the cluster that it then leads, if there is one, has distinct
    -- pending members and a cardinality of their number and one for the leader.
    pub run-Counted :
        (id : ℕ) (p : VruProfile) (cs : List (ℕ × Call fl)) (c : ClusterState)
        → (run fl trig cs (new_manager fl id p)).cluster ≡ some c
        → Counted c
    unfolding new_manager
    run-Counted id p cs c e = rw (sym (ap Counts e)) (run-Counts cs _ tt)
