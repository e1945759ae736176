-- ===== src/Vru/Clustering/Transitions.antt =====
-- Which call moves a clustering manager from which state to which.
use flex_stack.Prelude.{ℕ, ◌≡◌, refl, Bool, true, false, Option, none, some, arith}
use flex_stack.Floats.{Floats, Trig}
use flex_stack.Vru.Clustering.{
  VbsState, vru_idle, vru_active_standalone, vru_active_cluster_leader, vru_passive, Manager,
}
use flex_stack.Vru.Clustering.Operations.{
  set_vru_role_on, set_vru_role_off, initiate_join, cancel_join, confirm_join_failed,
  trigger_leave_cluster, trigger_breakup_cluster, do_leave_to_standalone,
}
use flex_stack.Vru.Clustering.Creation.{try_create_cluster}
use flex_stack.Vru.Clustering.Reception.{
  Vam, ClusterInformation, or_default, go_on, by_information, on_received_vam, process_received_vam,
  complete_join, confirm_join, lead_operation, follow_breakup, operation, refresh_heartbeat,
  see_vru, see_cluster,
}
use flex_stack.Vru.Clustering.Maintenance.{
  update, expire_nearby_tables, by_state, update_standalone, update_leader, update_passive,
  advance_join, advance_leave,
}
use flex_stack.Vru.Clustering.Calls.{
  Call, role_on, role_off, cancel, confirm_failed, tick, create, join, leave, breakup, receive,
  call,
}

abbrev pub eq_state : VbsState → VbsState → Bool
eq_state vru_idle vru_idle = true
eq_state vru_active_standalone vru_active_standalone = true
eq_state vru_active_cluster_leader vru_active_cluster_leader = true
eq_state vru_passive vru_passive = true
eq_state _ _ = false

module _ (fl : Floats) where
  -- The table of the state machine: each call with its own moves, and else the state stays.
  abbrev pub moves : Call fl → VbsState → VbsState → Bool
  moves role_on vru_idle vru_active_standalone = true
  moves role_on vru_idle _ = false
  moves role_off _ vru_idle = true
  moves role_off _ _ = false
  moves (create draw own_lat own_lon) vru_active_standalone vru_active_cluster_leader = true
  moves tick vru_active_cluster_leader vru_active_standalone = true
  moves tick vru_passive vru_active_standalone = true
  moves (leave reason) vru_passive vru_active_standalone = true
  moves (receive vam) vru_active_standalone vru_passive = true
  moves (receive vam) vru_passive vru_active_standalone = true
  moves _ s t = eq_state s t

  update-moves : (now : ℕ) (m : Manager fl) → moves tick m.state (update fl now m).1.state ≡ true
  unfolding update expire_nearby_tables by_state update_standalone update_leader update_passive
      advance_join advance_leave do_leave_to_standalone confirm_join_failed
  update-moves now m = ground arith

  module _ (trig : Trig fl) where
    moves-stays : (vam : Option Vam) (s : VbsState) → moves (receive vam) s s ≡ true
    moves-stays vam vru_idle = refl
    moves-stays vam vru_active_standalone = refl
    moves-stays vam vru_active_cluster_leader = refl
    moves-stays vam vru_passive = refl

    -- What a message moves in a row it also moves at once.
    moves_trans :
        (vam : Option Vam) (s t u : VbsState)
        → moves (receive vam) s t ≡ true
        → moves (receive vam) t u ≡ true
        → moves (receive vam) s u ≡ true
    moves_trans vam s t u f g = ground arith

    go_on-moves :
        (now : ℕ) (vam : Vam) (m : Manager fl)
        → moves (receive (some vam)) m.state (go_on fl trig now vam m).state ≡ true
    unfolding go_on refresh_heartbeat operation lead_operation follow_breakup do_leave_to_standalone
    go_on-moves now vam m = ground arith

    confirm-moves :
        (now sender c_id : ℕ) (vam : Vam) (m : Manager fl)
        → moves (receive (some vam)) m.state (confirm_join fl now sender c_id m).state ≡ true
    unfolding confirm_join complete_join
    confirm-moves now sender c_id vam m = ground arith

    information-moves :
        (now : ℕ) (vam : Vam) (info : Option (Option ClusterInformation)) (m : Manager fl)
        → moves (receive (some vam)) m.state (by_information fl trig now vam info m).state ≡ true
    unfolding by_information see_cluster
    information-moves now vam none m = go_on-moves now vam m
    information-moves now vam (some none) m = moves-stays (some vam) m.state
    information-moves now vam (some (some info)) m =
        let seen = see_cluster fl trig now vam info m in
        let c_id = or_default 0 info.cluster_id in
        let confirmed = confirm_join fl now vam.station_id c_id seen in
        moves_trans (some vam) _ confirmed.state _ (confirm-moves now vam.station_id c_id vam seen)
          (go_on-moves now vam confirmed)

    receive-moves :
        (now : ℕ) (vam : Option Vam) (m : Manager fl)
        → moves (receive vam) m.state (on_received_vam fl trig now vam m).state ≡ true
    unfolding on_received_vam process_received_vam see_vru
    receive-moves now none m = moves-stays none m.state
    receive-moves now (some vam) m =
        information-moves now vam vam.cluster_information (see_vru fl trig now vam m)

    create-moves :
        (now : ℕ) (draw : ℕ → ℕ) (own_lat own_lon : fl.Float) (m : Manager fl)
        → moves
            (create draw own_lat own_lon)
            m.state
            (try_create_cluster fl trig now draw own_lat own_lon m).1.state
          ≡ true
    unfolding try_create_cluster
    create-moves now draw own_lat own_lon m = ground arith

    -- Every call, in any state, moves the state only as the table has it: who is idle only begins
    -- (`role_on`), anyone ends in idle (`role_off`) and only so, a standalone device comes to lead by
    -- `try_create_cluster` alone and to be a member by a received message alone, a leader steps down by
    -- `update` alone, and a member leaves by `update`, a received message or `trigger_leave_cluster`.
    pub call-moves :
        (now : ℕ) (c : Call fl) (m : Manager fl)
        → moves c m.state (call fl trig now c m).1.state ≡ true
    unfolding call set_vru_role_on set_vru_role_off cancel_join confirm_join_failed initiate_join
        trigger_leave_cluster do_leave_to_standalone trigger_breakup_cluster
    call-moves now role_on m = ground arith
    call-moves now role_off m = ground arith
    call-moves now cancel m = ground arith
    call-moves now confirm_failed m = ground arith
    call-moves now tick m = update-moves now m
    call-moves now (create draw own_lat own_lon) m = create-moves now draw own_lat own_lon m
    call-moves now (join cluster_id) m = ground arith
    call-moves now (leave reason) m = ground arith
    call-moves now (breakup reason) m = ground arith
    call-moves now (receive vam) m = receive-moves now vam m
