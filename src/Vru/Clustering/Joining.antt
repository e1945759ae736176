-- ===== src/Vru/Clustering/Joining.antt =====
-- Which message makes a device a member, and of which cluster.
use flex_stack.Prelude.{ℕ, ◌≡◌, refl, sym, ◌∙◌, Bool, true, false, Option, none, some, arith}
use flex_stack.Floats.{Floats, Trig}
use flex_stack.Vru.Clustering.{vru_active_standalone, vru_passive, join_waiting, Manager}
use flex_stack.Vru.Clustering.Operations.{do_leave_to_standalone}
use flex_stack.Vru.Clustering.Reception.{
  Vam, ClusterInformation, or_default, is_id, go_on, by_information, ClusterOperation,
  on_received_vam, process_received_vam, complete_join, confirm_join, lead_operation,
  follow_breakup, operation, refresh_heartbeat, see_vru, see_cluster,
}
use flex_stack.Vru.Clustering.Invariant.{is_some}

abbrev pub breaks_up : Option ClusterOperation → Bool
breaks_up none = false
breaks_up (some op) = is_some op.breakup_info

is_id→some : (id : ℕ) (o : Option ℕ) → is_id id o ≡ true → some id ≡ o
is_id→some id none e = ground arith
is_id→some id (some x) e = ground arith

module _ (fl : Floats) where
  -- A device that is a member of the cluster since the message.
  pub record Member (now sender : ℕ) (id : Option ℕ) (m : Manager fl) : Type 0 where
    pub passive : m.state ≡ vru_passive
    pub cluster : m.joined_cluster_id ≡ id
    pub leader : m.leader_station_id ≡ some sender
    pub since : m.last_leader_vam_time ≡ some now

  confirm-waits :
      (now sender c_id : ℕ) (m : Manager fl)
      → m.state ≡ vru_active_standalone
      → (confirm_join fl now sender c_id m).state ≡ vru_passive
      → (m.join_substate ≡ join_waiting)
        × ((is_id c_id m.join_target_cluster_id ≡ true)
            × ((confirm_join fl now sender c_id m).joined_cluster_id ≡ m.join_target_cluster_id))
  unfolding confirm_join complete_join
  confirm-waits now sender c_id m e f = ground arith

  operation-was :
      (now sender : ℕ) (o : Option ClusterOperation) (m : Manager fl)
      → (operation fl now sender o m).state ≡ vru_passive
      → (m.state ≡ vru_passive)
        × ((operation fl now sender o m).joined_cluster_id ≡ m.joined_cluster_id)
  unfolding operation lead_operation follow_breakup do_leave_to_standalone
  operation-was now sender none m e = (e, refl)
  operation-was now sender (some op) m e = ground arith

  heartbeat-was :
      (now sender : ℕ) (m : Manager fl)
      → ((refresh_heartbeat fl now sender m).state ≡ m.state)
        × ((refresh_heartbeat fl now sender m).joined_cluster_id ≡ m.joined_cluster_id)
  unfolding refresh_heartbeat
  heartbeat-was now sender m = ground arith

  confirm-answers :
      (now sender c_id id : ℕ) (m : Manager fl)
      → m.state ≡ vru_active_standalone
      → m.join_substate ≡ join_waiting
      → m.join_target_cluster_id ≡ some id
      → some c_id ≡ some id
      → Member now sender (some id) (confirm_join fl now sender c_id m)
  unfolding confirm_join complete_join
  confirm-answers now sender c_id id m e f g h = ground arith

  operation-Member :
      (now sender : ℕ) (o : Option ClusterOperation) (id : Option ℕ) (m : Manager fl)
      → breaks_up o ≡ false
      → Member now sender id m
      → Member now sender id (operation fl now sender o m)
  unfolding operation lead_operation follow_breakup
  operation-Member now sender none id m b v = v
  operation-Member now sender (some op) id m b v = ground arith

  heartbeat-Member :
      (now sender : ℕ) (id : Option ℕ) (m : Manager fl)
      → Member now sender id m
      → Member now sender id (refresh_heartbeat fl now sender m)
  unfolding refresh_heartbeat
  heartbeat-Member now sender id m v = ground arith

  module _ (trig : Trig fl) where
    go_on-was :
        (now : ℕ) (vam : Vam) (m : Manager fl)
        → (go_on fl trig now vam m).state ≡ vru_passive
        → (m.state ≡ vru_passive)
          × ((go_on fl trig now vam m).joined_cluster_id ≡ m.joined_cluster_id)
    unfolding go_on
    go_on-was now vam m e =
        let m' = operation fl now vam.station_id vam.cluster_operation m in
        let beat = heartbeat-was now vam.station_id m' in
        let was = operation-was now vam.station_id vam.cluster_operation m (sym beat.0 ∙ e) in
        (was.0, beat.1 ∙ was.1)

    go_on-Member :
        (now : ℕ) (vam : Vam) (id : Option ℕ) (m : Manager fl)
        → breaks_up vam.cluster_operation ≡ false
        → Member now vam.station_id id m
        → Member now vam.station_id id (go_on fl trig now vam m)
    unfolding go_on
    go_on-Member now vam id m b v =
        heartbeat-Member now vam.station_id id _
          (operation-Member now vam.station_id vam.cluster_operation id m b v)

    -- The cluster that a message is about.
    abbrev pub about : Option (Option ClusterInformation) → Option ℕ
    about none = none
    about (some none) = none
    about (some (some info)) = some (or_default 0 info.cluster_id)

    information-joins :
        (now : ℕ) (vam : Vam) (info : Option (Option ClusterInformation)) (m : Manager fl)
        → m.state ≡ vru_active_standalone
        → (by_information fl trig now vam info m).state ≡ vru_passive
        → (m.join_substate ≡ join_waiting)
          × ((about info ≡ m.join_target_cluster_id)
              × ((by_information fl trig now vam info m).joined_cluster_id
                  ≡ m.join_target_cluster_id))
    unfolding by_information see_cluster
    information-joins now vam none m e f = ground (arith, go_on-was now vam m f)
    information-joins now vam (some none) m e f = ground arith
    information-joins now vam (some (some info)) m e f =
        let seen = see_cluster fl trig now vam info m in
        let c_id = or_default 0 info.cluster_id in
        let was = go_on-was now vam (confirm_join fl now vam.station_id c_id seen) f in
        let waits = confirm-waits now vam.station_id c_id seen e was.0 in
        (waits.0, (is_id→some c_id m.join_target_cluster_id waits.1.0, was.1 ∙ waits.1.1))

    information-answers :
        (now id : ℕ) (vam : Vam) (info : Option (Option ClusterInformation)) (m : Manager fl)
        → m.state ≡ vru_active_standalone
        → m.join_substate ≡ join_waiting
        → m.join_target_cluster_id ≡ some id
        → about info ≡ some id
        → breaks_up vam.cluster_operation ≡ false
        → Member now vam.station_id (some id) (by_information fl trig now vam info m)
    unfolding by_information see_cluster
    information-answers now id vam none m e f g h b = ground arith
    information-answers now id vam (some none) m e f g h b = ground arith
    information-answers now id vam (some (some info)) m e f g h b =
        let seen = see_cluster fl trig now vam info m in
        let c_id = or_default 0 info.cluster_id in
        go_on-Member now vam (some id) (confirm_join fl now vam.station_id c_id seen) b
          (confirm-answers now vam.station_id c_id id seen e f g h)

    -- A standalone device that a received message makes a member was waiting for the cluster that the
    -- message is about, and has joined that one.
    pub receive-joined :
        (now : ℕ) (vam : Vam) (m : Manager fl)
        → m.state ≡ vru_active_standalone
        → (on_received_vam fl trig now (some vam) m).state ≡ vru_passive
        → (m.join_substate ≡ join_waiting)
          × ((about vam.cluster_information ≡ m.join_target_cluster_id)
              × ((on_received_vam fl trig now (some vam) m).joined_cluster_id
                  ≡ m.join_target_cluster_id))
    unfolding on_received_vam process_received_vam see_vru
    receive-joined now vam m e f =
        information-joins now vam vam.cluster_information (see_vru fl trig now vam m) e f

    -- A standalone device that waits for a cluster becomes a member of it by the first message about
    -- it that does not break a cluster up, with the sender, whoever that is, for its leader.
    pub receive-answered :
        (now id : ℕ) (vam : Vam) (m : Manager fl)
        → m.state ≡ vru_active_standalone
        → m.join_substate ≡ join_waiting
        → m.join_target_cluster_id ≡ some id
        → about vam.cluster_information ≡ some id
        → breaks_up vam.cluster_operation ≡ false
        → Member now vam.station_id (some id) (on_received_vam fl trig now (some vam) m)
    unfolding on_received_vam process_received_vam see_vru
    receive-answered now id vam m e f g h b =
        information-answers now id vam vam.cluster_information (see_vru fl trig now vam m) e f g h b
