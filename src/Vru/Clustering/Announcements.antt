-- ===== src/Vru/Clustering/Announcements.antt =====
-- The messages that a leader receives, as announcements of its members.
use flex_stack.Prelude.{ℕ, ◌≡◌, refl, sym, List, [], ◌∷◌, Option, none, some, arith}
use flex_stack.Floats.{Floats, Trig}
use flex_stack.Vru.Clustering.{vru_active_cluster_leader, ClusterState, Manager}
use flex_stack.Vru.Clustering.Reception.{
  Vam, ClusterInformation, or_default, go_on, by_information, ClusterOperation, on_received_vam,
  process_received_vam, confirm_join, lead_operation, follow_breakup, operation, refresh_heartbeat,
  see_vru, see_cluster,
}
use flex_stack.Vru.Clustering.Calls.{Call, receive, call, run}
use flex_stack.Sets.{contains}
use flex_stack.Vru.Clustering.Members.{Counted, track_all, announced, track_all-announced}

abbrev pub announce :
    Option ClusterOperation → ℕ → List (ℕ × ClusterOperation) → List (ℕ × ClusterOperation)
announce none sender rest = rest
announce (some op) sender rest = (sender, op) ∷ rest

-- What a message adds to the announcements: nothing, if its cluster information is malformed.
abbrev pub heard :
    Option (Option ClusterInformation)
    → Option ClusterOperation
    → ℕ
    → List (ℕ × ClusterOperation)
    → List (ℕ × ClusterOperation)
heard none op sender rest = announce op sender rest
heard (some none) op sender rest = rest
heard (some (some info)) op sender rest = announce op sender rest

abbrev pub announcements : List (ℕ × Vam) → List (ℕ × ClusterOperation)
announcements [] = []
announcements ((now, vam) ∷ vs) =
    heard vam.cluster_information vam.cluster_operation vam.station_id (announcements vs)

module _ (fl : Floats) where
  -- A device that leads the cluster.
  pub record Leads (c : ClusterState) (m : Manager fl) : Type 0 where
    pub leading : m.state ≡ vru_active_cluster_leader
    pub own : m.cluster ≡ some c

  operation-Leads :
      (now sender : ℕ) (o : Option ClusterOperation) (c : ClusterState) (m : Manager fl)
      → Leads c m
      → Leads (track_all (heard none o sender []) c) (operation fl now sender o m)
  unfolding operation lead_operation follow_breakup track_all
  operation-Leads now sender none c m l = l
  operation-Leads now sender (some op) c m l = ground arith

  confirm-Leads :
      (now sender c_id : ℕ) (c : ClusterState) (m : Manager fl)
      → Leads c m
      → Leads c (confirm_join fl now sender c_id m)
  unfolding confirm_join
  confirm-Leads now sender c_id c m l = ground arith

  heartbeat-Leads :
      (now sender : ℕ) (c : ClusterState) (m : Manager fl)
      → Leads c m
      → Leads c (refresh_heartbeat fl now sender m)
  unfolding refresh_heartbeat
  heartbeat-Leads now sender c m l = ground arith

  module _ (trig : Trig fl) where
    go_on-Leads :
        (now : ℕ) (vam : Vam) (c : ClusterState) (m : Manager fl)
        → Leads c m
        → Leads
            (track_all (heard none vam.cluster_operation vam.station_id []) c)
            (go_on fl trig now vam m)
    unfolding go_on
    go_on-Leads now vam c m l =
        heartbeat-Leads now vam.station_id _ _
          (operation-Leads now vam.station_id vam.cluster_operation c m l)

    information-Leads :
        (now : ℕ) (vam : Vam) (info : Option (Option ClusterInformation)) (c : ClusterState)
        (m : Manager fl)
        → Leads c m
        → Leads
            (track_all (heard info vam.cluster_operation vam.station_id []) c)
            (by_information fl trig now vam info m)
    unfolding by_information see_cluster track_all
    information-Leads now vam none c m l = go_on-Leads now vam c m l
    information-Leads now vam (some none) c m l = l
    information-Leads now vam (some (some info)) c m l =
        let seen = see_cluster fl trig now vam info m in
        let c_id = or_default 0 info.cluster_id in
        go_on-Leads now vam c (confirm_join fl now vam.station_id c_id seen) (
          confirm-Leads now vam.station_id c_id c seen
            (record { leading = l.leading; own = l.own }))

    receive-Leads :
        (now : ℕ) (vam : Vam) (c : ClusterState) (m : Manager fl)
        → Leads c m
        → Leads
            (track_all (heard vam.cluster_information vam.cluster_operation vam.station_id []) c)
            (on_received_vam fl trig now (some vam) m)
    unfolding on_received_vam process_received_vam see_vru
    receive-Leads now vam c m l =
        information-Leads now vam vam.cluster_information c (see_vru fl trig now vam m)
          (record { leading = l.leading; own = l.own })

    -- The calls that hand the messages over.
    abbrev pub receptions : List (ℕ × Vam) → List (ℕ × Call fl)
    receptions [] = []
    receptions ((now, vam) ∷ vs) = (now, receive (some vam)) ∷ receptions vs

    track_all-heard :
        (info : Option (Option ClusterInformation)) (o : Option ClusterOperation) (sender : ℕ)
        (rest : List (ℕ × ClusterOperation)) (c : ClusterState)
        → track_all rest (track_all (heard info o sender []) c)
          ≡ track_all (heard info o sender rest) c
    unfolding track_all
    track_all-heard none none sender rest c = refl
    track_all-heard none (some op) sender rest c = refl
    track_all-heard (some none) o sender rest c = refl
    track_all-heard (some (some info)) none sender rest c = refl
    track_all-heard (some (some info)) (some op) sender rest c = refl

    run-Leads :
        (vs : List (ℕ × Vam)) (c : ClusterState) (m : Manager fl)
        → Leads c m
        → Leads (track_all (announcements vs) c) (run fl trig (receptions vs) m)
    unfolding run call track_all
    run-Leads [] c m l = l
    run-Leads ((now, vam) ∷ vs) c m l =
        rw
          (sym (
            track_all-heard vam.cluster_information vam.cluster_operation vam.station_id
              (announcements vs) c))
          (run-Leads vs _ _ (receive-Leads now vam c m l))

    -- A leader that receives messages still leads, and of its cluster, counted right before: the
    -- pending members are then those whose last announcement for the cluster was a joining, or who
    -- were members and have announced nothing for it; they are distinct, and the cardinality is their
    -- number and one for the leader.
    pub run-announced :
        (vs : List (ℕ × Vam)) (c : ClusterState) (m : Manager fl)
        → Counted c
        → m.state ≡ vru_active_cluster_leader
        → m.cluster ≡ some c
        → (c' : ClusterState) × (((run fl trig (receptions vs) m).state ≡ vru_active_cluster_leader)
            × (((run fl trig (receptions vs) m).cluster ≡ some c')
                × (Counted c'
                    × ((x : ℕ)
                        → contains x c'.pending_members
                          ≡ announced c.cluster_id x
                              (announcements vs)
                              (contains x c.pending_members)))))
    run-announced vs c m k e f =
        let l = run-Leads vs c m (record { leading = e; own = f }) in
        (
          track_all (announcements vs) c,
          (
            l.leading,
            (
              l.own,
              (
                (track_all-announced 0 (announcements vs) c k).1,
                λ x. (track_all-announced x (announcements vs) c k).0,
              ),
            ),
          ),
        )
