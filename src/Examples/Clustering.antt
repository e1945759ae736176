-- ===== src/Examples/Clustering.antt =====
-- The theorems on clustering at concrete arguments: a pedestrian among cyclists.
use flex_stack.Prelude.{
  ℕ, ◌≡◌, refl, ◌≤◌, ◌<◌, ◌+◌, ◌-◌, List, [], ◌∷◌, true, false, Option, none, some, arith,
}
use flex_stack.Vru.Clustering.{
  vru_active_standalone, vru_active_cluster_leader, vru_passive, join_waiting, pedestrian,
  ClusterState, Manager, new_manager,
}
use flex_stack.Vru.Clustering.Operations.{initiate_join}
use flex_stack.Vru.Clustering.Creation.{
  try_create_cluster, nearby_count, haversine_distance, first_unused,
}
use flex_stack.Vru.Clustering.Reception.{
  Vam, ClusterInformation, go_on, by_information, ClusterOperation, on_received_vam,
  process_received_vam, complete_join, confirm_join, operation, refresh_heartbeat, see_vru,
  see_cluster,
}
use flex_stack.Vru.Clustering.Maintenance.{
  update, expire_nearby_tables, by_state, update_standalone, advance_join, advance_leave,
}
use flex_stack.Vru.Clustering.Calls.{Call, tick, create, join, receive, call, run}
use flex_stack.Prelude.Int.{pos}
use flex_stack.Sets.{contains}
use flex_stack.Examples.{whole, flat}
use flex_stack.Vru.Clustering.Members.{Counted, announced}
use flex_stack.Vru.Clustering.Announcements.{announcements, receptions, run-announced}
use flex_stack.Vru.Clustering.Leading.{run-Counted}
use flex_stack.Vru.Clustering.Transitions.{moves, call-moves}
use flex_stack.Vru.Clustering.Joining.{Member, receive-answered}
use flex_stack.Dicts.{dict_get}
use flex_stack.Vru.Clustering.Identifiers.{try_create_cluster_unique}
use flex_stack.Vru.Clustering.Silence.{run-passive_silent}
use flex_stack.Vru.Clustering.Containers.{should_transmit_vam}

-- A cyclist's message, with the cluster that it leads and its operation.
abbrev message : ℕ → Option (Option ClusterInformation) → Option ClusterOperation → Vam
message station info op = record {
  station_id = station;
  latitude = pos 413900000;
  longitude = pos 21100000;
  speed_value = some 150;
  heading_value = none;
  cluster_information = info;
  cluster_operation = op;
}

abbrev plain : ℕ → Vam
plain station = message station none none

abbrev cluster_nine : Vam
cluster_nine =
    message 20
      (some (
        some (record { cluster_id = some 9; cardinality_size = some 2; circular = some (some 5) })))
      none

abbrev walker : Manager whole
walker = new_manager whole 7 pedestrian

abbrev joining : List (ℕ × Call whole)
joining = (1000, join 9) ∷ (4000, tick) ∷ (4100, receive (some cluster_nine)) ∷ []

joining-passive : (run whole flat joining walker).state ≡ vru_passive
unfolding run call initiate_join update expire_nearby_tables by_state update_standalone advance_join
    advance_leave on_received_vam process_received_vam by_information go_on confirm_join
    complete_join see_vru see_cluster operation refresh_heartbeat new_manager
joining-passive = refl

run-passive_silent_example : should_transmit_vam whole (run whole flat joining walker) ≡ false
run-passive_silent_example =
    run-passive_silent whole flat 7 pedestrian joining
      (omega arith, (omega arith, (omega arith, tt))) joining-passive

-- Three cyclists are seen, and the pedestrian makes a cluster of them.
abbrev gathering : List (ℕ × Call whole)
gathering =
    (100, receive (some (plain 20)))
    ∷ (200, receive (some (plain 21)))
    ∷ (300, receive (some (plain 22)))
    ∷ (400, create (λ i. 40 + i) 41 2)
    ∷ []

abbrev leader : Manager whole
leader = run whole flat gathering walker

abbrev led : ClusterState
led = record {
  cluster_id = 40;
  cardinality = 1;
  profiles = pedestrian ∷ [];
  radius = 5;
  breakup_started = none;
  breakup_reason = none;
  pending_members = [];
}

led-Counted : Counted led
led-Counted = record { distinct = tt; counted = refl }

leader-state : leader.state ≡ vru_active_cluster_leader
unfolding run call new_manager on_received_vam process_received_vam by_information go_on see_vru
    operation refresh_heartbeat try_create_cluster nearby_count haversine_distance first_unused
leader-state = refl

leader-cluster : leader.cluster ≡ some led
unfolding run call new_manager on_received_vam process_received_vam by_information go_on see_vru
    operation refresh_heartbeat try_create_cluster nearby_count haversine_distance first_unused
leader-cluster = refl

abbrev joins : ℕ → ClusterOperation
joins id = record { join_info = some (some id); leave_info = none; breakup_info = none }

abbrev leaves : ℕ → ClusterOperation
leaves id = record { join_info = none; leave_info = some (some id); breakup_info = none }

abbrev answers : List (ℕ × Vam)
answers =
    (500, message 20 none (some (joins 40)))
    ∷ (600, message 21 none (some (joins 40)))
    ∷ (700, message 22 none (some (joins 41)))
    ∷ (800, message 20 none (some (leaves 40)))
    ∷ []

run-announced_example :
    (c' : ClusterState) × (((run whole flat (receptions whole flat answers) leader).state
        ≡ vru_active_cluster_leader)
      × (((run whole flat (receptions whole flat answers) leader).cluster ≡ some c')
          × (Counted c'
              × ((x : ℕ)
                  → contains x c'.pending_members ≡ announced 40 x (announcements answers) false))))
run-announced_example =
    run-announced whole flat answers led leader led-Counted leader-state leader-cluster

run-Counted_example : Counted led
run-Counted_example = run-Counted whole flat 7 pedestrian gathering led leader-cluster

call-moves_example :
    moves whole
      (create (λ i. 40 + i) 41 2)
      walker.state
      (call whole flat 400 (create (λ i. 40 + i) 41 2) walker).1.state
    ≡ true
call-moves_example = call-moves whole flat 400 (create (λ i. 40 + i) 41 2) walker

-- The pedestrian waits for cluster 9.
abbrev waiting : Manager whole
waiting = run whole flat ((1000, join 9) ∷ (4000, tick) ∷ []) walker

waiting-state : waiting.state ≡ vru_active_standalone
unfolding run call initiate_join update expire_nearby_tables by_state update_standalone advance_join
    advance_leave new_manager
waiting-state = refl

waiting-substate : waiting.join_substate ≡ join_waiting
unfolding run call initiate_join update expire_nearby_tables by_state update_standalone advance_join
    advance_leave new_manager
waiting-substate = refl

waiting-target : waiting.join_target_cluster_id ≡ some 9
unfolding run call initiate_join update expire_nearby_tables by_state update_standalone advance_join
    advance_leave new_manager
waiting-target = refl

receive-answered_example :
    Member whole 4100 20 (some 9) (on_received_vam whole flat 4100 (some cluster_nine) waiting)
receive-answered_example =
    receive-answered whole flat 4100 9 cluster_nine waiting waiting-state waiting-substate
      waiting-target refl refl

abbrev member : Manager whole
member = run whole flat joining walker

member-cluster : member.joined_cluster_id ≡ some 9
unfolding run call initiate_join update expire_nearby_tables by_state update_standalone advance_join
    advance_leave on_received_vam process_received_vam by_information go_on confirm_join
    complete_join see_vru see_cluster operation refresh_heartbeat new_manager
member-cluster = refl

member-heard : member.last_leader_vam_time ≡ some 4100
unfolding run call initiate_join update expire_nearby_tables by_state update_standalone advance_join
    advance_leave on_received_vam process_received_vam by_information go_on confirm_join
    complete_join see_vru see_cluster operation refresh_heartbeat new_manager
member-heard = refl

abbrev cluster_forty : Vam
cluster_forty =
    message 20
      (some (
        some
          (record { cluster_id = some 40; cardinality_size = some 2; circular = some (some 5) })))
      none

-- The cyclist has named cluster 40 for more than 30 seconds, the last time a moment ago.
abbrev gathered : Manager whole
gathered =
    run whole flat
      ((100, receive (some cluster_forty))
        ∷ (30100, receive (some cluster_forty))
        ∷ (30200, receive (some (plain 21)))
        ∷ (30300, receive (some (plain 22)))
        ∷ [])
      walker

gathered-state : gathered.state ≡ vru_active_standalone
unfolding run call new_manager on_received_vam process_received_vam by_information go_on see_vru
    see_cluster confirm_join operation refresh_heartbeat
gathered-state = refl

gathered-cluster : gathered.cluster ≡ none
unfolding run call new_manager on_received_vam process_received_vam by_information go_on see_vru
    see_cluster confirm_join operation refresh_heartbeat
gathered-cluster = refl

gathered-seen : dict_get 40 gathered.seen_cluster_ids ≡ some 100
unfolding run call new_manager on_received_vam process_received_vam by_information go_on see_vru
    see_cluster confirm_join operation refresh_heartbeat
gathered-seen = refl

made-cluster :
    (try_create_cluster whole flat 30400 (λ i. 40 + i) 41 2 gathered).1.cluster ≡ some led
unfolding run call new_manager on_received_vam process_received_vam by_information go_on see_vru
    see_cluster confirm_join operation refresh_heartbeat try_create_cluster nearby_count
    haversine_distance first_unused
made-cluster = refl

try_create_cluster_unique_example :
    (3 ≤ nearby_count whole flat 30400 41 2 gathered.nearby_vrus)
    × (((j : ℕ) × ((j < 100) × (40 + j ≡ 40)))
        × ((seen : ℕ) → dict_get 40 gathered.seen_cluster_ids ≡ some seen → 30000 ≤ 30400 - seen))
try_create_cluster_unique_example =
    try_create_cluster_unique whole flat 30400 (λ i. 40 + i) 41 2 gathered led gathered-state
      gathered-cluster made-cluster
