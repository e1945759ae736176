-- ===== src/Vru/Clustering/Members.antt =====
-- The members that a leader counts, against the announcements it has received.
use flex_stack.Prelude.{
  ℕ, ◌≡◌, ◌∙◌, refl, ◌+◌, List, [], ◌∷◌, length, Bool, true, false, ◌==◌, if◌then◌else◌, arith,
}
use flex_stack.Sets.{
  contains, Distinct, contains-add, contains-discard, Distinct-add, Distinct-discard,
}
use flex_stack.Vru.Clustering.{ClusterState}
use flex_stack.Vru.Clustering.Reception.{
  ClusterOperation, names, recount, track_join, track_leave, track_members,
}

-- The operation containers that a leader receives, each with its sender, the first one first.
unfoldable pub track_all : List (ℕ × ClusterOperation) → ClusterState → ClusterState
track_all [] c = c
track_all ((sender, op) ∷ ops) c = track_all ops (track_members sender op c)

-- Whether the station's last announcement for the cluster, of those, was a joining; a container that
-- has both counts as a leaving.
abbrev pub announced : ℕ → ℕ → List (ℕ × ClusterOperation) → Bool → Bool
announced id x [] before = before
announced id x ((sender, op) ∷ ops) before = announced id x ops (
    if sender == x
    then if names id op.leave_info then false else if names id op.join_info then true else before
    else before)

-- The leader's set has no repetition and its count is of the set and itself.
pub record Counted (c : ClusterState) : Type 0 where
  pub distinct : Distinct c.pending_members
  pub counted : c.cardinality ≡ length c.pending_members + 1

recount-Counted :
    (members : List ℕ) (c : ClusterState) → Distinct members → Counted (recount members c)
recount-Counted members c d = record { distinct = d; counted = ground arith }

track_join-Counted :
    (sender : ℕ) (op : ClusterOperation) (c : ClusterState)
    → Counted c
    → Counted (track_join sender op c)
unfolding track_join
track_join-Counted sender op c k =
    ground (arith, recount-Counted _ c (Distinct-add sender c.pending_members k.distinct))

track_leave-Counted :
    (sender : ℕ) (op : ClusterOperation) (c : ClusterState)
    → Counted c
    → Counted (track_leave sender op c)
unfolding track_leave
track_leave-Counted sender op c k =
    ground (arith, recount-Counted _ c (Distinct-discard sender c.pending_members k.distinct))

pub track-Counted :
    (sender : ℕ) (op : ClusterOperation) (c : ClusterState)
    → Counted c
    → Counted (track_members sender op c)
unfolding track_members
track-Counted sender op c k = track_leave-Counted sender op _ (track_join-Counted sender op c k)

track-id :
    (sender : ℕ) (op : ClusterOperation) (c : ClusterState)
    → (track_members sender op c).cluster_id ≡ c.cluster_id
unfolding track_members track_join track_leave
track-id sender op c = ground arith

track_join-contains :
    (x sender : ℕ) (op : ClusterOperation) (c : ClusterState)
    → contains x (track_join sender op c).pending_members ≡ (
        if sender == x
        then if names c.cluster_id op.join_info then true else contains x c.pending_members
        else contains x c.pending_members)
unfolding track_join
track_join-contains x sender op c = ground (arith, contains-add x sender c.pending_members)

track_leave-contains :
    (x sender : ℕ) (op : ClusterOperation) (c : ClusterState)
    → contains x (track_leave sender op c).pending_members ≡ (
        if sender == x
        then if names c.cluster_id op.leave_info then false else contains x c.pending_members
        else contains x c.pending_members)
unfolding track_leave
track_leave-contains x sender op c = ground (arith, contains-discard x sender c.pending_members)

track_join-id :
    (sender : ℕ) (op : ClusterOperation) (c : ClusterState)
    → (track_join sender op c).cluster_id ≡ c.cluster_id
unfolding track_join
track_join-id sender op c = ground arith

track-contains :
    (x sender : ℕ) (op : ClusterOperation) (c : ClusterState)
    → contains x (track_members sender op c).pending_members ≡ (
        if sender == x
        then if names c.cluster_id op.leave_info
          then false
          else if names c.cluster_id op.join_info
          then true
          else contains x c.pending_members
        else contains x c.pending_members)
unfolding track_members
track-contains x sender op c =
    let c' = track_join sender op c in
    rw
      (
        track_leave-contains x sender op c',
        track_join-contains x sender op c,
        track_join-id sender op c,
      )
      (ground arith)

-- After any announcements, from a state that counts right, a station is a pending member exactly if
-- its last announcement for the cluster was a joining, or it had made none and was one before; the
-- members are still distinct, and the cardinality is their number and one for the leader.
pub track_all-announced :
    (x : ℕ) (ops : List (ℕ × ClusterOperation)) (c : ClusterState)
    → Counted c
    → (contains x (track_all ops c).pending_members
        ≡ announced c.cluster_id x ops (contains x c.pending_members))
      × Counted (track_all ops c)
unfolding track_all
track_all-announced x [] c k = (refl, k)
track_all-announced x ((sender, op) ∷ ops) c k =
    let rest =
      track_all-announced x ops (track_members sender op c) (track-Counted sender op c k) in
    (
      rest.0 ∙ (λ i. announced (track-id sender op c i) x ops (track-contains x sender op c i)),
      rest.1,
    )
