-- ===== src/Vru/Clustering/Identifiers.antt =====
-- The identifier of a new cluster: one of the draws, and none of the identifiers that
-- were recorded lately.
use flex_stack.Prelude.{
  ℕ, zero, suc, ◌≡◌, ◌+◌, ◌-◌, ◌<◌, ◌≤◌, List, [], ◌∷◌, Bool, true, false, ltb, none, some, arith,
  Bool-cases, Option-cases, inl, inr,
}
use flex_stack.Floats.{Floats, Trig}
use flex_stack.Sets.{contains}
use flex_stack.Dicts.{dict_get, dict_filter}
use flex_stack.Vru.Constants.{time_cluster_uniqueness_threshold, num_create_cluster}
use flex_stack.Vru.Clustering.{
  Manager, ClusterState, vru_active_standalone, vru_active_cluster_leader,
}
use flex_stack.Vru.Clustering.Creation.{
  dict_keys, first_unused, prune_seen, unique_cluster_id, nearby_count, try_create_cluster,
}

-- A draw that is found is unused and within the attempts.
found :
    (attempts : ℕ) (draw : ℕ → ℕ) (i : ℕ) (recent : List ℕ) (id : ℕ)
    → first_unused attempts draw i recent ≡ some id
    → (contains id recent ≡ false) × ((j : ℕ) × ((j < i + attempts) × (draw j ≡ id)))
unfolding first_unused
found zero draw i recent id e = ground arith
found (suc attempts) draw i recent id e = elim (Bool-cases (contains (draw i) recent)) [
  | inl used ↦
      let rest = found attempts draw (i + 1) recent id (ground arith) in
      (rest.0, (rest.1.0, (omega (arith, rest.1.1.0), rest.1.1.1)))
  | inr free ↦ (ground arith, (i, (omega arith, ground arith)))
]

-- A draw that is unused is found, if no other is before it.
finds :
    (attempts : ℕ) (draw : ℕ → ℕ) (i j : ℕ) (recent : List ℕ)
    → i ≤ j
    → j < i + attempts
    → contains (draw j) recent ≡ false
    → (id : ℕ) × (first_unused attempts draw i recent ≡ some id)
unfolding first_unused
finds zero draw i j recent l u free = ground arith
finds (suc attempts) draw i j recent l u free = elim (Bool-cases (contains (draw i) recent)) [
  | inl used ↦
      let rest = finds attempts draw (i + 1) j recent (ground arith) (omega (arith, u)) free in
      (rest.0, ground (arith, rest.1))
  | inr unused ↦ (draw i, ground arith)
]

kept-recent :
    (keep : ℕ → Bool) (id seen : ℕ) (d : List (ℕ × ℕ))
    → contains id (dict_keys (dict_filter keep d)) ≡ false
    → dict_get id d ≡ some seen
    → keep seen ≡ false
kept-recent keep id seen [] c e = ground arith
kept-recent keep id seen ((k, v) ∷ d) c e = ground (arith, kept-recent keep id seen d)

module _ (fl : Floats) (trig : Trig fl) where
  -- The cluster that a standalone device comes to lead has the identifier that was found, and there
  -- are enough devices near.
  created :
      (now : ℕ) (draw : ℕ → ℕ) (own_lat own_lon : fl.Float) (m : Manager fl) (c : ClusterState)
      → m.state ≡ vru_active_standalone
      → m.cluster ≡ none
      → (try_create_cluster fl trig now draw own_lat own_lon m).1.cluster ≡ some c
      → (num_create_cluster ≤ nearby_count fl trig now own_lat own_lon m.nearby_vrus)
        × (unique_cluster_id fl trig draw (prune_seen fl trig now m) ≡ some c.cluster_id)
  unfolding try_create_cluster
  created now draw own_lat own_lon m c e f g =
      elim (Option-cases (unique_cluster_id fl trig draw (prune_seen fl trig now m))) [
        | inl h ↦ ground arith
        | inr (id, h) ↦ ground arith
      ]

  -- A cluster that a standalone device without one creates: enough devices are near, its identifier
  -- is one of 100 draws, and any time recorded for that identifier is as long ago as the threshold.
  pub try_create_cluster_unique :
      (now : ℕ) (draw : ℕ → ℕ) (own_lat own_lon : fl.Float) (m : Manager fl) (c : ClusterState)
      → m.state ≡ vru_active_standalone
      → m.cluster ≡ none
      → (try_create_cluster fl trig now draw own_lat own_lon m).1.cluster ≡ some c
      → (num_create_cluster ≤ nearby_count fl trig now own_lat own_lon m.nearby_vrus)
        × (((j : ℕ) × ((j < 100) × (draw j ≡ c.cluster_id)))
            × ((seen : ℕ)
                → dict_get c.cluster_id m.seen_cluster_ids ≡ some seen
                → time_cluster_uniqueness_threshold ≤ now - seen))
  unfolding try_create_cluster
  try_create_cluster_unique now draw own_lat own_lon m c e f g =
      let made = created now draw own_lat own_lon m c e f g in
      let id = found 100 draw 0 _ c.cluster_id made.1 in
      (
        made.0,
        (
          id.1,
          λ seen h. ground (
            arith,
            kept-recent (λ first_seen. ltb (now - first_seen) time_cluster_uniqueness_threshold)
                c.cluster_id seen m.seen_cluster_ids id.0 h,
          ),
        ),
      )

  -- And a standalone device with enough devices near creates a cluster, if one of the first 100 draws
  -- is no identifier that it has recorded within the threshold.
  pub try_create_cluster-leads :
      (now : ℕ) (draw : ℕ → ℕ) (own_lat own_lon : fl.Float) (m : Manager fl) (j : ℕ)
      → m.state ≡ vru_active_standalone
      → num_create_cluster ≤ nearby_count fl trig now own_lat own_lon m.nearby_vrus
      → j < 100
      → contains (draw j) (dict_keys (prune_seen fl trig now m).seen_cluster_ids) ≡ false
      → ((try_create_cluster fl trig now draw own_lat own_lon m).0 ≡ true)
        × ((try_create_cluster fl trig now draw own_lat own_lon m).1.state
            ≡ vru_active_cluster_leader)
  unfolding try_create_cluster
  try_create_cluster-leads now draw own_lat own_lon m j e near l free =
      let id = finds 100 draw 0 j _ (omega arith) l free in ground (arith, id.1)
