-- ===== src/Vru/Clustering/Creation.antt =====
-- The creation of a cluster in `VBSClusteringManager`. Trigonometry on floats and the random draws of
-- cluster identifiers are parameters.
use flex_stack.Prelude.{
  ℕ, zero, suc, ◌+◌, ◌-◌, List, [], ◌∷◌, Bool, true, false, ltb, ◌&&◌, Option, none, some,
  if◌then◌else◌,
}
use flex_stack.Floats.{Floats, Trig}
use flex_stack.Sets.{contains}
use flex_stack.Dicts.{dict_filter}
use flex_stack.Vru.Constants.{
  t_genvammax, num_create_cluster, max_cluster_distance, min_cluster_size,
  time_cluster_uniqueness_threshold,
}
use flex_stack.Vru.Clustering.{vru_active_standalone, vru_active_cluster_leader, NearbyVru, Manager}

-- The keys of a dictionary.
abbrev pub dict_keys {ℓ} : {V : Type ℓ} → List (ℕ × V) → List ℕ
dict_keys [] = []
dict_keys ((k, v) ∷ d) = k ∷ dict_keys d

-- The first of the draws that is no recent identifier, within so many attempts.
unfoldable pub first_unused : ℕ → (ℕ → ℕ) → ℕ → List ℕ → Option ℕ
first_unused zero draw i recent = none
first_unused (suc attempts) draw i recent =
    let later = first_unused attempts draw (i + 1) recent in
    if contains (draw i) recent then later else some (draw i)

module _ (fl : Floats) (trig : Trig fl) where
  open fl use {Float, of_int, fadd, fsub, fmul, fdiv}
  open trig use {radians, sin, cos, square, sqrt, atan2, fle}

  -- `_haversine_distance`
  unfoldable pub haversine_distance : Float → Float → Float → Float → Float
  haversine_distance lat1 lon1 lat2 lon2 =
      let r = of_int 6371000 in
      let phi1 = radians lat1 in
      let phi2 = radians lat2 in
      let dphi = radians (fsub lat2 lat1) in
      let dlam = radians (fsub lon2 lon1) in
      let sin_phi = sin (fdiv dphi (of_int 2)) in
      let sin_lam = sin (fdiv dlam (of_int 2)) in
      let a = fadd (square sin_phi) (fmul (fmul (cos phi1) (cos phi2)) (square sin_lam)) in
      fmul (fmul r (of_int 2)) (atan2 (sqrt a) (sqrt (fsub (of_int 1) a)))

  -- The devices seen lately within the distance of a cluster.
  unfoldable pub nearby_count : ℕ → Float → Float → List (ℕ × NearbyVru fl) → ℕ
  unfolding haversine_distance
  nearby_count now own_lat own_lon [] = 0
  nearby_count now own_lat own_lon ((k, vru) ∷ vrus) =
      let rest = nearby_count now own_lat own_lon vrus in
      if ltb (now - vru.last_seen) t_genvammax
        && fle (haversine_distance own_lat own_lon vru.lat vru.lon) (of_int max_cluster_distance)
      then rest + 1
      else rest

  -- The recorded identifiers without the stale ones.
  abbrev pub prune_seen : ℕ → Manager fl → Manager fl
  prune_seen now m = record m {
    seen_cluster_ids =
        dict_filter (λ first_seen. ltb (now - first_seen) time_cluster_uniqueness_threshold)
          m.seen_cluster_ids;
  }

  -- `_generate_unique_cluster_id`, on the pruned identifiers
  abbrev pub unique_cluster_id : (ℕ → ℕ) → Manager fl → Option ℕ
  unique_cluster_id draw m = first_unused 100 draw 0 (dict_keys m.seen_cluster_ids)

  abbrev pub lead : Option ℕ → Manager fl → Bool × Manager fl
  lead none m = (false, m)
  lead (some cluster_id) m = (
    true,
    record m {
      cluster = some (record {
        cluster_id = cluster_id;
        cardinality = min_cluster_size;
        profiles = m.own_vru_profile ∷ [];
        radius = max_cluster_distance;
        breakup_started = none;
        breakup_reason = none;
        pending_members = [];
      });
      state = vru_active_cluster_leader;
    },
  )

  unfoldable pub try_create_cluster : ℕ → (ℕ → ℕ) → Float → Float → Manager fl → Bool × Manager fl
  unfolding nearby_count first_unused
  try_create_cluster now draw own_lat own_lon m = elim m.state [
    | vru_active_standalone ↦
        if ltb (nearby_count now own_lat own_lon m.nearby_vrus) num_create_cluster
        then (false, m)
        else let pruned = prune_seen now m in lead (unique_cluster_id draw pruned) pruned
    | _ ↦ (false, m)
  ]
