-- ===== src/Geonet/Router/Area/Greedy.antt =====
-- Greedy forwarding against its definition: a neighbour that is nearer to the destination.
use flex_stack.Prelude.{
  ◌≡◌, refl, List, [], ◌∷◌, Bool, true, false, not, ◌||◌, if◌then◌else◌, Bool-cases, inl, inr,
  arith,
}
use flex_stack.Prelude.Int.{ℤ}
use flex_stack.Floats.{Floats, Trig}
use flex_stack.Geonet.Geometry.{distance_m}
use flex_stack.Geonet.LocationTable.{Entry, get_neighbours}
use flex_stack.Geonet.Router.Area.{Node, greedy_loop, gn_greedy_forwarding}

module _ (fl : Floats) (trig : Trig fl) where
  -- Whether one of the entries is nearer to the destination than the distance.
  abbrev pub any_nearer : ℤ → ℤ → fl.Float → List (Entry fl) → Bool
  any_nearer lat lon d [] = false
  any_nearer lat lon d (entry ∷ entries) =
      if fl.flt
        (distance_m fl trig lat lon entry.position_vector.latitude entry.position_vector.longitude)
        d
      then true
      else any_nearer lat lon d entries

  loop-true :
      (lat lon : ℤ) (entries : List (Entry fl)) (mfr : fl.Float)
      → greedy_loop fl trig lat lon mfr true entries ≡ true
  unfolding greedy_loop
  loop-true lat lon [] mfr = refl
  loop-true lat lon (entry ∷ entries) mfr =
      elim (Bool-cases (
        fl.flt
          (distance_m fl trig lat lon entry.position_vector.latitude
            entry.position_vector.longitude)
          mfr)) [
            | inl near ↦ rw (greedy_loop, near) (loop-true lat lon entries _)
            | inr far ↦ rw (greedy_loop, far) (loop-true lat lon entries mfr)
          ]

  loop-nearer :
      (lat lon : ℤ) (mfr : fl.Float) (entries : List (Entry fl))
      → greedy_loop fl trig lat lon mfr false entries ≡ any_nearer lat lon mfr entries
  unfolding greedy_loop
  loop-nearer lat lon mfr [] = refl
  loop-nearer lat lon mfr (entry ∷ entries) =
      elim (Bool-cases (
        fl.flt
          (distance_m fl trig lat lon entry.position_vector.latitude
            entry.position_vector.longitude)
          mfr)) [
            | inl near ↦ rw (greedy_loop, near) (loop-true lat lon entries _)
            | inr far ↦ rw (greedy_loop, far) (loop-nearer lat lon mfr entries)
          ]

  -- Greedy forwarding sends a packet exactly if some neighbour is nearer to the destination than the
  -- device itself, or the packet's traffic class does not ask to store it. The floats may be any.
  pub gn_greedy_forwarding-nearer :
      (lat lon : ℤ) (scf : Bool) (node : Node fl)
      → gn_greedy_forwarding fl trig lat lon scf node ≡ (
          any_nearer lat lon
            (distance_m fl trig lat lon node.ego_position_vector.latitude
              node.ego_position_vector.longitude)
            (get_neighbours fl node.location_table)
          || not scf)
  unfolding gn_greedy_forwarding
  gn_greedy_forwarding-nearer lat lon scf node = ground (
    arith,
    loop-nearer lat lon
        (distance_m fl trig lat lon node.ego_position_vector.latitude
          node.ego_position_vector.longitude)
        (get_neighbours fl node.location_table),
  )
