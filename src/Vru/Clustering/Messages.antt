-- ===== src/Vru/Clustering/Messages.antt =====
-- What the messages and queries of a clustering manager tell, against its state.
use flex_stack.Prelude.{ℕ, ◌≡◌, ◌≤◌, ◌<◌, ◌+◌, ◌-◌, ◌*◌, ◌||◌, if◌then◌else◌, List, arith}
use flex_stack.Floats.{Floats, Trig}
use flex_stack.Vru.Clustering.{
  VruProfile, pedestrian, bicyclist_and_light_vru_vehicle, motorcyclist, animal, other_profile,
  Manager, new_manager,
}
use flex_stack.Vru.Clustering.Calls.{Call, run}
use flex_stack.Vru.Clustering.Invariant.{is_some, is_leader, is_passive, Inv, new_manager-Inv}
use flex_stack.Prelude.Bits.{◌&◌}
use flex_stack.Vru.Clustering.Containers.{
  get_cluster_information_container, get_cluster_id, encode_cluster_profiles, has_profile,
  quarters_left,
}
use flex_stack.Vru.Clustering.Histories.{run-Inv}

abbrev pub profile_mask : VruProfile → ℕ
profile_mask pedestrian = 128
profile_mask bicyclist_and_light_vru_vehicle = 64
profile_mask motorcyclist = 32
profile_mask animal = 16
profile_mask other_profile = 0

-- The byte of a set of profiles has the bit of each profile that the standard names exactly if the
-- set has it.
pub encode_cluster_profiles-has :
    (p : VruProfile) (profiles : List VruProfile)
    → (encode_cluster_profiles profiles & profile_mask p)
      ≡ (if has_profile p profiles then profile_mask p else 0)
unfolding encode_cluster_profiles
encode_cluster_profiles-has pedestrian profiles = ground arith
encode_cluster_profiles-has bicyclist_and_light_vru_vehicle profiles = ground arith
encode_cluster_profiles-has motorcyclist profiles = ground arith
encode_cluster_profiles-has animal profiles = ground arith
encode_cluster_profiles-has other_profile profiles = ground arith

-- Within the phase, the quarter seconds left are the time left in whole quarters, at most 12 of them
-- for a phase of three seconds: the limit of 127 is never reached.
pub quarters_left-floor :
    (now started limit : ℕ)
    → limit ≤ 31750
    → started ≤ now
    → now ≤ started + limit
    → (quarters_left now started limit * 250 ≤ started + limit - now)
      × ((started + limit - now < quarters_left now started limit * 250 + 250)
          × (quarters_left now started limit * 250 ≤ limit))
unfolding quarters_left
quarters_left-floor now started limit l s e = ground arith

module _ (fl : Floats) where
  -- In any history, a device has a cluster identifier exactly if it leads or is a member.
  queries :
      (m : Manager fl)
      → Inv fl m
      → (is_some (get_cluster_id fl m) ≡ (is_leader m.state || is_passive m.state))
        × (is_some (get_cluster_information_container fl m) ≡ is_leader m.state)
  unfolding get_cluster_id get_cluster_information_container
  queries m v = ground arith

  module _ (trig : Trig fl) where
    -- After any calls on a new manager, it has a cluster identifier exactly if it leads or is a member,
    -- and its messages have a cluster information container exactly if it leads.
    pub run-queries :
        (id : ℕ) (p : VruProfile) (cs : List (ℕ × Call fl))
        → (is_some (get_cluster_id fl (run fl trig cs (new_manager fl id p))) ≡ (
            is_leader (run fl trig cs (new_manager fl id p)).state
            || is_passive (run fl trig cs (new_manager fl id p)).state))
          × (is_some (get_cluster_information_container fl (run fl trig cs (new_manager fl id p)))
              ≡ is_leader (run fl trig cs (new_manager fl id p)).state)
    run-queries id p cs = queries _ (run-Inv fl trig cs _ (new_manager-Inv fl id p))
