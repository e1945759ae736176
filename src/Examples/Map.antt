-- ===== src/Examples/Map.antt =====
-- The theorem on the local dynamic map at concrete arguments.
use flex_stack.Prelude.{ℕ, ◌+◌, inl, inr, refl, true, ◌==◌, ◌≡◌, ◌&&◌, [], ◌∷◌, false, arith}
use flex_stack.Ldm.Database.{Containers, remove_container, all}
use flex_stack.Ldm.Maintenance.{
  LdmMaintenance, del_provider_data, delete_expired, check_and_delete_time_validity,
}
use flex_stack.Ldm.Maintenance.Expiry.{over, lasting, holding, check_and_delete_time_validity-only}

-- A container is its time validity and its timestamp.
abbrev pairs : Containers
pairs = record {
  Container = ℕ × ℕ;
  same = λ x y. x.0 == y.0 && x.1 == y.1;
  time_validity = λ x. x.0;
  timestamp = λ x. x.1;
}

pairs-same : (x : ℕ × ℕ) → pairs.same x x ≡ true
pairs-same x = ground arith

-- Each turn takes a second.
abbrev ticking : ℕ → ℕ
ticking i = 1072915220 + i

-- Two equal containers that are over at second 20 of the epoch, and one that is not.
abbrev three : LdmMaintenance pairs
three = record {
  data_containers = record {
    database = (0, (1, 3000)) ∷ (1, (60, 3000)) ∷ (2, (1, 3000)) ∷ [];
    next_id = 3;
  };
  new_data_received = false;
}

check_and_delete_time_validity-only_example : check_and_delete_time_validity pairs ticking three ≡ (
  over pairs ticking 0 (all pairs three.data_containers),
  holding pairs pairs-same three (lasting pairs ticking 0 three.data_containers.database),
)
check_and_delete_time_validity-only_example =
    check_and_delete_time_validity-only pairs pairs-same three ticking
      ((inl refl, (inl refl, tt)), ((inr (inl refl), tt), (tt, tt)))

-- Two equal containers, and a second that passes between their turns.
abbrev two : LdmMaintenance pairs
two = record {
  data_containers = record { database = (0, (1, 3000)) ∷ (1, (1, 3000)) ∷ []; next_id = 2 };
  new_data_received = false;
}

abbrev at_the_end : ℕ → ℕ
at_the_end i = 1072915199 + i

-- The second of them is over, and the first one's index is removed.
two-left :
    (check_and_delete_time_validity pairs at_the_end two).1.data_containers.database
    ≡ ((1, (1, 3000)) ∷ [])
unfolding check_and_delete_time_validity delete_expired del_provider_data remove_container all
two-left = refl

two-over : (check_and_delete_time_validity pairs at_the_end two).0 ≡ ((1, 3000) ∷ [])
unfolding check_and_delete_time_validity delete_expired del_provider_data remove_container all
two-over = refl
