-- ===== src/Ldm/Maintenance/Expiry.antt =====
-- What is left in the local dynamic map when the expired containers are deleted.
use mathlib.Core.List.{append_assoc}
use flex_stack.Prelude.{
  ℕ, ◌+◌, ◌⊎◌, ◌≡◌, refl, inl, inr, List, [], ◌∷◌, ◌++◌, Bool, true, false, Bool-cases,
  if◌then◌else◌,
}
use flex_stack.Ldm.Database.{Containers, remove_first, remove_container, values, all}
use flex_stack.Ldm.Maintenance.{
  LdmMaintenance, del_provider_data, expired, delete_expired, check_and_delete_time_validity,
}

module _ (cs : Containers) where
  open cs use {Container, same}

  -- The containers that are over at the clock's reading of their turn.
  abbrev pub over : (ℕ → ℕ) → ℕ → List Container → List Container
  over clock i [] = []
  over clock i (x ∷ xs) =
      let rest = over clock (i + 1) xs in if expired cs (clock i) x then x ∷ rest else rest

  -- The entries that are not, with their indexes.
  abbrev pub lasting : (ℕ → ℕ) → ℕ → List (ℕ × Container) → List (ℕ × Container)
  lasting clock i [] = []
  lasting clock i ((k, x) ∷ d) =
      let rest = lasting clock (i + 1) d in if expired cs (clock i) x then rest else (k, x) ∷ rest

  -- A container, from a turn on: those that are equal to it are not over, or it is over itself.
  abbrev pub NotOvertaken : (ℕ → ℕ) → Bool → Container → ℕ → List (ℕ × Container) → Type 0
  NotOvertaken clock is_over x j [] = Unit
  NotOvertaken clock is_over x j ((k, y) ∷ d) =
      ((is_over ≡ true) ⊎ ((same x y ≡ false) ⊎ (expired cs (clock j) y ≡ false)))
      × NotOvertaken clock is_over x (j + 1) d

  -- Of two equal containers, if the later one is over at its turn, so is the earlier one at its own.
  abbrev pub IsSteady : (ℕ → ℕ) → ℕ → List (ℕ × Container) → Type 0
  IsSteady clock i [] = Unit
  IsSteady clock i ((k, x) ∷ d) =
      NotOvertaken clock (expired cs (clock i) x) x (i + 1) d × IsSteady clock (i + 1) d

  -- What was kept is not overtaken by what follows.
  abbrev NoneOvertaken : (ℕ → ℕ) → List (ℕ × Container) → ℕ → List (ℕ × Container) → Type 0
  NoneOvertaken clock [] j d = Unit
  NoneOvertaken clock ((k, x) ∷ kept) j d =
      NotOvertaken clock false x j d × NoneOvertaken clock kept j d

  next-NoneOvertaken :
      (clock : ℕ → ℕ) (kept : List (ℕ × Container)) (j k : ℕ) (v : Container)
      (d : List (ℕ × Container))
      → NoneOvertaken clock kept j ((k, v) ∷ d)
      → NoneOvertaken clock kept (j + 1) d
  next-NoneOvertaken clock [] j k v d n = tt
  next-NoneOvertaken clock ((k', x) ∷ kept) j k v d n =
      (n.0.1, next-NoneOvertaken clock kept j k v d n.1)

  append-NoneOvertaken :
      (clock : ℕ → ℕ) (kept : List (ℕ × Container)) (j k : ℕ) (v : Container)
      (d : List (ℕ × Container))
      → NoneOvertaken clock kept j d
      → NotOvertaken clock false v j d
      → NoneOvertaken clock (kept ++ (k, v) ∷ []) j d
  append-NoneOvertaken clock [] j k v d n last = (last, tt)
  append-NoneOvertaken clock ((k', x) ∷ kept) j k v d n last =
      (n.0, append-NoneOvertaken clock kept j k v d n.1 last)

  module _ (same_refl : (x : Container) → same x x ≡ true) where
    -- The first container that is equal to an expired one is not among those kept.
    remove_first-past :
        (clock : ℕ → ℕ) (kept d : List (ℕ × Container)) (j k : ℕ) (v : Container)
        → NoneOvertaken clock kept j ((k, v) ∷ d)
        → expired cs (clock j) v ≡ true
        → (remove_first cs v (kept ++ (k, v) ∷ d)).1 ≡ kept ++ d
    remove_first-past clock [] d j k v n is_over = rw (same_refl v) refl
    remove_first-past clock ((k', x) ∷ kept) d j k v n is_over = elim n.0.0 [
      | inl never ↦ absurd (cc never)
      | inr (inl other) ↦
          rw other (λ i. (k', x) ∷ remove_first-past clock kept d j k v n.1 is_over i)
      | inr (inr lasts) ↦ absurd (cc (lasts, is_over))
    ]

    -- The maintenance with other entries in its database.
    abbrev pub holding : LdmMaintenance cs → List (ℕ × Container) → LdmMaintenance cs
    holding m d = record m { data_containers = record m.data_containers { database = d } }

    delete_expired-holding :
        (m : LdmMaintenance cs) (clock : ℕ → ℕ) (i : ℕ) (kept d : List (ℕ × Container))
        → NoneOvertaken clock kept i d
        → IsSteady clock i d
        → delete_expired cs clock i (values cs d) (holding m (kept ++ d))
          ≡ (over clock i (values cs d), holding m (kept ++ lasting clock i d))
    unfolding delete_expired del_provider_data remove_container
    delete_expired-holding m clock i kept [] n s = refl
    delete_expired-holding m clock i kept ((k, v) ∷ d) n s =
        elim (Bool-cases (expired cs (clock i) v)) [
          | inl is_over ↦
              let later =
                delete_expired-holding m clock (i + 1) kept d
                  (next-NoneOvertaken clock kept i k v d n) s.1 in
              rw (is_over, remove_first-past clock kept d i k v n is_over, later) refl
          | inr lasts ↦
              let later =
                delete_expired-holding m clock (i + 1) (kept ++ (k, v) ∷ []) d
                  (append-NoneOvertaken clock kept (i + 1) k v d
                    (next-NoneOvertaken clock kept i k v d n) (rw lasts at s.0))
                  s.1 in
              rw lasts (
                rw
                  (
                    append_assoc kept ((k, v) ∷ []) d,
                    append_assoc kept ((k, v) ∷ []) (lasting clock (i + 1) d),
                  )
                  at later)
        ]

    -- The clock is read for each container. Where a container is equal to itself, and of two equal
    -- ones in the database the earlier is over at its turn if the later is over at its own, the
    -- deletion returns the containers that are over at their turn, in their order, and leaves the
    -- others with their indexes, in their order.
    pub check_and_delete_time_validity-only :
        (m : LdmMaintenance cs) (clock : ℕ → ℕ)
        → IsSteady clock 0 m.data_containers.database
        → check_and_delete_time_validity cs clock m ≡ (
          over clock 0 (all cs m.data_containers),
          holding m (lasting clock 0 m.data_containers.database),
        )
    unfolding check_and_delete_time_validity all
    check_and_delete_time_validity-only m clock s =
        delete_expired-holding m clock 0 [] m.data_containers.database tt s
