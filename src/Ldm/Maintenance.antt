-- ===== src/Ldm/Maintenance.antt =====
-- ldm_maintenance.py of the local dynamic map on a dictionary database, without the area of
-- maintenance. The clock is past the epoch of ITS timestamps.
pub mod Expiry
use flex_stack.Prelude.{
  ℕ, ◌+◌, ◌-◌, ◌*◌, List, [], ◌∷◌, Bool, true, false, Option, none, some, ltb, if◌then◌else◌,
}
use flex_stack.Ldm.Database.{
  Containers, DictionaryDataBase, delete, insert_container, get_container, update_container,
  remove_container, all,
}

-- `transform_utc_seconds_timestamp_to_timestamp_its`
abbrev pub its_of_utc_seconds : ℕ → ℕ
its_of_utc_seconds utc = (utc + 5 - 1072915200) * 1000

module _ (cs : Containers) where
  open cs use {Container, time_validity, timestamp}

  pub record LdmMaintenance : Type 0 where
    pub data_containers : DictionaryDataBase cs
    pub new_data_received : Bool

  unfoldable pub delete_all_database : LdmMaintenance → LdmMaintenance
  unfolding delete
  delete_all_database m = record m { data_containers = (delete cs m.data_containers).1 }

  unfoldable pub add_provider_data : Container → LdmMaintenance → ℕ × LdmMaintenance
  unfolding insert_container
  add_provider_data container m =
      let (doc_id, db) = insert_container cs container m.data_containers in
      (doc_id, record { data_containers = db; new_data_received = true })

  unfoldable pub get_provider_data : ℕ → LdmMaintenance → Option Container
  unfolding get_container
  get_provider_data data_object_id m = get_container cs data_object_id m.data_containers

  unfoldable pub update_provider_data : ℕ → Container → LdmMaintenance → LdmMaintenance
  unfolding update_container
  update_provider_data data_object_id data_object m = record m {
    data_containers = (update_container cs data_object data_object_id m.data_containers).1;
  }

  unfoldable pub del_provider_data : Container → LdmMaintenance → LdmMaintenance
  unfolding remove_container
  del_provider_data data_object m = record m {
    data_containers = (remove_container cs data_object m.data_containers).1;
  }

  -- The time validity in seconds is over.
  abbrev pub expired : ℕ → Container → Bool
  expired now container =
      ltb (time_validity container * 1000 + timestamp container) (its_of_utc_seconds now)

  -- The loop over the containers that were there before it, from its `i`-th turn on, of which each
  -- reads the clock.
  unfoldable pub delete_expired :
      (ℕ → ℕ) → ℕ → List Container → LdmMaintenance → List Container × LdmMaintenance
  unfolding del_provider_data
  delete_expired clock i [] m = ([], m)
  delete_expired clock i (container ∷ containers) m =
      let is_over = expired (clock i) container in
      let (rest, m') =
        delete_expired clock (i + 1) containers
          (if is_over then del_provider_data container m else m) in
      (if is_over then container ∷ rest else rest, m')

  unfoldable pub check_and_delete_time_validity :
      (ℕ → ℕ) → LdmMaintenance → List Container × LdmMaintenance
  unfolding delete_expired all
  check_and_delete_time_validity clock m = delete_expired clock 0 (all cs m.data_containers) m

  -- Whether data came since the last call.
  unfoldable pub check_new_data_received : LdmMaintenance → Bool × LdmMaintenance
  check_new_data_received m =
      if m.new_data_received then (true, record m { new_data_received = false }) else (false, m)
