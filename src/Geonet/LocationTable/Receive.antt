-- ===== src/Geonet/LocationTable/Receive.antt =====
-- What a packet changes in the location table of src/flexstack/geonet/location_table.py.
use flex_stack.Prelude.{
  ℕ, ◌≡◌, refl, sym, ◌∙◌, ap, inl, inr, Bool, true, false, Option, none, some, Result, ok, err,
  duplicated_packet, Option-cases, arith, if◌then◌else◌,
}
use flex_stack.Floats.{Floats}
use flex_stack.Geonet.Address.{GnAddress}
use flex_stack.Geonet.Mib.{Mib}
use flex_stack.Geonet.PositionVector.{set_in_normal_timestamp_seconds}
use flex_stack.Sets.{contains}
use flex_stack.Geonet.Entry.{
  check_sn, new_entry, check_duplicate_sn, update_with_tsb_packet, update_with_gbc_packet,
}
use flex_stack.Geonet.LocationTable.{
  Entry, LocationTable, same_key, insert, get_entry, ensure_entry, entry_or_new, store, is_none,
  checked_update, receive,
}
use flex_stack.Geonet.LocationTable.Keys.{lookup-insert, insert-lookup, if_again, some_injective}
use flex_stack.Geonet.LocationTable.Refresh.{
  IsUnique, insert-IsUnique, refresh_table-IsUnique, kept, get_entry-refresh_table,
}
use flex_stack.Geonet.LocationTable.Arrivals.{
  Arrival, shb, tsb, gbc, guc, gac, ls_request, ls_reply, arrive, sender, update, sequence_number,
  outcome, updated, arrive-receive, receive-known, receive-absent,
}

module _ (fl : Floats) (hash : GnAddress → ℕ) where
  store-IsUnique :
      (now : ℕ) (key : GnAddress) (answer : Result (Unit {0}) × Entry fl) (t : LocationTable fl)
      → IsUnique hash t.loc_t
      → IsUnique hash (store fl hash now key answer t).1.loc_t
  unfolding store
  store-IsUnique now key (ok done, entry) t u =
      refresh_table-IsUnique fl hash now (record t { loc_t = insert hash key entry t.loc_t })
        (insert-IsUnique hash key entry t.loc_t u)
  store-IsUnique now key (err e, entry) t u = insert-IsUnique hash key entry t.loc_t u

  ensure_entry-IsUnique :
      (key : GnAddress) (t : LocationTable fl)
      → IsUnique hash t.loc_t
      → IsUnique hash (ensure_entry fl hash key t).1.loc_t
  unfolding ensure_entry
  ensure_entry-IsUnique key t u = elim (Option-cases (get_entry fl hash key t)) [
    | inl absent ↦ rw absent (insert-IsUnique hash key (entry_or_new fl t.mib none) t.loc_t u)
    | inr (entry, found) ↦ rw found u
  ]

  receive-IsUnique :
      (now : ℕ) (key : GnAddress) (update : Bool → Entry fl → Result (Unit {0}) × Entry fl)
      (t : LocationTable fl)
      → IsUnique hash t.loc_t
      → IsUnique hash (receive fl hash now key update t).1.loc_t
  unfolding receive
  receive-IsUnique now key update t u =
      store-IsUnique now key
        (update (is_none fl (get_entry fl hash key t)) (ensure_entry fl hash key t).0)
        (ensure_entry fl hash key t).1 (ensure_entry-IsUnique key t u)

  -- No packet, duplicate or not, makes two keys of the location table the same.
  arrive-IsUnique :
      (now : ℕ) (arrival : Arrival) (t : LocationTable fl)
      → IsUnique hash t.loc_t
      → IsUnique hash (arrive fl hash now arrival t).1.loc_t
  arrive-IsUnique now arrival t u =
      rw (arrive-receive fl hash now arrival t)
        (receive-IsUnique now (sender arrival) (update fl t.mib arrival) t u)

  check-duplicate :
      (mib : Mib) (sn : ℕ) (entry : Entry fl)
      → contains sn entry.dpl.dpl_set ≡ true
      → check_duplicate_sn fl mib sn entry ≡ (err duplicated_packet, entry)
  unfolding check_duplicate_sn check_sn
  check-duplicate mib sn entry known = rw (check_duplicate_sn, check_sn, known) refl

  update-duplicate :
      (mib : Mib) (arrival : Arrival) (is_new : Bool) (sn : ℕ) (entry : Entry fl)
      → sequence_number arrival ≡ some sn
      → contains sn entry.dpl.dpl_set ≡ true
      → update fl mib arrival is_new entry ≡ (err duplicated_packet, entry)
  unfolding update_with_tsb_packet update_with_gbc_packet checked_update
  update-duplicate mib (shb pv packet) is_new sn entry e known = ground (arith, e)
  update-duplicate mib (tsb header packet) is_new sn entry e known =
      rw (some_injective e, check-duplicate mib sn entry known) refl
  update-duplicate mib (gbc header packet) is_new sn entry e known =
      rw (some_injective e, check-duplicate mib sn entry known) refl
  update-duplicate mib (guc header packet) is_new sn entry e known =
      rw (some_injective e, check-duplicate mib sn entry known) refl
  update-duplicate mib (gac header packet) is_new sn entry e known =
      rw (some_injective e, check-duplicate mib sn entry known) refl
  update-duplicate mib (ls_request header packet) is_new sn entry e known =
      rw (some_injective e, check-duplicate mib sn entry known) refl
  update-duplicate mib (ls_reply header packet) is_new sn entry e known =
      rw (some_injective e, check-duplicate mib sn entry known) refl

  -- A packet of any kind but SHB whose sequence number is in the duplicate packet list of its
  -- sender's entry raises `DuplicatedPacketException` and leaves the whole table as it was.
  pub arrive-duplicate :
      (now : ℕ) (arrival : Arrival) (t : LocationTable fl) (sn : ℕ) (entry : Entry fl)
      → sequence_number arrival ≡ some sn
      → get_entry fl hash (sender arrival) t ≡ some entry
      → contains sn entry.dpl.dpl_set ≡ true
      → arrive fl hash now arrival t ≡ (err duplicated_packet, t)
  unfolding store get_entry
  arrive-duplicate now arrival t sn entry e found known =
      rw
        (
          arrive-receive fl hash now arrival t,
          receive-known fl hash now (sender arrival) (update fl t.mib arrival) t entry found,
          update-duplicate t.mib arrival false sn entry e known,
          insert-lookup hash (sender arrival) entry t.loc_t found,
        )
        refl

  get_entry-store :
      (now : ℕ) (key other : GnAddress) (answer : Result (Unit {0}) × Entry fl)
      (t : LocationTable fl)
      → IsUnique hash t.loc_t
      → get_entry fl hash other (store fl hash now key answer t).1
        ≡ outcome fl t.mib.its_gn_lifetime_loc_te now answer.0
            (if same_key hash key other then some answer.1 else get_entry fl hash other t)
  unfolding store outcome get_entry
  get_entry-store now key other (ok done, entry) t u =
      get_entry-refresh_table fl hash now other (record t { loc_t = insert hash key entry t.loc_t })
        (insert-IsUnique hash key entry t.loc_t u)
      ∙ ap (kept fl t.mib.its_gn_lifetime_loc_te (set_in_normal_timestamp_seconds now))
          (lookup-insert hash key other entry t.loc_t)
  get_entry-store now key other (err e, entry) t u = lookup-insert hash key other entry t.loc_t

  -- After a packet, where the keys of the table differ, the sender's address finds the entry that the
  -- packet updated or made, and every other address what it found before; if the packet was accepted,
  -- each of these only if its entry is fresh.
  pub get_entry-arrive :
      (now : ℕ) (arrival : Arrival) (other : GnAddress) (t : LocationTable fl)
      → IsUnique hash t.loc_t
      → get_entry fl hash other (arrive fl hash now arrival t).1
        ≡ outcome fl t.mib.its_gn_lifetime_loc_te now (updated fl hash t arrival).0 (
            if same_key hash (sender arrival) other
            then some (updated fl hash t arrival).1
            else get_entry fl hash other t)
  unfolding updated get_entry
  get_entry-arrive now arrival other t u =
      elim (Option-cases (get_entry fl hash (sender arrival) t)) [
        | inl absent ↦
            let fresh_entry = new_entry fl t.mib in
            let (done, entry) = update fl t.mib arrival true fresh_entry in
            rw
              (
                arrive-receive fl hash now arrival t,
                receive-absent fl hash now (sender arrival) (update fl t.mib arrival) t absent,
                absent,
              )
              (get_entry-store now (sender arrival) other (done, entry)
                  (record t { loc_t = insert hash (sender arrival) fresh_entry t.loc_t })
                  (insert-IsUnique hash (sender arrival) fresh_entry t.loc_t u)
                ∙ ap (outcome fl t.mib.its_gn_lifetime_loc_te now done) (
                    ap
                      (λ (o : Option (Entry fl)).
                        if same_key hash (sender arrival) other then some entry else o)
                      (lookup-insert hash (sender arrival) other fresh_entry t.loc_t)
                    ∙ sym (
                        if_again (same_key hash (sender arrival) other) (some entry)
                          (some fresh_entry) (get_entry fl hash other t))))
        | inr (entry, found) ↦
            rw
              (
                arrive-receive fl hash now arrival t,
                receive-known fl hash now (sender arrival) (update fl t.mib arrival) t entry found,
                found,
              )
              (get_entry-store now (sender arrival) other (update fl t.mib arrival false entry) t u)
      ]
