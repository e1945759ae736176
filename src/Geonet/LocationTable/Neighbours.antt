-- ===== src/Geonet/LocationTable/Neighbours.antt =====
-- The neighbour flag of the entries of src/flexstack/geonet/location_table.py.
use flex_stack.Prelude.{
  ℕ, ◌≡◌, refl, Bool, true, false, Result, ok, err, Result-cases, inl, inr, ap, ◌∙◌, if◌then◌else◌,
  arith,
}
use flex_stack.Floats.{Floats}
use flex_stack.Geonet.Mib.{Mib}
use flex_stack.Geonet.Entry.{
  check_sn, check_duplicate_sn, update_pv_and_pdr, update_position_vector, update_pdr, after_check,
  update_with_shb_packet, update_with_tsb_packet, update_with_gbc_packet,
}
use flex_stack.Geonet.LocationTable.{Entry, checked_update}
use flex_stack.Geonet.LocationTable.Arrivals.{
  Arrival, shb, tsb, gbc, guc, gac, ls_request, ls_reply, update,
}

-- The flag that an accepted packet leaves.
unfoldable pub flag_after : Arrival → Bool → Bool → Bool
flag_after (shb position_vector packet) is_new flag = true
flag_after (gbc header packet) is_new flag = false
flag_after (tsb header packet) is_new flag = if is_new then false else flag
flag_after (guc header packet) is_new flag = if is_new then false else flag
flag_after (gac header packet) is_new flag = if is_new then false else flag
flag_after (ls_request header packet) is_new flag = if is_new then false else flag
flag_after (ls_reply header packet) is_new flag = if is_new then false else flag

module _ (fl : Floats) (mib : Mib) where
  after_check-flag :
      (answer : Result (Unit {0}) × Entry fl) (f : Entry fl → Entry fl) (g : Bool → Bool)
      → ((e : Entry fl) → (f e).is_neighbour ≡ g e.is_neighbour)
      → (after_check fl answer f).0 ≡ ok tt
      → (after_check fl answer f).1.is_neighbour ≡ g answer.1.is_neighbour
  after_check-flag (ok done, entry) f g flags e = flags entry
  after_check-flag (err x, entry) f g flags e = ground (arith, e)

  check_duplicate_sn-flag :
      (sn : ℕ) (entry : Entry fl)
      → (check_duplicate_sn fl mib sn entry).1.is_neighbour ≡ entry.is_neighbour
  unfolding check_duplicate_sn
  check_duplicate_sn-flag sn entry =
      elim (Result-cases (check_sn mib.its_gn_dpl_length sn entry.dpl)) [
        | inl (dpl, e) ↦ rw (check_duplicate_sn, e) refl
        | inr (x, e) ↦ rw (check_duplicate_sn, e) refl
      ]

  checked-flag :
      (sn : ℕ) (entry : Entry fl) (f : Entry fl → Entry fl) (g : Bool → Bool)
      → ((e : Entry fl) → (f e).is_neighbour ≡ g e.is_neighbour)
      → (after_check fl (check_duplicate_sn fl mib sn entry) f).0 ≡ ok tt
      → (after_check fl (check_duplicate_sn fl mib sn entry) f).1.is_neighbour
        ≡ g entry.is_neighbour
  checked-flag sn entry f g flags e =
      after_check-flag (check_duplicate_sn fl mib sn entry) f g flags e
      ∙ ap g (check_duplicate_sn-flag sn entry)

  -- A packet that is accepted leaves its sender a neighbour if it is an SHB packet and no neighbour
  -- if it is a GBC packet; any other leaves the flag of a known sender and clears that of a new one.
  pub update-flag :
      (arrival : Arrival) (is_new : Bool) (entry : Entry fl)
      → (update fl mib arrival is_new entry).0 ≡ ok tt
      → (update fl mib arrival is_new entry).1.is_neighbour
        ≡ flag_after arrival is_new entry.is_neighbour
  unfolding flag_after update_pv_and_pdr update_position_vector update_pdr update_with_shb_packet
      update_with_tsb_packet update_with_gbc_packet checked_update
  update-flag (shb pv packet) is_new entry e = refl
  update-flag (tsb header packet) is_new entry e =
      checked-flag header.sn entry _ (λ b. if is_new then false else b) (λ x. refl) e
  update-flag (gbc header packet) is_new entry e =
      checked-flag header.sn entry _ (λ b. false) (λ x. refl) e
  update-flag (guc header packet) is_new entry e =
      checked-flag header.sn entry _ (λ b. if is_new then false else b) (λ x. refl) e
  update-flag (gac header packet) is_new entry e =
      checked-flag header.sn entry _ (λ b. if is_new then false else b) (λ x. refl) e
  update-flag (ls_request header packet) is_new entry e =
      checked-flag header.sn entry _ (λ b. if is_new then false else b) (λ x. refl) e
  update-flag (ls_reply header packet) is_new entry e =
      checked-flag header.sn entry _ (λ b. if is_new then false else b) (λ x. refl) e
