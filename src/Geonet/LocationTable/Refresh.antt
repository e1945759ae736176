-- ===== src/Geonet/LocationTable/Refresh.antt =====
-- The refreshing of the location table of src/flexstack/geonet/location_table.py: which entries it
-- keeps, and that the keys stay different from each other.
use flex_stack.Prelude.{
  ℕ, ◌-◌, ◌*◌, ◌^◌, ◌<◌, ◌≡◌, refl, sym, ◌∙◌, ap, inl, inr, true, ◌&&◌, List, [], ◌∷◌, Option, none,
  some, leb, Bool-cases, if◌then◌else◌, arith,
}
use flex_stack.Floats.{Floats}
use flex_stack.Geonet.Address.{GnAddress}
use flex_stack.Geonet.PositionVector.{
  Tst, tst_sub, set_in_normal_timestamp_seconds, set_in_normal_timestamp_milliseconds,
}
use flex_stack.Geonet.LocationTable.{
  Entry, LocationTable, same_key, lookup, insert, fresh, keep_fresh, refresh_table, get_entry,
}
use flex_stack.Geonet.LocationTable.Keys.{same_key_cong, same_key_sym, lookup-insert}

module _ {ℓ} {V : Type ℓ} (hash : GnAddress → ℕ) where
  -- No two keys are the same.
  abbrev pub IsUnique : List (GnAddress × V) → Type ℓ
  IsUnique [] = Unit
  IsUnique ((k, v) ∷ d) = (lookup hash k d ≡ none) × IsUnique d

  lookup_cong :
      (a b : GnAddress) (d : List (GnAddress × V))
      → same_key hash a b ≡ true
      → lookup hash a d ≡ lookup hash b d
  lookup_cong a b [] e = refl
  lookup_cong a b ((k, v) ∷ d) e =
      rw
        (
          same_key_sym hash k a,
          same_key_sym hash k b,
          same_key_cong hash a b k e,
          lookup_cong a b d e,
        )
        refl

  pub insert-IsUnique :
      (key : GnAddress) (value : V) (d : List (GnAddress × V))
      → IsUnique d
      → IsUnique (insert hash key value d)
  insert-IsUnique key value [] u = (refl, tt)
  insert-IsUnique key value ((k, v) ∷ d) (new, u) = elim (Bool-cases (same_key hash k key)) [
    | inl same ↦ rw same (new, u)
    | inr differ ↦
        let absent : lookup hash k (insert hash key value d) ≡ none =
          lookup-insert hash key k value d ∙ rw (same_key_sym hash key k, differ) new in
        rw differ (absent, insert-IsUnique key value d u)
  ]

-- An entry is fresh exactly if its position vector is not from after the whole second `now` and not
-- more than the lifetime old, where the times are UTC, less than 2^31 ms apart.
pub fresh-times :
    (fl : Floats) (now time lifetime : ℕ) (entry : Entry fl)
    → entry.position_vector.tst ≡ set_in_normal_timestamp_milliseconds time
    → now * 1000 - time < 2 ^ 31
    → time - now * 1000 < 2 ^ 31
    → lifetime * 1000 < 2 ^ 31
    → fresh fl lifetime (set_in_normal_timestamp_seconds now) entry
      ≡ (leb time (now * 1000) && leb (now * 1000 - time) (lifetime * 1000))
unfolding fresh tst_sub set_in_normal_timestamp_seconds set_in_normal_timestamp_milliseconds
fresh-times fl now time lifetime entry e past future short = rw e (ground arith)

module _ (fl : Floats) where
  -- What is left of an entry.
  unfoldable pub kept : ℕ → Tst → Option (Entry fl) → Option (Entry fl)
  kept lifetime current_time none = none
  kept lifetime current_time (some entry) =
      if fresh fl lifetime current_time entry then some entry else none

module _ (fl : Floats) (hash : GnAddress → ℕ) where
  lookup-keep_fresh :
      (lifetime : ℕ) (current_time : Tst) (key : GnAddress) (d : List (GnAddress × Entry fl))
      → IsUnique hash d
      → lookup hash key (keep_fresh fl lifetime current_time d)
        ≡ kept fl lifetime current_time (lookup hash key d)
  unfolding keep_fresh kept
  lookup-keep_fresh lifetime current_time key [] u = refl
  lookup-keep_fresh lifetime current_time key ((k, v) ∷ d) (new, u) =
      let rest = lookup-keep_fresh lifetime current_time key d u in
      elim (Bool-cases (fresh fl lifetime current_time v)) [
        | inl is_fresh ↦ elim (Bool-cases (same_key hash k key)) [
          | inl same ↦ rw (is_fresh, same, is_fresh) refl
          | inr differ ↦ rw (is_fresh, differ) rest
        ]
        | inr stale ↦ elim (Bool-cases (same_key hash k key)) [
          | inl same ↦
              rw (stale, same, stale)
                (rest
                  ∙ ap (kept fl lifetime current_time) (sym (lookup_cong hash k key d same) ∙ new))
          | inr differ ↦ rw (stale, differ) rest
        ]
      ]

  keep_fresh-IsUnique :
      (lifetime : ℕ) (current_time : Tst) (d : List (GnAddress × Entry fl))
      → IsUnique hash d
      → IsUnique hash (keep_fresh fl lifetime current_time d)
  unfolding keep_fresh kept
  keep_fresh-IsUnique lifetime current_time [] u = tt
  keep_fresh-IsUnique lifetime current_time ((k, v) ∷ d) (new, u) =
      let rest = keep_fresh-IsUnique lifetime current_time d u in
      elim (Bool-cases (fresh fl lifetime current_time v)) [
        | inl is_fresh ↦ rw is_fresh (
          lookup-keep_fresh lifetime current_time k d u ∙ ap (kept fl lifetime current_time) new,
          rest,
        )
        | inr stale ↦ rw stale rest
      ]

  -- After a refresh, an address finds the entry that it found before if that is fresh, and none if
  -- not, where the keys of the table differ.
  pub get_entry-refresh_table :
      (now : ℕ) (key : GnAddress) (t : LocationTable fl)
      → IsUnique hash t.loc_t
      → get_entry fl hash key (refresh_table fl now t)
        ≡ kept fl t.mib.its_gn_lifetime_loc_te
            (set_in_normal_timestamp_seconds now)
            (get_entry fl hash key t)
  unfolding get_entry refresh_table
  get_entry-refresh_table now key t u =
      lookup-keep_fresh t.mib.its_gn_lifetime_loc_te (set_in_normal_timestamp_seconds now) key
        t.loc_t u

  pub refresh_table-IsUnique :
      (now : ℕ) (t : LocationTable fl)
      → IsUnique hash t.loc_t
      → IsUnique hash (refresh_table fl now t).loc_t
  unfolding refresh_table
  refresh_table-IsUnique now t u =
      keep_fresh-IsUnique t.mib.its_gn_lifetime_loc_te (set_in_normal_timestamp_seconds now) t.loc_t
        u
