-- ===== src/Geonet/LocationTable.antt =====
-- `LocationTable` of src/flexstack/geonet/location_table.py. The dictionary is keyed by GeoNetworking
-- addresses; a key is found if its hash and its `__eq__` agree. The hash, which the dataclass makes
-- of all three fields of the address, is a parameter, and so are the floats and the clock.
pub mod Keys
pub mod Refresh
pub mod Arrivals
pub mod Receive
pub mod Neighbours
use flex_stack.Prelude.{
  ℕ, ◌*◌, ◌+◌, Bool, true, false, ◌&&◌, List, [], ◌∷◌, ◌++◌, length, leb, ◌==◌, Option, none, some,
  Result, ok, err, if◌then◌else◌,
}
use flex_stack.Floats.{Floats}
use flex_stack.Bytes.{Bytes}
use flex_stack.Geonet.Address
use flex_stack.Geonet.Address.{GnAddress}
use flex_stack.Geonet.Mib.{Mib}
use flex_stack.Geonet.PositionVector.{
  Tst, LongPositionVector, tst_sub, set_in_normal_timestamp_seconds,
}
use flex_stack.Geonet.ExtendedHeaders.{
  GbcExtendedHeader, TsbExtendedHeader, GucExtendedHeader, LsRequestExtendedHeader,
}
use flex_stack.Geonet.Entry.{
  LocationTableEntry, new_entry, check_duplicate_sn, update_pv_and_pdr, update_with_shb_packet,
  update_with_tsb_packet, update_with_gbc_packet, not_neighbour_if, after_check,
}

module _ (hash : GnAddress → ℕ) where
  -- A dictionary finds a key by its hash first, and then by `__eq__`.
  abbrev pub same_key : GnAddress → GnAddress → Bool
  same_key a b = hash a == hash b && Address.eq a b

module _ {ℓ} {V : Type ℓ} (hash : GnAddress → ℕ) where
  -- `d.get(key, None)`
  abbrev pub lookup : GnAddress → List (GnAddress × V) → Option V
  lookup key [] = none
  lookup key ((k, v) ∷ d) = if same_key hash k key then some v else lookup key d

  -- `d[key] = value`, which keeps the place and the key object of an old entry.
  abbrev pub insert : GnAddress → V → List (GnAddress × V) → List (GnAddress × V)
  insert key value [] = (key, value) ∷ []
  insert key value ((k, v) ∷ d) =
      if same_key hash k key then (k, value) ∷ d else (k, v) ∷ insert key value d

module _ (fl : Floats) where
  abbrev pub Entry : Type 0
  Entry = LocationTableEntry fl

  pub record LocationTable : Type 0 where
    pub mib : Mib
    pub loc_t : List (GnAddress × Entry)

  pub fresh : ℕ → Tst → Entry → Bool
  fresh lifetime current_time entry =
      leb (tst_sub current_time entry.position_vector.tst) (lifetime * 1000)

  pub keep_fresh : ℕ → Tst → List (GnAddress × Entry) → List (GnAddress × Entry)
  unfolding fresh
  keep_fresh lifetime current_time [] = []
  keep_fresh lifetime current_time ((gn, entry) ∷ d) =
      let rest = keep_fresh lifetime current_time d in
      if fresh lifetime current_time entry then (gn, entry) ∷ rest else rest

  -- `refresh_table` at the clock's reading `int(TimeService.time())`
  unfoldable pub refresh_table : ℕ → LocationTable → LocationTable
  unfolding keep_fresh
  refresh_table now t = record t {
    loc_t = keep_fresh t.mib.its_gn_lifetime_loc_te (set_in_normal_timestamp_seconds now) t.loc_t;
  }

  pub neighbours_of : List (GnAddress × Entry) → List Entry
  neighbours_of [] = []
  neighbours_of ((gn, entry) ∷ d) =
      let rest = neighbours_of d in if entry.is_neighbour then entry ∷ rest else rest

  unfoldable pub get_neighbours : LocationTable → List Entry
  unfolding neighbours_of
  get_neighbours t = neighbours_of t.loc_t

  abbrev pub entry_or_new : Mib → Option Entry → Entry
  entry_or_new mib none = new_entry fl mib
  entry_or_new mib (some entry) = entry

  abbrev pub is_none : Option Entry → Bool
  is_none none = true
  is_none (some entry) = false

  -- The body that the methods for GUC, GAC, LS Request and LS Reply packets share.
  unfoldable pub checked_update :
      Mib → ℕ → LongPositionVector → Bytes → Bool → Entry → Result (Unit {0}) × Entry
  checked_update mib sn so_pv packet is_new entry =
      after_check fl (check_duplicate_sn fl mib sn entry)
        (λ e. not_neighbour_if fl is_new (update_pv_and_pdr fl mib so_pv packet e))

  module _ (hash : GnAddress → ℕ) where
    unfoldable pub get_entry : GnAddress → LocationTable → Option Entry
    get_entry gn_addr t = lookup hash gn_addr t.loc_t

    -- The entry, with the table that has it.
    unfoldable pub ensure_entry : GnAddress → LocationTable → Entry × LocationTable
    unfolding get_entry
    ensure_entry gn_addr t =
        let found = get_entry gn_addr t in
        let entry = entry_or_new t.mib found in
        (entry, if is_none found then record t { loc_t = insert hash gn_addr entry t.loc_t } else t)

    -- A method changes the entry object that the table holds. After an exception the rest of the
    -- method, the refresh among it, is skipped.
    unfoldable pub store :
        ℕ
        → GnAddress
        → Result (Unit {0}) × Entry
        → LocationTable
        → Result (Unit {0}) × LocationTable
    store now gn_addr (ok done, entry) t =
        (ok done, refresh_table now (record t { loc_t = insert hash gn_addr entry t.loc_t }))
    store now gn_addr (err e, entry) t =
        (err e, record t { loc_t = insert hash gn_addr entry t.loc_t })

    -- The common course of the `new_*_packet` methods: find or make the entry, update it, refresh.
    unfoldable pub receive :
        ℕ
        → GnAddress
        → (Bool → Entry → Result (Unit {0}) × Entry)
        → LocationTable
        → Result (Unit {0}) × LocationTable
    unfolding get_entry ensure_entry store
    receive now gn_addr update t =
        let is_new_entry = is_none (get_entry gn_addr t) in
        let (entry, t') = ensure_entry gn_addr t in store now gn_addr (update is_new_entry entry) t'

    unfoldable pub new_shb_packet :
        ℕ → LongPositionVector → Bytes → LocationTable → Result (Unit {0}) × LocationTable
    unfolding receive
    new_shb_packet now position_vector packet t =
        receive now position_vector.gn_addr
          (λ is_new entry. (ok tt, update_with_shb_packet fl t.mib position_vector packet entry)) t

    unfoldable pub new_tsb_packet :
        ℕ → TsbExtendedHeader → Bytes → LocationTable → Result (Unit {0}) × LocationTable
    unfolding receive
    new_tsb_packet now header packet t =
        receive now header.so_pv.gn_addr
          (λ is_new entry. update_with_tsb_packet fl t.mib packet header is_new entry) t

    unfoldable pub new_gbc_packet :
        ℕ → GbcExtendedHeader → Bytes → LocationTable → Result (Unit {0}) × LocationTable
    unfolding receive
    new_gbc_packet now header packet t =
        receive now header.so_pv.gn_addr
          (λ is_new entry. update_with_gbc_packet fl t.mib packet header entry) t

    unfoldable pub new_guc_packet :
        ℕ → GucExtendedHeader → Bytes → LocationTable → Result (Unit {0}) × LocationTable
    unfolding receive checked_update
    new_guc_packet now header packet t =
        receive now header.so_pv.gn_addr (checked_update t.mib header.sn header.so_pv packet) t

    unfoldable pub new_gac_packet :
        ℕ → GbcExtendedHeader → Bytes → LocationTable → Result (Unit {0}) × LocationTable
    unfolding receive checked_update
    new_gac_packet now header packet t =
        receive now header.so_pv.gn_addr (checked_update t.mib header.sn header.so_pv packet) t

    unfoldable pub new_ls_request_packet :
        ℕ → LsRequestExtendedHeader → Bytes → LocationTable → Result (Unit {0}) × LocationTable
    unfolding receive checked_update
    new_ls_request_packet now header packet t =
        receive now header.so_pv.gn_addr (checked_update t.mib header.sn header.so_pv packet) t

    unfoldable pub new_ls_reply_packet :
        ℕ → GucExtendedHeader → Bytes → LocationTable → Result (Unit {0}) × LocationTable
    unfolding receive checked_update
    new_ls_reply_packet now header packet t =
        receive now header.so_pv.gn_addr (checked_update t.mib header.sn header.so_pv packet) t
