-- ===== src/Geonet/Entry.antt =====
-- `LocationTableEntry` of src/flexstack/geonet/location_table.py. The locks are left out: every
-- method runs as one step.
pub mod Window
pub mod Duplicates
pub mod Freshness
use flex_stack.Prelude.{
  ℕ, suc, ◌+◌, Bool, true, false, List, [], ◌∷◌, ◌++◌, length, ◌==◌, ltb, Result, ok, err,
  duplicated_packet, index_error, if◌then◌else◌,
}
use flex_stack.Sets.{contains, discard, add}
use flex_stack.Floats.{Floats}
use flex_stack.Bytes.{Bytes}
use flex_stack.Geonet.Address.{GnAddress}
use flex_stack.Geonet.Mib.{Mib}
use flex_stack.Geonet.PositionVector.{
  Tst, LongPositionVector, default_long_position_vector, tst_gt, tst_sub,
}
use flex_stack.Geonet.ExtendedHeaders.{GbcExtendedHeader, TsbExtendedHeader}

-- The duplicate packet list: a ring buffer `dpl_deque` and the set of its members `dpl_set`.
pub record Dpl : Type 0 where
  pub dpl_set : List ℕ
  pub dpl_deque : List ℕ

-- `d.append(sn)` on a deque of at most `maxlen` elements, which drops the oldest when it is full.
abbrev pub append_bounded : ℕ → List ℕ → ℕ → List ℕ
append_bounded maxlen [] sn = if maxlen == 0 then [] else sn ∷ []
append_bounded maxlen (x ∷ xs) sn =
    if length (x ∷ xs) == maxlen then xs ++ sn ∷ [] else x ∷ (xs ++ sn ∷ [])

-- The eviction of the oldest number where the buffer is full; `popleft` of an empty deque raises.
evict : Dpl → Result Dpl
evict d = elim d.dpl_deque [
  | [] ↦ err index_error
  | oldest ∷ rest ↦ ok (record { dpl_set = discard oldest d.dpl_set; dpl_deque = rest })
]

make_room : ℕ → Dpl → Result Dpl
unfolding evict
make_room maxlen d = if length d.dpl_deque == maxlen then evict d else ok d

remember : ℕ → ℕ → Dpl → Dpl
remember maxlen sn d = record {
  dpl_set = add sn d.dpl_set;
  dpl_deque = append_bounded maxlen d.dpl_deque sn;
}

remember_if_room : ℕ → ℕ → Result Dpl → Result Dpl
unfolding remember
remember_if_room maxlen sn (ok d) = ok (remember maxlen sn d)
remember_if_room maxlen sn (err e) = err e

-- `check_duplicate_sn` on the two collections that it reads and writes
unfoldable pub check_sn : ℕ → ℕ → Dpl → Result Dpl
unfolding make_room remember_if_room
check_sn maxlen sn d =
    if contains sn d.dpl_set
    then err duplicated_packet
    else remember_if_room maxlen sn (make_room maxlen d)

-- The position vector that is kept.
unfoldable pub newer : LongPositionVector → LongPositionVector → LongPositionVector
newer stored received =
    if stored.tst.msec == 0
    then received
    else if tst_gt received.tst stored.tst
    then received
    else stored

module _ (fl : Floats) where
  open fl use {Float, of_int, fadd, fsub, fmul, fdiv, flt}

  pub record LocationTableEntry : Type 0 where
    pub version : ℕ
    pub position_vector : LongPositionVector
    pub ls_pending : Bool
    pub is_neighbour : Bool
    pub tst : Tst
    pub pdr : Float
    pub dpl : Dpl

  -- `LocationTableEntry(mib)`
  unfoldable pub new_entry : Mib → LocationTableEntry
  new_entry mib = record {
    version = mib.its_gn_protocol_version;
    position_vector = default_long_position_vector;
    ls_pending = false;
    is_neighbour = false;
    tst = record { msec = 0 };
    pdr = of_int 0;
    dpl = record { dpl_set = []; dpl_deque = [] };
  }

  unfoldable pub update_position_vector :
      LongPositionVector → LocationTableEntry → LocationTableEntry
  unfolding newer
  update_position_vector received entry = record entry {
    position_vector = newer entry.position_vector received;
  }

  -- Equation B.1, with the time in seconds.
  abbrev next_pdr : Mib → ℕ → ℕ → Float → Float
  next_pdr mib packet_size elapsed_ms pdr =
      let time_since_last_update = fdiv (of_int elapsed_ms) (of_int 1000) in
      let current_pdr = fdiv (of_int packet_size) time_since_last_update in
      let beta = fdiv (of_int mib.its_gn_max_packet_data_rate_ema_beta) (of_int 100) in
      fadd (fmul beta pdr) (fmul (fsub (of_int 1) beta) current_pdr)

  unfoldable pub update_pdr : Mib → LongPositionVector → ℕ → LocationTableEntry → LocationTableEntry
  update_pdr mib received packet_size entry =
      let elapsed_ms = tst_sub received.tst entry.tst in
      let updated = next_pdr mib packet_size elapsed_ms entry.pdr in
      record entry {
        tst = received.tst;
        pdr =
            if flt (of_int 0) (fdiv (of_int elapsed_ms) (of_int 1000)) then updated else entry.pdr;
      }

  -- A method that may raise leaves the entry beside the exception.
  unfoldable pub check_duplicate_sn :
      Mib → ℕ → LocationTableEntry → Result (Unit {0}) × LocationTableEntry
  check_duplicate_sn mib sn entry = elim (check_sn mib.its_gn_dpl_length sn entry.dpl) [
    | ok dpl ↦ (ok tt, record entry { dpl = dpl })
    | err e ↦ (err e, entry)
  ]

  -- The position vector, then the packet data rate; 12 octets of Basic and Common Header are counted.
  unfoldable pub update_pv_and_pdr :
      Mib → LongPositionVector → Bytes → LocationTableEntry → LocationTableEntry
  unfolding update_position_vector update_pdr
  update_pv_and_pdr mib received packet entry =
      update_pdr mib received (length packet + 8 + 4) (update_position_vector received entry)

  unfoldable pub update_with_shb_packet :
      Mib → LongPositionVector → Bytes → LocationTableEntry → LocationTableEntry
  unfolding update_pv_and_pdr
  update_with_shb_packet mib received packet entry =
      record (update_pv_and_pdr mib received packet entry) { is_neighbour = true }

  -- What follows a passed duplicate check.
  abbrev pub after_check :
      Result (Unit {0}) × LocationTableEntry
      → (LocationTableEntry → LocationTableEntry)
      → Result (Unit {0}) × LocationTableEntry
  after_check (ok done, entry) update = (ok done, update entry)
  after_check (err e, entry) update = (err e, entry)

  abbrev pub not_neighbour_if : Bool → LocationTableEntry → LocationTableEntry
  not_neighbour_if is_new entry = record entry {
    is_neighbour = if is_new then false else entry.is_neighbour;
  }

  unfoldable pub update_with_tsb_packet :
      Mib
      → Bytes
      → TsbExtendedHeader
      → Bool
      → LocationTableEntry
      → Result (Unit {0}) × LocationTableEntry
  unfolding check_duplicate_sn update_pv_and_pdr
  update_with_tsb_packet mib packet header is_new entry =
      after_check (check_duplicate_sn mib header.sn entry)
        (λ e. not_neighbour_if is_new (update_pv_and_pdr mib header.so_pv packet e))

  unfoldable pub update_with_gbc_packet :
      Mib → Bytes → GbcExtendedHeader → LocationTableEntry → Result (Unit {0}) × LocationTableEntry
  unfolding check_duplicate_sn update_pv_and_pdr
  update_with_gbc_packet mib packet header entry =
      after_check (check_duplicate_sn mib header.sn entry)
        (λ e. record (update_pv_and_pdr mib header.so_pv packet e) { is_neighbour = false })
