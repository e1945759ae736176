-- ===== src/Geonet/Entry/Freshness.antt =====
-- `update_position_vector` of src/flexstack/geonet/location_table.py, called for the position vectors
-- of a sequence of packets in any order: which of them the entry ends with.
use flex_stack.Prelude.{
  ℕ, ◌-◌, ◌%◌, ◌^◌, ◌≤◌, ◌<◌, ◌≡◌, ◌≢◌, refl, ◌∙◌, inl, inr, true, false, List, [], ◌∷◌, ltb, ◌==◌,
  Bool-cases, if◌then◌else◌, arith,
}
use flex_stack.Floats.{Floats}
use flex_stack.Geonet.PositionVector.{LongPositionVector, tst_gt}
use flex_stack.Geonet.PositionVector.Timestamp.{stamp, tst_gt-stamp}
use flex_stack.Geonet.Entry.{LocationTableEntry, newer, update_position_vector}

-- A position vector taken at a time that counts milliseconds without wrapping.
pub record Fix : Type 0 where
  pub time : ℕ
  pub vector : LongPositionVector

abbrev pub sent : Fix → LongPositionVector
sent fix = record fix.vector { tst = stamp fix.time }

-- The latest of the fixes, and of equally late ones the first.
abbrev pub latest : Fix → List Fix → Fix
latest best [] = best
latest best (fix ∷ fixes) = if ltb best.time fix.time then latest fix fixes else latest best fixes

-- A time of the 2^31 ms from `base` on, whose timestamp is not 0.
pub record IsIn (base : ℕ) (fix : Fix) : Type 0 where
  pub from_base : base ≤ fix.time
  pub near : fix.time - base < 2 ^ 31
  pub nonzero : fix.time % 2 ^ 32 ≢ 0

abbrev pub AllIn : ℕ → List Fix → Type 0
AllIn base [] = Unit {0}
AllIn base (fix ∷ fixes) = IsIn base fix × AllIn base fixes

later : (a b : ℕ) → a < b → b - a < 2 ^ 31 → tst_gt (stamp b) (stamp a) ≡ true
later a b lt near = (tst_gt-stamp a b lt near).0

not_later : (a b : ℕ) → b ≤ a → a - b < 2 ^ 31 → tst_gt (stamp b) (stamp a) ≡ false
unfolding tst_gt
not_later a b le near = ground arith

newer-sent :
    (base : ℕ) (a b : Fix)
    → IsIn base a
    → IsIn base b
    → newer (sent a) (sent b) ≡ (if ltb a.time b.time then sent b else sent a)
unfolding newer
newer-sent base a b in_a in_b = elim (Bool-cases (ltb a.time b.time)) [
  | inl lt ↦ rw (lt, nonzero, later a.time b.time (ground arith) (omega (arith, in_a, in_b))) refl
  | inr ge ↦
      rw (ge, nonzero, not_later a.time b.time (ground arith) (omega (arith, in_a, in_b))) refl
]
  where
    nonzero : (a.time % 2 ^ 32 == 0) ≡ false
    nonzero = ground (arith, in_a.nonzero)

module _ (fl : Floats) where
  unfoldable pub update_all : List Fix → LocationTableEntry fl → LocationTableEntry fl
  update_all [] entry = entry
  update_all (fix ∷ fixes) entry = update_all fixes (update_position_vector fl (sent fix) entry)

  -- An entry that holds one fix and is updated with others, all of them less than 2^31 ms apart and
  -- none with the timestamp 0, ends with the latest of them, whatever the order of the updates.
  pub update_all-latest :
      (base : ℕ) (first : Fix) (fixes : List Fix) (entry : LocationTableEntry fl)
      → IsIn base first
      → AllIn base fixes
      → entry.position_vector ≡ sent first
      → (update_all fixes entry).position_vector ≡ sent (latest first fixes)
  unfolding update_all update_position_vector
  update_all-latest base first [] entry in_first in_all e = e
  update_all-latest base first (fix ∷ fixes) entry in_first (in_fix, in_all) e =
      elim (Bool-cases (ltb first.time fix.time)) [
        | inl lt ↦ rw lt (
            update_all-latest base fix fixes (update_position_vector fl (sent fix) entry) in_fix
              in_all (kept ∙ rw lt))
        | inr ge ↦ rw ge (
            update_all-latest base first fixes (update_position_vector fl (sent fix) entry) in_first
              in_all (kept ∙ rw ge))
      ]
    where
      kept :
          newer entry.position_vector (sent fix)
          ≡ (if ltb first.time fix.time then sent fix else sent first)
      kept = rw e (newer-sent base first fix in_first in_fix)
