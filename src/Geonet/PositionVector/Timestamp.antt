-- ===== src/Geonet/PositionVector/Timestamp.antt =====
-- The order and the difference of timestamps modulo 2^32, against the times that they stand for.
use flex_stack.Prelude.{ℕ, ◌-◌, ◌%◌, ◌^◌, ◌≤◌, ◌<◌, ◌≡◌, ◌≢◌, true, false, not, arith}
use flex_stack.Geonet.PositionVector.{
  Tst, tst_gt, tst_ge, tst_lt, tst_le, tst_eq, tst_sub, set_in_normal_timestamp_milliseconds,
}

-- The timestamp of a time that counts milliseconds without wrapping.
abbrev pub stamp : ℕ → Tst
stamp time = record { msec = time % 2 ^ 32 }

-- Of two timestamps less than 2^31 ms apart, `>`, `>=`, `<` and `<=` give the order of the times
-- that they stand for, across the wrap of the counter too.
pub tst_gt-stamp :
    (earlier later : ℕ)
    → earlier < later
    → later - earlier < 2 ^ 31
    → (tst_gt (stamp later) (stamp earlier) ≡ true)
      × (tst_ge (stamp later) (stamp earlier) ≡ true)
      × (tst_gt (stamp earlier) (stamp later) ≡ false)
      × (tst_lt (stamp earlier) (stamp later) ≡ true)
      × (tst_le (stamp later) (stamp earlier) ≡ false)
unfolding tst_gt tst_ge tst_lt tst_le tst_eq
tst_gt-stamp earlier later h near = ground arith

-- Of two different timestamps in range exactly one is greater than the other.
pub tst_gt_total :
    (s t : Tst)
    → s.msec < 2 ^ 32
    → t.msec < 2 ^ 32
    → s.msec ≢ t.msec
    → tst_gt s t ≡ not (tst_gt t s)
unfolding tst_gt
tst_gt_total s t hs ht ne = ground arith

-- The difference of the timestamps of two UTC times, in milliseconds and less than 2^32 ms apart,
-- is the difference of the times.
pub tst_sub-stamp :
    (earlier later : ℕ)
    → earlier ≤ later
    → later - earlier < 2 ^ 32
    → tst_sub
        (set_in_normal_timestamp_milliseconds later)
        (set_in_normal_timestamp_milliseconds earlier)
      ≡ later - earlier
unfolding tst_sub set_in_normal_timestamp_milliseconds
tst_sub-stamp earlier later h near = ground arith
