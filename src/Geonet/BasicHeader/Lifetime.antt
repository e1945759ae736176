-- ===== src/Geonet/BasicHeader/Lifetime.antt =====
-- What a lifetime in milliseconds becomes in the six bits of multiplier and two bits of base.
use flex_stack.Prelude.{ℕ, ◌*◌, ◌≤◌, ◌<◌, ◌≡◌, ◌⊎◌, arith}
use flex_stack.Geonet.BasicHeader.{set_value_in_millis, get_value_in_millis}

-- The multiplier always fits its six bits, and the encoded lifetime is never longer than the
-- requested one.
pub set_value_bounds :
    (value : ℕ)
    → let lt = set_value_in_millis value in (lt.multiplier < 64) × (get_value_in_millis lt ≤ value)
unfolding set_value_in_millis get_value_in_millis
set_value_bounds value = ground arith

-- For a request from 50 ms to 499 ms or from 1 s to 999.999 s the encoded lifetime is more than
-- half of the requested one.
pub set_value_keeps_half :
    (value : ℕ)
    → (50 ≤ value) × (value < 500) ⊎ (1000 ≤ value) × (value < 1000000)
    → value < 2 * get_value_in_millis (set_value_in_millis value)
unfolding set_value_in_millis get_value_in_millis
set_value_keeps_half value h = ground arith

-- A lifetime from 500 ms to 999 ms, or of 1000 s or more, is encoded as a lifetime of zero.
pub set_value_loses :
    (value : ℕ)
    → (500 ≤ value) × (value < 1000) ⊎ (1000000 ≤ value)
    → get_value_in_millis (set_value_in_millis value) ≡ 0
unfolding set_value_in_millis get_value_in_millis
set_value_loses value h = ground arith
