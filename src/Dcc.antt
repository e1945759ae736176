-- ===== src/Dcc.antt =====
-- src/flexstack/management/dcc_reactive.py: reactive congestion control. A channel busy ratio is a
-- float that is only compared with literals: the type, its literals in hundredths and its two
-- comparisons are parameters, of which nothing is assumed. Packet rates are in tenths of a hertz.
pub mod Convergence
pub mod Adaptive
use flex_stack.Prelude.{
  ℕ, zero, suc, ◌+◌, ◌-◌, List, [], ◌∷◌, Bool, true, false, ◌&&◌, not, ltb, leb, ◌==◌, Result, ok,
  err, value_error, index_error, key_error, ◌>>=◌, if◌then◌else◌,
}

pub data DccState : Type 0 where
  relaxed active_1 active_2 active_3 restrictive : DccState

pub record DccStateConfig : Type 0 where
  pub cbr_min : ℕ
  pub cbr_max : ℕ
  pub packet_rate : ℕ
  pub t_off_ms : ℕ

abbrev config : ℕ → ℕ → ℕ → ℕ → DccStateConfig
config cbr_min cbr_max packet_rate t_off_ms = record {
  cbr_min = cbr_min;
  cbr_max = cbr_max;
  packet_rate = packet_rate;
  t_off_ms = t_off_ms;
}

abbrev pub DccTable : Type 0
DccTable = List (DccState × DccStateConfig)

abbrev pub table_a1 : DccTable
table_a1 =
    (relaxed, config 0 30 100 100)
    ∷ (active_1, config 30 40 50 200)
    ∷ (active_2, config 40 50 25 400)
    ∷ (active_3, config 50 60 20 500)
    ∷ (restrictive, config 60 101 10 1000)
    ∷ []

abbrev pub table_a2 : DccTable
table_a2 =
    (relaxed, config 0 30 200 50)
    ∷ (active_1, config 30 40 100 100)
    ∷ (active_2, config 40 50 50 200)
    ∷ (active_3, config 50 65 40 250)
    ∷ (restrictive, config 65 101 10 1000)
    ∷ []

-- `_STATE_ORDER.index(state)`
abbrev pub state_index : DccState → ℕ
state_index relaxed = 0
state_index active_1 = 1
state_index active_2 = 2
state_index active_3 = 3
state_index restrictive = 4

-- `_STATE_ORDER[i]`
abbrev pub state_at : ℕ → Result DccState
state_at zero = ok relaxed
state_at (suc zero) = ok active_1
state_at (suc (suc zero)) = ok active_2
state_at (suc (suc (suc zero))) = ok active_3
state_at (suc (suc (suc (suc zero)))) = ok restrictive
state_at (suc (suc (suc (suc (suc i))))) = err index_error

-- `self._table[state]`
abbrev pub config_of : DccState → DccTable → Result DccStateConfig
config_of state [] = err key_error
config_of state ((s, cfg) ∷ table) =
    if state_index s == state_index state then ok cfg else config_of state table

pub record DccReactiveOutput : Type 0 where
  pub state : DccState
  pub packet_rate : ℕ
  pub t_off_ms : ℕ

pub record DccReactive : Type 0 where
  pub table : DccTable
  pub state : DccState

-- `DccReactive(t_on_max_us)`
unfoldable pub new_dcc_reactive : ℕ → DccReactive
new_dcc_reactive t_on_max_us = record {
  table = if leb t_on_max_us 500 then table_a2 else table_a1;
  state = relaxed;
}

-- One position towards the target.
abbrev pub step_index : ℕ → ℕ → ℕ
step_index target current =
    if ltb current target then current + 1 else if ltb target current then current - 1 else current

pub record Ratios : Type 1 where
  pub Ratio : Type 0
  pub hundredths : ℕ → Ratio
  pub le : Ratio → Ratio → Bool
  pub lt : Ratio → Ratio → Bool

abbrev output : DccState → DccStateConfig → DccReactiveOutput
output state cfg = record { state = state; packet_rate = cfg.packet_rate; t_off_ms = cfg.t_off_ms }

module _ (ratios : Ratios) where
  open ratios use {Ratio, hundredths, le, lt}

  -- `_target_state`
  pub target_state : DccTable → Ratio → DccState
  target_state [] cbr = restrictive
  target_state ((state, cfg) ∷ table) cbr =
      if le (hundredths cfg.cbr_min) cbr && lt cbr (hundredths cfg.cbr_max)
      then state
      else target_state table cbr

  abbrev pub in_range : Ratio → Bool
  in_range cbr = le (hundredths 0) cbr && le cbr (hundredths 100)

  -- The object is changed before the table is read.
  abbrev enter : DccReactive → Result DccState → Result DccReactiveOutput × DccReactive
  enter d (ok state) =
      (config_of state d.table >>= λ cfg. ok (output state cfg), record d { state = state })
  enter d (err e) = (err e, d)

  unfoldable pub update_dcc : Ratio → DccReactive → Result DccReactiveOutput × DccReactive
  unfolding target_state
  update_dcc cbr d =
      if in_range cbr
      then enter d
          (state_at (step_index (state_index (target_state d.table cbr)) (state_index d.state)))
      else (err value_error, d)
