-- ===== src/Dcc/Adaptive.antt =====
-- src/flexstack/management/dcc_adaptive.py: adaptive congestion control and its gate keeper. A literal
-- is a quotient of integers, which division rounds to the same float as Python reads for it.
pub mod Bounds
pub mod Spacing
use flex_stack.Prelude.{
  ℕ, Bool, true, false, not, ◌&&◌, ◌||◌, Option, none, some, Result, ok, err, value_error,
  zero_division_error, if◌then◌else◌,
}
use flex_stack.Floats.{Floats}

-- `x <= y` and `x == 0.0`
pub record Comparisons (fl : Floats) : Type 0 where
  pub fle : fl.Float → fl.Float → Bool
  pub is_zero : fl.Float → Bool

module _ (fl : Floats) where
  open fl use {Float, of_int, fadd, fsub, fmul, fdiv, flt}

  abbrev pub literal : ℕ → ℕ → Float
  literal n d = fdiv (of_int n) (of_int d)

  -- Python's `min` and `max` of two floats.
  abbrev pub min : Float → Float → Float
  min x y = if flt y x then y else x

  abbrev pub max : Float → Float → Float
  max x y = if flt x y then y else x

  pub record DccAdaptiveParameters : Type 0 where
    pub alpha : Float
    pub beta : Float
    pub cbr_target : Float
    pub delta_max : Float
    pub delta_min : Float
    pub delta_up_max : Float
    pub delta_down_max : Float

  abbrev pub default_parameters : DccAdaptiveParameters
  default_parameters = record {
    alpha = literal 16 1000;
    beta = literal 12 10000;
    cbr_target = literal 68 100;
    delta_max = literal 3 100;
    delta_min = literal 6 10000;
    delta_up_max = literal 5 10000;
    delta_down_max = fsub (of_int 0) (literal 25 100000);
  }

  pub record DccAdaptive : Type 0 where
    pub parameters : DccAdaptiveParameters
    pub cbr_its_s : Float
    pub delta : Float

  abbrev pub new_dcc : DccAdaptiveParameters → DccAdaptive
  new_dcc p = record { parameters = p; cbr_its_s = of_int 0; delta = p.delta_min }

  -- Step 1, with the global ratios if both are there.
  abbrev pub cbr_avg : Float → Float → Option Float → Option Float → Float
  cbr_avg cbr_local cbr_local_previous (some cbr_global) (some cbr_global_previous) =
      fdiv (fadd cbr_global cbr_global_previous) (of_int 2)
  cbr_avg cbr_local cbr_local_previous _ _ = fdiv (fadd cbr_local cbr_local_previous) (of_int 2)

  -- Step 2.
  abbrev pub delta_offset : DccAdaptiveParameters → Float → Float
  delta_offset p diff =
      if flt (of_int 0) diff
      then min (fmul p.beta diff) p.delta_up_max
      else max (fmul p.beta diff) p.delta_down_max

  -- Steps 4 and 5, one after the other.
  abbrev pub at_most : Float → Float → Float
  at_most delta_max delta = if flt delta_max delta then delta_max else delta

  abbrev pub at_least : Float → Float → Float
  at_least delta_min delta = if flt delta delta_min then delta_min else delta

  -- The gate keeper.
  pub record GateKeeper : Type 0 where
    pub delta : Float
    pub t_pg : Option Float
    pub t_go : Option Float

  abbrev pub new_gate : Float → GateKeeper
  new_gate delta = record { delta = delta; t_pg = none; t_go = none }

  abbrev pub gate_open_min_interval_s : Float
  gate_open_min_interval_s = literal 25 1000

  abbrev pub gate_open_max_interval_s : Float
  gate_open_max_interval_s = of_int 1

  abbrev pub t_epsilon : Float
  t_epsilon = literal 1 1000000000

  abbrev pub clamped : Float → Float
  clamped interval = min (max interval gate_open_min_interval_s) gate_open_max_interval_s

  module _ (c : Comparisons fl) where
    open c use {fle, is_zero}

    -- `0.0 <= val <= 1.0`
    abbrev pub is_ratio : Float → Bool
    is_ratio val = fle (of_int 0) val && fle val (of_int 1)

    -- `DccAdaptive.update`
    unfoldable pub update :
        Float → Float → Option Float → Option Float → DccAdaptive → Result Float × DccAdaptive
    update cbr_local cbr_local_previous cbr_global cbr_global_previous d =
        let p = d.parameters in
        let average = cbr_avg cbr_local cbr_local_previous cbr_global cbr_global_previous in
        let cbr_its_s = fadd (fmul (literal 1 2) d.cbr_its_s) (fmul (literal 1 2) average) in
        let offset = delta_offset p (fsub p.cbr_target cbr_its_s) in
        let filtered = fadd (fmul (fsub (of_int 1) p.alpha) d.delta) offset in
        let delta = at_least p.delta_min (at_most p.delta_max filtered) in
        if not (is_ratio cbr_local) || not (is_ratio cbr_local_previous)
        then (err value_error, d)
        else (ok delta, record d { cbr_its_s = cbr_its_s; delta = delta })

    abbrev pub open_from : Float → Option Float → Bool
    open_from t none = true
    open_from t (some t_go) = fle (fsub t_go t_epsilon) t

    unfoldable pub is_open : Float → GateKeeper → Bool
    is_open t g = open_from t g.t_go

    -- A division by zero comes after the gate's closing time is set.
    unfoldable pub admit_packet : Float → Float → GateKeeper → Result Bool × GateKeeper
    unfolding is_open
    admit_packet t t_on g =
        if fle t_on (of_int 0)
        then (err value_error, g)
        else if not (is_open t g)
        then (ok false, g)
        else if is_zero g.delta
        then (err zero_division_error, record g { t_pg = some t })
        else (
          ok true,
          record g { t_pg = some t; t_go = some (fadd t (clamped (fdiv t_on g.delta))) },
        )

    -- Equation B.2 for a gate that is closed.
    abbrev pub rescheduled : Float → Float → Option Float → Option Float → Bool → Option Float
    rescheduled delta_old delta_new (some t_pg) (some t_go) false =
        some (fadd t_pg (clamped (fmul (fdiv delta_old delta_new) (fsub t_go t_pg))))
    rescheduled delta_old delta_new _ t_go _ = t_go

    unfoldable pub update_delta : Float → Float → GateKeeper → Result (Unit {0}) × GateKeeper
    unfolding is_open
    update_delta t delta_new g = if fle delta_new (of_int 0) then (err value_error, g) else (
      ok tt,
      record g {
        delta = delta_new;
        t_go = rescheduled g.delta delta_new g.t_pg g.t_go (is_open t g);
      },
    )
