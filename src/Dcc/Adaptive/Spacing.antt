-- ===== src/Dcc/Adaptive/Spacing.antt =====
-- The time between the packets that the gate keeper admits.
use flex_stack.Prelude.{
  ◌≡◌, refl, inl, inr, List, [], ◌∷◌, Bool, true, false, Option, none, some, Result, ok, Bool-cases,
}
use flex_stack.Floats.{Floats}
use flex_stack.Dcc.Adaptive.{
  Comparisons, GateKeeper, new_gate, max, clamped, gate_open_min_interval_s,
  gate_open_max_interval_s, t_epsilon, open_from, rescheduled, is_open, admit_packet, update_delta,
}

module _ (fl : Floats) (c : Comparisons fl) where
  open fl use {Float, of_int, fadd, fsub, fmul, fdiv, flt}
  open c use {fle, is_zero}

  -- Floats among which there is no NaN: the order is total, addition and subtraction keep it, and
  -- the shortest interval is not more than the longest.
  pub record IsOrdered : Type 0 where
    pub le_refl : (x : Float) → fle x x ≡ true
    pub le_trans : (x y z : Float) → fle x y ≡ true → fle y z ≡ true → fle x z ≡ true
    pub le_of_not_lt : (x y : Float) → flt x y ≡ false → fle y x ≡ true
    pub le_of_lt : (x y : Float) → flt x y ≡ true → fle x y ≡ true
    pub fadd_mono : (t x y : Float) → fle x y ≡ true → fle (fadd t x) (fadd t y) ≡ true
    pub fsub_mono : (t x y : Float) → fle x y ≡ true → fle (fsub x t) (fsub y t) ≡ true
    pub zero_le : (x : Float) → is_zero x ≡ true → fle x (of_int 0) ≡ true
    pub intervals : fle (gate_open_min_interval_s fl) (gate_open_max_interval_s fl) ≡ true

  -- The calls of a gate keeper.
  pub data Call : Type 0 where
    admit : Float → Float → Call
    change : Float → Float → Call

  abbrev pub called : Result Bool → Float → List Float
  called (ok true) t = t ∷ []
  called _ t = []

  -- The gate after a call, and the time of the packet that the call admits, if any.
  unfoldable pub step : Call → GateKeeper fl → List Float × GateKeeper fl
  unfolding admit_packet update_delta
  step (admit t t_on) g = let (answer, g') = admit_packet fl c t t_on g in (called answer t, g')
  step (change t delta_new) g = ([], (update_delta fl c t delta_new g).1)

  -- `b` is not before the shortest interval after `a`, up to the tolerance.
  abbrev pub Apart : Float → Float → Type 0
  Apart a b = fle (fsub (fadd a (gate_open_min_interval_s fl)) (t_epsilon fl)) b ≡ true

  -- The last packet that was admitted, after the call.
  abbrev pub latest : Option Float → List Float → Option Float
  latest last [] = last
  latest last (t ∷ ts) = some t

  abbrev pub AllApart : Option Float → List Float → Type 0
  AllApart none ts = Unit
  AllApart (some last) [] = Unit
  AllApart (some last) (t ∷ ts) = Apart last t

  -- Every packet that the calls admit is apart from the one admitted before it.
  unfoldable pub Spaced : Option Float → List Call → GateKeeper fl → Type 0
  unfolding step
  Spaced last [] g = Unit
  Spaced last (call ∷ calls) g =
      let (ts, g') = step call g in AllApart last ts × Spaced (latest last ts) calls g'

  -- A positive duty cycle, and an opening time that is late enough after the last packet.
  abbrev Late : Option Float → Option Float → Option Float → Type 0
  Late none t_pg none = Unit
  Late (some last) (some t_pg) (some t_go) =
      (t_pg ≡ last) × (fle (fadd last (gate_open_min_interval_s fl)) t_go ≡ true)
  Late _ _ _ = ⊥

  record Inv (last : Option Float) (g : GateKeeper fl) : Type 0 where
    positive : fle g.delta (of_int 0) ≡ false
    late : Late last g.t_pg g.t_go

  module _ (order : IsOrdered) where
    open order use {
      le_refl, le_trans, le_of_not_lt, le_of_lt, fadd_mono, fsub_mono, zero_le, intervals,
    }

    max-le : (x y : Float) → fle y (max fl x y) ≡ true
    max-le x y = elim (Bool-cases (flt x y)) [
      | inl less ↦ rw less (le_refl y)
      | inr not_less ↦ rw not_less (le_of_not_lt x y not_less)
    ]

    clamped-le : (x : Float) → fle (gate_open_min_interval_s fl) (clamped fl x) ≡ true
    clamped-le x =
        let m = max fl x (gate_open_min_interval_s fl) in
        elim (Bool-cases (flt (gate_open_max_interval_s fl) m)) [
          | inl over ↦ rw over intervals
          | inr fits ↦ rw fits (max-le x (gate_open_min_interval_s fl))
        ]

    rescheduled-Late :
        (last t_pg t_go : Option Float) (delta_old delta_new : Float) (closed : Bool)
        → Late last t_pg t_go
        → Late last t_pg (rescheduled fl c delta_old delta_new t_pg t_go closed)
    rescheduled-Late none none none delta_old delta_new closed h = tt
    rescheduled-Late none (some p) none delta_old delta_new closed h = tt
    rescheduled-Late none none (some g) delta_old delta_new closed h = absurd h
    rescheduled-Late none (some p) (some g) delta_old delta_new closed h = absurd h
    rescheduled-Late (some last) none t_go delta_old delta_new closed h = absurd h
    rescheduled-Late (some last) (some p) none delta_old delta_new closed h = absurd h
    rescheduled-Late (some last) (some p) (some g) delta_old delta_new true h = h
    rescheduled-Late (some last) (some p) (some g) delta_old delta_new false h = (
      h.0,
      rw h.0 (
          fadd_mono last (gate_open_min_interval_s fl) (clamped fl _)
            (clamped-le (fmul (fdiv delta_old delta_new) (fsub g last)))),
    )

    -- What a call keeps.
    abbrev Kept : Option Float → List Float × GateKeeper fl → Type 0
    Kept last (ts, g) = AllApart last ts × Inv (latest last ts) g

    quiet-Kept : (last : Option Float) (g : GateKeeper fl) → Inv last g → Kept last ([], g)
    quiet-Kept none g inv = (tt, inv)
    quiet-Kept (some last) g inv = (tt, inv)

    opened-Apart :
        (last t_pg t_go : Option Float) (t : Float)
        → Late last t_pg t_go
        → open_from fl c t t_go ≡ true
        → AllApart last (t ∷ [])
    opened-Apart none t_pg none t h opened = tt
    opened-Apart none t_pg (some g) t h opened = absurd h
    opened-Apart (some last) none t_go t h opened = absurd h
    opened-Apart (some last) (some p) none t h opened = absurd h
    opened-Apart (some last) (some p) (some g) t h opened =
        le_trans _ _ t (fsub_mono (t_epsilon fl) (fadd last (gate_open_min_interval_s fl)) g h.1)
          opened

    admit-Kept :
        (last : Option Float) (t t_on : Float) (g : GateKeeper fl)
        → Inv last g
        → Kept last (step (admit t t_on) g)
    unfolding step admit_packet is_open
    admit-Kept last t t_on g inv = elim (Bool-cases (fle t_on (of_int 0))) [
      | inl refused ↦ rw refused (quiet-Kept last g inv)
      | inr positive ↦ elim (Bool-cases (open_from fl c t g.t_go)) [
        | inr closed ↦ rw (positive, closed) (quiet-Kept last g inv)
        | inl opened ↦ elim (Bool-cases (is_zero g.delta)) [
          | inl zero_delta ↦ absurd (cc (zero_le g.delta zero_delta, inv.positive))
          | inr divides ↦
              rw (positive, opened, divides)
                (
                  opened-Apart last g.t_pg g.t_go t inv.late opened,
                  record {
                    positive = inv.positive;
                    late = (
                      refl,
                      fadd_mono t (gate_open_min_interval_s fl) (clamped fl (fdiv t_on g.delta))
                          (clamped-le (fdiv t_on g.delta)),
                    );
                  },
                )
        ]
      ]
    ]

    change-Kept :
        (last : Option Float) (t delta_new : Float) (g : GateKeeper fl)
        → Inv last g
        → Kept last (step (change t delta_new) g)
    unfolding step update_delta is_open
    change-Kept last t delta_new g inv = elim (Bool-cases (fle delta_new (of_int 0))) [
      | inl refused ↦ rw refused (quiet-Kept last g inv)
      | inr positive ↦ rw positive (
          quiet-Kept last _ (record {
            positive = positive;
            late =
                rescheduled-Late last g.t_pg g.t_go g.delta delta_new (open_from fl c t g.t_go)
                  inv.late;
          }))
    ]

    step-Kept :
        (last : Option Float) (call : Call) (g : GateKeeper fl)
        → Inv last g
        → Kept last (step call g)
    step-Kept last (admit t t_on) g inv = admit-Kept last t t_on g inv
    step-Kept last (change t delta_new) g inv = change-Kept last t delta_new g inv

    run-Spaced :
        (last : Option Float) (calls : List Call) (g : GateKeeper fl)
        → Inv last g
        → Spaced last calls g
    unfolding Spaced
    run-Spaced last [] g inv = tt
    run-Spaced last (call ∷ calls) g inv =
        let kept = step-Kept last call g inv in
        (kept.0, run-Spaced (latest last (step call g).0) calls (step call g).1 kept.1)

  -- Whatever packets are offered to a new gate keeper with a positive duty cycle, and however the duty
  -- cycle is changed between them, at whatever times: the time at which a packet is admitted is not
  -- before that of the packet admitted last plus the shortest interval of 25 ms, up to the tolerance.
  -- The floats are totally ordered, and addition and subtraction keep the order.
  pub calls-Spaced :
      IsOrdered
      → (delta : Float) (calls : List Call) → fle delta (of_int 0) ≡ false
      → Spaced none calls (new_gate fl delta)
  calls-Spaced order delta calls positive =
      run-Spaced order none calls (new_gate fl delta) (record { positive = positive; late = tt })
