-- ===== src/Examples/Congestion.antt =====
-- The theorems on congestion control at concrete arguments: ratios in hundredths.
use flex_stack.Prelude.{
  ℕ, ◌+◌, ◌-◌, ◌*◌, ◌/◌, ◌≡◌, ◌==◌, ◌⊎◌, ◌&&◌, refl, List, [], ◌∷◌, true, false, none, ok, err,
  value_error, leb, ltb, arith,
}
use flex_stack.Floats.{Floats}
use flex_stack.Dcc.Adaptive.{
  Comparisons, DccAdaptive, default_parameters, new_dcc, new_gate, is_ratio, update,
}
use flex_stack.Dcc.Adaptive.Bounds.{IsWithin, update-IsWithin}
use flex_stack.Dcc.Adaptive.Spacing.{IsOrdered, Call, admit, change, Spaced, calls-Spaced}
use flex_stack.Dcc.{Ratios, DccReactive, restrictive, table_a1, target_state}
use flex_stack.Dcc.Convergence.{update_times, update_times-target}

abbrev percent : Ratios
percent = record { Ratio = ℕ; hundredths = λ n. n; le = leb; lt = ltb }

abbrev busy : DccReactive
busy = record { table = table_a1; state = restrictive }

update_times-target_example :
    (update_times percent 5 35 busy).state ≡ target_state percent busy.table 35
update_times-target_example = update_times-target percent 5 35 busy refl (omega arith)

-- Fixed-point numbers with nine decimal digits in the place of floats.
abbrev nano : Floats
nano = record {
  Float = ℕ;
  of_int = λ n. n * 1000000000;
  fadd = ◌+◌;
  fsub = ◌-◌;
  fmul = λ x y. x * y / 1000000000;
  fdiv = λ x y. x * 1000000000 / y;
  flt = ltb;
}

abbrev compared : Comparisons nano
compared = record { fle = leb; is_zero = λ x. x == 0 }

nano-IsOrdered : IsOrdered nano compared
nano-IsOrdered = record {
  le_refl = λ x. ground arith;
  le_trans = λ x y z a b. ground arith;
  le_of_not_lt = λ x y h. ground arith;
  le_of_lt = λ x y h. ground arith;
  fadd_mono = λ t x y h. ground arith;
  fsub_mono = λ t x y h. ground arith;
  zero_le = λ x h. ground arith;
  intervals = refl;
}

-- A packet of 1 ms, a higher duty cycle 10 ms later, a packet that comes too early and one that does not.
abbrev offers : List (Call nano compared)
offers =
    admit 0 1000000
    ∷ change 10000000 20000000
    ∷ admit 20000000 1000000
    ∷ admit 60000000 1000000
    ∷ []

calls-Spaced_example : Spaced nano compared none offers (new_gate nano 10000000)
calls-Spaced_example = calls-Spaced nano compared nano-IsOrdered 10000000 offers refl

abbrev standard : DccAdaptive nano
standard = new_dcc nano (default_parameters nano)

update-IsWithin_example :
    let (answer, d') = update nano compared 500000000 400000000 none none standard in
    ((is_ratio nano compared 500000000 && is_ratio nano compared 400000000 ≡ true)
      × (answer ≡ ok d'.delta)
      × IsWithin nano 600000 30000000 d'.delta)
    ⊎ ((is_ratio nano compared 500000000 && is_ratio nano compared 400000000 ≡ false)
        × (answer ≡ err value_error)
        × (d' ≡ standard))
update-IsWithin_example =
    update-IsWithin nano compared 500000000 400000000 none none standard refl refl refl
