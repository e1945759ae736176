-- ===== src/Floats.antt =====
-- Python's floats: a type with the operations that the modelled code uses. Nothing is assumed of
-- them here; a theorem that needs an order of them says so.
use flex_stack.Prelude.{ℕ, Bool}
use flex_stack.Prelude.Int.{ℤ}

pub record Floats : Type 1 where
  pub Float : Type 0
  -- `float(n)`
  pub of_int : ℕ → Float
  pub fadd : Float → Float → Float
  pub fsub : Float → Float → Float
  pub fmul : Float → Float → Float
  pub fdiv : Float → Float → Float
  -- `x < y`
  pub flt : Float → Float → Bool

-- What the code takes of Python's `math`, with integers made into floats and `x <= y`.
pub record Trig (fl : Floats) : Type 0 where
  pub of_ℤ : ℤ → fl.Float
  pub pi : fl.Float
  pub radians : fl.Float → fl.Float
  pub sin : fl.Float → fl.Float
  pub cos : fl.Float → fl.Float
  -- `x ** 2`
  pub square : fl.Float → fl.Float
  pub sqrt : fl.Float → fl.Float
  pub atan2 : fl.Float → fl.Float → fl.Float
  pub fle : fl.Float → fl.Float → Bool
