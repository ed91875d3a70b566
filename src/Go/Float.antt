-- ===== src/Go/Float.antt =====
-- float64 is not modelled: its values and the operations that the program uses are a parameter.
use telemd.Base.{Bool, Text}
use telemd.Base.Int.{ℤ}
use telemd.Go.Strconv.{WithErr}

pub record Floats : Type 1 where
  pub Float : Type 0
  pub zero : Float
  pub add : Float → Float → Float
  pub sub : Float → Float → Float
  pub mul : Float → Float → Float
  pub div : Float → Float → Float
  -- `float64(x)` of an int64.
  pub of_int : ℤ → Float
  -- `int64(x)`
  pub to_int : Float → ℤ
  -- `strconv.ParseFloat(s, 64)`
  pub parse : Text → WithErr Float
  -- `%f`
  pub format : Float → Text
  -- `==`, which holds of no NaN.
  pub beq : Float → Float → Bool
