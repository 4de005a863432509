-- ===== src/Base/Float.antt =====
-- `float64` and the functions of package math that the program calls, with no law assumed.
use Prim.Native.Nat.{ℕ}
use Prim.Native.String.{String}
use mathlib.Core.Bool.{Bool}
use undertow.Base.Int.{ℤ}

pub record FloatOps : Type 1 where
  pub Float : Type 0
  -- `float64(n)` of an unsigned number, and the literals without a fraction
  pub of_nat : ℕ → Float
  pub add : Float → Float → Float
  pub sub : Float → Float → Float
  pub mul : Float → Float → Float
  pub div : Float → Float → Float
  pub abs : Float → Float
  pub sqrt : Float → Float
  pub log2 : Float → Float
  -- `a > b`
  pub gt : Float → Float → Bool
  -- `a == b`
  pub eq : Float → Float → Bool
  -- `int(a)`, any number where Go leaves it open, as for NaN
  pub truncate : Float → ℤ
  -- `%.nf`
  pub fixed : ℕ → Float → String
