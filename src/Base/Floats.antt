-- ===== src/Base/Floats.antt =====
-- Go's float64, which the model takes as a parameter: a type with the operations that the source
-- uses. Integers stand for the non-negative ones that the source converts.
use Prim.Native.Nat.{ℕ}
use mathlib.Core.Bool.{Bool}

pub record Float64 : Type 1 where
  pub F : Type 0
  pub of_int : ℕ → F
  -- uint64(x) of a non-negative value: the fraction is dropped.
  pub to_int : F → ℕ
  pub ceil : F → F
  pub exp_neg : F → F  -- math.Exp(-x)
  pub add : F → F → F
  pub sub : F → F → F
  pub mul : F → F → F
  pub div : F → F → F
  pub lt : F → F → Bool
  pub le : F → F → Bool
