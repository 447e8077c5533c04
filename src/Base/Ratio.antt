-- ===== src/Base/Ratio.antt =====
-- Non-negative fractions in place of float64, for the examples: exact, so that they evaluate.
use l7rp.Base.Tests.{ltb, leb}
use l7rp.Base.Floats.{Float64}
use Prim.Native.Nat.{ℕ, ◌+◌, ◌-◌, ◌*◌, ◌/◌}

-- A numerator and a denominator. The exponential is a stand-in that falls from 1 to 0.
abbrev pub ratio : Float64
ratio = record {
  F = ℕ × ℕ;
  of_int = λ n. (n, 1);
  to_int = λ x. x.0 / x.1;
  ceil = λ x. ((x.0 + x.1 - 1) / x.1, 1);
  exp_neg = λ x. (x.1, x.0 + x.1);
  add = λ x y. (x.0 * y.1 + y.0 * x.1, x.1 * y.1);
  sub = λ x y. (x.0 * y.1 - y.0 * x.1, x.1 * y.1);
  mul = λ x y. (x.0 * y.0, x.1 * y.1);
  div = λ x y. (x.0 * y.1, x.1 * y.0);
  lt = λ x y. ltb (x.0 * y.1) (y.0 * x.1);
  le = λ x y. leb (x.0 * y.1) (y.0 * x.1);
}
