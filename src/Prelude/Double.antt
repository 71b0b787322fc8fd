-- ===== src/Prelude/Double.antt =====
-- The operations of `double` that the program uses. Floating-point numbers are a parameter of the
-- model: its definitions take such a record and assume no law of it.
use odin_analytics.Prelude.Int.{ℤ, ◌+ℤ◌, ◌*ℤ◌, neg_ℤ}

pub record Double : Type 1 where
  pub Number : Type 0
  pub of_int : ℤ → Number
  pub add : Number → Number → Number
  pub mul : Number → Number → Number
  pub div : Number → Number → Number
  pub neg : Number → Number
  pub to_int : Number → ℤ

-- The integers with a division that forgets its denominator: under these operations a year fraction
-- is the number of days that it counts.
abbrev pub numerators : Double
numerators = record {
  Number = ℤ;
  of_int = λ n. n;
  add = ◌+ℤ◌;
  mul = ◌*ℤ◌;
  div = λ a b. a;
  neg = neg_ℤ;
  to_int = λ n. n;
}
