-- ===== src/Formula/Naturals.antt =====
-- A toy arithmetic for the examples: Decimals are natural numbers, and so are ints.
use mizan_labs_v.Prelude.{ℕ, ◌+◌, ◌-◌, ◌*◌, ◌/◌, ◌%◌, ◌^◌, false, some, ltb, ◌==◌, if◌then◌else◌}
use mizan_labs_v.Formula.{Numbers}

abbrev pub naturals : Numbers
naturals = record {
  Decimal = ℕ;
  Plain = ℕ;
  convert = λ p. some p;
  is_nan = λ d. false;
  of_bool = λ b. if b then 1 else 0;
  equal_decimals = λ a b. a == b;
  equal_plains = λ a b. a == b;
  equal_mixed = λ a b. a == b;
  zero_decimal = 0;
  is_zero_plain = λ p. p == 0;
  less = λ a b. ltb a b;
  position = λ d. some d;
  negate = λ d. d;
  plus = λ a b. some (a + b);
  minus = λ a b. some (a - b);
  times = λ a b. some (a * b);
  divide = λ a b. some (a / b);
  modulo = λ a b. some (a % b);
  power = λ a b. some (a ^ b);
}
