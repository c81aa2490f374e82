-- ===== src/Core/Whole.antt =====
-- An instance of the number types to evaluate definitions on.
use trading_engine.Base.{◌/◌, ◌^◌, ◌==◌}
use trading_engine.Base.Int.{ℤ, pos, pos_part, ◌+ℤ◌, ◌-ℤ◌, ◌*ℤ◌, ltb_ℤ}
use trading_engine.Core.Numbers.{Numbers}

-- Whole numbers in place of both number types: a `Decimal` is its raw value.
abbrev pub whole : Numbers
whole = record {
  Double = ℤ;
  Decimal = ℤ;
  from_raw_value = λ r. r;
  raw_value = λ d. d;
  plus = ◌+ℤ◌;
  minus = ◌-ℤ◌;
  times = λ a b. pos (pos_part (a *ℤ b) / 2 ^ 32);
  same = λ a b. pos_part a == pos_part b;
  below = ltb_ℤ;
  of_integer = λ i. i;
  truncate = λ d. d;
  literal = λ m e. pos (m / 10 ^ e);
  add = ◌+ℤ◌;
  sub = ◌-ℤ◌;
  mul = ◌*ℤ◌;
  div = λ a b. pos (pos_part a / pos_part b);
  less = ltb_ℤ;
  round = λ d. d;
  pow = λ a b. pos (pos_part a ^ pos_part b);
}
