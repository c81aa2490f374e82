-- ===== src/Core/Numbers.antt =====
-- The number types that the program computes with and does not implement: `double`, and the fixed-point
-- `Decimal`, which is the third-party `fpm::fixed<int64_t, __int128, 32>`. They are an interface;
-- what a theorem needs of them it states as hypotheses.
use trading_engine.Base.{ℕ, ◌^◌, Bool, if◌then◌else◌}
use trading_engine.Base.Int.{ℤ, pos}

pub record Numbers : Type 1 where
  pub Double : Type 0
  pub Decimal : Type 0
  -- `fpm`: the raw value, and arithmetic.
  pub from_raw_value : ℤ → Decimal
  pub raw_value : Decimal → ℤ
  pub plus : Decimal → Decimal → Decimal
  pub minus : Decimal → Decimal → Decimal
  pub times : Decimal → Decimal → Decimal
  pub same : Decimal → Decimal → Bool
  pub below : Decimal → Decimal → Bool
  -- `double`: conversions, arithmetic and comparison; `literal m e` is the constant m / 10 ^ e.
  pub of_integer : ℤ → Double
  pub truncate : Double → ℤ
  pub literal : ℕ → ℕ → Double
  pub add : Double → Double → Double
  pub sub : Double → Double → Double
  pub mul : Double → Double → Double
  pub div : Double → Double → Double
  pub less : Double → Double → Bool
  pub round : Double → Double
  pub pow : Double → Double → Double

module _ (n : Numbers) where
  open n use {
    Double, Decimal, from_raw_value, raw_value, of_integer, truncate, mul, div, less, literal,
    round, pow,
  }

  -- `static_cast<double>(1ULL << 32)`
  unfoldable pub scale : Double
  scale = of_integer (pos (2 ^ 32))

  unfoldable pub to_decimal : Double → Decimal
  unfolding scale
  to_decimal value = from_raw_value (truncate (mul value scale))

  unfoldable pub to_double : Decimal → Double
  unfolding scale
  to_double value = div (of_integer (raw_value value)) scale

  -- `Decimal(0)`
  abbrev pub zero_decimal : Decimal
  zero_decimal = from_raw_value (pos 0)

  -- `std::max` and `std::min`
  abbrev pub std_max : Double → Double → Double
  std_max a b = if less a b then b else a

  abbrev pub std_min : Double → Double → Double
  std_min a b = if less b a then b else a
