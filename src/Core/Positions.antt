-- ===== src/Core/Positions.antt =====
-- The queries of `Position`, and the constructors of price levels, of include/chronos/core/types.hpp, and the
-- data of include/chronos/trading/position_manager.hpp.
use trading_engine.Base.{ℕ, Bool, List, []}
use trading_engine.Base.Int.{ℤ, pos}
use trading_engine.Core.Numbers.{Numbers, zero_decimal, to_decimal}
use trading_engine.Core.Structs.{Position, PriceLevel, OrderBookSnapshot}

module _ (n : Numbers) where
  open n use {Double, Decimal, from_raw_value, plus, minus, times, same, below}

  abbrev pub default_position : Position Decimal
  default_position = record {
    symbol_id = 0;
    quantity = zero_decimal n;
    average_price = zero_decimal n;
    realized_pnl = zero_decimal n;
    last_update_us = 0;
  }

  abbrev pub get_unrealized_pnl : Position Decimal → Decimal → Decimal
  get_unrealized_pnl p current_price = times p.quantity (minus current_price p.average_price)

  abbrev pub get_total_pnl : Position Decimal → Decimal → Decimal
  get_total_pnl p current_price = plus p.realized_pnl (get_unrealized_pnl p current_price)

  abbrev pub is_flat : Position Decimal → Bool
  is_flat p = same p.quantity (zero_decimal n)

  abbrev pub is_long : Position Decimal → Bool
  is_long p = below (zero_decimal n) p.quantity

  abbrev pub is_short : Position Decimal → Bool
  is_short p = below p.quantity (zero_decimal n)

  abbrev pub default_price_level : PriceLevel Decimal
  default_price_level = record { price = zero_decimal n; quantity = zero_decimal n }

  abbrev pub price_level : Decimal → Decimal → PriceLevel Decimal
  price_level p q = record { price = p; quantity = q }

  abbrev pub price_level_of_doubles : Double → Double → PriceLevel Decimal
  price_level_of_doubles p q = record { price = to_decimal n p; quantity = to_decimal n q }

  abbrev pub default_snapshot : OrderBookSnapshot Decimal
  default_snapshot = record { symbol_id = 0; timestamp_us = 0; bids = []; asks = [] }

  -- The members of `PositionManager` of include/chronos/trading/position_manager.hpp; the map is an association
  -- list.
  pub record PositionManager : Type 0 where
    pub positions : List (ℕ × Position Decimal)
    pub total_value_raw : ℤ

  abbrev pub new_position_manager : PositionManager
  new_position_manager = record { positions = []; total_value_raw = pos 0 }

  abbrev pub get_total_value_cached : PositionManager → Decimal
  get_total_value_cached pm = from_raw_value pm.total_value_raw
