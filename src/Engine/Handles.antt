-- ===== src/Engine/Handles.antt =====
-- The data of include/chronos/trading/strategy.hpp: what a strategy's context points to, over the types of
-- these components, and the handlers that a strategy need not define.
use trading_engine.Base.{ℕ, List, [], Option, none}

-- A null pointer is `none`; a counter that is pointed to is its number.
pub record StrategyContext (Books Risk Positions Ids Queue : Type 0) : Type 0 where
  pub order_books : Option Books
  pub risk_engine : Option Risk
  pub position_manager : Option Positions
  pub order_id_gen : Option Ids
  pub order_output : Option Queue
  pub orders_submitted : Option ℕ
  pub orders_risk_rejected : Option ℕ
  pub orders_queue_dropped : Option ℕ
  pub timestamp_us : ℕ
  pub current_strategy_id : ℕ

module _ {Books Risk Positions Ids Queue : Type 0} where
  abbrev pub new_context : StrategyContext Books Risk Positions Ids Queue
  new_context = record {
    order_books = none;
    risk_engine = none;
    position_manager = none;
    order_id_gen = none;
    order_output = none;
    orders_submitted = none;
    orders_risk_rejected = none;
    orders_queue_dropped = none;
    timestamp_us = 0;
    current_strategy_id = 0;
  }

  abbrev pub current_timestamp_us : StrategyContext Books Risk Positions Ids Queue → ℕ
  current_timestamp_us ctx = ctx.timestamp_us

-- `Strategy::symbols`, `onLoad`, `onUnload`, `onFill` and `onTimer` where a strategy does not override them, on
-- the strategy's state.
abbrev pub default_symbols : List ℕ
default_symbols = []

abbrev pub default_on_load : {S : Type 0} → S → S
default_on_load s = s

abbrev pub default_on_unload : {S : Type 0} → S → S
default_on_unload s = s

abbrev pub default_on_fill : {S Fill : Type 0} → Fill → S → S
default_on_fill fill s = s

abbrev pub default_on_timer : {S : Type 0} → ℕ → S → S
default_on_timer timestamp_us s = s
