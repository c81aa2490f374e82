-- ===== src/Backtest.antt =====
-- include/chronos/backtest: the settings of a backtest and the data that it collects. Bodies are in the
-- library that is linked, but for those of the children.
mod Replayer
mod Metrics
use trading_engine.Base.{ℕ, Bool, true, false, List, []}
use trading_engine.Core.Structs.{Tick, OrderRequest}
use trading_engine.Core.Numbers.{Numbers, zero_decimal}

pub data FillMode : Type 0 where
  immediate next_tick conservative : FillMode

module _ (n : Numbers) where
  open n use {Double, Decimal, literal}

  pub record BacktestConfig : Type 0 where
    pub fill_mode : FillMode
    pub initial_capital : Decimal
    pub maker_fee : Double
    pub taker_fee : Double
    pub record_equity_every_tick : Bool

  abbrev pub default_backtest_config : BacktestConfig
  default_backtest_config = record {
    fill_mode = next_tick;
    initial_capital = zero_decimal n;
    maker_fee = literal 0 0;
    taker_fee = literal 0 0;
    record_equity_every_tick = true;
  }

  -- `BacktestEngine::PendingOrder`.
  pub record WaitingOrder : Type 0 where
    pub order : OrderRequest Decimal
    pub placed_at_us : ℕ

  -- The members of `BacktestEngine` that are its own, next to the components that it owns.
  pub record BacktestState : Type 0 where
    pub orders_submitted : ℕ
    pub orders_risk_rejected : ℕ
    pub orders_queue_dropped : ℕ
    pub pending : List WaitingOrder
    pub current_tick_ts : ℕ
    pub last_tick : Tick Decimal
    pub has_last_tick : Bool
    pub initial_equity : Decimal
