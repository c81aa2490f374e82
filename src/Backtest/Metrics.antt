-- ===== src/Backtest/Metrics.antt =====
-- The data of include/chronos/backtest/metrics.hpp.
use trading_engine.Base.{ℕ, List, []}
use trading_engine.Core.Enums.{OrderSide}
use trading_engine.Core.Numbers.{Numbers, zero_decimal}

module _ (n : Numbers) where
  open n use {Double, Decimal, literal}

  pub record Trade : Type 0 where
    pub entry_time_us : ℕ
    pub exit_time_us : ℕ
    pub symbol_id : ℕ
    pub entry_price : Decimal
    pub exit_price : Decimal
    pub quantity : Decimal
    pub pnl : Decimal
    pub direction : OrderSide

  pub record MetricsCollector : Type 0 where
    pub trades : List Trade
    pub equity_snaps : List (ℕ × Decimal)
    pub total_return : Decimal
    pub annualized_return : Double
    pub sharpe_ratio : Double
    pub sortino_ratio : Double
    pub calmar_ratio : Double
    pub max_drawdown : Decimal
    pub max_drawdown_pct : Double
    pub max_dd_duration_us : ℕ
    pub win_rate : Double
    pub profit_factor : Double
    pub avg_win : Decimal
    pub avg_loss : Decimal
    pub winning_trades : ℕ
    pub losing_trades : ℕ
    pub equity_curve : List (ℕ × Double)
    pub drawdown_curve : List (ℕ × Double)

  abbrev pub new_metrics : MetricsCollector
  new_metrics = record {
    trades = [];
    equity_snaps = [];
    total_return = zero_decimal n;
    annualized_return = literal 0 0;
    sharpe_ratio = literal 0 0;
    sortino_ratio = literal 0 0;
    calmar_ratio = literal 0 0;
    max_drawdown = zero_decimal n;
    max_drawdown_pct = literal 0 0;
    max_dd_duration_us = 0;
    win_rate = literal 0 0;
    profit_factor = literal 0 0;
    avg_win = zero_decimal n;
    avg_loss = zero_decimal n;
    winning_trades = 0;
    losing_trades = 0;
    equity_curve = [];
    drawdown_curve = [];
  }
