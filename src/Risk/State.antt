-- ===== src/Risk/State.antt =====
-- The members of `RiskEngine` of include/chronos/risk/risk_engine.hpp next to the parameters: the counters of
-- its checks, the rate limiter and the capital.
use trading_engine.Base.{ℕ}
use trading_engine.Base.Int.{ℤ, pos}

pub record RiskStatistics : Type 0 where
  pub total_checks : ℕ
  pub accepted : ℕ
  pub rejected : ℕ
  pub rate_limit_rejects : ℕ
  pub order_value_rejects : ℕ
  pub position_limit_rejects : ℕ
  pub total_position_rejects : ℕ
  pub capital_rejects : ℕ
  pub avg_check_latency : ℕ

abbrev pub default_risk_statistics : RiskStatistics
default_risk_statistics = record {
  total_checks = 0;
  accepted = 0;
  rejected = 0;
  rate_limit_rejects = 0;
  order_value_rejects = 0;
  position_limit_rejects = 0;
  total_position_rejects = 0;
  capital_rejects = 0;
  avg_check_latency = 0;
}

pub record RiskState : Type 0 where
  pub current_second : ℕ
  pub orders_this_second : ℕ
  pub available_capital_raw : ℤ
  pub stats : RiskStatistics

abbrev pub new_risk_state : RiskState
new_risk_state = record {
  current_second = 0;
  orders_this_second = 0;
  available_capital_raw = pos 0;
  stats = default_risk_statistics;
}
