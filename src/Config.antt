-- ===== src/Config.antt =====
-- The configuration structures of include/chronos/core/config.hpp with what their constructors put in,
-- over a type J of JSON values and the numbers n.
use Prim.Native.String.{String}
use trading_engine.Base.{ℕ, Bool, true, false, List, []}
use trading_engine.Core.Numbers.{Numbers}

pub record ExchangeConfig : Type 0 where
  pub name : String
  pub websocket_url : String
  pub rest_url : String
  pub user_stream_url : String
  pub proxy_host : String
  pub proxy_port : ℕ
  pub api_key : String
  pub api_secret : String
  pub symbols : List String
  pub reconnect_interval_ms : ℕ
  pub heartbeat_interval_ms : ℕ
  pub timeout_ms : ℕ

abbrev pub default_exchange_config : ExchangeConfig
default_exchange_config = record {
  name = "";
  websocket_url = "";
  rest_url = "";
  user_stream_url = "";
  proxy_host = "";
  proxy_port = 0;
  api_key = "";
  api_secret = "";
  symbols = [];
  reconnect_interval_ms = 5000;
  heartbeat_interval_ms = 30000;
  timeout_ms = 10000;
}

pub record StrategyConfig (J : Type 0) : Type 0 where
  pub name : String
  pub library_path : String
  pub parameters : J
  pub symbol_ids : List ℕ
  pub enabled : Bool

abbrev pub default_strategy_config : {J : Type 0} → J → StrategyConfig J
default_strategy_config null = record {
  name = "";
  library_path = "";
  parameters = null;
  symbol_ids = [];
  enabled = true;
}

pub record RiskParameters (n : Numbers) : Type 0 where
  pub max_order_value : n.Double
  pub max_position_value : n.Double
  pub max_orders_per_second : ℕ
  pub max_total_position_value : n.Double
  pub min_available_capital : n.Double
  pub max_drawdown_percent : n.Double

abbrev pub default_risk_parameters : (n : Numbers) → RiskParameters n
default_risk_parameters n = record {
  max_order_value = n.literal 100000 0;
  max_position_value = n.literal 500000 0;
  max_orders_per_second = 100;
  max_total_position_value = n.literal 1000000 0;
  min_available_capital = n.literal 10000 0;
  max_drawdown_percent = n.literal 20 0;
}

pub record LogConfig : Type 0 where
  pub log_dir : String
  pub buffer_size : ℕ
  pub flush_interval_ms : ℕ
  pub retention_days : ℕ
  pub compress_old_logs : Bool
  pub enable_tick_logging : Bool
  pub enable_order_logging : Bool
  pub enable_fill_logging : Bool
  pub enable_snapshot_logging : Bool

abbrev pub default_log_config : LogConfig
default_log_config = record {
  log_dir = "./logs";
  buffer_size = 65536;
  flush_interval_ms = 100;
  retention_days = 30;
  compress_old_logs = true;
  enable_tick_logging = true;
  enable_order_logging = true;
  enable_fill_logging = true;
  enable_snapshot_logging = false;
}

pub record ZmqConfig : Type 0 where
  pub publish_endpoint : String
  pub high_water_mark : ℕ
  pub linger_ms : ℕ

abbrev pub default_zmq_config : ZmqConfig
default_zmq_config = record {
  publish_endpoint = "tcp://*:5555";
  high_water_mark = 10000;
  linger_ms = 1000;
}

pub record MonitoringConfig : Type 0 where
  pub enable_metrics : Bool
  pub metrics_port : ℕ
  pub enable_health_check : Bool
  pub health_check_port : ℕ
  pub metrics_update_interval_ms : ℕ

abbrev pub default_monitoring_config : MonitoringConfig
default_monitoring_config = record {
  enable_metrics = true;
  metrics_port = 9090;
  enable_health_check = true;
  health_check_port = 8080;
  metrics_update_interval_ms = 1000;
}

pub record SystemConfig (n : Numbers) (J : Type 0) : Type 0 where
  pub exchanges : List ExchangeConfig
  pub strategies : List (StrategyConfig J)
  pub risk_parameters : RiskParameters n
  pub log_config : LogConfig
  pub zmq_config : ZmqConfig
  pub monitoring_config : MonitoringConfig
  pub initial_capital : n.Double
  pub state_file : String

abbrev pub default_system_config : (n : Numbers) {J : Type 0} → SystemConfig n J
default_system_config n = record {
  exchanges = [];
  strategies = [];
  risk_parameters = default_risk_parameters n;
  log_config = default_log_config;
  zmq_config = default_zmq_config;
  monitoring_config = default_monitoring_config;
  initial_capital = n.literal 1000000 0;
  state_file = "./state/system_state.json";
}
