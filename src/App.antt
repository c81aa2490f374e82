-- ===== src/App.antt =====
-- src/app_config.hpp: the settings of the program, from its command line and from a YAML file. gflags and
-- yaml-cpp are interfaces.
pub mod Load
pub mod Laws
pub mod Tests
use Prim.Native.String.{String, len, slice}
use text.Mathlib.Text.{◌==◌ as str_eq}
use trading_engine.Base.{
  ℕ, ◌+◌, ◌-◌, ◌%◌, ◌^◌, Bool, true, false, not, ◌&&◌, List, [], ◌∷◌, Option, none, some, ltb,
  if◌then◌else◌,
}
use trading_engine.Base.Int.{ℤ, pos, negsuc}
use trading_engine.Core.Numbers.{Numbers}
use trading_engine.Config.{RiskParameters, default_risk_parameters}

-- The flags after `ParseCommandLineFlags`, and the first argument that is left.
pub record Flags : Type 0 where
  pub replay : String
  pub date : String
  pub live : Bool
  pub simulate : Bool
  pub exchange : String
  pub config : String
  pub argument : Option String

-- `cfg.x` after `auto x = node["x"].as<T>(fallback)` is total; a subscript of a scalar and a failed
-- conversion without a fallback throw, which is `none`. `environment` is `getenv`.
pub record Yaml (n : Numbers) : Type 1 where
  pub Node : Type 0
  pub load_file : String → Option Node
  pub get : Node → String → Option Node
  pub at : Node → ℕ → Option Node
  pub is_defined : Node → Bool
  pub is_sequence : Node → Bool
  pub items : Node → List Node
  pub size : Node → ℕ
  pub as_double_or : Node → n.Double → n.Double
  pub as_int_or : Node → ℤ → ℤ
  pub as_uint_or : Node → ℕ → ℕ
  pub as_bool_or : Node → Bool → Bool
  pub as_string_or : Node → String → String
  pub as_string : Node → Option String
  pub environment : String → Option String

pub record StrategyCfg (n : Numbers) : Type 0 where
  pub type : String
  pub grid_low : n.Double
  pub grid_high : n.Double
  pub grid_levels : ℤ
  pub quantity : n.Double
  pub symbol_id : ℕ

abbrev pub default_strategy_cfg : (n : Numbers) → StrategyCfg n
default_strategy_cfg n = record {
  type = "";
  grid_low = n.literal 95 0;
  grid_high = n.literal 105 0;
  grid_levels = pos 5;
  quantity = n.literal 1 1;
  symbol_id = 1;
}

pub record ZmqCfg : Type 0 where
  pub endpoint : String
  pub hwm : ℤ
  pub linger : ℤ

pub record AppConfig (n : Numbers) : Type 0 where
  pub config_path : String
  pub log_dir : String
  pub date : String
  pub live_mode : Bool
  pub force_simulate : Bool
  pub strategies : List (StrategyCfg n)
  pub exchange_name : String
  pub exchange_url : String
  pub rest_url : String
  pub user_stream_url : String
  pub exchange_api_key : String
  pub exchange_api_secret : String
  pub proxy_host : String
  pub proxy_port : ℤ
  pub exchange_symbols : List String
  pub risk_params : RiskParameters n
  pub initial_capital : n.Double
  pub output_dir : String
  pub zmq_cfg : ZmqCfg

abbrev pub default_app_config : (n : Numbers) → AppConfig n
default_app_config n = record {
  config_path = "";
  log_dir = "";
  date = "";
  live_mode = false;
  force_simulate = false;
  strategies = [];
  exchange_name = "binance";
  exchange_url = "";
  rest_url = "";
  user_stream_url = "";
  exchange_api_key = "";
  exchange_api_secret = "";
  proxy_host = "";
  proxy_port = pos 0;
  exchange_symbols = [];
  risk_params = default_risk_parameters n;
  initial_capital = n.literal 100000 0;
  output_dir = "./logs";
  zmq_cfg = record { endpoint = "tcp://*:5555"; hwm = pos 10000; linger = pos 1000 };
}

-- `std::string::empty`
abbrev pub is_empty_text : String → Bool
is_empty_text s = str_eq s ""

-- The conversions of an `int` to `uint32_t` and to `uint16_t`.
abbrev pub to_unsigned : ℕ → ℤ → ℕ
to_unsigned bits (pos k) = k % 2 ^ bits
to_unsigned bits (negsuc k) = 2 ^ bits - 1 - k % 2 ^ bits

abbrev pub argument_or : Option String → String → String
argument_or none path = path
argument_or (some s) path = s

-- The result, and the settings after the call.
abbrev pub parse_args : {n : Numbers} → Flags → AppConfig n → Bool × AppConfig n
parse_args flags cfg =
    let copied = record cfg {
      log_dir = flags.replay;
      date = flags.date;
      live_mode = flags.live;
      force_simulate = flags.simulate;
      exchange_name = flags.exchange;
    } in
    let path =
      if not (is_empty_text flags.config)
      then flags.config
      else argument_or flags.argument copied.config_path in
    let done = record copied { config_path = path } in (not (is_empty_text done.config_path), done)
