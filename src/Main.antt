-- ===== src/Main.antt =====
-- src/main.cpp: what the program calls of its components, in which order and with which arguments. The
-- components' bodies are in the library that is linked: their answers come from a host.
pub mod Replay
pub mod Live
pub mod Summary
mod Laws
mod Tests
use Prim.Native.String.{String}
use text.Mathlib.Text.{◌==◌ as str_eq}
use trading_engine.Base.{
  ◌>>=◌, ℕ, zero, suc, ◌+◌, Bool, true, false, not, ◌||◌, List, [], ◌∷◌, ◌++◌, Option, none, some,
  if◌then◌else◌,
}
use trading_engine.Base.Int.{ℤ}
use trading_engine.Core.Numbers.{Numbers, to_decimal}
use trading_engine.Core.Structs.{Tick, Fill}
use trading_engine.Config.{ExchangeConfig, LogConfig, RiskParameters, default_log_config}
use trading_engine.App.{
  AppConfig, StrategyCfg, Yaml, Flags, parse_args, is_empty_text, default_app_config,
}
use trading_engine.App.Load.{load_config}
use trading_engine.Grid.{Grid, Config, construct}

-- `ZMQConfig` of include/chronos/logging/zmq_bridge.hpp.
pub record BridgeConfig : Type 0 where
  pub bind_address : String
  pub send_hwm : ℤ
  pub linger_ms : ℤ
  pub queue_capacity : ℕ

module _ (n : Numbers) where
  open n use {Decimal}

  -- One call of a component.
  pub data Event : Type 0 where
    create_directories : String → Event
    initialize_log : String → LogConfig → Event
    initialize_zmq : BridgeConfig → Event
    update_risk_parameters : RiskParameters n → Event
    set_available_capital : Decimal → Event
    register_strategy : Grid n → Event
    warn_unknown : String → Event
    make_gateway : ExchangeConfig → (simulate_fills : Bool) → Event
    set_http_client : Event
    set_user_stream : (is_null : Bool) → Event
    start_user_stream stop_user_stream : Event
    create_market_gateway : String → ExchangeConfig → Event
    subscribe : String → Event
    start_engine start_gateway start_market_gateway : Event
    push_tick publish_tick write_tick : Tick Decimal → Event
    push_fill publish_fill : Fill Decimal → Event
    stop_engine stop_gateway stop_market_gateway stop_zmq flush_log stop_log : Event

  -- `registerStrategies`. A constructor that throws is `none`.
  abbrev pub grid_config : StrategyCfg n → Config n
  grid_config sc = record {
    grid_low = sc.grid_low;
    grid_high = sc.grid_high;
    grid_levels = sc.grid_levels;
    quantity = sc.quantity;
    symbol_id = sc.symbol_id;
  }

  abbrev pub is_grid : StrategyCfg n → Bool
  is_grid sc = str_eq sc.type "grid" || str_eq sc.type "GridStrategy"

  abbrev pub register_one : StrategyCfg n → Option Event
  register_one sc =
      if is_grid sc
      then (construct n (grid_config sc) >>= λ g. some (register_strategy g))
      else some (warn_unknown sc.type)

  abbrev pub register_strategies : List (StrategyCfg n) → Option (List Event)
  register_strategies [] = some []
  register_strategies (sc ∷ rest) = do
    first ← register_one sc
    others ← register_strategies rest
    some (first ∷ others)

  -- `createOrderGateway`, and the callback that it hands over.
  abbrev pub on_gateway_fill : Fill Decimal → List Event
  on_gateway_fill fill = push_fill fill ∷ publish_fill fill ∷ []

  abbrev pub create_order_gateway :
      ExchangeConfig → (http_client simulate_fills : Bool) → List Event
  create_order_gateway ex_cfg true false = make_gateway ex_cfg false ∷ set_http_client ∷ []
  create_order_gateway ex_cfg true true = make_gateway ex_cfg true ∷ []
  create_order_gateway ex_cfg false simulate_fills = make_gateway ex_cfg simulate_fills ∷ []

  -- The start that both modes share: log, bridge, engine.
  abbrev pub open_log : AppConfig n → List Event
  open_log cfg =
      let log_cfg = record default_log_config { log_dir = cfg.output_dir } in
      if not (is_empty_text log_cfg.log_dir)
      then create_directories log_cfg.log_dir ∷ initialize_log log_cfg.log_dir log_cfg ∷ []
      else []

  abbrev pub open_bridge : AppConfig n → List Event
  open_bridge cfg =
      initialize_zmq (record {
        bind_address = cfg.zmq_cfg.endpoint;
        send_hwm = cfg.zmq_cfg.hwm;
        linger_ms = cfg.zmq_cfg.linger;
        queue_capacity = 65536;
      })
      ∷ []

  abbrev pub open_engine : AppConfig n → Option (List Event)
  open_engine cfg = do
    strategies ← register_strategies cfg.strategies
    some (
        update_risk_parameters cfg.risk_params
        ∷ set_available_capital (to_decimal n cfg.initial_capital)
        ∷ strategies)

  -- The shutdown that both modes share.
  abbrev pub shut_down : List Event
  shut_down = stop_gateway ∷ stop_engine ∷ stop_zmq ∷ flush_log ∷ stop_log ∷ []

  -- The callback of both modes for a tick.
  abbrev pub on_market_tick : (log_is_running : Bool) → Tick Decimal → List Event
  on_market_tick true tick = push_tick tick ∷ publish_tick tick ∷ write_tick tick ∷ []
  on_market_tick false tick = push_tick tick ∷ publish_tick tick ∷ []

  -- `main`: the exit code and the calls, for the two modes given as functions.
  abbrev pub main :
      Yaml n
      → Flags
      → (AppConfig n → Option (ℕ × List Event))
      → (AppConfig n → Option (ℕ × List Event))
      → Option (ℕ × List Event)
  main y flags run_live run_file_replay =
      let (ok, cfg) = parse_args flags (default_app_config n) in
      if not ok
      then some (1, [])
      else (load_config y cfg.config_path cfg >>= λ r.
          if not r.0
          then some (1, [])
          else if r.1.live_mode
          then run_live r.1
          else if is_empty_text r.1.log_dir
          then some (1, [])
          else run_file_replay r.1)
