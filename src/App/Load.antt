-- ===== src/App/Load.antt =====
-- `loadConfig` of src/app_config.hpp, a function for each section of the file. `none` is an exception
-- that escapes.
use Prim.Native.String.{String, len, slice}
use text.Mathlib.Text.{◌==◌ as str_eq}
use trading_engine.Base.{
  ◌>>=◌, ◌-◌, Bool, true, false, ◌&&◌, List, [], ◌∷◌, ◌++◌, Option, none, some, ltb, if◌then◌else◌,
}
use trading_engine.Base.Int.{ℤ, pos}
use trading_engine.Core.Numbers.{Numbers}
use trading_engine.App.{
  AppConfig, StrategyCfg, Yaml, default_strategy_cfg, is_empty_text, to_unsigned,
}

module _ {n : Numbers} (y : Yaml n) where
  open n use {Double, literal}
  open y use {
    Node, load_file, get, at, is_defined, is_sequence, items, size, as_double_or, as_int_or,
    as_uint_or, as_bool_or, as_string_or, as_string, environment,
  }

  abbrev pub get_double : Node → String → Double → Option Double
  get_double node key fallback = do child ← get node key; some (as_double_or child fallback)

  abbrev pub get_string : Node → String → String → Option String
  get_string node key fallback = do child ← get node key; some (as_string_or child fallback)

  abbrev pub get_int : Node → String → ℤ → Option ℤ
  get_int node key fallback = do child ← get node key; some (as_int_or child fallback)

  -- `// Engine`
  abbrev pub load_engine : Node → AppConfig n → Option (AppConfig n)
  load_engine root cfg = do
    eng ← get root "engine"
    if is_defined eng
        then (do
          capital ← get_double eng "initial_capital" (literal 100000 0)
          some (record cfg { initial_capital = capital }))
        else some cfg

  abbrev pub with_parameters : Node → StrategyCfg n → Option (StrategyCfg n)
  with_parameters p sc = do
    low ← get_double p "grid_low" (literal 95 0)
    high ← get_double p "grid_high" (literal 105 0)
    levels ← get_int p "grid_levels" (pos 5)
    quantity ← get_double p "quantity" (literal 1 1)
    ids ← get p "symbol_ids"
    first ← at ids 0
    some (record sc {
      grid_low = low;
      grid_high = high;
      grid_levels = levels;
      quantity = quantity;
      symbol_id = as_uint_or first 1;
    })

  -- One entry of `strategies`: nothing if it is not enabled.
  abbrev pub load_strategy : Node → Option (List (StrategyCfg n))
  load_strategy s = do
    flag ← get s "enabled"
    if as_bool_or flag true
        then (do
          name ← get_string s "name" "GridStrategy"
          let sc = record (default_strategy_cfg n) { type = name }
          p ← get s "parameters"
          full ← if is_defined p then with_parameters p sc else some sc
          some (full ∷ []))
        else some []

  abbrev pub load_each : List Node → List (StrategyCfg n) → Option (List (StrategyCfg n))
  load_each [] sofar = some sofar
  load_each (s ∷ rest) sofar = do more ← load_strategy s; load_each rest (sofar ++ more)

  -- `// Strategies`
  abbrev pub load_strategies : Node → AppConfig n → Option (AppConfig n)
  load_strategies root cfg = do
    nodes ← get root "strategies"
    if is_defined nodes && is_sequence nodes
        then (do
          all ← load_each (items nodes) cfg.strategies
          some (record cfg { strategies = all }))
        else some cfg

  abbrev pub or_empty : Option String → String
  or_empty none = ""
  or_empty (some s) = s

  -- `resolveEnv`
  abbrev pub resolve_env : String → String
  resolve_env s =
      if ltb 3 (len s)
        && str_eq (slice s 0 1) "$"
        && str_eq (slice s 1 2) "{"
        && str_eq (slice s (len s - 1) (len s)) "}"
      then or_empty (environment (slice s 2 (len s - 1)))
      else s

  abbrev pub or_keep : Option String → String → String
  or_keep none kept = kept
  or_keep (some s) kept = s

  -- A key of the file, through `resolveEnv`, or the variable of the environment if that is empty.
  abbrev pub resolve_key : String → String → String
  resolve_key variable written =
      let key = resolve_env written in
      if is_empty_text key then or_keep (environment variable) key else key

  abbrev pub load_symbols : List Node → List String → Option (List String)
  load_symbols [] sofar = some sofar
  load_symbols (s ∷ rest) sofar = do symbol ← as_string s; load_symbols rest (sofar ++ symbol ∷ [])

  abbrev pub load_exchange : Node → AppConfig n → Option (AppConfig n)
  load_exchange ex cfg = do
    name ← get_string ex "name" "binance"
    url ← get_string ex "websocket_url" ""
    rest ← get_string ex "rest_url" ""
    stream ← get_string ex "user_stream_url" ""
    host ← get_string ex "proxy_host" ""
    port ← get_int ex "proxy_port" (pos 0)
    key ← get_string ex "api_key" ""
    secret ← get_string ex "api_secret" ""
    nodes ← get ex "symbols"
    symbols ←
        if is_defined nodes && is_sequence nodes
        then load_symbols (items nodes) cfg.exchange_symbols
        else some cfg.exchange_symbols
    some (record cfg {
      exchange_name = name;
      exchange_url = url;
      rest_url = rest;
      user_stream_url = stream;
      proxy_host = host;
      proxy_port = port;
      exchange_api_key = resolve_key "BINANCE_API_KEY" key;
      exchange_api_secret = resolve_key "BINANCE_API_SECRET" secret;
      exchange_symbols = symbols;
    })

  -- `// Exchanges`
  abbrev pub load_exchanges : Node → AppConfig n → Option (AppConfig n)
  load_exchanges root cfg = do
    nodes ← get root "exchanges"
    if is_defined nodes && is_sequence nodes && ltb 0 (size nodes)
        then (do ex ← at nodes 0; load_exchange ex cfg)
        else some cfg

  -- `// Risk`
  abbrev pub load_risk : Node → AppConfig n → Option (AppConfig n)
  load_risk root cfg = do
    r ← get root "risk"
    if is_defined r
        then (do
          order_value ← get_double r "max_order_value" (literal 100000 0)
          position_value ← get_double r "max_position_value" (literal 500000 0)
          per_second ← get_int r "max_orders_per_second" (pos 100)
          total ← get_double r "max_total_position_value" (literal 1000000 0)
          capital ← get_double r "min_available_capital" (literal 10000 0)
          drawdown ← get_double r "max_drawdown_percent" (literal 20 0)
          some (record cfg {
            risk_params = record {
              max_order_value = order_value;
              max_position_value = position_value;
              max_orders_per_second = to_unsigned 32 per_second;
              max_total_position_value = total;
              min_available_capital = capital;
              max_drawdown_percent = drawdown;
            };
          }))
        else some cfg

  -- `// Logging`
  abbrev pub load_log : Node → AppConfig n → Option (AppConfig n)
  load_log root cfg = do
    l ← get root "log"
    if is_defined l
        then (do dir ← get_string l "output_dir" "./logs"; some (record cfg { output_dir = dir }))
        else some cfg

  -- `// ZMQ`
  abbrev pub load_zmq : Node → AppConfig n → Option (AppConfig n)
  load_zmq root cfg = do
    z ← get root "zmq"
    if is_defined z
        then (do
          endpoint ← get_string z "publish_endpoint" "tcp://*:5555"
          hwm ← get_int z "high_water_mark" (pos 10000)
          linger ← get_int z "linger_ms" (pos 1000)
          some
              (record cfg { zmq_cfg = record { endpoint = endpoint; hwm = hwm; linger = linger } }))
        else some cfg

  abbrev pub load_sections : Node → AppConfig n → Option (AppConfig n)
  load_sections root cfg = do
    with_engine ← load_engine root cfg
    with_strategies ← load_strategies root with_engine
    with_exchanges ← load_exchanges root with_strategies
    with_risk ← load_risk root with_exchanges
    with_log ← load_log root with_risk
    load_zmq root with_log

  -- The result and the settings after the call, or an exception.
  abbrev pub load_config : String → AppConfig n → Option (Bool × AppConfig n)
  load_config path cfg = elim (load_file path) [
    | none ↦ some (false, cfg)
    | some root ↦ load_sections root cfg >>= λ loaded. some (true, loaded)
  ]
