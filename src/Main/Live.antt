-- ===== src/Main/Live.antt =====
-- `runLive` of src/main.cpp, the variant with CHRONOS_HAS_LIVE_MODE. The bridge thread is a sequence of
-- its own; its calls stand where it is joined.
use Prim.Native.String.{String}
use trading_engine.Base.{
  ◌>>=◌, ℕ, Bool, false, not, ◌&&◌, List, [], ◌∷◌, ◌++◌, Option, some, if◌then◌else◌,
}
use trading_engine.Core.Numbers.{Numbers}
use trading_engine.Core.Structs.{Tick}
use trading_engine.Config.{ExchangeConfig, default_exchange_config}
use trading_engine.App.{AppConfig, is_empty_text, to_unsigned}
use trading_engine.Main.{
  Event, open_log, open_bridge, open_engine, create_order_gateway, on_market_tick, shut_down,
  start_engine, start_gateway, set_http_client, create_market_gateway, subscribe, start_user_stream,
  stop_user_stream, set_user_stream, start_market_gateway, stop_market_gateway,
}

pub record LiveHost (D : Type 0) : Type 0 where
  -- Whether `createGatewayV2` gives a gateway, and whether the user stream starts and still runs at the end.
  pub gateway_made : String → ExchangeConfig → Bool
  pub stream_starts : Bool
  pub stream_is_running : Bool
  -- What the bridge thread pops until it is stopped, each with whether the log writer runs then.
  pub popped : List (Bool × Tick D)

module _ (n : Numbers) where
  open n use {Decimal}

  -- The exchange settings of `runLive`; the port goes to 16 bits.
  abbrev pub exchange_config : AppConfig n → ExchangeConfig
  exchange_config cfg = record default_exchange_config {
    name = cfg.exchange_name;
    websocket_url = cfg.exchange_url;
    rest_url = cfg.rest_url;
    user_stream_url = cfg.user_stream_url;
    proxy_host = cfg.proxy_host;
    proxy_port = to_unsigned 16 cfg.proxy_port;
    api_key = cfg.exchange_api_key;
    api_secret = cfg.exchange_api_secret;
    symbols = cfg.exchange_symbols;
  }

  -- `useRealExecution`
  abbrev pub use_real_execution : AppConfig n → Bool
  use_real_execution cfg =
      not cfg.force_simulate
      && not (is_empty_text cfg.exchange_api_key)
      && not (is_empty_text cfg.exchange_api_secret)

  -- The gateway is made while the client is still null; the client follows by its setter.
  abbrev pub open_gateway : AppConfig n → List (Event n)
  open_gateway cfg =
      create_order_gateway n (exchange_config cfg) false (not (use_real_execution cfg))
      ++ (if use_real_execution cfg then set_http_client ∷ [] else [])

  abbrev pub subscriptions : List String → List (Event n)
  subscriptions [] = []
  subscriptions (symbol ∷ rest) = subscribe symbol ∷ subscriptions rest

  abbrev pub subscribe_all : AppConfig n → List (Event n)
  subscribe_all cfg = elim cfg.exchange_symbols [
    | [] ↦ subscribe "btcusdt" ∷ []
    | s ∷ rest ↦ subscriptions (s ∷ rest)
  ]

  abbrev pub open_user_stream : LiveHost Decimal → AppConfig n → List (Event n)
  open_user_stream host cfg =
      if use_real_execution cfg
      then start_user_stream ∷ set_user_stream (not host.stream_starts) ∷ []
      else []

  -- `md_bridge`
  abbrev pub bridge : List (Bool × Tick Decimal) → List (Event n)
  bridge [] = []
  bridge ((log_is_running, tick) ∷ rest) = on_market_tick n log_is_running tick ++ bridge rest

  abbrev pub close_user_stream : LiveHost Decimal → AppConfig n → List (Event n)
  close_user_stream host cfg =
      if use_real_execution cfg && host.stream_is_running then stop_user_stream ∷ [] else []

  -- The calls after the order gateway is made, from the last part to the first: the shutdown, the bridge,
  -- the start, and the subscriptions.
  abbrev pub closing : LiveHost Decimal → AppConfig n → List (Event n)
  closing host cfg = stop_market_gateway ∷ (close_user_stream host cfg ++ shut_down n)

  abbrev pub bridging : LiveHost Decimal → AppConfig n → List (Event n)
  bridging host cfg = start_market_gateway ∷ (bridge host.popped ++ closing host cfg)

  abbrev pub starting : LiveHost Decimal → AppConfig n → List (Event n)
  starting host cfg =
      start_engine ∷ start_gateway ∷ (open_user_stream host cfg ++ bridging host cfg)

  abbrev pub after_gateway : LiveHost Decimal → AppConfig n → List (Event n)
  after_gateway host cfg =
      create_market_gateway cfg.exchange_name (exchange_config cfg)
      ∷ (subscribe_all cfg ++ starting host cfg)

  abbrev pub opened : AppConfig n → (engine : List (Event n)) → List (Event n)
  opened cfg engine = open_log n cfg ++ (open_bridge n cfg ++ engine)

  abbrev pub run_live : LiveHost Decimal → AppConfig n → Option (ℕ × List (Event n))
  run_live host cfg = open_engine n cfg >>= λ engine.
      if is_empty_text cfg.exchange_url
      then some (1, opened cfg engine)
      else if not (host.gateway_made cfg.exchange_name (exchange_config cfg))
      then some (
        1,
        opened cfg engine
            ++ (open_gateway cfg
                ++ create_market_gateway cfg.exchange_name (exchange_config cfg) ∷ []),
      )
      else some (0, opened cfg engine ++ (open_gateway cfg ++ after_gateway host cfg))

  -- What is built where the library has no IO layer.
  abbrev pub run_live_without_io : AppConfig n → ℕ × List (Event n)
  run_live_without_io cfg = (1, [])
