-- ===== src/Main/Laws/LiveOrder.antt =====
-- In which order `runLive` of src/main.cpp starts, feeds and stops the components.
use Prim.Native.String.{String}
use trading_engine.Base.{
  ◌>>=◌, ℕ, ◌≡◌, ◌⊎◌, inl, inr, refl, ◌∙◌, Bool, true, false, not, List, [], ◌∷◌, ◌++◌, Option,
  none, some, arith, if◌then◌else◌, OnSome,
}
use mathlib.Core.Path.{subst}
use trading_engine.Core.Numbers.{Numbers}
use trading_engine.Core.Structs.{Tick}
use trading_engine.App.{AppConfig, is_empty_text}
use trading_engine.Main.{
  Event, open_log, open_bridge, shut_down, create_market_gateway, on_market_tick, open_engine,
}
use trading_engine.Main.Live.{
  LiveHost, exchange_config, open_gateway, subscriptions, subscribe_all, open_user_stream, bridge,
  close_user_stream, run_live, opened, after_gateway, starting, bridging, closing,
}
use trading_engine.Main.Laws.Phases.{
  setup, running, feeding, feed_closed, stopped, runs, runs_through,
}
use trading_engine.Main.Laws.Segments.{
  Stays, append-Stays, open_log-Stays, open_bridge-Stays, on_market_tick-Stays, open_engine-Stays,
}

module _ (n : Numbers) where
  open n use {Decimal}

  open_gateway-Stays : (cfg : AppConfig n) → Stays n true setup (open_gateway n cfg)
  open_gateway-Stays cfg = ground arith

  subscriptions-Stays : (symbols : List String) → Stays n true setup (subscriptions n symbols)
  subscriptions-Stays [] = refl
  subscriptions-Stays (s ∷ rest) = subscriptions-Stays rest

  subscribe_all-Stays : (cfg : AppConfig n) → Stays n true setup (subscribe_all n cfg)
  subscribe_all-Stays cfg = by_symbols cfg.exchange_symbols
    where
      by_symbols :
          (symbols : List String)
          → Stays n true setup (subscribe_all n (record cfg { exchange_symbols = symbols }))
      by_symbols [] = refl
      by_symbols (s ∷ rest) = subscriptions-Stays rest

  open_user_stream-Stays :
      (host : LiveHost Decimal) (cfg : AppConfig n)
      → Stays n true running (open_user_stream n host cfg)
  open_user_stream-Stays host cfg = ground arith

  close_user_stream-Stays :
      (host : LiveHost Decimal) (cfg : AppConfig n)
      → Stays n true feed_closed (close_user_stream n host cfg)
  close_user_stream-Stays host cfg = ground arith

  bridge-Stays : (ticks : List (Bool × Tick Decimal)) → Stays n true feeding (bridge n ticks)
  bridge-Stays [] = refl
  bridge-Stays ((log, tick) ∷ rest) =
      append-Stays n true feeding (on_market_tick n log tick) (bridge n rest)
        (on_market_tick-Stays n log tick).0 (bridge-Stays rest)

  -- From the market gateway's start to the end.
  bridging-runs :
      (host : LiveHost Decimal) (cfg : AppConfig n)
      → runs n true running (bridging n host cfg) ≡ some stopped
  bridging-runs host cfg =
      runs_through n true feeding feeding (bridge n host.popped) (closing n host cfg)
        (bridge-Stays host.popped)
      ∙ runs_through n true feed_closed feed_closed (close_user_stream n host cfg) (shut_down n)
          (close_user_stream-Stays host cfg)

  after_gateway-runs :
      (host : LiveHost Decimal) (cfg : AppConfig n)
      → runs n true setup (after_gateway n host cfg) ≡ some stopped
  after_gateway-runs host cfg =
      runs_through n true setup setup (subscribe_all n cfg) (starting n host cfg)
        (subscribe_all-Stays cfg)
      ∙ runs_through n true running running (open_user_stream n host cfg) (bridging n host cfg)
          (open_user_stream-Stays host cfg)
      ∙ bridging-runs host cfg

  opened-Stays :
      (cfg : AppConfig n) (engine : List (Event n))
      → Stays n true setup engine
      → Stays n true setup (opened n cfg engine)
  opened-Stays cfg engine h =
      append-Stays n true setup (open_log n cfg) (open_bridge n cfg ++ engine)
        (open_log-Stays n true cfg)
        (append-Stays n true setup (open_bridge n cfg) engine (open_bridge-Stays n true cfg) h)

  -- Either all was started and stopped, or nothing was started.
  abbrev pub IsOrdered : ℕ × List (Event n) → Type 0
  IsOrdered (code, es) =
      ((code ≡ 0) × (runs n true setup es ≡ some stopped))
      ⊎ ((code ≡ 1) × (runs n true setup es ≡ some setup))

  live-IsOrdered :
      (host : LiveHost Decimal) (cfg : AppConfig n) (engine : List (Event n))
      (no_url no_market : Bool)
      → Stays n true setup engine
      → OnSome IsOrdered (
          if no_url
          then some (1, opened n cfg engine)
          else if no_market
          then some (
            1,
            opened n cfg engine
                ++ (open_gateway n cfg
                    ++ create_market_gateway cfg.exchange_name (exchange_config n cfg) ∷ []),
          )
          else some (0, opened n cfg engine ++ (open_gateway n cfg ++ after_gateway n host cfg)))
  live-IsOrdered host cfg engine true no_market h = inr (refl, opened-Stays cfg engine h)
  live-IsOrdered host cfg engine false true h = inr (
    refl,
    append-Stays n true setup (opened n cfg engine) _ (opened-Stays cfg engine h)
        (append-Stays n true setup (open_gateway n cfg) _ (open_gateway-Stays cfg) refl),
  )
  live-IsOrdered host cfg engine false false h = inl (
    refl,
    runs_through n true setup setup (opened n cfg engine) _ (opened-Stays cfg engine h)
        ∙ runs_through n true setup setup (open_gateway n cfg) _ (open_gateway-Stays cfg)
        ∙ after_gateway-runs host cfg,
  )

  engine-IsOrdered :
      (host : LiveHost Decimal) (cfg : AppConfig n) (o : Option (List (Event n)))
      → OnSome (Stays n true setup) o
      → OnSome IsOrdered (
          o >>= λ engine.
          if is_empty_text cfg.exchange_url
          then some (1, opened n cfg engine)
          else if not (host.gateway_made cfg.exchange_name (exchange_config n cfg))
          then some (
            1,
            opened n cfg engine
                ++ (open_gateway n cfg
                    ++ create_market_gateway cfg.exchange_name (exchange_config n cfg) ∷ []),
          )
          else some (0, opened n cfg engine ++ (open_gateway n cfg ++ after_gateway n host cfg)))
  engine-IsOrdered host cfg none h = tt
  engine-IsOrdered host cfg (some engine) h = live-IsOrdered host cfg engine _ _ h

  -- If `runLive` returns, then either it returns 0 and its calls go through all phases in order:
  -- the engine, the order gateway and the market gateway are started, ticks are handed on only
  -- after that and before the market gateway is stopped, and the order gateway, the engine, the
  -- bridge and the log are stopped after it in this order; or it returns 1 and nothing was started,
  -- stopped or handed on.
  pub run_live-IsOrdered :
      (host : LiveHost Decimal) (cfg : AppConfig n) {r : ℕ × List (Event n)}
      → run_live n host cfg ≡ some r
      → IsOrdered r
  run_live-IsOrdered host cfg e =
      subst (OnSome IsOrdered) e
        (engine-IsOrdered host cfg (open_engine n cfg) (open_engine-Stays n true cfg))
