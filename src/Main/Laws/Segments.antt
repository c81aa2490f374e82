-- ===== src/Main/Laws/Segments.antt =====
-- The parts of a trace that `runLive` and `runFileReplay` of src/main.cpp have in common.
use Prim.Native.String.{String}
use trading_engine.Base.{
  ◌>>=◌, ◌≡◌, refl, ◌∙◌, Bool, true, false, List, [], ◌∷◌, ◌++◌, Option, none, some, arith,
  if◌then◌else◌, OnSome,
}
use trading_engine.Core.Numbers.{Numbers, to_decimal}
use trading_engine.Core.Structs.{Tick}
use trading_engine.Config.{ExchangeConfig}
use trading_engine.App.{AppConfig, StrategyCfg}
use trading_engine.Grid.{Grid, construct}
use trading_engine.Main.{
  Event, register_strategies, open_log, open_bridge, grid_config, register_strategy, warn_unknown,
  is_grid, update_risk_parameters, set_available_capital, create_order_gateway, on_market_tick,
  open_engine,
}
use trading_engine.Main.Laws.Phases.{Phase, setup, running, feeding, runs, runs_through}

module _ (n : Numbers) where
  open n use {Decimal}

  -- A part of a trace that may be made in a phase, and ends in it.
  abbrev pub Stays : (live : Bool) → Phase → List (Event n) → Type 0
  Stays live p es = runs n live p es ≡ some p

  pub append-Stays :
      (live : Bool) (p : Phase) (xs ys : List (Event n))
      → Stays live p xs
      → Stays live p ys
      → Stays live p (xs ++ ys)
  append-Stays live p xs ys hx hy = runs_through n live p p xs ys hx ∙ hy

  pub open_log-Stays : (live : Bool) (cfg : AppConfig n) → Stays live setup (open_log n cfg)
  open_log-Stays true cfg = ground arith
  open_log-Stays false cfg = ground arith

  pub open_bridge-Stays : (live : Bool) (cfg : AppConfig n) → Stays live setup (open_bridge n cfg)
  open_bridge-Stays true cfg = refl
  open_bridge-Stays false cfg = refl

  pub create_order_gateway-Stays :
      (live : Bool) (cfg : ExchangeConfig) (client simulate : Bool)
      → Stays live setup (create_order_gateway n cfg client simulate)
  create_order_gateway-Stays true cfg client simulate = ground arith
  create_order_gateway-Stays false cfg client simulate = ground arith

  pub on_market_tick-Stays :
      (log : Bool) (tick : Tick Decimal)
      → Stays true feeding (on_market_tick n log tick)
        × Stays false running (on_market_tick n log tick)
  on_market_tick-Stays true tick = (refl, refl)
  on_market_tick-Stays false tick = (refl, refl)

  register-Stays :
      (live b : Bool) (made : Option (Grid n)) (type : String) (rest : Option (List (Event n)))
      → OnSome (Stays live setup) rest
      → OnSome (Stays live setup) (
          (if b then (made >>= λ g. some (register_strategy g)) else some (warn_unknown type))
          >>= λ first. rest >>= λ others. some (first ∷ others))
  register-Stays live true none type rest h = tt
  register-Stays live true (some g) type none h = tt
  register-Stays true true (some g) type (some others) h = h
  register-Stays false true (some g) type (some others) h = h
  register-Stays live false made type none h = tt
  register-Stays true false made type (some others) h = h
  register-Stays false false made type (some others) h = h

  register_strategies-Stays :
      (live : Bool) (strategies : List (StrategyCfg n))
      → OnSome (Stays live setup) (register_strategies n strategies)
  register_strategies-Stays true [] = refl
  register_strategies-Stays false [] = refl
  register_strategies-Stays live (sc ∷ rest) =
      register-Stays live (is_grid n sc) (construct n (grid_config n sc)) sc.type
        (register_strategies n rest) (register_strategies-Stays live rest)

  pub open_engine-Stays :
      (live : Bool) (cfg : AppConfig n) → OnSome (Stays live setup) (open_engine n cfg)
  open_engine-Stays live cfg =
      by_strategies live (register_strategies n cfg.strategies)
        (register_strategies-Stays live cfg.strategies)
    where
      by_strategies :
          (live : Bool) (o : Option (List (Event n)))
          → OnSome (Stays live setup) o
          → OnSome (Stays live setup) (
              o >>= λ strategies. some (
                update_risk_parameters cfg.risk_params
                ∷ set_available_capital (to_decimal n cfg.initial_capital)
                ∷ strategies))
      by_strategies live none h = tt
      by_strategies true (some es) h = h
      by_strategies false (some es) h = h
