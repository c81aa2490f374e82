-- ===== src/Main/Laws/Client.antt =====
-- How `runLive` of src/main.cpp sets up the execution of orders.
use Prim.Native.String.{String}
use text.Mathlib.TextEquality.{eq_iff}
use trading_engine.Base.{
  OnSome, append_nil, ◌>>=◌, ℕ, ◌≡◌, ◌≢◌, ◌⊎◌, inl, inr, refl, sym, ◌&&◌, ◌∙◌, ap, Bool, true,
  false, not, List, [], ◌∷◌, ◌++◌, Option, none, some, arith, if◌then◌else◌,
}
use mathlib.Core.Path.{subst}
use trading_engine.Core.Numbers.{Numbers, to_decimal}
use trading_engine.Core.Structs.{Tick}
use trading_engine.App.{AppConfig, StrategyCfg, is_empty_text}
use trading_engine.Grid.{Grid, construct}
use trading_engine.Main.{
  Event, make_gateway, set_http_client, register_strategies, open_log, open_bridge, grid_config,
  register_strategy, warn_unknown, is_grid, update_risk_parameters, set_available_capital,
  shut_down, create_market_gateway,
}
use trading_engine.Main.Live.{
  LiveHost, use_real_execution, exchange_config, open_gateway, subscriptions, subscribe_all,
  open_user_stream, bridge, close_user_stream, run_live, opened, after_gateway, starting, bridging,
  closing,
}

module _ (n : Numbers) where
  open n use {Decimal}

  -- The calls that decide how orders are executed.
  abbrev pub execution_calls : List (Event n) → List (Event n)
  execution_calls [] = []
  execution_calls (make_gateway cfg simulate ∷ es) = make_gateway cfg simulate ∷ execution_calls es
  execution_calls (set_http_client ∷ es) = set_http_client ∷ execution_calls es
  execution_calls (_ ∷ es) = execution_calls es

  execution_calls-append :
      (xs ys : List (Event n))
      → execution_calls (xs ++ ys) ≡ execution_calls xs ++ execution_calls ys
  execution_calls-append [] ys = refl
  execution_calls-append (make_gateway cfg b ∷ xs) ys =
      ap (λ es. make_gateway cfg b ∷ es) (execution_calls-append xs ys)
  execution_calls-append (set_http_client ∷ xs) ys =
      ap (λ es. set_http_client ∷ es) (execution_calls-append xs ys)
  execution_calls-append (_ ∷ xs) ys = execution_calls-append xs ys

  -- A part of a trace that does not bear on the execution.
  abbrev IsQuiet : List (Event n) → Type 0
  IsQuiet es = execution_calls es ≡ []

  quiet_front :
      (xs ys : List (Event n)) → IsQuiet xs → execution_calls (xs ++ ys) ≡ execution_calls ys
  quiet_front xs ys quiet = execution_calls-append xs ys ∙ ap (λ es. es ++ execution_calls ys) quiet

  open_log-IsQuiet : (cfg : AppConfig n) → IsQuiet (open_log n cfg)
  open_log-IsQuiet cfg = ground arith

  subscriptions-IsQuiet : (symbols : List String) → IsQuiet (subscriptions n symbols)
  subscriptions-IsQuiet [] = refl
  subscriptions-IsQuiet (s ∷ rest) = subscriptions-IsQuiet rest

  subscribe_all-IsQuiet : (cfg : AppConfig n) → IsQuiet (subscribe_all n cfg)
  subscribe_all-IsQuiet cfg = by_symbols cfg.exchange_symbols
    where
      by_symbols :
          (symbols : List String)
          → IsQuiet (subscribe_all n (record cfg { exchange_symbols = symbols }))
      by_symbols [] = refl
      by_symbols (s ∷ rest) = subscriptions-IsQuiet rest

  open_user_stream-IsQuiet :
      (host : LiveHost Decimal) (cfg : AppConfig n) → IsQuiet (open_user_stream n host cfg)
  open_user_stream-IsQuiet host cfg = ground arith

  close_user_stream-IsQuiet :
      (host : LiveHost Decimal) (cfg : AppConfig n) → IsQuiet (close_user_stream n host cfg)
  close_user_stream-IsQuiet host cfg = ground arith

  bridge-IsQuiet : (ticks : List (Bool × Tick Decimal)) → IsQuiet (bridge n ticks)
  bridge-IsQuiet [] = refl
  bridge-IsQuiet ((true, t) ∷ rest) = bridge-IsQuiet rest
  bridge-IsQuiet ((false, t) ∷ rest) = bridge-IsQuiet rest

  register-IsQuiet :
      (b : Bool) (made : Option (Grid n)) (type : String) (rest : Option (List (Event n)))
      → OnSome IsQuiet rest
      → OnSome IsQuiet (
          (if b then (made >>= λ g. some (register_strategy g)) else some (warn_unknown type))
          >>= λ first. rest >>= λ others. some (first ∷ others))
  register-IsQuiet true none type rest h = tt
  register-IsQuiet true (some g) type none h = tt
  register-IsQuiet true (some g) type (some others) h = h
  register-IsQuiet false made type none h = tt
  register-IsQuiet false made type (some others) h = h

  register_strategies-IsQuiet :
      (strategies : List (StrategyCfg n)) → OnSome IsQuiet (register_strategies n strategies)
  register_strategies-IsQuiet [] = refl
  register_strategies-IsQuiet (sc ∷ rest) =
      register-IsQuiet (is_grid n sc) (construct n (grid_config n sc)) sc.type
        (register_strategies n rest) (register_strategies-IsQuiet rest)

  -- What the settings ask for: real execution by an HTTP client, without `--simulate` and with both
  -- API keys; simulated fills else.
  pub data IsAskedFor (cfg : AppConfig n) : List (Event n) → Type 0 where
    real :
        cfg.force_simulate ≡ false
        → cfg.exchange_api_key ≢ ""
        → cfg.exchange_api_secret ≢ ""
        → IsAskedFor cfg (make_gateway (exchange_config n cfg) false ∷ set_http_client ∷ [])
    simulated :
        (cfg.force_simulate ≡ true) ⊎ ((cfg.exchange_api_key ≡ "") ⊎ (cfg.exchange_api_secret ≡ ""))
        → IsAskedFor cfg (make_gateway (exchange_config n cfg) true ∷ [])

  -- The same by the code's test.
  abbrev asked_for : AppConfig n → List (Event n)
  asked_for cfg =
      make_gateway (exchange_config n cfg) (not (use_real_execution n cfg))
      ∷ (if use_real_execution n cfg then set_http_client ∷ [] else [])

  open_gateway_asked : (cfg : AppConfig n) → execution_calls (open_gateway n cfg) ≡ asked_for cfg
  open_gateway_asked cfg = by_mode (use_real_execution n cfg)
    where
      by_mode :
          (real : Bool)
          → execution_calls (
              make_gateway (exchange_config n cfg) (not real)
              ∷ (if real then set_http_client ∷ [] else []))
            ≡ make_gateway (exchange_config n cfg) (not real)
              ∷ (if real then set_http_client ∷ [] else [])
      by_mode true = refl
      by_mode false = refl

  filled_text : (s : String) → is_empty_text s ≡ false → s ≢ ""
  filled_text s e = λ same. let equal = (eq_iff _ _).1 same in absurd cc

  empty_text : (s : String) → is_empty_text s ≡ true → s ≡ ""
  empty_text s e = (eq_iff _ _).0 e

  by_tests :
      (cfg : AppConfig n) (forced no_key no_secret : Bool)
      → cfg.force_simulate ≡ forced
      → is_empty_text cfg.exchange_api_key ≡ no_key
      → is_empty_text cfg.exchange_api_secret ≡ no_secret
      → let use_real = not forced && not no_key && not no_secret in
        IsAskedFor cfg (
          make_gateway (exchange_config n cfg) (not use_real)
          ∷ (if use_real then set_http_client ∷ [] else []))
  by_tests cfg true no_key no_secret e k t = simulated (inl e)
  by_tests cfg false true no_secret e k t = simulated (inr (inl (empty_text _ k)))
  by_tests cfg false false true e k t = simulated (inr (inr (empty_text _ t)))
  by_tests cfg false false false e k t = real e (filled_text _ k) (filled_text _ t)

  asked_for-IsAskedFor : (cfg : AppConfig n) → IsAskedFor cfg (asked_for cfg)
  asked_for-IsAskedFor cfg = by_tests cfg _ _ _ refl refl refl

  after_gateway-IsQuiet :
      (host : LiveHost Decimal) (cfg : AppConfig n) → IsQuiet (after_gateway n host cfg)
  after_gateway-IsQuiet host cfg =
      quiet_front (subscribe_all n cfg) (starting n host cfg) (subscribe_all-IsQuiet cfg)
      ∙ quiet_front (open_user_stream n host cfg) (bridging n host cfg)
          (open_user_stream-IsQuiet host cfg)
      ∙ quiet_front (bridge n host.popped) (closing n host cfg) (bridge-IsQuiet host.popped)
      ∙ quiet_front (close_user_stream n host cfg) (shut_down n)
          (close_user_stream-IsQuiet host cfg)

  abbrev whole : LiveHost Decimal → AppConfig n → List (Event n) → List (Event n)
  whole host cfg engine = opened n cfg engine ++ (open_gateway n cfg ++ after_gateway n host cfg)

  whole_asked :
      (host : LiveHost Decimal) (cfg : AppConfig n) (engine : List (Event n))
      → IsQuiet engine
      → execution_calls (whole host cfg engine) ≡ asked_for cfg
  whole_asked host cfg engine quiet =
      quiet_front (opened n cfg engine) (open_gateway n cfg ++ after_gateway n host cfg)
        (quiet_front (open_log n cfg) (open_bridge n cfg ++ engine) (open_log-IsQuiet cfg) ∙ quiet)
      ∙ execution_calls-append (open_gateway n cfg) (after_gateway n host cfg)
      ∙ ap (λ es. execution_calls (open_gateway n cfg) ++ es) (after_gateway-IsQuiet host cfg)
      ∙ append_nil (execution_calls (open_gateway n cfg))
      ∙ open_gateway_asked cfg

  -- A run to the end has made the calls that the settings ask for.
  abbrev IsAsked : AppConfig n → ℕ × List (Event n) → Type 0
  IsAsked cfg (code, es) = code ≡ 0 → execution_calls es ≡ asked_for cfg

  by_checks :
      (cfg : AppConfig n) (no_url no_market : Bool) (early late all : List (Event n))
      → execution_calls all ≡ asked_for cfg
      → OnSome
          (IsAsked cfg)
          (if no_url then some (1, early) else if no_market then some (1, late) else some (0, all))
  by_checks cfg true no_market early late all h = λ e. absurd (omega arith)
  by_checks cfg false true early late all h = λ e. absurd (omega arith)
  by_checks cfg false false early late all h = λ e. h

  engine-IsAsked :
      (host : LiveHost Decimal) (cfg : AppConfig n) (strategies : Option (List (Event n)))
      → OnSome IsQuiet strategies
      → OnSome (IsAsked cfg) (
          (strategies >>= λ made. some (
            update_risk_parameters cfg.risk_params
            ∷ set_available_capital (to_decimal n cfg.initial_capital)
            ∷ made))
          >>= λ engine.
              if is_empty_text cfg.exchange_url
              then some (1, opened n cfg engine)
              else if not (host.gateway_made cfg.exchange_name (exchange_config n cfg))
              then some (
                1,
                opened n cfg engine
                    ++ (open_gateway n cfg
                        ++ create_market_gateway cfg.exchange_name (exchange_config n cfg) ∷ []),
              )
              else some (0, whole host cfg engine))
  engine-IsAsked host cfg none h = tt
  engine-IsAsked host cfg (some made) h =
      by_checks cfg (is_empty_text cfg.exchange_url)
        (not (host.gateway_made cfg.exchange_name (exchange_config n cfg))) _ _ _
        (whole_asked host cfg _ h)

  returned :
      (cfg : AppConfig n) (o : Option (ℕ × List (Event n))) {es : List (Event n)}
      → OnSome (IsAsked cfg) o
      → o ≡ some (0, es)
      → execution_calls es ≡ asked_for cfg
  returned cfg o h e = subst (OnSome (IsAsked cfg)) e h refl

  -- A live run that comes to its end makes one order gateway, for the exchange of the settings. If
  -- they do not have `--simulate` and have both API keys, neither empty, then it does not simulate
  -- fills and gets the HTTP client; else it simulates fills and gets no client.
  pub run_live_execution :
      (host : LiveHost Decimal) (cfg : AppConfig n) {es : List (Event n)}
      → run_live n host cfg ≡ some (0, es)
      → IsAskedFor cfg (execution_calls es)
  run_live_execution host cfg e =
      let calls =
        returned cfg (run_live n host cfg)
          (engine-IsAsked host cfg (register_strategies n cfg.strategies)
            (register_strategies-IsQuiet cfg.strategies))
          e in
      subst (IsAskedFor cfg) (sym calls) (asked_for-IsAskedFor cfg)
