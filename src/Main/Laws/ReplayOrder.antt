-- ===== src/Main/Laws/ReplayOrder.antt =====
-- In which order `runFileReplay` of src/main.cpp starts, feeds and stops the components.
use trading_engine.Base.{
  ◌>>=◌, ℕ, zero, suc, ◌+◌, ◌≡◌, ◌⊎◌, inl, inr, refl, ◌∙◌, Bool, true, false, not, ◌&&◌, List, [],
  ◌∷◌, ◌++◌, Option, none, some, if◌then◌else◌, OnSome,
}
use mathlib.Core.Path.{subst}
use trading_engine.Core.Numbers.{Numbers}
use trading_engine.Core.Structs.{Tick}
use trading_engine.Config.{default_exchange_config}
use trading_engine.App.{AppConfig}
use trading_engine.Main.{
  Event, open_log, open_bridge, shut_down, create_order_gateway, on_market_tick, start_engine,
  start_gateway, open_engine,
}
use trading_engine.Main.Replay.{Host, deliver, replay_loop, run_file_replay}
use trading_engine.Main.Laws.Phases.{setup, running, stopped, runs, runs_through}
use trading_engine.Main.Laws.Segments.{
  Stays, append-Stays, open_log-Stays, open_bridge-Stays, create_order_gateway-Stays,
  on_market_tick-Stays, open_engine-Stays,
}

module _ (n : Numbers) where
  open n use {Decimal}

  deliver-Stays :
      (log : Bool) (ticks : List (Bool × Tick Decimal)) (count : ℕ)
      → Stays n false running (deliver n log ticks count).0
  deliver-Stays log [] count = refl
  deliver-Stays log ((false, tick) ∷ rest) count = deliver-Stays log rest count
  deliver-Stays log ((true, tick) ∷ rest) count =
      append-Stays n false running (on_market_tick n log tick) _ (on_market_tick-Stays n log tick).1
        (deliver-Stays log rest _)

  turn-Stays :
      (go advanced : Bool) (count : ℕ) (got : List (Event n) × ℕ)
      (rest : Option (List (Event n) × ℕ))
      → Stays n false running got.0
      → OnSome (λ r. Stays n false running r.0) rest
      → OnSome
          (λ r. Stays n false running r.0)
          (if go
            then (if advanced then (rest >>= λ r. some (got.0 ++ r.0, r.1)) else some got)
            else some ([], count))
  turn-Stays true true count got none h hr = tt
  turn-Stays true true count got (some r) h hr = append-Stays n false running got.0 r.0 h hr
  turn-Stays true false count got rest h hr = h
  turn-Stays false advanced count got rest h hr = refl

  replay_loop-Stays :
      (host : Host Decimal) (fuel turn count : ℕ)
      → OnSome (λ r. Stays n false running r.0) (replay_loop n host fuel turn count)
  replay_loop-Stays host zero turn count = tt
  replay_loop-Stays host (suc fuel) turn count =
      let now = host.turns turn in
      let got = deliver n host.log_is_running now.delivered count in
      turn-Stays (now.running && not now.exhausted) now.advanced count got
        (replay_loop n host fuel (turn + 1) got.1)
        (deliver-Stays host.log_is_running now.delivered count)
        (replay_loop-Stays host fuel (turn + 1) got.1)

  -- Either all was started and stopped, or nothing was called.
  abbrev pub IsOrdered : ℕ × List (Event n) × ℕ → Type 0
  IsOrdered (code, es, count) =
      ((code ≡ 0) × (runs n false setup es ≡ some stopped)) ⊎ ((code ≡ 1) × (es ≡ []))

  abbrev feeding_calls : List (Event n) → List (Event n)
  feeding_calls es = start_engine ∷ start_gateway ∷ (es ++ shut_down n)

  abbrev simulated : List (Event n)
  simulated =
      create_order_gateway n (record default_exchange_config { name = "simulated" }) false true

  abbrev all_calls : AppConfig n → List (Event n) → List (Event n) → List (Event n)
  all_calls cfg engine es =
      open_log n cfg ++ (open_bridge n cfg ++ (engine ++ (simulated ++ feeding_calls es)))

  all_calls-runs :
      (cfg : AppConfig n) (engine es : List (Event n))
      → Stays n false setup engine
      → Stays n false running es
      → runs n false setup (all_calls cfg engine es) ≡ some stopped
  all_calls-runs cfg engine es he hs =
      let made = simulated ++ feeding_calls es in
      runs_through n false setup setup (open_log n cfg) (open_bridge n cfg ++ (engine ++ made))
        (open_log-Stays n false cfg)
      ∙ runs_through n false setup setup (open_bridge n cfg) (engine ++ made)
          (open_bridge-Stays n false cfg)
      ∙ runs_through n false setup setup engine made he
      ∙ runs_through n false setup setup simulated (feeding_calls es) (
          create_order_gateway-Stays n false (record default_exchange_config { name = "simulated" })
            false true)
      ∙ runs_through n false running running es (shut_down n) hs

  by_results :
      (cfg : AppConfig n) (closed : Bool) (o : Option (List (Event n)))
      (replayed : Option (List (Event n) × ℕ))
      → OnSome (Stays n false setup) o
      → OnSome (λ r. Stays n false running r.0) replayed
      → OnSome IsOrdered (
          if closed
          then some (1, [], 0)
          else (o >>= λ engine. replayed >>= λ r. some (0, all_calls cfg engine r.0, r.1)))
  by_results cfg true o replayed ho hr = inr (refl, refl)
  by_results cfg false none replayed ho hr = tt
  by_results cfg false (some engine) none ho hr = tt
  by_results cfg false (some engine) (some r) ho hr =
      inl (refl, all_calls-runs cfg engine r.0 ho hr)

  -- If `runFileReplay` returns, then either it returns 0 and its calls go through all phases in
  -- order: the engine and the order gateway are started, ticks are handed on only after that, and
  -- the order gateway, the engine, the bridge and the log are stopped after the last of them in
  -- this order; or it returns 1 and has made no call.
  pub run_file_replay-IsOrdered :
      (host : Host Decimal) (fuel : ℕ) (cfg : AppConfig n) {r : ℕ × List (Event n) × ℕ}
      → run_file_replay n host fuel cfg ≡ some r
      → IsOrdered r
  run_file_replay-IsOrdered host fuel cfg e = subst (OnSome IsOrdered) e (
      by_results cfg _ (open_engine n cfg) (replay_loop n host fuel 0 0)
        (open_engine-Stays n false cfg) (replay_loop-Stays host fuel 0 0))
