-- ===== src/Main/Replay.antt =====
-- `runFileReplay` of src/main.cpp. The loop runs on fuel: how often it turns is for the replayer and the
-- signal handler to say.
use Prim.Native.String.{String}
use trading_engine.Base.{
  ◌>>=◌, ℕ, zero, suc, ◌+◌, ◌%◌, ◌^◌, Bool, true, false, not, ◌&&◌, List, [], ◌∷◌, ◌++◌, Option,
  none, some, if◌then◌else◌,
}
use trading_engine.Core.Numbers.{Numbers}
use trading_engine.Core.Structs.{Tick}
use trading_engine.Config.{default_exchange_config}
use trading_engine.App.{AppConfig, is_empty_text}
use trading_engine.Main.{
  Event, open_log, open_bridge, open_engine, create_order_gateway, on_market_tick, shut_down,
  start_engine, start_gateway,
}

-- One turn of the replay loop: the flag `g_running` and `isExhausted` at its test, the ticks that
-- `advanceToNextEvent` delivers, each with the flag that the callback reads, and its answer.
pub record Turn (D : Type 0) : Type 0 where
  pub running : Bool
  pub exhausted : Bool
  pub delivered : List (Bool × Tick D)
  pub advanced : Bool

pub record Host (D : Type 0) : Type 0 where
  -- Whether a tick log is found in a directory, for a date or for none.
  pub tick_is_open : String → Option String → Bool
  pub log_is_running : Bool
  pub turns : ℕ → Turn D

module _ (n : Numbers) where
  open n use {Decimal}

  -- The tick callback, and the counter of the ticks.
  abbrev pub deliver : Bool → List (Bool × Tick Decimal) → ℕ → List (Event n) × ℕ
  deliver log_is_running [] count = ([], count)
  deliver log_is_running ((false, tick) ∷ rest) count = deliver log_is_running rest count
  deliver log_is_running ((true, tick) ∷ rest) count =
      let after = deliver log_is_running rest ((count + 1) % 2 ^ 64) in
      (on_market_tick n log_is_running tick ++ after.0, after.1)

  abbrev pub replay_loop : Host Decimal → (fuel turn count : ℕ) → Option (List (Event n) × ℕ)
  replay_loop host zero turn count = none
  replay_loop host (suc fuel) turn count =
      let now = host.turns turn in
      let got = deliver host.log_is_running now.delivered count in
      let rest = replay_loop host fuel (turn + 1) got.1 in
      if now.running && not now.exhausted
      then (if now.advanced then (rest >>= λ r. some (got.0 ++ r.0, r.1)) else some got)
      else some ([], count)

  -- The exit code, the calls, and the number of ticks that the last line prints.
  abbrev pub run_file_replay :
      Host Decimal → (fuel : ℕ) → AppConfig n → Option (ℕ × List (Event n) × ℕ)
  run_file_replay host fuel cfg =
      let date = if not (is_empty_text cfg.date) then some cfg.date else none in
      if not (host.tick_is_open cfg.log_dir date)
      then some (1, [], 0)
      else (open_engine n cfg >>= λ engine. replay_loop host fuel 0 0 >>= λ replayed. some (
        0,
        open_log n cfg
            ++ (open_bridge n cfg
                ++ (engine
                    ++ (create_order_gateway n
                          (record default_exchange_config { name = "simulated" }) false true
                        ++ (start_engine ∷ start_gateway ∷ (replayed.0 ++ shut_down n))))),
        replayed.1,
      ))
