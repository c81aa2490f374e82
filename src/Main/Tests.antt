-- ===== src/Main/Tests.antt =====
-- A replay of two ticks, and a live run with both API keys.
use trading_engine.Base.{
  Option, ℕ, ◌≡◌, refl, inl, inr, true, false, List, [], ◌∷◌, none, some, ◌==◌, arith,
}
use trading_engine.Base.Int.{ℤ, pos}
use trading_engine.Core.Whole.{whole}
use trading_engine.Core.Structs.{Tick, default_tick}
use trading_engine.App.{AppConfig, default_app_config}
use trading_engine.Main.{Event}
use trading_engine.Main.Replay.{Host, replay_loop, run_file_replay}
use trading_engine.Main.Laws.LiveOrder
use trading_engine.Main.Laws.ReplayOrder
use trading_engine.Main.Laws.LiveOrder.{run_live-IsOrdered}
use trading_engine.Main.Laws.ReplayOrder.{run_file_replay-IsOrdered}
use trading_engine.Main.Live.{LiveHost, run_live}
use trading_engine.Main.Laws.Ticks.{IsFannedOut, replay_loop_lem}
use trading_engine.Main.Laws.Modes.{IsRefused, RanMode, main_runs_mode}
use trading_engine.Main.{flush_log}
use trading_engine.App.{Flags}
use trading_engine.App.Tests.{small_file}
use trading_engine.Base.{◌⊎◌}
use trading_engine.Main.Laws.Client.{execution_calls, IsAskedFor, run_live_execution}

abbrev tick_at : ℕ → Tick ℤ
tick_at time = record (default_tick (pos 0)) { exchange_timestamp_us = time }

abbrev two_ticks : Host ℤ
two_ticks = record {
  tick_is_open = λ dir date. true;
  log_is_running = true;
  turns = λ i. record {
    running = true;
    exhausted = i == 2;
    delivered = (true, tick_at i) ∷ [];
    advanced = true;
  };
}

replay_loop_lem_example :
    (r : List (Event whole) × ℕ) × (replay_loop whole two_ticks 5 0 0 ≡ some r)
    × IsFannedOut whole true 0 r
replay_loop_lem_example = replay_loop_lem whole two_ticks 2 5 (omega arith) (inr (inl refl))

abbrev quiet_market : LiveHost ℤ
quiet_market = record {
  gateway_made = λ name cfg. true;
  stream_starts = true;
  stream_is_running = true;
  popped = (false, tick_at 1) ∷ (true, tick_at 2) ∷ [];
}

abbrev with_keys : AppConfig whole
with_keys = record (default_app_config whole) {
  exchange_url = "wss://host";
  exchange_api_key = "k";
  exchange_api_secret = "s";
}

abbrev live_calls : List (Event whole)
live_calls = elim (run_live whole quiet_market with_keys) [ none ↦ [] | some r ↦ r.1 ]

run_live_execution_example : IsAskedFor whole with_keys (execution_calls whole live_calls)
run_live_execution_example = run_live_execution whole quiet_market with_keys {es = live_calls} refl

abbrev replay_flags : Flags
replay_flags = record {
  replay = "logs";
  date = "";
  live = false;
  simulate = false;
  exchange = "binance";
  config = "a.yaml";
  argument = none;
}

abbrev stub : ℕ → AppConfig whole → Option (ℕ × List (Event whole))
stub code cfg = some (code, flush_log ∷ [])

abbrev replayed : ℕ × List (Event whole)
replayed = (0, flush_log ∷ [])

main_runs_mode_example :
    IsRefused {n = whole} replayed ⊎ RanMode small_file replay_flags (stub 5) (stub 0) replayed
main_runs_mode_example =
    main_runs_mode small_file replay_flags (stub 5) (stub 0) {r = replayed} refl

abbrev file_run : Option (ℕ × List (Event whole) × ℕ)
file_run = run_file_replay whole two_ticks 5 (default_app_config whole)

abbrev replay_calls : List (Event whole)
replay_calls = elim file_run [ none ↦ [] | some r ↦ r.1 ]

run_live-IsOrdered_example : LiveOrder.IsOrdered whole (0, live_calls)
run_live-IsOrdered_example =
    run_live-IsOrdered whole quiet_market with_keys {r = (0, live_calls)} refl

run_file_replay-IsOrdered_example : ReplayOrder.IsOrdered whole (0, replay_calls, 2)
run_file_replay-IsOrdered_example =
    run_file_replay-IsOrdered whole two_ticks 5 (default_app_config whole)
      {r = (0, replay_calls, 2)} refl
