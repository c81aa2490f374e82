-- ===== src/Main/Summary.antt =====
-- The statistics that src/main.cpp prints, as labels and numbers, and its signal handler.
use Prim.Native.String.{String}
use trading_engine.Base.{ℕ, Bool, false, List, [], ◌∷◌}
use trading_engine.Execution.{EngineStats, OrderGatewayStats}

-- What the bridge and the log writer have counted.
pub record OutputCounts : Type 0 where
  pub ticks_published : ℕ
  pub fills_published : ℕ
  pub dropped_count : ℕ
  pub ticks_written : ℕ

-- What is printed, with the number of the signal, and `g_running` after it.
abbrev pub handle_signal : (sig : ℕ) → Bool → (String × ℕ) × Bool
handle_signal sig running = (("Signal received, shutting down...", sig), false)

abbrev pub print_header : List String
print_header =
    "" ∷ "╔══════════════════════════════════════════════════╗"
    ∷ "║         Chronos Trading Engine v0.3              ║"
    ∷ "║         Pipeline: Engine → Risk → Gateway        ║"
    ∷ "╚══════════════════════════════════════════════════╝" ∷ "" ∷ []

abbrev pub print_stats_periodic : EngineStats → OrderGatewayStats → List (String × ℕ)
print_stats_periodic es gs =
    ("ticks", es.ticks_processed)
    ∷ ("orders", es.orders_submitted)
    ∷ ("fills", es.fills_processed)
    ∷ ("GW sent", gs.orders_sent)
    ∷ ("GW fill", gs.fills_received)
    ∷ ("rej", es.orders_risk_rejected)
    ∷ ("drop", es.orders_queue_dropped)
    ∷ []

abbrev pub print_summary :
    EngineStats → OrderGatewayStats → OutputCounts → List (String × List (String × ℕ))
print_summary es gs out =
    (
      "Engine",
      ("Ticks processed:", es.ticks_processed)
          ∷ ("Orders submitted:", es.orders_submitted)
          ∷ ("Orders risk-rejected:", es.orders_risk_rejected)
          ∷ ("Orders queue-dropped:", es.orders_queue_dropped)
          ∷ ("Fills processed:", es.fills_processed)
          ∷ [],
    )
    ∷ (
      "Order Gateway",
      ("GW orders received:", gs.orders_received)
          ∷ ("GW orders sent:", gs.orders_sent)
          ∷ ("GW orders cancelled:", gs.orders_cancelled)
          ∷ ("GW orders modified:", gs.orders_modified)
          ∷ ("GW fills received:", gs.fills_received)
          ∷ ("GW exchange mismatch:", gs.exchange_id_mismatch)
          ∷ ("GW avg send latency:", gs.avg_send_latency_us)
          ∷ [],
    )
    ∷ (
      "Output",
      ("ZMQ ticks published:", out.ticks_published)
          ∷ ("ZMQ fills published:", out.fills_published)
          ∷ ("ZMQ dropped:", out.dropped_count)
          ∷ ("Log ticks written:", out.ticks_written)
          ∷ [],
    )
    ∷ []
