-- ===== src/Engine.antt =====
-- The members of `StrategyEngine` of include/chronos/trading/strategy_engine.hpp that are its own, and its
-- inline operations. The queues have 2 ^ 10 cells; a call comes while no other one is under way.
pub mod Handles
mod Drops
mod Tests
use trading_engine.Base.{ℕ, Bool, false, List, [], Option, some, ◌>>=◌}
use trading_engine.Base.Int.{ℤ, negsuc}
use trading_engine.Core.Structs.{Tick, OrderRequest, Fill}
use trading_engine.Mpmc.{Mem, init}
use trading_engine.Mpmc.Calls.{try_push, try_pop}

-- A strategy with the symbols that it is subscribed to.
pub record StrategyEntry (S : Type 0) : Type 0 where
  pub id : ℕ
  pub strategy : S
  pub symbols : List ℕ
  pub is_wildcard : Bool

pub record StrategyEngine (D S : Type 0) : Type 0 where
  pub strategies : List (StrategyEntry S)
  pub tick_queue : Mem (Tick D)
  pub order_queue : Mem (OrderRequest D)
  pub fill_queue : Mem (Fill D)
  pub running : Bool
  pub cpu_affinity : ℤ
  pub ticks_processed : ℕ
  pub fills_processed : ℕ
  pub orders_submitted : ℕ
  pub orders_risk_rejected : ℕ
  pub orders_queue_dropped : ℕ

module _ {D S : Type 0} where
  -- A tick, a fill and an order that no cell of the queues shows.
  abbrev pub new_engine : Tick D → OrderRequest D → Fill D → StrategyEngine D S
  new_engine tick order fill = record {
    strategies = [];
    tick_queue = init (λ i. tick);
    order_queue = init (λ i. order);
    fill_queue = init (λ i. fill);
    running = false;
    cpu_affinity = negsuc 0;
    ticks_processed = 0;
    fills_processed = 0;
    orders_submitted = 0;
    orders_risk_rejected = 0;
    orders_queue_dropped = 0;
  }

  abbrev pub set_cpu_affinity : ℤ → StrategyEngine D S → StrategyEngine D S
  set_cpu_affinity cpu e = record e { cpu_affinity = cpu }

  abbrev pub push_tick :
      (fuel : ℕ) → StrategyEngine D S → Tick D → Option (Bool × StrategyEngine D S)
  push_tick fuel e tick =
      try_push 10 fuel e.tick_queue tick >>= λ r. some (r.0, record e { tick_queue = r.1 })

  abbrev pub push_fill :
      (fuel : ℕ) → StrategyEngine D S → Fill D → Option (Bool × StrategyEngine D S)
  push_fill fuel e fill =
      try_push 10 fuel e.fill_queue fill >>= λ r. some (r.0, record e { fill_queue = r.1 })

  abbrev pub pop_order :
      (fuel : ℕ) → StrategyEngine D S → Option (Option (OrderRequest D) × StrategyEngine D S)
  pop_order fuel e =
      try_pop 10 fuel e.order_queue >>= λ r. some (r.0, record e { order_queue = r.1 })
