-- ===== src/Engine/Tests.antt =====
-- Three ticks for an engine that takes none out.
use trading_engine.Base.{ℕ, ◌<◌, ◌^◌, ◌≡◌, Bool, List, [], ◌∷◌, some, arith, get_elem?, ltb}
use trading_engine.Base.Int.{ℤ, pos}
use trading_engine.Core.Structs.{Tick, default_tick, default_order_request, default_fill}
use trading_engine.Engine.{StrategyEngine, new_engine}
use trading_engine.Engine.Drops.{push_all, push_all_lem}

abbrev tick_at : ℕ → Tick ℤ
tick_at time = record (default_tick (pos 0)) { exchange_timestamp_us = time }

abbrev three_ticks : List (Tick ℤ)
three_ticks = tick_at 1 ∷ tick_at 2 ∷ tick_at 3 ∷ []

abbrev empty_engine : StrategyEngine ℤ ℕ
empty_engine = new_engine (tick_at 0) (default_order_request (pos 0)) (default_fill (pos 0))

push_all_lem_example :
    (answers : List Bool) × (e : StrategyEngine ℤ ℕ) × (push_all 1 empty_engine three_ticks
      ≡ some (answers, e))
    × ((i : ℕ) → i < 3 → get_elem? answers i ≡ some (ltb i (2 ^ 10)))
push_all_lem_example =
    push_all_lem (tick_at 0) (default_order_request (pos 0)) (default_fill (pos 0)) three_ticks
      (omega arith)
