-- ===== src/Demo.antt =====
-- tools/generate_demo_logs.cpp: the records that it writes, and its calls of the log writer, whose
-- `initialize` answers from outside.
mod Laws
mod Logged
mod Tests
use Prim.Native.String.{String}
use trading_engine.Base.{
  ℕ, zero, suc, ◌+◌, ◌*◌, ◌%◌, Bool, true, false, List, [], ◌∷◌, ◌++◌, ◌==◌, if◌then◌else◌,
}
use trading_engine.Base.Int.{pos}
use trading_engine.Core.Enums.{TickSide, OrderSide, OrderType}
use trading_engine.Core.Numbers.{Numbers, to_decimal, zero_decimal}
use trading_engine.Core.Structs.{
  Tick, OrderRequest, Fill, default_tick, default_order_request, default_fill,
}
use trading_engine.Config.{LogConfig, default_log_config}

abbrev pub demo_log_config : LogConfig
demo_log_config = record default_log_config {
  log_dir = "/tmp/chronos_demo_logs";
  buffer_size = 65536;
  flush_interval_ms = 100;
  retention_days = 7;
  enable_tick_logging = true;
  enable_order_logging = true;
  enable_fill_logging = true;
}

module _ (n : Numbers) where
  open n use {Double, Decimal, of_integer, literal, add, mul}

  pub data Call : Type 0 where
    initialize : String → LogConfig → Call
    write_tick : Tick Decimal → Call
    write_order : OrderRequest Decimal → Call
    write_fill : Fill Decimal → Call
    flush stop : Call

  -- `base + (i % m) * step`
  abbrev cycle : Double → ℕ → Double → ℕ → Decimal
  cycle base m step i = to_decimal n (add base (mul (of_integer (pos (i % m))) step))

  abbrev pub demo_tick : ℕ → Tick Decimal
  demo_tick i = record (default_tick (zero_decimal n)) {
    price = cycle (literal 100 0) 100 (literal 1 2) i;
    quantity = cycle (literal 1 1) 10 (literal 5 2) i;
    symbol_id = 1;
    side = TickSide.bid;
    exchange_timestamp_us = 1000000 + i * 1000;
    receive_timestamp_us = 2000000 + i * 1000;
  }

  abbrev pub demo_order : ℕ → OrderRequest Decimal
  demo_order i = record (default_order_request (zero_decimal n)) {
    order_id = 1000 + i;
    price = cycle (literal 100 0) 20 (literal 5 1) i;
    quantity = to_decimal n (literal 1 1);
    symbol_id = 1;
    side = if i % 2 == 0 then OrderSide.buy else OrderSide.sell;
    type = OrderType.limit;
  }

  abbrev pub demo_fill : ℕ → Fill Decimal
  demo_fill i = record (default_fill (zero_decimal n)) {
    order_id = 1000 + i;
    fill_price = cycle (literal 100 0) 20 (literal 5 1) i;
    fill_quantity = to_decimal n (literal 1 1);
    symbol_id = 1;
  }

  -- The loops, from i on.
  abbrev pub write_ticks : (rounds i : ℕ) → List Call
  write_ticks zero i = []
  write_ticks (suc rounds) i = write_tick (demo_tick i) ∷ write_ticks rounds (i + 1)

  abbrev pub write_orders : (rounds i : ℕ) → List Call
  write_orders zero i = []
  write_orders (suc rounds) i = write_order (demo_order i) ∷ write_orders rounds (i + 1)

  abbrev pub write_fills : (rounds i : ℕ) → List Call
  write_fills zero i = []
  write_fills (suc rounds) i = write_fill (demo_fill i) ∷ write_fills rounds (i + 1)

  -- The exit code and the calls.
  pub main : (initialized : Bool) → ℕ × List Call
  main false = (1, initialize demo_log_config.log_dir demo_log_config ∷ [])
  main true = (
    0,
    initialize demo_log_config.log_dir demo_log_config
        ∷ (write_ticks 1000 0 ++ (write_orders 50 0 ++ (write_fills 30 0 ++ flush ∷ stop ∷ []))),
  )
