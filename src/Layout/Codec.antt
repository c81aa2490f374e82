-- ===== src/Layout/Codec.antt =====
-- What the log needs of a record that it holds as raw bytes, and the three records of
-- include/chronos/core/types.hpp that it holds.
use trading_engine.Base.{ℕ, ◌^◌, ◌<◌, ◌≡◌, Option, some, List, ◌++◌, arith, length, append_nil, ap}
use trading_engine.Base.Int.{ℤ}
use trading_engine.Core.Structs.{Tick, OrderRequest, Fill}
use trading_engine.Layout.{tick_bytes, order_bytes, fill_bytes}
use trading_engine.Layout.Readers.{IsTick, IsOrder, IsFill, read_tick, read_order, read_fill}
use trading_engine.Layout.RoundTrip.{
  read_tick-tick_bytes, read_order-order_bytes, read_fill-fill_bytes,
}

pub record Codec : Type 1 where
  pub Record : Type 0
  pub IsRecord : Record → Type 0
  pub size : ℕ
  pub size_bounds : (0 < size) × (size < 2 ^ 63)
  pub bytes : Record → List ℕ
  pub read : List ℕ → Option Record
  pub length-bytes : (r : Record) → IsRecord r → length (bytes r) ≡ size
  pub read-bytes : (r : Record) (rest : List ℕ) → IsRecord r → read (bytes r ++ rest) ≡ some r

abbrev pub ticks : Codec
ticks = record {
  Record = Tick ℤ;
  IsRecord = IsTick;
  size = 64;
  size_bounds = (omega arith, omega arith);
  bytes = tick_bytes;
  read = read_tick;
  length-bytes = λ t h. omega (arith, ap length (append_nil t.reserved), h.4);
  read-bytes = read_tick-tick_bytes;
}

abbrev pub orders : Codec
orders = record {
  Record = OrderRequest ℤ;
  IsRecord = IsOrder;
  size = 128;
  size_bounds = (omega arith, omega arith);
  bytes = order_bytes;
  read = read_order;
  length-bytes = λ o h. omega (arith, ap length (append_nil o.reserved), h.3);
  read-bytes = read_order-order_bytes;
}

abbrev pub fills : Codec
fills = record {
  Record = Fill ℤ;
  IsRecord = IsFill;
  size = 128;
  size_bounds = (omega arith, omega arith);
  bytes = fill_bytes;
  read = read_fill;
  length-bytes = λ f h. omega (arith, ap length (append_nil f.reserved), h.4);
  read-bytes = read_fill-fill_bytes;
}
