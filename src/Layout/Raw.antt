-- ===== src/Layout/Raw.antt =====
-- The records of include/chronos/core/types.hpp over any decimals, as they stand in memory: a decimal is
-- its raw value.
use trading_engine.Base.Int.{ℤ}
use trading_engine.Core.Numbers.{Numbers}
use trading_engine.Core.Structs.{Tick, OrderRequest, Fill}
use trading_engine.Layout.Numerals.{IsI64}

module _ (n : Numbers) where
  open n use {Decimal, raw_value}

  -- The raw value of a `Decimal` is an `int64_t`.
  abbrev pub IsRaw64 : Type 0
  IsRaw64 = (d : Decimal) → IsI64 (raw_value d)

  abbrev pub raw_tick : Tick Decimal → Tick ℤ
  raw_tick t = record {
    exchange_timestamp_us = t.exchange_timestamp_us;
    receive_timestamp_us = t.receive_timestamp_us;
    exchange_id = t.exchange_id;
    symbol_id = t.symbol_id;
    price = raw_value t.price;
    quantity = raw_value t.quantity;
    side = t.side;
    flags = t.flags;
    reserved = t.reserved;
  }

  abbrev pub raw_order : OrderRequest Decimal → OrderRequest ℤ
  raw_order o = record {
    order_id = o.order_id;
    timestamp_us = o.timestamp_us;
    price = raw_value o.price;
    quantity = raw_value o.quantity;
    stop_price = raw_value o.stop_price;
    client_order_id = o.client_order_id;
    symbol_id = o.symbol_id;
    exchange_id = o.exchange_id;
    strategy_id = o.strategy_id;
    side = o.side;
    type = o.type;
    tif = o.tif;
    strategy_flags = o.strategy_flags;
    reserved = o.reserved;
  }

  abbrev pub raw_fill : Fill Decimal → Fill ℤ
  raw_fill f = record {
    execution_id = f.execution_id;
    fill_id = f.fill_id;
    order_id = f.order_id;
    exchange_timestamp_us = f.exchange_timestamp_us;
    receive_timestamp_us = f.receive_timestamp_us;
    fill_price = raw_value f.fill_price;
    fill_quantity = raw_value f.fill_quantity;
    symbol_id = f.symbol_id;
    exchange_id = f.exchange_id;
    strategy_id = f.strategy_id;
    side = f.side;
    is_maker = f.is_maker;
    reserved = f.reserved;
  }
