-- ===== src/Layout/Readers.antt =====
-- What is read of the members of the records of include/chronos/core/types.hpp from the bytes of an object, by
-- the offsets and sizes that the comments of the source give.
use trading_engine.Base.{
  ◌>>=◌, ℕ, zero, suc, ◌^◌, ◌<◌, ◌≡◌, Option, none, some, List, length, take, drop,
}
use trading_engine.Base.Int.{ℤ}
use trading_engine.Core.Enums.{TickSide, OrderSide, OrderType, TimeInForce}
use trading_engine.Core.Structs.{Tick, OrderRequest, Fill}
use trading_engine.Layout.Numerals.{number, signed, IsI64}

abbrev pub member : ℕ → ℕ → List ℕ → ℕ
member offset size bs = number (take size (drop offset bs))

-- The values that the enumerations name.
abbrev pub tick_side_of : ℕ → Option TickSide
tick_side_of zero = some TickSide.bid
tick_side_of (suc zero) = some TickSide.ask
tick_side_of (suc (suc zero)) = some TickSide.trade
tick_side_of (suc (suc (suc c))) = none

abbrev pub side_of : ℕ → Option OrderSide
side_of zero = some OrderSide.buy
side_of (suc zero) = some OrderSide.sell
side_of (suc (suc c)) = none

abbrev pub order_type_of : ℕ → Option OrderType
order_type_of zero = some OrderType.limit
order_type_of (suc zero) = some OrderType.market
order_type_of (suc (suc zero)) = some OrderType.stop_loss
order_type_of (suc (suc (suc zero))) = some OrderType.stop_limit
order_type_of (suc (suc (suc (suc c)))) = none

abbrev pub tif_of : ℕ → Option TimeInForce
tif_of zero = some TimeInForce.gtc
tif_of (suc zero) = some TimeInForce.ioc
tif_of (suc (suc zero)) = some TimeInForce.fok
tif_of (suc (suc (suc zero))) = some TimeInForce.day
tif_of (suc (suc (suc (suc c)))) = none

-- An order request, by the offsets and sizes that the comments beside its members give.
abbrev pub read_order : List ℕ → Option (OrderRequest ℤ)
read_order bs = do
  side ← side_of (member 60 1 bs)
  type ← order_type_of (member 61 1 bs)
  tif ← tif_of (member 62 1 bs)
  some record {
    order_id = member 0 8 bs;
    timestamp_us = member 8 8 bs;
    price = signed (member 16 8 bs);
    quantity = signed (member 24 8 bs);
    stop_price = signed (member 32 8 bs);
    client_order_id = member 40 8 bs;
    symbol_id = member 48 4 bs;
    exchange_id = member 52 4 bs;
    strategy_id = member 56 4 bs;
    side = side;
    type = type;
    tif = tif;
    strategy_flags = member 63 1 bs;
    reserved = take 64 (drop 64 bs);
  }

abbrev pub read_tick : List ℕ → Option (Tick ℤ)
read_tick bs = do
  side ← tick_side_of (member 40 1 bs)
  some record {
    exchange_timestamp_us = member 0 8 bs;
    receive_timestamp_us = member 8 8 bs;
    exchange_id = member 16 4 bs;
    symbol_id = member 20 4 bs;
    price = signed (member 24 8 bs);
    quantity = signed (member 32 8 bs);
    side = side;
    flags = member 41 1 bs;
    reserved = take 22 (drop 42 bs);
  }

abbrev pub read_fill : List ℕ → Option (Fill ℤ)
read_fill bs = do
  side ← side_of (member 68 1 bs)
  some record {
    execution_id = member 0 8 bs;
    fill_id = member 8 8 bs;
    order_id = member 16 8 bs;
    exchange_timestamp_us = member 24 8 bs;
    receive_timestamp_us = member 32 8 bs;
    fill_price = signed (member 40 8 bs);
    fill_quantity = signed (member 48 8 bs);
    symbol_id = member 56 4 bs;
    exchange_id = member 60 4 bs;
    strategy_id = member 64 4 bs;
    side = side;
    is_maker = member 69 1 bs;
    reserved = take 58 (drop 70 bs);
  }

-- What the C++ types say of the members.
abbrev pub IsTick : Tick ℤ → Type 0
IsTick t =
    ((t.exchange_timestamp_us < 2 ^ 64) × (t.receive_timestamp_us < 2 ^ 64))
    × ((t.exchange_id < 2 ^ 32) × (t.symbol_id < 2 ^ 32))
    × (IsI64 t.price × IsI64 t.quantity)
    × (t.flags < 256)
    × (length t.reserved ≡ 22)

abbrev pub IsFill : Fill ℤ → Type 0
IsFill f =
    ((f.execution_id < 2 ^ 64)
      × (f.fill_id < 2 ^ 64)
      × (f.order_id < 2 ^ 64)
      × (f.exchange_timestamp_us < 2 ^ 64)
      × (f.receive_timestamp_us < 2 ^ 64))
    × (IsI64 f.fill_price × IsI64 f.fill_quantity)
    × ((f.symbol_id < 2 ^ 32) × (f.exchange_id < 2 ^ 32) × (f.strategy_id < 2 ^ 32))
    × (f.is_maker < 256)
    × (length f.reserved ≡ 58)

abbrev pub IsOrder : OrderRequest ℤ → Type 0
IsOrder o =
    ((o.order_id < 2 ^ 64)
      × (o.timestamp_us < 2 ^ 64)
      × IsI64 o.price
      × IsI64 o.quantity
      × IsI64 o.stop_price
      × (o.client_order_id < 2 ^ 64))
    × ((o.symbol_id < 2 ^ 32) × (o.exchange_id < 2 ^ 32) × (o.strategy_id < 2 ^ 32))
    × (o.strategy_flags < 256)
    × (length o.reserved ≡ 64)
