-- ===== src/Layout/RoundTrip.antt =====
-- The records of include/chronos/core/types.hpp through their bytes and back.
use trading_engine.Base.{
  ℕ, ◌≡◌, refl, ap, ◌∙◌, some, List, [], ◌++◌, length, take, append_nil, take-append,
}
use trading_engine.Base.Int.{ℤ}
use trading_engine.Core.Enums.{
  TickSide, OrderSide, OrderType, TimeInForce, side_code, order_type_code, tif_code,
}
use trading_engine.Core.Structs.{Tick, OrderRequest, Fill}
use trading_engine.Layout.{tick_bytes, order_bytes, fill_bytes, tick_side_code}
use trading_engine.Layout.Numerals.{
  number, numeral, number-numeral, raw_bits, raw_bits-lt, signed, signed-raw_bits, IsI64,
}
use trading_engine.Layout.Readers.{
  tick_side_of, side_of, order_type_of, tif_of, read_order, read_tick, read_fill, IsTick, IsFill,
  IsOrder,
}

tick_side_back : (c : TickSide) → tick_side_of (number (numeral 1 (tick_side_code c))) ≡ some c
tick_side_back TickSide.bid = refl
tick_side_back TickSide.ask = refl
tick_side_back TickSide.trade = refl

side_back : (c : OrderSide) → side_of (number (numeral 1 (side_code c))) ≡ some c
side_back OrderSide.buy = refl
side_back OrderSide.sell = refl

order_type_back : (c : OrderType) → order_type_of (number (numeral 1 (order_type_code c))) ≡ some c
order_type_back OrderType.limit = refl
order_type_back OrderType.market = refl
order_type_back OrderType.stop_loss = refl
order_type_back OrderType.stop_limit = refl

tif_back : (c : TimeInForce) → tif_of (number (numeral 1 (tif_code c))) ≡ some c
tif_back TimeInForce.gtc = refl
tif_back TimeInForce.ioc = refl
tif_back TimeInForce.fok = refl
tif_back TimeInForce.day = refl

decimal_back : (d : ℤ) → IsI64 d → signed (number (numeral 8 (raw_bits d))) ≡ d
decimal_back d h = ap signed (number-numeral 8 (raw_bits d) (raw_bits-lt d h)) ∙ signed-raw_bits d h

array_back : (n : ℕ) (bytes rest : List ℕ) → length bytes ≡ n → take n (bytes ++ [] ++ rest) ≡ bytes
array_back n bytes rest e =
    ap (λ bs. take n (bs ++ rest)) (append_nil bytes) ∙ take-append n bytes rest e

-- An order request whose members are in the ranges of their types is read back from its bytes,
-- whatever follows them, at the offsets and with the sizes that the comments beside the members
-- give.
pub read_order-order_bytes :
    (o : OrderRequest ℤ) (rest : List ℕ) → IsOrder o → read_order (order_bytes o ++ rest) ≡ some o
read_order-order_bytes o rest
      (
        (order_id, timestamp_us, price, quantity, stop_price, client_order_id),
        (symbol_id, exchange_id, strategy_id),
        strategy_flags,
        reserved,
      ) =
    rw
      (
        side_back o.side,
        order_type_back o.type,
        tif_back o.tif,
        number-numeral 8 o.order_id order_id,
        number-numeral 8 o.timestamp_us timestamp_us,
        decimal_back o.price price,
        decimal_back o.quantity quantity,
        decimal_back o.stop_price stop_price,
        number-numeral 8 o.client_order_id client_order_id,
        number-numeral 4 o.symbol_id symbol_id,
        number-numeral 4 o.exchange_id exchange_id,
        number-numeral 4 o.strategy_id strategy_id,
        number-numeral 1 o.strategy_flags strategy_flags,
        array_back 64 o.reserved rest reserved,
      )
      refl

pub read_fill-fill_bytes :
    (f : Fill ℤ) (rest : List ℕ) → IsFill f → read_fill (fill_bytes f ++ rest) ≡ some f
read_fill-fill_bytes f rest
      (
        (execution_id, fill_id, order_id, exchange_timestamp_us, receive_timestamp_us),
        (fill_price, fill_quantity),
        (symbol_id, exchange_id, strategy_id),
        is_maker,
        reserved,
      ) =
    rw
      (
        side_back f.side,
        number-numeral 8 f.execution_id execution_id,
        number-numeral 8 f.fill_id fill_id,
        number-numeral 8 f.order_id order_id,
        number-numeral 8 f.exchange_timestamp_us exchange_timestamp_us,
        number-numeral 8 f.receive_timestamp_us receive_timestamp_us,
        decimal_back f.fill_price fill_price,
        decimal_back f.fill_quantity fill_quantity,
        number-numeral 4 f.symbol_id symbol_id,
        number-numeral 4 f.exchange_id exchange_id,
        number-numeral 4 f.strategy_id strategy_id,
        number-numeral 1 f.is_maker is_maker,
        array_back 58 f.reserved rest reserved,
      )
      refl

pub read_tick-tick_bytes :
    (t : Tick ℤ) (rest : List ℕ) → IsTick t → read_tick (tick_bytes t ++ rest) ≡ some t
read_tick-tick_bytes t rest
      (
        (exchange_timestamp_us, receive_timestamp_us),
        (exchange_id, symbol_id),
        (price, quantity),
        flags,
        reserved,
      ) =
    rw
      (
        tick_side_back t.side,
        number-numeral 8 t.exchange_timestamp_us exchange_timestamp_us,
        number-numeral 8 t.receive_timestamp_us receive_timestamp_us,
        number-numeral 4 t.exchange_id exchange_id,
        number-numeral 4 t.symbol_id symbol_id,
        decimal_back t.price price,
        decimal_back t.quantity quantity,
        number-numeral 1 t.flags flags,
        array_back 22 t.reserved rest reserved,
      )
      refl
