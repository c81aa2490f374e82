-- ===== src/Layout/Tests.antt =====
-- The offsets that the comments of the source give, and an order that goes through its bytes.
use trading_engine.Base.{◌≡◌, refl, some, [], ◌∷◌, ◌++◌, arith}
use trading_engine.Base.Int.{ℤ, pos, negsuc}
use trading_engine.Core.Enums.{OrderSide, OrderType, TimeInForce}
use trading_engine.Core.Structs.{
  OrderRequest, default_tick, default_order_request, default_fill, zeros,
}
use trading_engine.Layout.{
  offsets, tick_members, order_members, fill_members, hot_data_members, hot_params_members,
  order_bytes,
}
use trading_engine.Layout.Readers.{read_order}
use trading_engine.Layout.RoundTrip.{read_order-order_bytes}

tick_offsets :
    offsets 64 0 (tick_members (default_tick (pos 0)))
    ≡ 0 ∷ 8 ∷ 16 ∷ 20 ∷ 24 ∷ 32 ∷ 40 ∷ 41 ∷ 42 ∷ 64 ∷ []
tick_offsets = refl

order_offsets :
    offsets 64 0 (order_members (default_order_request (pos 0)))
    ≡ 0 ∷ 8 ∷ 16 ∷ 24 ∷ 32 ∷ 40 ∷ 48 ∷ 52 ∷ 56 ∷ 60 ∷ 61 ∷ 62 ∷ 63 ∷ 64 ∷ 128 ∷ []
order_offsets = refl

fill_offsets :
    offsets 64 0 (fill_members (default_fill (pos 0)))
    ≡ 0 ∷ 8 ∷ 16 ∷ 24 ∷ 32 ∷ 40 ∷ 48 ∷ 56 ∷ 60 ∷ 64 ∷ 68 ∷ 69 ∷ 70 ∷ 128 ∷ []
fill_offsets = refl

-- A stop order with a negative quantity, and the top bits set.
abbrev stop_order : OrderRequest ℤ
stop_order = record {
  order_id = 18446744073709551615;
  timestamp_us = 1700000000000000;
  price = pos 4294967296;
  quantity = negsuc 6442450943;
  stop_price = pos 4080218931;
  client_order_id = 7;
  symbol_id = 3;
  exchange_id = 2;
  strategy_id = 4294967295;
  side = OrderSide.sell;
  type = OrderType.stop_limit;
  tif = TimeInForce.fok;
  strategy_flags = 3;
  reserved = zeros 64;
}

read_order-order_bytes_example : read_order (order_bytes stop_order ++ (9 ∷ [])) ≡ some stop_order
read_order-order_bytes_example = read_order-order_bytes stop_order (9 ∷ []) (
  (omega arith, omega arith, omega arith, omega arith, omega arith, omega arith),
  (omega arith, omega arith, omega arith),
  omega arith,
  refl,
)

-- The two structures of 256 bytes. In the second the version follows four bytes of padding.
hot_data_offsets :
    offsets 256 0 (hot_data_members [] [] [] [] 0 0 0 0)
    ≡ 0 ∷ 40 ∷ 80 ∷ 120 ∷ 160 ∷ 168 ∷ 176 ∷ 177 ∷ 178 ∷ 256 ∷ []
hot_data_offsets = refl

hot_params_offsets :
    offsets 256 0 (hot_params_members (pos 0, pos 0, pos 0, pos 0) 100 0)
    ≡ 0 ∷ 8 ∷ 16 ∷ 24 ∷ 32 ∷ 40 ∷ 48 ∷ 256 ∷ []
hot_params_offsets = refl
