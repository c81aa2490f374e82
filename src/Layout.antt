-- ===== src/Layout.antt =====
-- The object representation of the records of include/chronos/core/types.hpp, and of the hot data of
-- include/chronos/market_data/orderbook_v2.hpp and include/chronos/risk/risk_engine.hpp, as the compilers that
-- the project builds with lay a standard-layout class out: each member at the next multiple of its
-- alignment, the size rounded up to the alignment of the class, integers with the lowest byte first
-- and in two's complement. A decimal is its raw value.
pub mod Codec
pub mod Numerals
pub mod Raw
pub mod Readers
pub mod RoundTrip
mod Tests
use trading_engine.Base.{ℕ, ◌+◌, ◌-◌, ◌%◌, List, [], ◌∷◌, ◌++◌}
use trading_engine.Base.Int.{ℤ}
use trading_engine.Core.Enums.{
  TickSide, OrderSide, OrderType, TimeInForce, side_code, order_type_code, tif_code,
}
use trading_engine.Core.Structs.{Tick, OrderRequest, Fill, zeros}
use trading_engine.Layout.Numerals.{numeral, raw_bits}

-- A member: its alignment, its size, and its bytes.
pub record Member : Type 0 where
  pub alignment : ℕ
  pub size : ℕ
  pub bytes : List ℕ

abbrev pub padding : ℕ → ℕ → ℕ
padding offset alignment = (alignment - offset % alignment) % alignment

-- The offsets of the members, with that of the end.
abbrev pub offsets : ℕ → ℕ → List Member → List ℕ
offsets whole offset [] = (offset + padding offset whole) ∷ []
offsets whole offset (m ∷ ms) =
    let at = offset + padding offset m.alignment in at ∷ offsets whole (at + m.size) ms

-- The bytes of an object, with the bytes of the padding as zeros.
abbrev pub object_bytes : ℕ → ℕ → List Member → List ℕ
object_bytes whole offset [] = zeros (padding offset whole)
object_bytes whole offset (m ∷ ms) =
    let gap = padding offset m.alignment in
    zeros gap ++ (m.bytes ++ object_bytes whole (offset + gap + m.size) ms)

abbrev pub uint : ℕ → ℕ → Member
uint size n = record { alignment = size; size = size; bytes = numeral size n }

abbrev pub decimal : ℤ → Member
decimal d = uint 8 (raw_bits d)

abbrev pub byte_array : ℕ → List ℕ → Member
byte_array size bytes = record { alignment = 1; size = size; bytes = bytes }

abbrev pub tick_side_code : TickSide → ℕ
tick_side_code TickSide.bid = 0
tick_side_code TickSide.ask = 1
tick_side_code TickSide.trade = 2

abbrev pub tick_members : Tick ℤ → List Member
tick_members t =
    uint 8 t.exchange_timestamp_us
    ∷ uint 8 t.receive_timestamp_us
    ∷ uint 4 t.exchange_id
    ∷ uint 4 t.symbol_id
    ∷ decimal t.price
    ∷ decimal t.quantity
    ∷ uint 1 (tick_side_code t.side)
    ∷ uint 1 t.flags
    ∷ byte_array 22 t.reserved
    ∷ []

abbrev pub order_members : OrderRequest ℤ → List Member
order_members o =
    uint 8 o.order_id
    ∷ uint 8 o.timestamp_us
    ∷ decimal o.price
    ∷ decimal o.quantity
    ∷ decimal o.stop_price
    ∷ uint 8 o.client_order_id
    ∷ uint 4 o.symbol_id
    ∷ uint 4 o.exchange_id
    ∷ uint 4 o.strategy_id
    ∷ uint 1 (side_code o.side)
    ∷ uint 1 (order_type_code o.type)
    ∷ uint 1 (tif_code o.tif)
    ∷ uint 1 o.strategy_flags
    ∷ byte_array 64 o.reserved
    ∷ []

abbrev pub fill_members : Fill ℤ → List Member
fill_members f =
    uint 8 f.execution_id
    ∷ uint 8 f.fill_id
    ∷ uint 8 f.order_id
    ∷ uint 8 f.exchange_timestamp_us
    ∷ uint 8 f.receive_timestamp_us
    ∷ decimal f.fill_price
    ∷ decimal f.fill_quantity
    ∷ uint 4 f.symbol_id
    ∷ uint 4 f.exchange_id
    ∷ uint 4 f.strategy_id
    ∷ uint 1 (side_code f.side)
    ∷ uint 1 f.is_maker
    ∷ byte_array 58 f.reserved
    ∷ []

abbrev pub tick_bytes : Tick ℤ → List ℕ
tick_bytes t = object_bytes 64 0 (tick_members t)

abbrev pub order_bytes : OrderRequest ℤ → List ℕ
order_bytes o = object_bytes 64 0 (order_members o)

abbrev pub fill_bytes : Fill ℤ → List ℕ
fill_bytes f = object_bytes 64 0 (fill_members f)

-- The hot data of the order book and the hot parameters of the risk engine, as the raw values of their
-- decimals. An atomic has the layout of its integer.
abbrev pub decimals : List ℤ → List ℕ
decimals [] = []
decimals (d ∷ ds) = numeral 8 (raw_bits d) ++ decimals ds

abbrev pub decimal_array : List ℤ → Member
decimal_array ds = record { alignment = 8; size = 40; bytes = decimals ds }

abbrev pub hot_data_members :
    (bid_prices bid_quantities ask_prices ask_quantities : List ℤ)
    → (version last_update_time bid_count ask_count : ℕ) → List Member
hot_data_members bp bq ap aq version time bids asks =
    decimal_array bp
    ∷ decimal_array bq
    ∷ decimal_array ap
    ∷ decimal_array aq
    ∷ uint 8 version
    ∷ uint 8 time
    ∷ uint 1 bids
    ∷ uint 1 asks
    ∷ byte_array 78 (zeros 78)
    ∷ []

abbrev pub hot_params_members : (limits : ℤ × ℤ × ℤ × ℤ) → (rate version : ℕ) → List Member
hot_params_members (order, position, total, capital) rate version =
    decimal order
    ∷ decimal position
    ∷ decimal total
    ∷ decimal capital
    ∷ uint 4 rate
    ∷ uint 8 version
    ∷ byte_array 204 (zeros 204)
    ∷ []
