-- ===== src/Core/Structs.antt =====
-- The records of include/chronos/core/types.hpp over a type D of decimals, with what their
-- constructors put in. Reserved bytes are lists of zeros.
use Prim.Native.String.{String}
use trading_engine.Base.{ℕ, zero, suc, Bool, false, List, [], ◌∷◌}
use trading_engine.Core.Enums.{OrderSide, TickSide, OrderType, TimeInForce, OrderStatus}

abbrev pub zeros : ℕ → List ℕ
zeros zero = []
zeros (suc n) = 0 ∷ zeros n

pub record Tick (D : Type 0) : Type 0 where
  pub exchange_timestamp_us : ℕ
  pub receive_timestamp_us : ℕ
  pub exchange_id : ℕ
  pub symbol_id : ℕ
  pub price : D
  pub quantity : D
  pub side : TickSide
  pub flags : ℕ
  pub reserved : List ℕ

pub record PriceLevel (D : Type 0) : Type 0 where
  pub price : D
  pub quantity : D

pub record OrderBookSnapshot (D : Type 0) : Type 0 where
  pub symbol_id : ℕ
  pub timestamp_us : ℕ
  pub bids : List (PriceLevel D)
  pub asks : List (PriceLevel D)

pub record OrderRequest (D : Type 0) : Type 0 where
  pub order_id : ℕ
  pub timestamp_us : ℕ
  pub price : D
  pub quantity : D
  pub stop_price : D
  pub client_order_id : ℕ
  pub symbol_id : ℕ
  pub exchange_id : ℕ
  pub strategy_id : ℕ
  pub side : OrderSide
  pub type : OrderType
  pub tif : TimeInForce
  pub strategy_flags : ℕ
  pub reserved : List ℕ

pub record Fill (D : Type 0) : Type 0 where
  pub execution_id : ℕ
  pub fill_id : ℕ
  pub order_id : ℕ
  pub exchange_timestamp_us : ℕ
  pub receive_timestamp_us : ℕ
  pub fill_price : D
  pub fill_quantity : D
  pub symbol_id : ℕ
  pub exchange_id : ℕ
  pub strategy_id : ℕ
  pub side : OrderSide
  pub is_maker : ℕ
  pub reserved : List ℕ

pub record Position (D : Type 0) : Type 0 where
  pub symbol_id : ℕ
  pub quantity : D
  pub average_price : D
  pub realized_pnl : D
  pub last_update_us : ℕ

-- The default constructors, from `Decimal(0)`.
module _ {D : Type 0} (nought : D) where
  abbrev pub default_tick : Tick D
  default_tick = record {
    exchange_timestamp_us = 0;
    receive_timestamp_us = 0;
    exchange_id = 0;
    symbol_id = 0;
    price = nought;
    quantity = nought;
    side = TickSide.bid;
    flags = 0;
    reserved = zeros 22;
  }

  abbrev pub default_order_request : OrderRequest D
  default_order_request = record {
    order_id = 0;
    timestamp_us = 0;
    price = nought;
    quantity = nought;
    stop_price = nought;
    client_order_id = 0;
    symbol_id = 0;
    exchange_id = 0;
    strategy_id = 0;
    side = OrderSide.buy;
    type = OrderType.limit;
    tif = TimeInForce.gtc;
    strategy_flags = 0;
    reserved = zeros 64;
  }

  abbrev pub default_fill : Fill D
  default_fill = record {
    execution_id = 0;
    fill_id = 0;
    order_id = 0;
    exchange_timestamp_us = 0;
    receive_timestamp_us = 0;
    fill_price = nought;
    fill_quantity = nought;
    symbol_id = 0;
    exchange_id = 0;
    strategy_id = 0;
    side = OrderSide.buy;
    is_maker = 0;
    reserved = zeros 58;
  }

-- A duration and a time point are numbers of ticks of their clocks.
pub record GatewayStatistics : Type 0 where
  pub messages_received : ℕ
  pub ticks_processed : ℕ
  pub errors_count : ℕ
  pub reconnections : ℕ
  pub avg_latency : ℕ
  pub last_message_time : ℕ

abbrev pub default_gateway_statistics : GatewayStatistics
default_gateway_statistics = record {
  messages_received = 0;
  ticks_processed = 0;
  errors_count = 0;
  reconnections = 0;
  avg_latency = 0;
  last_message_time = 0;
}

pub record OrderResult : Type 0 where
  pub success : Bool
  pub error_message : String
  pub exchange_order_id : ℕ
  pub send_timestamp_us : ℕ

abbrev pub default_order_result : OrderResult
default_order_result = record {
  success = false;
  error_message = "";
  exchange_order_id = 0;
  send_timestamp_us = 0;
}

pub record OrderAck : Type 0 where
  pub order_id : ℕ
  pub exchange_order_id : ℕ
  pub status : OrderStatus
  pub timestamp_us : ℕ

abbrev pub default_order_ack : OrderAck
default_order_ack = record {
  order_id = 0;
  exchange_order_id = 0;
  status = OrderStatus.pending;
  timestamp_us = 0;
}

pub record OrderReject : Type 0 where
  pub order_id : ℕ
  pub reason : String
  pub timestamp_us : ℕ

abbrev pub default_order_reject : OrderReject
default_order_reject = record { order_id = 0; reason = ""; timestamp_us = 0 }
