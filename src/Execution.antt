-- ===== src/Execution.antt =====
-- The data of the order gateway, the execution handler and the engine:
-- include/chronos/execution/order_gateway.hpp and execution_handler.hpp, and
-- include/chronos/trading/strategy_engine.hpp.
use Prim.Native.String.{String}
use trading_engine.Base.{ℕ, Bool, List, Option}
use trading_engine.Base.Int.{ℤ}
use trading_engine.Core.Enums.{OrderSide, OrderType, OrderStatus}
use trading_engine.Config.{ExchangeConfig}

-- D is the type of decimals.
pub record PendingOrder (D : Type 0) : Type 0 where
  pub order_id : ℕ
  pub client_order_id : ℕ
  pub submit_timestamp_us : ℕ
  pub symbol_id : ℕ
  pub exchange_id : ℕ
  pub strategy_id : ℕ
  pub side : OrderSide
  pub type : OrderType
  pub status : OrderStatus
  pub original_price : D
  pub original_quantity : D
  pub filled_quantity : D
  pub last_update_us : ℕ

abbrev pub default_pending_order : {D : Type 0} → D → PendingOrder D
default_pending_order nought = record {
  order_id = 0;
  client_order_id = 0;
  submit_timestamp_us = 0;
  symbol_id = 0;
  exchange_id = 0;
  strategy_id = 0;
  side = OrderSide.buy;
  type = OrderType.limit;
  status = OrderStatus.pending;
  original_price = nought;
  original_quantity = nought;
  filled_quantity = nought;
  last_update_us = 0;
}

pub record OrderGatewayStats : Type 0 where
  pub orders_received : ℕ
  pub orders_sent : ℕ
  pub orders_rejected : ℕ
  pub orders_cancelled : ℕ
  pub orders_modified : ℕ
  pub fills_received : ℕ
  pub fill_errors : ℕ
  pub exchange_id_mismatch : ℕ
  pub queue_empty_polls : ℕ
  pub pending_order_count : ℕ
  pub avg_send_latency_us : ℕ

abbrev pub default_order_gateway_stats : OrderGatewayStats
default_order_gateway_stats = record {
  orders_received = 0;
  orders_sent = 0;
  orders_rejected = 0;
  orders_cancelled = 0;
  orders_modified = 0;
  fills_received = 0;
  fill_errors = 0;
  exchange_id_mismatch = 0;
  queue_empty_polls = 0;
  pending_order_count = 0;
  avg_send_latency_us = 0;
}

-- `StrategyEngine::Stats`
pub record EngineStats : Type 0 where
  pub ticks_processed : ℕ
  pub fills_processed : ℕ
  pub orders_submitted : ℕ
  pub orders_risk_rejected : ℕ
  pub orders_queue_dropped : ℕ

-- `ExecutionHandlerStats` of include/chronos/execution/execution_handler.hpp.
pub record ExecutionHandlerStats : Type 0 where
  pub fills_processed : ℕ
  pub acks_processed : ℕ
  pub rejects_processed : ℕ
  pub avg_latency_ns : ℕ

abbrev pub default_execution_handler_stats : ExecutionHandlerStats
default_execution_handler_stats = record {
  fills_processed = 0;
  acks_processed = 0;
  rejects_processed = 0;
  avg_latency_ns = 0;
}

-- The members of `OrderGateway` that are data, over the types of the two clients that it points to. A null
-- pointer is `none`.
pub record OrderGateway (D Client Stream : Type 0) : Type 0 where
  pub running : Bool
  pub cpu_affinity : ℤ
  pub config : ExchangeConfig
  pub exchange_id : ℕ
  pub exchange_name : String
  pub simulate_fills : Bool
  pub http_client : Option Client
  pub user_stream : Option Stream
  pub pending_orders : List (ℕ × PendingOrder D)
  pub exchange_to_local : List (ℕ × ℕ)
  pub client_id_to_local : List (String × ℕ)
  pub stats : OrderGatewayStats
  pub avg_send_latency_us : ℕ

module _ {D Client Stream : Type 0} where
  abbrev pub set_cpu_affinity : ℤ → OrderGateway D Client Stream → OrderGateway D Client Stream
  set_cpu_affinity cpu g = record g { cpu_affinity = cpu }

  abbrev pub set_http_client :
      Option Client → OrderGateway D Client Stream → OrderGateway D Client Stream
  set_http_client client g = record g { http_client = client }

  abbrev pub set_user_stream :
      Option Stream → OrderGateway D Client Stream → OrderGateway D Client Stream
  set_user_stream stream g = record g { user_stream = stream }

-- `ExecutionHandler`, over the types of the position manager and the three notifiers.
pub record ExecutionHandler (Manager OnFill OnAck OnReject : Type 0) : Type 0 where
  pub pm : Option Manager
  pub fill_notifier : Option OnFill
  pub ack_notifier : Option OnAck
  pub reject_notifier : Option OnReject
  pub stats : ExecutionHandlerStats
  pub avg_latency_ns : ℕ
