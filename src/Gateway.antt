-- ===== src/Gateway.antt =====
-- The wrapper of include/chronos/market_data/any_gateway.hpp over any type that satisfies the concept of
-- include/chronos/market_data/adapter_concept.hpp. Q is the type of references to tick queues.
mod Tests
use Prim.Native.String.{String}
use trading_engine.Base.{ℕ, Bool, true, false, List, [], ◌∷◌}
use trading_engine.Core.Enums.{ConnectionStatus}
use trading_engine.Core.Structs.{GatewayStatistics, default_gateway_statistics}
use trading_engine.Config.{ExchangeConfig}

-- The concept `ExchangeAdapter`: a call takes the adapter to its next state.
pub record ExchangeAdapter (Q : Type 0) (T : Type 0) : Type 0 where
  pub initialize : ExchangeConfig → Q → T → Bool × T
  pub start : T → Bool × T
  pub stop : T → T
  pub subscribe : String → T → Bool × T
  pub unsubscribe : String → T → Bool × T
  pub is_running : T → Bool
  pub get_status : T → ConnectionStatus
  pub get_statistics : T → GatewayStatistics

-- `impl_`: null, or a model of an adapter of some type.
pub data AnyGateway (Q : Type 0) : Type 1 where
  null : AnyGateway Q
  model : {T : Type 0} → ExchangeAdapter Q T → T → AnyGateway Q

module _ {Q : Type 0} where
  abbrev answered : {T : Type 0} → ExchangeAdapter Q T → Bool × T → Bool × AnyGateway Q
  answered ops r = (r.0, model ops r.1)

  abbrev pub initialize : ExchangeConfig → Q → AnyGateway Q → Bool × AnyGateway Q
  initialize cfg queue null = (false, null)
  initialize cfg queue (model ops adapter) = answered ops (ops.initialize cfg queue adapter)

  abbrev pub start : AnyGateway Q → Bool × AnyGateway Q
  start null = (false, null)
  start (model ops adapter) = answered ops (ops.start adapter)

  abbrev pub stop : AnyGateway Q → AnyGateway Q
  stop null = null
  stop (model ops adapter) = model ops (ops.stop adapter)

  abbrev pub subscribe : String → AnyGateway Q → Bool × AnyGateway Q
  subscribe sym null = (false, null)
  subscribe sym (model ops adapter) = answered ops (ops.subscribe sym adapter)

  abbrev pub unsubscribe : String → AnyGateway Q → Bool × AnyGateway Q
  unsubscribe sym null = (false, null)
  unsubscribe sym (model ops adapter) = answered ops (ops.unsubscribe sym adapter)

  abbrev pub is_running : AnyGateway Q → Bool
  is_running null = false
  is_running (model ops adapter) = ops.is_running adapter

  abbrev pub get_status : AnyGateway Q → ConnectionStatus
  get_status null = ConnectionStatus.disconnected
  get_status (model ops adapter) = ops.get_status adapter

  abbrev pub get_statistics : AnyGateway Q → GatewayStatistics
  get_statistics null = default_gateway_statistics
  get_statistics (model ops adapter) = ops.get_statistics adapter

  -- `operator bool`
  abbrev pub has_impl : AnyGateway Q → Bool
  has_impl null = false
  has_impl (model ops adapter) = true
