-- ===== src/Gateway/Tests.antt =====
-- The wrapper around an adapter that counts its subscriptions, and without an adapter.
use trading_engine.Base.{ℕ, ◌+◌, ◌≡◌, refl, true, false, ltb}
use trading_engine.Core.Enums.{ConnectionStatus}
use trading_engine.Core.Structs.{default_gateway_statistics}
use trading_engine.Gateway.{
  ExchangeAdapter, AnyGateway, null, model, start, stop, subscribe, is_running,
}

abbrev counting : ExchangeAdapter ℕ ℕ
counting = record {
  initialize = λ cfg q t. (true, q);
  start = λ t. (ltb 0 t, t);
  stop = λ t. 0;
  subscribe = λ sym t. (true, t + 1);
  unsubscribe = λ sym t. (ltb 0 t, t);
  is_running = λ t. ltb 0 t;
  get_status = λ t. ConnectionStatus.connected;
  get_statistics = λ t. default_gateway_statistics;
}

abbrev wrapped : AnyGateway ℕ
wrapped = model counting 0

runs_when_subscribed :
    ((start wrapped).0 ≡ false)
    × (is_running (subscribe "BTCUSDT" wrapped).1 ≡ true)
    × (is_running (stop (subscribe "BTCUSDT" wrapped).1) ≡ false)
runs_when_subscribed = (refl, refl, refl)

refused_without_adapter :
    ((start {Q = ℕ} null).0 ≡ false) × ((subscribe {Q = ℕ} "BTCUSDT" null).0 ≡ false)
refused_without_adapter = (refl, refl)
