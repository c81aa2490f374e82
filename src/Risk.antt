-- ===== src/Risk.antt =====
-- The parameters of include/chronos/risk/risk_engine.hpp: the shared hot form, and the cold form in two
-- buffers of which the readers hold a pointer to one. A step here is a whole call.
pub mod Publish
pub mod State
pub mod Accesses
mod Tests
use Prim.Native.String.{String}
use trading_engine.Base.{ℕ, ◌+◌, ◌%◌, ◌^◌, Bool, true, false, ◌==◌, if◌then◌else◌}
use trading_engine.Core.Numbers.{Numbers, to_decimal}
use trading_engine.Config.{RiskParameters}

pub record RiskCheckResult : Type 0 where
  pub passed : Bool
  pub rejection_reason : String
  pub check_timestamp_us : ℕ

abbrev pub default_result : RiskCheckResult
default_result = record { passed = true; rejection_reason = ""; check_timestamp_us = 0 }

abbrev pub accept : RiskCheckResult
accept = record default_result { passed = true }

abbrev pub reject : String → RiskCheckResult
reject reason = record default_result { passed = false; rejection_reason = reason }

module _ (n : Numbers) where
  open n use {Decimal}

  -- The bytes of `HotParams` in front of `version`, which the `memcpy` copies.
  pub record Limits : Type 0 where
    pub max_order_value : Decimal
    pub max_position_value : Decimal
    pub max_total_position_value : Decimal
    pub min_available_capital : Decimal
    pub max_orders_per_second : ℕ

  pub record HotParams : Type 0 where
    pub limits : Limits
    pub version : ℕ

  pub record ColdParams : Type 0 where
    pub params : RiskParameters n
    pub hot : HotParams
    pub update_time_us : ℕ

  -- What `buildHot` makes of the parameters.
  abbrev pub converted : RiskParameters n → Limits
  converted p = record {
    max_order_value = to_decimal n p.max_order_value;
    max_position_value = to_decimal n p.max_position_value;
    max_total_position_value = to_decimal n p.max_total_position_value;
    min_available_capital = to_decimal n p.min_available_capital;
    max_orders_per_second = p.max_orders_per_second;
  }

  abbrev pub build_hot : ColdParams → ColdParams
  build_hot c = record c { hot = record c.hot { limits = converted c.params } }

  -- `active_cold` is the index of the buffer that the atomic pointer points to.
  pub record RiskEngine : Type 0 where
    pub hot_params : HotParams
    pub cold_0 : ColdParams
    pub cold_1 : ColdParams
    pub active_cold : ℕ
    pub write_idx : ℕ

  abbrev pub buffer : RiskEngine → ℕ → ColdParams
  buffer e i = if i == 0 then e.cold_0 else e.cold_1

  abbrev pub put_buffer : RiskEngine → ℕ → ColdParams → RiskEngine
  put_buffer e i c = if i == 0 then record e { cold_0 = c } else record e { cold_1 = c }

  abbrev pub get_read_buffer : RiskEngine → ColdParams
  get_read_buffer e = buffer e e.active_cold

  abbrev pub get_write_buffer : RiskEngine → ColdParams
  get_write_buffer e = buffer e e.write_idx

  -- `std::memcpy(&to, &from, offsetof(HotParams, version))`
  abbrev pub copy_limits : HotParams → HotParams → HotParams
  copy_limits to from = record to { limits = from.limits }

  abbrev pub swap_cold_buffers : RiskEngine → RiskEngine
  swap_cold_buffers e =
      let stored = record e { active_cold = e.write_idx } in
      let turned = record stored { write_idx = if stored.write_idx == 0 then 1 else 0 } in
      let next = get_write_buffer turned in
      put_buffer turned turned.write_idx
        (record next { hot = copy_limits next.hot turned.hot_params })

  -- `version.store(version.load() + 1)`
  abbrev pub bump_hot : HotParams → HotParams
  bump_hot h = record h { version = (h.version + 1) % 2 ^ 64 }

  abbrev pub publish_params : RiskEngine → RiskEngine
  publish_params e =
      let dark = build_hot (get_write_buffer e) in
      let labelled = record dark {
        hot = record dark.hot { version = (e.hot_params.version + 1) % 2 ^ 64 };
      } in
      let built = put_buffer e e.write_idx labelled in
      let begun = record built { hot_params = bump_hot built.hot_params } in
      let copied = record begun { hot_params = copy_limits begun.hot_params labelled.hot } in
      let ended = record copied { hot_params = bump_hot copied.hot_params } in
      swap_cold_buffers ended
