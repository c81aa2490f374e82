-- ===== src/Monitor.antt =====
-- The data of include/chronos/monitoring/health_monitor.hpp and its counters.
use Prim.Native.String.{String}
use trading_engine.Base.{ℕ, ◌+◌, ◌%◌, ◌^◌, Bool, true, List, []}
use trading_engine.Core.Numbers.{Numbers}

pub data Status : Type 0 where
  healthy degraded unhealthy : Status

pub record ComponentInfo : Type 0 where
  pub name : String
  pub status : Status
  pub message : String
  pub last_heartbeat_us : ℕ

abbrev pub default_component_info : ComponentInfo
default_component_info = record { name = ""; status = healthy; message = ""; last_heartbeat_us = 0 }

module _ (n : Numbers) where
  open n use {Double, literal}

  pub record Report : Type 0 where
    pub overall_healthy : Bool
    pub components : List ComponentInfo
    pub timestamp_us : ℕ
    pub ticks_total : ℕ
    pub orders_total : ℕ
    pub fills_total : ℕ
    pub ticks_per_sec : Double
    pub orders_per_sec : Double

  abbrev pub default_report : Report
  default_report = record {
    overall_healthy = true;
    components = [];
    timestamp_us = 0;
    ticks_total = 0;
    orders_total = 0;
    fills_total = 0;
    ticks_per_sec = literal 0 0;
    orders_per_sec = literal 0 0;
  }

pub record HealthMonitor : Type 0 where
  pub components : List ComponentInfo
  pub ticks : ℕ
  pub orders : ℕ
  pub fills : ℕ
  pub last_report_us : ℕ
  pub prev_ticks : ℕ
  pub prev_orders : ℕ

-- The counters have 64 bits.
abbrev pub record_tick : HealthMonitor → HealthMonitor
record_tick m = record m { ticks = (m.ticks + 1) % 2 ^ 64 }

abbrev pub record_order : HealthMonitor → HealthMonitor
record_order m = record m { orders = (m.orders + 1) % 2 ^ 64 }

abbrev pub record_fill : HealthMonitor → HealthMonitor
record_fill m = record m { fills = (m.fills + 1) % 2 ^ 64 }
