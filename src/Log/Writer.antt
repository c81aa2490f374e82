-- ===== src/Log/Writer.antt =====
-- The members of `LogWriter` of include/chronos/logging/log_writer.hpp, and of `ZMQBridge` of
-- include/chronos/logging/zmq_bridge.hpp, to which the engine's events go.
use Prim.Native.String.{String}
use trading_engine.Base.{ℕ, Bool, false, Option, none, []}
use trading_engine.Config.{LogConfig, default_log_config}
use trading_engine.Log.{LogBuffer}

-- A file is what the system gives for it; a null pointer is `none`.
pub record LogWriter (File : Type 0) : Type 0 where
  pub log_dir : String
  pub config : LogConfig
  pub tick_buf : LogBuffer
  pub order_buf : LogBuffer
  pub fill_buf : LogBuffer
  pub running : Bool
  pub current_date : String
  pub tick_file : Option File
  pub order_file : Option File
  pub fill_file : Option File
  pub ticks_written : ℕ
  pub orders_written : ℕ
  pub fills_written : ℕ

abbrev empty_buffer : LogBuffer
empty_buffer = record { data_ = []; write_pos = 0 }

abbrev pub new_log_writer : {File : Type 0} → LogWriter File
new_log_writer = record {
  log_dir = "";
  config = default_log_config;
  tick_buf = empty_buffer;
  order_buf = empty_buffer;
  fill_buf = empty_buffer;
  running = false;
  current_date = "";
  tick_file = none;
  order_file = none;
  fill_file = none;
  ticks_written = 0;
  orders_written = 0;
  fills_written = 0;
}

pub record ZmqBridge (Config Handle Queue : Type 0) : Type 0 where
  pub config : Config
  pub zmq_context : Option Handle
  pub zmq_socket : Option Handle
  pub queue : Option Queue
  pub running : Bool
  pub ticks_pub : ℕ
  pub orders_pub : ℕ
  pub fills_pub : ℕ
  pub dropped : ℕ

-- The settings are those that `ZMQConfig` starts with.
abbrev pub new_zmq_bridge : {Config Handle Queue : Type 0} → Config → ZmqBridge Config Handle Queue
new_zmq_bridge config = record {
  config = config;
  zmq_context = none;
  zmq_socket = none;
  queue = none;
  running = false;
  ticks_pub = 0;
  orders_pub = 0;
  fills_pub = 0;
  dropped = 0;
}
