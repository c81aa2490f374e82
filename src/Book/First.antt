-- ===== src/Book/First.antt =====
-- The data of the first order book, include/chronos/market_data/orderbook.hpp. A map of levels is the
-- list of its pairs in the order of its keys.
use trading_engine.Base.{ℕ, Bool, false, List, []}

pub record FirstStatistics : Type 0 where
  pub total_updates : ℕ
  pub bid_updates : ℕ
  pub ask_updates : ℕ
  pub level_additions : ℕ
  pub level_removals : ℕ
  pub hot_path_reads : ℕ
  pub cold_path_reads : ℕ
  pub avg_update_latency : ℕ

abbrev pub default_first_statistics : FirstStatistics
default_first_statistics = record {
  total_updates = 0;
  bid_updates = 0;
  ask_updates = 0;
  level_additions = 0;
  level_removals = 0;
  hot_path_reads = 0;
  cold_path_reads = 0;
  avg_update_latency = 0;
}

pub record FirstHotData (D : Type 0) : Type 0 where
  pub best_bid_price : D
  pub best_bid_quantity : D
  pub best_ask_price : D
  pub best_ask_quantity : D
  pub last_update_time : ℕ
  pub version : ℕ
  pub has_bids : Bool
  pub has_asks : Bool

abbrev pub default_first_hot_data : {D : Type 0} → D → FirstHotData D
default_first_hot_data nought = record {
  best_bid_price = nought;
  best_bid_quantity = nought;
  best_ask_price = nought;
  best_ask_quantity = nought;
  last_update_time = 0;
  version = 0;
  has_bids = false;
  has_asks = false;
}

pub record FirstColdData (D : Type 0) : Type 0 where
  pub bids : List (D × D)
  pub asks : List (D × D)
  pub statistics : FirstStatistics

-- `OrderBook`, with the flag of its spin lock.
pub record FirstBook (D : Type 0) : Type 0 where
  pub hot_data : FirstHotData D
  pub cold_data : FirstColdData D
  pub hot_lock : Bool

abbrev pub new_first_book : {D : Type 0} → D → FirstBook D
new_first_book nought = record {
  hot_data = default_first_hot_data nought;
  cold_data = record { bids = []; asks = []; statistics = default_first_statistics };
  hot_lock = false;
}

abbrev pub first_max_depth : ℕ
first_max_depth = 20
