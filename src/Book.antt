-- ===== src/Book.antt =====
-- The structures of the order book in include/chronos/market_data/orderbook_v2.hpp, and the bodies that
-- stand in that header. The reads by version are in Seqlock.antt.
mod Clear
pub mod First
mod Tests
use trading_engine.Base.{ℕ, zero, suc, ◌+◌, Bool, List, [], ◌∷◌, set}
use trading_engine.Core.Numbers.{Numbers, zero_decimal}

abbrev pub max_depth : ℕ
max_depth = 20

abbrev pub hot_depth : ℕ
hot_depth = 5

module _ (n : Numbers) where
  open n use {Decimal, below}

  pub record HotData : Type 0 where
    pub bid_prices : List Decimal
    pub bid_quantities : List Decimal
    pub ask_prices : List Decimal
    pub ask_quantities : List Decimal
    pub version : ℕ
    pub last_update_time : ℕ
    pub bid_count : ℕ
    pub ask_count : ℕ

  -- An array of equal elements.
  abbrev pub repeated : {A : Type 0} → A → ℕ → List A
  repeated x zero = []
  repeated x (suc k) = x ∷ repeated x k

  abbrev pub default_hot_data : HotData
  default_hot_data = record {
    bid_prices = repeated (zero_decimal n) hot_depth;
    bid_quantities = repeated (zero_decimal n) hot_depth;
    ask_prices = repeated (zero_decimal n) hot_depth;
    ask_quantities = repeated (zero_decimal n) hot_depth;
    version = 0;
    last_update_time = 0;
    bid_count = 0;
    ask_count = 0;
  }

  pub record Level : Type 0 where
    pub price : Decimal
    pub quantity : Decimal

  abbrev pub default_level : Level
  default_level = record { price = zero_decimal n; quantity = zero_decimal n }

  abbrev pub is_valid : Level → Bool
  is_valid l = below (zero_decimal n) l.quantity

  pub record ColdData : Type 0 where
    pub bids : List Level
    pub asks : List Level
    pub bid_count : ℕ
    pub ask_count : ℕ
    pub last_update_time : ℕ

  abbrev pub default_cold_data : ColdData
  default_cold_data = record {
    bids = repeated default_level max_depth;
    asks = repeated default_level max_depth;
    bid_count = 0;
    ask_count = 0;
    last_update_time = 0;
  }

  -- The loop of `clear` from index i on.
  abbrev pub clear_levels : (rounds i : ℕ) → ColdData → ColdData
  clear_levels zero i c = c
  clear_levels (suc rounds) i c =
      clear_levels rounds (i + 1)
        (record c { bids = set c.bids i default_level; asks = set c.asks i default_level })

  abbrev pub clear : ColdData → ColdData
  clear c = clear_levels max_depth 0 (record c { bid_count = 0; ask_count = 0 })

-- `OrderBookV2::Statistics`, with durations in nanoseconds.
pub record BookStatistics : Type 0 where
  pub total_updates : ℕ
  pub hot_path_reads : ℕ
  pub cold_path_reads : ℕ
  pub buffer_swaps : ℕ
  pub version_retries : ℕ
  pub avg_update_latency : ℕ
  pub avg_hot_read_latency : ℕ
  pub avg_cold_read_latency : ℕ
