-- ===== src/Book/Tests.antt =====
-- A book with one bid, cleared.
use trading_engine.Base.{◌≡◌, refl, set}
use trading_engine.Base.Int.{pos}
use trading_engine.Core.Whole.{whole}
use trading_engine.Book.{ColdData, clear, default_cold_data}
use trading_engine.Book.Clear.{clear_lem}

abbrev one_bid : ColdData whole
one_bid = record (default_cold_data whole) {
  bids = set (default_cold_data whole).bids 0 (record { price = pos 9; quantity = pos 1 });
  bid_count = 1;
  last_update_time = 77;
}

one_bid_cleared : clear whole one_bid ≡ record (default_cold_data whole) { last_update_time = 77 }
one_bid_cleared = clear_lem whole one_bid refl refl
