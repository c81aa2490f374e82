-- ===== src/Grid/Tests.antt =====
-- A grid over whole numbers, with an exchange that accepts every order, and the theorems there.
use trading_engine.Base.{
  ℕ, ◌+◌, ◌*◌, ◌^◌, ◌≡◌, refl, true, false, List, [], ◌∷◌, ◌++◌, Option, none, some, map, AllPairs,
}
use trading_engine.Base.Int.{ℤ, pos, ◌+ℤ◌, ◌-ℤ◌, ◌*ℤ◌}
use trading_engine.Core.Enums.{OrderSide}
use trading_engine.Core.Structs.{Fill, OrderRequest, default_fill}
use trading_engine.Core.Whole.{whole}
use trading_engine.Core.Numbers.{to_double, to_decimal}
use trading_engine.Grid.{Context, Config, GridLevel, Grid, construct, order_for}
use trading_engine.Grid.Ticks.{
  on_tick, tick_levels, tick_level, offer_buy, offer_sell, LevelTicked, on_tick-LevelTicked,
  submit_all, tick_orders, on_tick-submit_all,
}
use trading_engine.Grid.Timers.{on_timer, LevelTimed, cancel_all, gone_ids, on_timer_lem}
use trading_engine.Grid.Fills.Orders.{profit_price, buy_back_price}

pub record Exchange : Type 0 where
  pub mid : Option ℤ
  pub next_id : ℕ
  pub orders : List (OrderRequest ℤ)
  pub cancelled : List ℕ

abbrev pub accepting : Context whole
accepting = record {
  World = Exchange;
  mid_price = λ w symbol. w.mid;
  submit_order =
      λ w o. (record w { next_id = w.next_id + 1; orders = w.orders ++ o ∷ [] }, w.next_id);
  cancel_order = λ w id. (record w { cancelled = w.cancelled ++ id ∷ [] }, true);
}

abbrev pub one : ℕ
one = 2 ^ 32

abbrev pub settings : Config whole
settings = record {
  grid_low = pos 90;
  grid_high = pos 110;
  grid_levels = pos 2;
  quantity = pos 1;
  symbol_id = 1;
}

abbrev pub level : ℕ → ℕ → ℕ → GridLevel whole
level price buy sell = record {
  price = pos (price * one);
  buy_order_id = buy;
  sell_order_id = sell;
}

abbrev pub grid_of : List (GridLevel whole) → Grid whole
grid_of levels = record {
  cfg = settings;
  levels = levels;
  initialized = true;
  ticks_processed = 0;
  fills_processed = 0;
}

abbrev pub open_grid : Grid whole
open_grid = grid_of (level 90 0 0 ∷ level 100 0 0 ∷ level 110 0 0 ∷ [])

-- A buy is live at 90 and a sell at 110.
abbrev live_grid : Grid whole
live_grid = grid_of (level 90 7 0 ∷ level 100 0 0 ∷ level 110 0 8 ∷ [])

abbrev pub market_at : ℕ → Exchange
market_at price = record {
  mid = some (pos (price * one));
  next_id = 9;
  orders = [];
  cancelled = [];
}

abbrev pub fill_of : ℕ → Fill ℤ
fill_of id = record (default_fill (pos 0)) { order_id = id }

pub constructed : construct whole settings ≡ some (record open_grid { initialized = false })
unfolding construct ◌+ℤ◌ ◌-ℤ◌ ◌*ℤ◌ to_decimal
constructed = refl

-- At 100 the level at 90 gets a buy and the level at 110 a sell.
first_tick :
    map {B = ℕ × ℕ}
      (λ l. (l.buy_order_id, l.sell_order_id))
      (on_tick whole accepting open_grid (market_at 100)).0.levels
    ≡ (9, 0) ∷ (0, 0) ∷ (0, 10) ∷ []
unfolding on_tick tick_levels tick_level offer_buy offer_sell to_double
first_tick = refl

on_tick-LevelTicked_example :
    AllPairs
      (LevelTicked whole accepting (to_double whole (pos (100 * one))))
      open_grid.levels
      (on_tick whole accepting open_grid (market_at 100)).0.levels
on_tick-LevelTicked_example =
    on_tick-LevelTicked whole accepting open_grid (market_at 100) refl refl

on_tick-submit_all_example :
    (on_tick whole accepting open_grid (market_at 100)).1
    ≡ submit_all whole accepting (market_at 100) (
        tick_orders whole accepting settings
          (to_double whole (pos (100 * one)))
          0
          0
          open_grid.levels)
on_tick-submit_all_example = on_tick-submit_all whole accepting open_grid (market_at 100) refl refl

abbrev closed_market : Exchange
closed_market = record (market_at 100) { mid = none }

on_timer_lem_example :
    AllPairs
      (LevelTimed whole accepting (to_double whole (pos (80 * one))))
      live_grid.levels
      (on_timer whole accepting live_grid (market_at 80)).0.levels
    × ((on_timer whole accepting live_grid (market_at 80)).1
        ≡ cancel_all whole accepting (market_at 80) (
            gone_ids whole accepting live_grid.levels
              (on_timer whole accepting live_grid (market_at 80)).0.levels))
on_timer_lem_example = on_timer_lem whole accepting live_grid (market_at 80) refl refl

abbrev exit_order : OrderRequest ℤ
exit_order =
    order_for whole settings OrderSide.sell
      (profit_price whole accepting live_grid (market_at 100) (fill_of 7) (level 100 0 0))

abbrev reentry_order : OrderRequest ℤ
reentry_order =
    order_for whole settings OrderSide.buy
      (buy_back_price whole accepting live_grid (market_at 100) (fill_of 8) (level 100 0 0))
