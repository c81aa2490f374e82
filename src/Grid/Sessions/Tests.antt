-- ===== src/Grid/Sessions/Tests.antt =====
-- A grid that is made, loaded, and ticks at 100.
use trading_engine.Base.{
  ℕ, zero, suc, ◌+◌, ◌*◌, ◌≡◌, ◌⊎◌, inr, refl, true, false, List, [], ◌∷◌, some, get_elem?, arith,
  All,
}
use trading_engine.Base.Int.{pos}
use trading_engine.Core.Whole.{whole}
use trading_engine.Core.Numbers.{to_double}
use trading_engine.Core.Enums.{OrderSide}
use trading_engine.Grid.{Context, GridLevel, Grid, tick_count, fill_count, on_load, place_sell_at}
use trading_engine.Grid.Ticks.{on_tick, tick_levels, tick_level, offer_buy, offer_sell}
use trading_engine.Grid.Tests.{
  accepting, settings, open_grid, market_at, level, one, fill_of, constructed,
}
use trading_engine.Grid.Sessions.{RisingIds, MoreIds, History, loaded, ticked, later, ids, prices}
use trading_engine.Grid.Timers.{on_timer, cancel_all}
use trading_engine.Grid.Sessions
use trading_engine.Grid.Fills.{on_fill, fill_levels, buy_filled, is_buy_of, is_sell_of}
use mathlib.Core.List.{Memᴰ}
use trading_engine.Grid.Sessions.Accounts
use trading_engine.Grid.Sessions.Tracked.Fills.{FindsFree}
use trading_engine.Grid.Sessions.Accounts.{Session, bookkeeping, filled_ids, orders_accounted}
use trading_engine.Grid.Sessions.Counts.{tick_count-fill_count}
use trading_engine.Grid.Sessions.Cancels.{IsSubmission, timer_cancels_own}
use trading_engine.Grid.Sessions.Orders.{recording, SubmitsNothing, IsOrderOf, ids_are_own}
use trading_engine.Grid.Sessions.Histories.{one_slot_per_id}

-- The exchange of the tests counts its ids up.
abbrev counting : RisingIds accepting
counting = record {
  issued = λ w. w.next_id;
  submitted = λ w o. (omega arith, inr (omega arith, omega arith));
  cancelled = λ w id. omega arith;
}

abbrev made : Grid whole
made = record open_grid { initialized = false }

abbrev after_tick : Grid whole
after_tick = (on_tick whole accepting (on_load whole accepting made) (market_at 100)).0

session :
    History whole accepting
      (MoreIds counting)
      settings
      after_tick
      (on_tick whole accepting (on_load whole accepting made) (market_at 100)).1
session = later (later (Sessions.constructed {w = market_at 100} constructed) loaded) ticked

one_slot_per_id_example : ◌≡◌ {A = ℕ} 5 5
unfolding on_load on_tick tick_levels tick_level offer_buy offer_sell to_double
one_slot_per_id_example =
    one_slot_per_id whole accepting counting session 5 5 10 (λ e. omega arith) refl refl

-- The same, with a record of what is submitted.
abbrev recorded : Context.World (recording accepting)
recorded = (market_at 100, [])

abbrev recorded_tick : Grid whole × Context.World (recording accepting)
recorded_tick =
    on_tick whole (recording accepting) (on_load whole (recording accepting) made) recorded

abbrev recorded_session :
    History whole
      (recording accepting)
      (SubmitsNothing accepting)
      settings
      recorded_tick.0
      recorded_tick.1
recorded_session = later (later (Sessions.constructed {w = recorded} constructed) loaded) ticked

ids_are_own_example :
    IsOrderOf accepting settings recorded_tick.1 OrderSide.buy 9
    × IsOrderOf accepting settings recorded_tick.1 OrderSide.sell 0
unfolding on_load on_tick tick_levels tick_level offer_buy offer_sell to_double
ids_are_own_example = ids_are_own accepting recorded_session 0 (level 90 9 0) refl

-- The market falls to 80, and the buy at 90 is stale.
abbrev fallen : Context.World (recording accepting)
fallen = (record recorded_tick.1.0 { mid = some (pos (80 * one)) }, recorded_tick.1.1)

timer_cancels_own_example :
    (ids : List ℕ) × ((on_timer whole (recording accepting) recorded_tick.0 fallen).1
      ≡ cancel_all whole (recording accepting) fallen ids)
    × All (IsSubmission accepting settings fallen) ids
timer_cancels_own_example =
    timer_cancels_own accepting (later recorded_session (Sessions.elsewhere fallen refl))

-- The same with books kept: then the buy at 90 fills, and the sell of the level above is placed.
abbrev opened : Accounts.World accepting
opened = ((market_at 100, []), [])

abbrev booked_tick : Grid whole × Accounts.World accepting
booked_tick =
    on_tick whole (bookkeeping accepting) (on_load whole (bookkeeping accepting) made) opened

abbrev booked_fill : Grid whole × Accounts.World accepting
booked_fill = on_fill whole (bookkeeping accepting) booked_tick.0 booked_tick.1 (fill_of 9)

abbrev booked : Session accepting settings booked_fill.0 booked_fill.1
booked =
    later (later (later (Sessions.constructed {w = opened} constructed) loaded) ticked)
      (Sessions.filled (fill_of 9))

-- The levels when the fill comes.
abbrev ticked_levels : List (GridLevel whole)
ticked_levels = level 90 9 0 ∷ level 100 0 0 ∷ level 110 0 10 ∷ []

free_above :
    (i : ℕ) (l next : GridLevel whole)
    → get_elem? ticked_levels i ≡ some l
    → is_buy_of whole (bookkeeping accepting) 9 l ≡ true
    → get_elem? ticked_levels (i + 1) ≡ some next
    → next.sell_order_id ≡ 0
free_above zero l next at own there = ground arith
free_above (suc zero) l next at own there = ground arith
free_above (suc (suc zero)) l next at own there = ground arith
free_above (suc (suc (suc i))) l next at own there = ground arith

free_below :
    (i : ℕ) (l before : GridLevel whole)
    → get_elem? ticked_levels (i + 1) ≡ some l
    → is_sell_of whole (bookkeeping accepting) 9 l ≡ true
    → get_elem? ticked_levels i ≡ some before
    → before.buy_order_id ≡ 0
free_below zero l before at own there = ground arith
free_below (suc zero) l before at own there = ground arith
free_below (suc (suc zero)) l before at own there = ground arith
free_below (suc (suc (suc i))) l before at own there = ground arith

booked-FindsFree : FindsFree (bookkeeping accepting) booked_tick.0 9
unfolding on_load on_tick tick_levels tick_level offer_buy offer_sell to_double
booked-FindsFree = record { above = free_above; below = free_below }

-- The sell of the level above has got the id 11.
orders_accounted_example :
    ◌≡◌ {A = ℕ} 11 0
    ⊎ (Memᴰ 11 (ids booked_fill.0.levels)
        ⊎ (Memᴰ 11 booked_fill.1.0.1 ⊎ Memᴰ 11 (filled_ids accepting booked)))
unfolding on_load on_tick tick_levels tick_level offer_buy offer_sell to_double on_fill fill_levels
    buy_filled place_sell_at
orders_accounted_example =
    orders_accounted accepting booked refl (booked-FindsFree, (tt, (tt, tt))) 11 _ (Memᴰ.head refl)

abbrev recorded_fill : Grid whole × Context.World (recording accepting)
recorded_fill = on_fill whole (recording accepting) recorded_tick.0 recorded_tick.1 (fill_of 9)

-- The tick placed two orders, and the buy of one of them has filled.
tick_count-fill_count_example : (tick_count recorded_fill.0 ≡ 2) × (fill_count recorded_fill.0 ≡ 1)
unfolding on_load on_tick tick_levels tick_level offer_buy offer_sell to_double on_fill fill_levels
    buy_filled place_sell_at
tick_count-fill_count_example =
    tick_count-fill_count accepting (SubmitsNothing accepting)
      (later recorded_session (Sessions.filled (fill_of 9)))
