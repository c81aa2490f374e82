-- ===== src/Grid/Sessions/Counts.antt =====
-- What `tickCount` and `fillCount` of include/chronos/strategies/grid_strategy.hpp count.
use trading_engine.Base.{
  ℕ, ◌+◌, ◌-◌, ◌%◌, ◌^◌, ◌≤◌, ◌<◌, ◌≡◌, inl, inr, refl, Bool, false, ◌||◌, List, [], ◌∷◌, some,
  ◌==◌, Bool-cases, Option-cases, arith, if◌then◌else◌,
}
use trading_engine.Core.Structs.{Fill}
use trading_engine.Core.Numbers.{Numbers, to_double}
use trading_engine.Grid.{
  Context, Config, GridLevel, Grid, construct, with_levels, on_load, on_unload, place_buy_at,
  place_sell_at, next_count, tick_count, fill_count,
}
use trading_engine.Grid.Ticks.{
  TickLoop, offer_buy, offer_sell, tick_level, tick_levels, tick_with, on_tick,
}
use trading_engine.Grid.Timers.{timer_with, on_timer}
use trading_engine.Grid.Fills.{buy_filled, sell_filled, fill_levels, on_fill}
use trading_engine.Grid.Sessions.{
  Step, History, loaded, unloaded, ticked, timed, filled, elsewhere, constructed, later,
}
use trading_engine.Grid.Sessions.Orders.{recording, Submissions}

module _ {n : Numbers} (c : Context n) where
  abbrev World : Type 0
  World = Context.World (recording c)

  -- How many of the submissions the context gave an id.
  abbrev pub accepted : Submissions c → ℕ
  accepted [] = 0
  accepted ((id, o) ∷ rest) = if id == 0 then accepted rest else accepted rest + 1

  -- Whether the id stands in a level.
  abbrev pub stands_in : ℕ → List (GridLevel n) → Bool
  stands_in id [] = false
  stands_in id (l ∷ ls) = id == l.buy_order_id || id == l.sell_order_id || stands_in id ls

  -- Whether a level waits for the order: the id 0 stands in levels that wait for none.
  abbrev pub awaited : ℕ → List (GridLevel n) → Bool
  awaited id ls = if id == 0 then false else stands_in id ls

  -- The counter has moved on by the orders that the context accepted meanwhile.
  record Counted (w : World) (t : ℕ) (w' : World) (t' : ℕ) : Type 0 where
    more : accepted w.1 ≤ accepted w'.1
    moved : t' ≡ (t + (accepted w'.1 - accepted w.1)) % 2 ^ 64

  offer_buy-Counted :
      (cfg : Config n) (mid : Numbers.Double n) (s : TickLoop (recording c)) (l : GridLevel n)
      → s.ticks < 2 ^ 64
      → let (l', s') = offer_buy n (recording c) cfg mid s l in
        Counted s.world s.ticks s'.world s'.ticks
  unfolding offer_buy
  offer_buy-Counted cfg mid s l small = record { more = ground arith; moved = ground arith }

  offer_sell-Counted :
      (cfg : Config n) (mid : Numbers.Double n) (s : TickLoop (recording c)) (l : GridLevel n)
      → s.ticks < 2 ^ 64
      → let (l', s') = offer_sell n (recording c) cfg mid s l in
        Counted s.world s.ticks s'.world s'.ticks
  unfolding offer_sell
  offer_sell-Counted cfg mid s l small = record { more = ground arith; moved = ground arith }

  tick_levels-Counted :
      (cfg : Config n) (mid : Numbers.Double n) (s : TickLoop (recording c))
      (ls : List (GridLevel n))
      → s.ticks < 2 ^ 64
      → let (ls', s') = tick_levels n (recording c) cfg mid s ls in
        Counted s.world s.ticks s'.world s'.ticks
  unfolding tick_levels tick_level
  tick_levels-Counted cfg mid s [] small = record { more = omega arith; moved = omega arith }
  tick_levels-Counted cfg mid s (l ∷ ls) small =
      let (l', s') = offer_buy n (recording c) cfg mid s l in
      let (l'', s'') = offer_sell n (recording c) cfg mid s' l' in
      let bought = offer_buy-Counted cfg mid s l small in
      let sold = offer_sell-Counted cfg mid s' l' (omega (arith, bought.moved)) in
      let rest = tick_levels-Counted cfg mid s'' ls (omega (arith, sold.moved)) in
      record {
        more = omega (arith, bought.more, sold.more, rest.more);
        moved =
            omega (arith, bought.more, sold.more, rest.more, bought.moved, sold.moved, rest.moved);
      }

  -- A callback other than `onFill` leaves the number of fills, and all but `onTick` that of ticks.
  on_tick_counts :
      (g : Grid n) (w : World)
      → g.ticks_processed < 2 ^ 64
      → let (g', w') = on_tick n (recording c) g w in
        Counted w g.ticks_processed w' g'.ticks_processed × (g'.fills_processed ≡ g.fills_processed)
  unfolding on_tick tick_with
  on_tick_counts g w small = elim (Bool-cases g.initialized) [
    | inl up ↦ elim (Option-cases (Context.mid_price c w.0 g.cfg.symbol_id)) [
      | inl unpriced ↦ rw (up, unpriced) (none_counted, refl)
      | inr (mid, priced) ↦
          rw (up, priced) (tick_levels-Counted g.cfg (to_double n mid) _ g.levels small, refl)
    ]
    | inr down ↦ rw down (none_counted, refl)
  ]
    where
      none_counted : Counted w g.ticks_processed w g.ticks_processed
      none_counted = record { more = omega arith; moved = omega arith }

  on_timer_counts :
      (g : Grid n) (w : World)
      → let (g', w') = on_timer n (recording c) g w in
        (g'.ticks_processed ≡ g.ticks_processed) × (g'.fills_processed ≡ g.fills_processed)
  unfolding on_timer timer_with
  on_timer_counts g w = (ground arith, ground arith)

  fill_levels_counts :
      (g : Grid n) (w : World) (id : ℕ) (mid : Numbers.Double n) (i : ℕ) (ls : List (GridLevel n))
      → let (g', w') = fill_levels n (recording c) g w id mid i ls in
        (g'.ticks_processed ≡ g.ticks_processed)
        × (g'.fills_processed
            ≡ (if awaited id ls then next_count g.fills_processed else g.fills_processed))
  unfolding fill_levels buy_filled sell_filled place_buy_at place_sell_at
  fill_levels_counts g w id mid i [] = (refl, ground arith)
  fill_levels_counts g w id mid i (l ∷ ls) =
      let rest = fill_levels_counts g w id mid (i + 1) ls in (ground arith, ground arith)

  on_fill_counts :
      (g : Grid n) (w : World) (fill : Fill (Numbers.Decimal n))
      → let (g', w') = on_fill n (recording c) g w fill in
        (g'.ticks_processed ≡ g.ticks_processed)
        × (g'.fills_processed ≡ (
            if awaited fill.order_id g.levels
            then next_count g.fills_processed
            else g.fills_processed))
  unfolding on_fill
  on_fill_counts g w fill = fill_levels_counts g w fill.order_id _ 0 g.levels

  module _ (Changes : World → World → Type 0) where
    -- The orders that the context accepts in `onTick`.
    abbrev pub tick_orders_in :
        {g : Grid n} {w : World} {g' : Grid n} {w' : World}
        → Step n (recording c) Changes g w g' w'
        → ℕ
    tick_orders_in loaded = 0
    tick_orders_in unloaded = 0
    tick_orders_in {g} {w} ticked = accepted (on_tick n (recording c) g w).1.1 - accepted w.1
    tick_orders_in timed = 0
    tick_orders_in (filled fill) = 0
    tick_orders_in (elsewhere w' change) = 0

    -- The fills that a level waits for.
    abbrev pub awaited_fills_in :
        {g : Grid n} {w : World} {g' : Grid n} {w' : World}
        → Step n (recording c) Changes g w g' w'
        → ℕ
    awaited_fills_in loaded = 0
    awaited_fills_in unloaded = 0
    awaited_fills_in ticked = 0
    awaited_fills_in timed = 0
    awaited_fills_in {g} (filled fill) = if awaited fill.order_id g.levels then 1 else 0
    awaited_fills_in (elsewhere w' change) = 0

    abbrev pub tick_orders :
        {cfg : Config n} {g : Grid n} {w : World} → History n (recording c) Changes cfg g w → ℕ
    tick_orders (constructed e) = 0
    tick_orders (later h step) = tick_orders h + tick_orders_in step

    abbrev pub awaited_fills :
        {cfg : Config n} {g : Grid n} {w : World} → History n (recording c) Changes cfg g w → ℕ
    awaited_fills (constructed e) = 0
    awaited_fills (later h step) = awaited_fills h + awaited_fills_in step

    -- One step moves the counters on.
    Step_counts :
        {g : Grid n} {w : World} {g' : Grid n} {w' : World}
        (step : Step n (recording c) Changes g w g' w')
        → g.ticks_processed < 2 ^ 64
        → g.fills_processed < 2 ^ 64
        → (g'.ticks_processed ≡ (g.ticks_processed + tick_orders_in step) % 2 ^ 64)
          × (g'.fills_processed ≡ (g.fills_processed + awaited_fills_in step) % 2 ^ 64)
    unfolding on_load on_unload
    Step_counts loaded t f = (omega arith, omega arith)
    Step_counts unloaded t f = (omega arith, omega arith)
    Step_counts {g = g} {w = w} ticked t f =
        let (counted, kept) = on_tick_counts g w t in (counted.moved, omega (arith, kept))
    Step_counts {g = g} {w = w} timed t f =
        let (ticks, fills) = on_timer_counts g w in (omega (arith, ticks), omega (arith, fills))
    Step_counts {g = g} {w = w} (filled fill) t f =
        let (ticks, fills) = on_fill_counts g w fill in
        (omega (arith, ticks), ground (arith, fills))
    Step_counts (elsewhere w' change) t f = (omega arith, omega arith)

    construct_counts :
        (cfg : Config n) (g : Grid n)
        → construct n cfg ≡ some g
        → (g.ticks_processed ≡ 0) × (g.fills_processed ≡ 0)
    unfolding construct with_levels
    construct_counts cfg g e = (ground arith, ground arith)

    -- After any sequence of callbacks, and of changes elsewhere: `tickCount` is, modulo 2 ^ 64, the
    -- number of orders that `onTick` submitted and that got an id other than 0, and `fillCount` the
    -- number of fills given to `onFill` of an order whose id is not 0 and stood in a level.
    pub tick_count-fill_count :
        {cfg : Config n} {g : Grid n} {w : World} (h : History n (recording c) Changes cfg g w)
        → (tick_count g ≡ tick_orders h % 2 ^ 64) × (fill_count g ≡ awaited_fills h % 2 ^ 64)
    tick_count-fill_count (constructed {g = g} e) =
        let (ticks, fills) = construct_counts _ g e in (omega (arith, ticks), omega (arith, fills))
    tick_count-fill_count (later h step) =
        let (ticks, fills) = tick_count-fill_count h in
        let (ticks', fills') = Step_counts step (omega (arith, ticks)) (omega (arith, fills)) in
        (omega (arith, ticks, ticks'), omega (arith, fills, fills'))
