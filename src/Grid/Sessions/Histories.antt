-- ===== src/Grid/Sessions/Histories.antt =====
-- What holds of `GridStrategy` of include/chronos/strategies/grid_strategy.hpp after any sequence of
-- callbacks.
use mathlib.Core.Path.{subst}
use trading_engine.Base.{
  ℕ, zero, suc, ◌+◌, ◌≡◌, ◌≢◌, inl, refl, sym, [], some, arith, ap, ◌∙◌, get_elem?,
}
use trading_engine.Base.Int.{pos, negsuc}
use trading_engine.Core.Numbers.{Numbers}
use trading_engine.Grid.{
  Context, Config, Grid, construct, level_prices, with_levels, on_load, on_unload,
}
use trading_engine.Grid.Sessions.{
  RisingIds, MoreIds, Step, History, loaded, unloaded, ticked, timed, filled, elsewhere,
  constructed, later, ids, prices, first_levels,
}
use trading_engine.Grid.Sessions.Slots.{Apart-none, IsDistinct-index}
use trading_engine.Grid.Sessions.Callbacks.{
  Good, Carried, unchanged-Carried, on_tick-Carried, on_timer-Carried,
}
use trading_engine.Grid.Sessions.Fills.{on_fill-Carried}

module _ (n : Numbers) (c : Context n) (fresh : RisingIds c) where
  open n use {Decimal}
  open c use {World}

  Step-Carried :
      {g : Grid n} {w : World} {g' : Grid n} {w' : World}
      → Step n c (MoreIds fresh) g w g' w'
      → Carried fresh w w' g.levels g'.levels
  unfolding on_load on_unload
  Step-Carried {g = g} {w = w} loaded = unchanged-Carried fresh w w g.levels (omega arith)
  Step-Carried {g = g} {w = w} unloaded = unchanged-Carried fresh w w g.levels (omega arith)
  Step-Carried {g = g} {w = w} ticked = on_tick-Carried fresh g w
  Step-Carried {g = g} {w = w} timed = on_timer-Carried fresh g w
  Step-Carried {g = g} {w = w} (filled fill) = on_fill-Carried fresh g w fill
  Step-Carried {g = g} {w = w} (elsewhere w' h) = unchanged-Carried fresh w w' g.levels h

  level_prices-Good :
      (w : World) (cfg : Config n) (i rounds : ℕ) → Good fresh w (level_prices n cfg i rounds)
  unfolding level_prices
  level_prices-Good w cfg i zero = (tt, tt)
  level_prices-Good w cfg i (suc rounds) =
      let (under, distinct) = level_prices-Good w cfg (i + 1) rounds in
      let empty = Apart-none (ids (level_prices n cfg (i + 1) rounds)) in
      ((inl refl, (inl refl, under)), ((λ set. absurd (set refl), empty), (empty, distinct)))

  construct-levels :
      (cfg : Config n) (g : Grid n) → construct n cfg ≡ some g → g.levels ≡ first_levels n cfg
  unfolding construct with_levels
  construct-levels cfg g e = ground arith

  first_levels-Good : (w : World) (cfg : Config n) → Good fresh w (first_levels n cfg)
  first_levels-Good w cfg =
      elim cfg.grid_levels
        as (λ z. Good fresh w (elim z [ pos l ↦ level_prices n cfg 0 (l + 1) | negsuc l ↦ [] ])) [
          | pos l ↦ level_prices-Good w cfg 0 (l + 1)
          | negsuc l ↦ (tt, tt)
        ]

  history :
      {cfg : Config n} {g : Grid n} {w : World}
      → History n c (MoreIds fresh) cfg g w
      → Good fresh w g.levels × (prices g.levels ≡ prices (first_levels n cfg))
  history {cfg = cfg} {w = w} (constructed {g = g} e) =
      let start = construct-levels cfg g e in
      (subst (Good fresh w) (sym start) (first_levels-Good w cfg), ap prices start)
  history (later h step) =
      let (good, same) = history h in
      let (carried, kept) = Step-Carried step in (carried good, kept ∙ same)

  -- If the context gives each order the id 0 or an id above all that it gave before, as a generator
  -- that counts up does, then after any sequence of callbacks, and of changes elsewhere, no id but
  -- 0 stands twice among the buy and sell ids of the levels.
  pub one_slot_per_id :
      {cfg : Config n} {g : Grid n} {w : World}
      → History n c (MoreIds fresh) cfg g w
      → (i j id : ℕ) → id ≢ 0
      → get_elem? (ids g.levels) i ≡ some id
      → get_elem? (ids g.levels) j ≡ some id
      → i ≡ j
  one_slot_per_id h i j id set a b = IsDistinct-index _ i j id (history h).0.1 set a b

  -- If the context gives each order the id 0 or an id above all that it gave before, then after any
  -- sequence of callbacks, and of changes elsewhere, the levels have the prices that the constructor gave them.
  pub prices_kept :
      {cfg : Config n} {g : Grid n} {w : World}
      → History n c (MoreIds fresh) cfg g w
      → prices g.levels ≡ prices (first_levels n cfg)
  prices_kept h = (history h).1
