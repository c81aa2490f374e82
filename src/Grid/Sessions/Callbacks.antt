-- ===== src/Grid/Sessions/Callbacks.antt =====
-- What each callback of include/chronos/strategies/grid_strategy.hpp does to the ids of the levels, as
-- renewals with ids above those given before, and to the prices.
use trading_engine.Base.{
  ℕ, ◌≤◌, ◌≡◌, inl, inr, refl, List, [], ◌∷◌, arith, All, Bool-cases, Option-cases,
}
use trading_engine.Core.Enums.{OrderSide}
use trading_engine.Core.Numbers.{Numbers, to_double}
use trading_engine.Grid.{Context, Config, GridLevel, Grid, order_for, buy_price, sell_price}
use trading_engine.Grid.Ticks.{TickLoop, offer_buy, offer_sell, tick_level, tick_levels, on_tick}
use trading_engine.Grid.Timers.{drop_buy, drop_sell, timer_level, timer_levels, on_timer}
use trading_engine.Grid.Sessions.{RisingIds, ids, prices}
use trading_engine.Grid.Sessions.Slots.{
  Slot, Renew, done, next, Under, IsDistinct, Renew-IsDistinct,
}

module _ {n : Numbers} {c : Context n} (fresh : RisingIds c) where
  open n use {Double, Decimal}
  open c use {World, mid_price, submit_order, cancel_order}
  open fresh use {issued, submitted, cancelled}

  -- What a loop's body does to one level.
  abbrev pub LevelRenewed : World → World → GridLevel n → GridLevel n → Type 0
  LevelRenewed w w' l l' =
      ((m : ℕ) × Slot (issued w) l.buy_order_id m l'.buy_order_id
        × Slot m l.sell_order_id (issued w') l'.sell_order_id)
      × (l'.price ≡ l.price)

  -- What a callback does to all levels.
  abbrev pub Renewed : World → World → List (GridLevel n) → List (GridLevel n) → Type 0
  Renewed w w' ls ls' = Renew (issued w') (issued w) (ids ls) (ids ls') × (prices ls' ≡ prices ls)

  pub Renewed-cons :
      {w w' w'' : World} {l l' : GridLevel n} (ls ls' : List (GridLevel n))
      → LevelRenewed w w' l l'
      → Renewed w' w'' ls ls'
      → Renewed w w'' (l ∷ ls) (l' ∷ ls')
  Renewed-cons ls ls' ((m, buy, sell), price) (r, rest) = (next buy (next sell r), rw (price, rest))

  pub unchanged :
      (w w' : World) (ls : List (GridLevel n)) → issued w ≤ issued w' → Renewed w w' ls ls
  unchanged w w' [] h = (done h, refl)
  unchanged w w' (l ∷ ls) h =
      Renewed-cons {w = w} {w' = w} ls ls ((issued w, omega arith, omega arith), refl)
        (unchanged w w' ls h)

  -- The ids are distinct, and were given before.
  abbrev pub Good : World → List (GridLevel n) → Type 0
  Good w ls = All (Under (issued w)) (ids ls) × IsDistinct (ids ls)

  abbrev pub Carried : World → World → List (GridLevel n) → List (GridLevel n) → Type 0
  Carried w w' ls ls' = (Good w ls → Good w' ls') × (prices ls' ≡ prices ls)

  pub Renewed-Carried :
      (w w' : World) (ls ls' : List (GridLevel n)) → Renewed w w' ls ls' → Carried w w' ls ls'
  Renewed-Carried w w' ls ls' (r, same) =
      (λ (under, distinct). Renew-IsDistinct r under distinct, same)

  pub unchanged-Carried :
      (w w' : World) (ls : List (GridLevel n)) → issued w ≤ issued w' → Carried w w' ls ls
  unchanged-Carried w w' ls h = Renewed-Carried w w' ls ls (unchanged w w' ls h)

  tick_level-LevelRenewed :
      (cfg : Config n) (mid : Double) (s : TickLoop c) (l : GridLevel n)
      → LevelRenewed s.world (tick_level n c cfg mid s l).1.world l (tick_level n c cfg mid s l).0
  unfolding tick_level offer_buy offer_sell
  tick_level-LevelRenewed cfg mid s l =
      let (l', s') = offer_buy n c cfg mid s l in
      let bought =
        submitted s.world
          (order_for n cfg OrderSide.buy (buy_price n (to_double n l.price) mid s.buy_offset)) in
      let sold =
        submitted s'.world (
          order_for n cfg OrderSide.sell
            (sell_price n (to_double n l'.price) mid s'.sell_offset)) in
      ((issued s'.world, ground arith, ground arith), ground arith)

  tick_levels-Renewed :
      (cfg : Config n) (mid : Double) (s : TickLoop c) (ls : List (GridLevel n))
      → Renewed s.world (tick_levels n c cfg mid s ls).1.world ls (tick_levels n c cfg mid s ls).0
  unfolding tick_levels
  tick_levels-Renewed cfg mid s [] = (done (omega arith), refl)
  tick_levels-Renewed cfg mid s (l ∷ ls) =
      Renewed-cons ls (tick_levels n c cfg mid (tick_level n c cfg mid s l).1 ls).0
        (tick_level-LevelRenewed cfg mid s l)
        (tick_levels-Renewed cfg mid (tick_level n c cfg mid s l).1 ls)

  pub on_tick-Carried :
      (g : Grid n) (w : World) → Carried w (on_tick n c g w).1 g.levels (on_tick n c g w).0.levels
  unfolding on_tick
  on_tick-Carried g w = elim (Bool-cases g.initialized) [
    | inl up ↦ elim (Option-cases (mid_price w g.cfg.symbol_id)) [
      | inl unpriced ↦ rw (up, unpriced) (unchanged-Carried w w g.levels (omega arith))
      | inr (mid, priced) ↦
          rw (up, priced)
            (Renewed-Carried w _ g.levels _
              (tick_levels-Renewed g.cfg (to_double n mid) _ g.levels))
    ]
    | inr down ↦ rw down (unchanged-Carried w w g.levels (omega arith))
  ]

  timer_level-LevelRenewed :
      (mid : Double) (w : World) (l : GridLevel n)
      → LevelRenewed w (timer_level n c mid w l).1 l (timer_level n c mid w l).0
  unfolding timer_level drop_buy drop_sell
  timer_level-LevelRenewed mid w l =
      let (l', w') = drop_buy n c mid w l in
      let first = cancelled w l.buy_order_id in
      let second = cancelled w' l'.sell_order_id in
      ((issued w', ground arith, ground arith), ground arith)

  timer_levels-Renewed :
      (mid : Double) (w : World) (ls : List (GridLevel n))
      → Renewed w (timer_levels n c mid w ls).1 ls (timer_levels n c mid w ls).0
  unfolding timer_levels
  timer_levels-Renewed mid w [] = (done (omega arith), refl)
  timer_levels-Renewed mid w (l ∷ ls) =
      Renewed-cons ls (timer_levels n c mid (timer_level n c mid w l).1 ls).0
        (timer_level-LevelRenewed mid w l) (timer_levels-Renewed mid (timer_level n c mid w l).1 ls)

  pub on_timer-Carried :
      (g : Grid n) (w : World) → Carried w (on_timer n c g w).1 g.levels (on_timer n c g w).0.levels
  unfolding on_timer
  on_timer-Carried g w = elim (Bool-cases g.initialized) [
    | inl up ↦ elim (Option-cases (mid_price w g.cfg.symbol_id)) [
      | inl unpriced ↦ rw (up, unpriced) (unchanged-Carried w w g.levels (omega arith))
      | inr (mid, priced) ↦
          rw (up, priced)
            (Renewed-Carried w _ g.levels _ (timer_levels-Renewed (to_double n mid) w g.levels))
    ]
    | inr down ↦ rw down (unchanged-Carried w w g.levels (omega arith))
  ]
