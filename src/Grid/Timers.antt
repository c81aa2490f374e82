-- ===== src/Grid/Timers.antt =====
-- `GridStrategy::onTimer`: cancels the buys above the mid price and the sells below it.
use trading_engine.Base.{
  ℕ, ◌≡◌, refl, Bool, true, false, not, ◌&&◌, List, [], ◌∷◌, none, some, arith, ◌==◌, if◌then◌else◌,
  AllPairs, ap, ◌∙◌,
}
use trading_engine.Core.Numbers.{Numbers, to_double}
use trading_engine.Grid.{Context, GridLevel, Grid}

module _ (n : Numbers) (c : Context n) where
  open n use {Double, Decimal, less}
  open c use {World, mid_price, cancel_order}

  -- The two conditions of the loop's body.
  abbrev pub stale_buy : Double → GridLevel n → Bool
  stale_buy mid l = less mid (to_double n l.price) && not (l.buy_order_id == 0)

  abbrev pub stale_sell : Double → GridLevel n → Bool
  stale_sell mid l = less (to_double n l.price) mid && not (l.sell_order_id == 0)

  unfoldable pub drop_buy : Double → World → GridLevel n → GridLevel n × World
  drop_buy mid w l =
      if stale_buy mid l
      then (record l { buy_order_id = 0 }, (cancel_order w l.buy_order_id).0)
      else (l, w)

  unfoldable pub drop_sell : Double → World → GridLevel n → GridLevel n × World
  drop_sell mid w l =
      if stale_sell mid l
      then (record l { sell_order_id = 0 }, (cancel_order w l.sell_order_id).0)
      else (l, w)

  unfoldable pub timer_level : Double → World → GridLevel n → GridLevel n × World
  timer_level mid w l = let (l', w') = drop_buy mid w l in drop_sell mid w' l'

  unfoldable pub timer_levels : Double → World → List (GridLevel n) → List (GridLevel n) × World
  timer_levels mid w [] = ([], w)
  timer_levels mid w (l ∷ ls) =
      let (l', w') = timer_level mid w l in
      let (ls', w'') = timer_levels mid w' ls in (l' ∷ ls', w'')

  unfoldable pub timer_with : Grid n → World → Double → Grid n × World
  timer_with g w mid =
      let (levels, w') = timer_levels mid w g.levels in (record g { levels = levels }, w')

  unfoldable pub on_timer : Grid n → World → Grid n × World
  unfolding timer_with
  on_timer g w =
      if g.initialized
      then elim (mid_price w g.cfg.symbol_id) [
        | none ↦ (g, w)
        | some mid ↦ timer_with g w (to_double n mid)
      ]
      else (g, w)

  -- What a timer leaves of a level: no buy above the mid price, no sell below it, all else as it was.
  pub record LevelTimed (mid : Double) (l l' : GridLevel n) : Type 0 where
    pub price_kept : l'.price ≡ l.price
    pub buy_cleared : less mid (to_double n l.price) ≡ true → l'.buy_order_id ≡ 0
    pub buy_kept : less mid (to_double n l.price) ≡ false → l'.buy_order_id ≡ l.buy_order_id
    pub sell_cleared : less (to_double n l.price) mid ≡ true → l'.sell_order_id ≡ 0
    pub sell_kept : less (to_double n l.price) mid ≡ false → l'.sell_order_id ≡ l.sell_order_id

  timer_level-LevelTimed :
      (mid : Double) (w : World) (l : GridLevel n) → LevelTimed mid l (timer_level mid w l).0
  unfolding timer_level drop_buy drop_sell
  timer_level-LevelTimed mid w l = record {
    price_kept = ground arith;
    buy_cleared = ground arith;
    buy_kept = ground arith;
    sell_cleared = ground arith;
    sell_kept = ground arith;
  }

  -- The ids that a timer has to cancel, in the order of the levels.
  unfoldable pub stale_ids : Double → List (GridLevel n) → List ℕ
  stale_ids mid [] = []
  stale_ids mid (l ∷ ls) =
      let rest = stale_ids mid ls in
      let sells = if stale_sell mid l then l.sell_order_id ∷ rest else rest in
      if stale_buy mid l then l.buy_order_id ∷ sells else sells

  unfoldable pub cancel_all : World → List ℕ → World
  cancel_all w [] = w
  cancel_all w (i ∷ is) = cancel_all (cancel_order w i).0 is

  timer_levels-LevelTimed :
      (mid : Double) (w : World) (ls : List (GridLevel n))
      → AllPairs (LevelTimed mid) ls (timer_levels mid w ls).0
  unfolding timer_levels
  timer_levels-LevelTimed mid w [] = tt
  timer_levels-LevelTimed mid w (l ∷ ls) =
      (timer_level-LevelTimed mid w l, timer_levels-LevelTimed mid (timer_level mid w l).1 ls)

  pub timer_levels-cancel_all :
      (mid : Double) (w : World) (ls : List (GridLevel n))
      → (timer_levels mid w ls).1 ≡ cancel_all w (stale_ids mid ls)
  unfolding timer_levels timer_level drop_buy drop_sell stale_ids cancel_all
  timer_levels-cancel_all mid w [] = refl
  timer_levels-cancel_all mid w (l ∷ ls) =
      ground (arith, timer_levels-cancel_all mid (timer_level mid w l).1 ls)

  -- The ids that stand in levels before and no longer in the same place after, in the order of the
  -- levels, the buy before the sell.
  abbrev pub gone_ids : List (GridLevel n) → List (GridLevel n) → List ℕ
  gone_ids (l ∷ ls) (l' ∷ ls') =
      let rest = gone_ids ls ls' in
      let sells = if l.sell_order_id == l'.sell_order_id then rest else l.sell_order_id ∷ rest in
      if l.buy_order_id == l'.buy_order_id then sells else l.buy_order_id ∷ sells
  gone_ids _ _ = []

  stale_ids-gone_ids :
      (mid : Double) (w : World) (ls : List (GridLevel n))
      → stale_ids mid ls ≡ gone_ids ls (timer_levels mid w ls).0
  unfolding timer_levels timer_level drop_buy drop_sell stale_ids
  stale_ids-gone_ids mid w [] = refl
  stale_ids-gone_ids mid w (l ∷ ls) =
      ground (arith, stale_ids-gone_ids mid (timer_level mid w l).1 ls)

  -- After `onLoad` and with a mid price, a timer leaves no buy at levels above it and no sell at
  -- levels below it and all else in the levels as it was, and what it asks of the context is to
  -- cancel exactly the ids that stand in a level before and no longer after, in the order of the
  -- levels.
  pub on_timer_lem :
      (g : Grid n) (w : World) {mid : Decimal}
      → g.initialized ≡ true
      → mid_price w g.cfg.symbol_id ≡ some mid
      → AllPairs (LevelTimed (to_double n mid)) g.levels (on_timer g w).0.levels
        × ((on_timer g w).1 ≡ cancel_all w (gone_ids g.levels (on_timer g w).0.levels))
  unfolding on_timer
  on_timer_lem g w {mid} up priced =
      rw (up, priced)
        (
          timer_levels-LevelTimed (to_double n mid) w g.levels,
          timer_levels-cancel_all (to_double n mid) w g.levels
              ∙ ap (cancel_all w) (stale_ids-gone_ids (to_double n mid) w g.levels),
        )
