-- ===== src/Grid/Ticks.antt =====
-- `GridStrategy::onTick`: one pass over the levels, which offers a buy for each level below the mid
-- price and a sell for each above it, where none is live.
use trading_engine.Base.{
  ℕ, ◌+◌, ◌≡◌, ◌≢◌, refl, Bool, true, false, ◌&&◌, List, [], ◌∷◌, none, some, arith, ◌==◌,
  if◌then◌else◌, ◌⊎◌, AllPairs,
}
use trading_engine.Base.Int.{pos}
use trading_engine.Core.Enums.{OrderSide}
use trading_engine.Core.Structs.{OrderRequest}
use trading_engine.Core.Numbers.{Numbers, to_decimal, to_double}
use trading_engine.Grid.{
  Context, Config, GridLevel, Grid, next_count, order_for, note_buy, note_sell, buy_price,
  sell_price,
}

-- The variables of the loop: the world behind the context, the two offsets and the counter.
pub record TickLoop {n : Numbers} (c : Context n) : Type 0 where
  pub world : Context.World c
  pub buy_offset : ℕ
  pub sell_offset : ℕ
  pub ticks : ℕ

module _ (n : Numbers) (c : Context n) where
  open n use {Double, Decimal, less, add, sub, mul, literal, of_integer}
  open c use {World, mid_price, submit_order}

  -- `if (oid) ticks_processed_++`
  abbrev count_order : ℕ → ℕ → ℕ
  count_order oid ticks = if oid == 0 then ticks else next_count ticks

  -- The first `if` of the loop's body, at one level.
  unfoldable pub offer_buy : Config n → Double → TickLoop c → GridLevel n → GridLevel n × TickLoop c
  offer_buy cfg mid s l =
      let level_price = to_double n l.price in
      let (w, oid) =
        submit_order s.world
          (order_for n cfg OrderSide.buy (buy_price n level_price mid s.buy_offset)) in
      if less level_price mid && l.buy_order_id == 0
      then (
        note_buy n oid l,
        record s { world = w; buy_offset = s.buy_offset + 1; ticks = count_order oid s.ticks },
      )
      else (l, s)

  -- The second `if`.
  unfoldable pub offer_sell :
      Config n → Double → TickLoop c → GridLevel n → GridLevel n × TickLoop c
  offer_sell cfg mid s l =
      let level_price = to_double n l.price in
      let (w, oid) =
        submit_order s.world
          (order_for n cfg OrderSide.sell (sell_price n level_price mid s.sell_offset)) in
      if less mid level_price && l.sell_order_id == 0
      then (
        note_sell n oid l,
        record s { world = w; sell_offset = s.sell_offset + 1; ticks = count_order oid s.ticks },
      )
      else (l, s)

  unfoldable pub tick_level :
      Config n → Double → TickLoop c → GridLevel n → GridLevel n × TickLoop c
  tick_level cfg mid s l = let (l', s') = offer_buy cfg mid s l in offer_sell cfg mid s' l'

  -- The loop. Its body reads and writes the element that it stands at, and no other.
  unfoldable pub tick_levels :
      Config n → Double → TickLoop c → List (GridLevel n) → List (GridLevel n) × TickLoop c
  tick_levels cfg mid s [] = ([], s)
  tick_levels cfg mid s (l ∷ ls) =
      let (l', s') = tick_level cfg mid s l in
      let (ls', s'') = tick_levels cfg mid s' ls in (l' ∷ ls', s'')

  unfoldable pub tick_with : Grid n → World → Double → Grid n × World
  tick_with g w mid =
      let (levels, s) =
        tick_levels g.cfg mid
          (record { world = w; buy_offset = 0; sell_offset = 0; ticks = g.ticks_processed })
          g.levels in
      (record g { levels = levels; ticks_processed = s.ticks }, s.world)

  unfoldable pub on_tick : Grid n → World → Grid n × World
  unfolding tick_with
  on_tick g w =
      if g.initialized
      then elim (mid_price w g.cfg.symbol_id) [
        | none ↦ (g, w)
        | some mid ↦ tick_with g w (to_double n mid)
      ]
      else (g, w)

  -- What one tick may do to a level: its price stays, a live order stays, and a new order is noted only
  -- for a buy below the mid price or a sell above it.
  pub record LevelTicked (mid : Double) (l l' : GridLevel n) : Type 0 where
    pub price_kept : l'.price ≡ l.price
    pub buy_kept : l.buy_order_id ≢ 0 → l'.buy_order_id ≡ l.buy_order_id
    pub sell_kept : l.sell_order_id ≢ 0 → l'.sell_order_id ≡ l.sell_order_id
    pub buy_below : l'.buy_order_id ≢ l.buy_order_id → less (to_double n l.price) mid ≡ true
    pub sell_above : l'.sell_order_id ≢ l.sell_order_id → less mid (to_double n l.price) ≡ true

  tick_level-LevelTicked :
      (cfg : Config n) (mid : Double) (s : TickLoop c) (l : GridLevel n)
      → LevelTicked mid l (tick_level cfg mid s l).0
  unfolding tick_level offer_buy offer_sell
  tick_level-LevelTicked cfg mid s l = record {
    price_kept = ground arith;
    buy_kept = ground arith;
    sell_kept = ground arith;
    buy_below = ground arith;
    sell_above = ground arith;
  }

  tick_levels-LevelTicked :
      (cfg : Config n) (mid : Double) (s : TickLoop c) (ls : List (GridLevel n))
      → AllPairs (LevelTicked mid) ls (tick_levels cfg mid s ls).0
  unfolding tick_levels
  tick_levels-LevelTicked cfg mid s [] = tt
  tick_levels-LevelTicked cfg mid s (l ∷ ls) = (
    tick_level-LevelTicked cfg mid s l,
    tick_levels-LevelTicked cfg mid (tick_level cfg mid s l).1 ls,
  )

  -- After `onLoad` and with a mid price, a tick changes no level's price and no live order; it
  -- notes a new buy only at levels below the mid price and a new sell only at levels above it; and
  -- it keeps the number of levels.
  pub on_tick-LevelTicked :
      (g : Grid n) (w : World) {mid : Decimal}
      → g.initialized ≡ true
      → mid_price w g.cfg.symbol_id ≡ some mid
      → AllPairs (LevelTicked (to_double n mid)) g.levels (on_tick g w).0.levels
  unfolding on_tick
  on_tick-LevelTicked g w {mid} up priced =
      rw (up, priced) (tick_levels-LevelTicked g.cfg (to_double n mid) _ g.levels)

  -- Before `onLoad`, after `onUnload` and without a mid price a tick does nothing at all.
  pub on_tick_idle :
      (g : Grid n) (w : World)
      → (g.initialized ≡ false) ⊎ (mid_price w g.cfg.symbol_id ≡ none)
      → on_tick g w ≡ (g, w)
  unfolding on_tick
  on_tick_idle g w h = ground arith

  -- The orders of a tick as a list, with the offsets at the start.
  abbrev wants_buy : Double → GridLevel n → Bool
  wants_buy mid l = less (to_double n l.price) mid && l.buy_order_id == 0

  abbrev wants_sell : Double → GridLevel n → Bool
  wants_sell mid l = less mid (to_double n l.price) && l.sell_order_id == 0

  -- Half a unit, and a tenth more for each order before it on its side, past the mid price.
  abbrev pub crossing_buy : Config n → Double → ℕ → OrderRequest Decimal
  crossing_buy cfg mid j =
      order_for n cfg OrderSide.buy
        (to_decimal n (add (add mid (literal 5 1)) (mul (of_integer (pos j)) (literal 1 1))))

  abbrev pub crossing_sell : Config n → Double → ℕ → OrderRequest Decimal
  crossing_sell cfg mid j =
      order_for n cfg OrderSide.sell
        (to_decimal n (sub (sub mid (literal 5 1)) (mul (of_integer (pos j)) (literal 1 1))))

  pub tick_orders : Config n → Double → ℕ → ℕ → List (GridLevel n) → List (OrderRequest Decimal)
  tick_orders cfg mid j k [] = []
  tick_orders cfg mid j k (l ∷ ls) =
      let rest =
        tick_orders cfg mid (if wants_buy mid l then j + 1 else j)
          (if wants_sell mid l then k + 1 else k) ls in
      let sells = if wants_sell mid l then crossing_sell cfg mid k ∷ rest else rest in
      if wants_buy mid l then crossing_buy cfg mid j ∷ sells else sells

  -- The world after a list of orders.
  pub submit_all : World → List (OrderRequest Decimal) → World
  submit_all w [] = w
  submit_all w (o ∷ os) = submit_all (submit_order w o).0 os

  tick_levels-submit_all :
      (cfg : Config n) (mid : Double) (s : TickLoop c) (ls : List (GridLevel n))
      → (tick_levels cfg mid s ls).1.world
        ≡ submit_all s.world (tick_orders cfg mid s.buy_offset s.sell_offset ls)
  unfolding tick_levels tick_level offer_buy offer_sell tick_orders submit_all buy_price sell_price
  tick_levels-submit_all cfg mid s [] = refl
  tick_levels-submit_all cfg mid s (l ∷ ls) =
      ground (arith, tick_levels-submit_all cfg mid (tick_level cfg mid s l).1 ls)

  -- After `onLoad` and with a mid price, a tick submits exactly the orders of `tick_orders` in this
  -- order, each priced from the mid price and its place among the orders of its side: the price of
  -- the level that it is for does not enter.
  pub on_tick-submit_all :
      (g : Grid n) (w : World) {mid : Decimal}
      → g.initialized ≡ true
      → mid_price w g.cfg.symbol_id ≡ some mid
      → (on_tick g w).1 ≡ submit_all w (tick_orders g.cfg (to_double n mid) 0 0 g.levels)
  unfolding on_tick
  on_tick-submit_all g w {mid} up priced =
      rw (up, priced) (tick_levels-submit_all g.cfg (to_double n mid) _ g.levels)
