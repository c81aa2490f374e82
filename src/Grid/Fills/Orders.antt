-- ===== src/Grid/Fills/Orders.antt =====
-- The whole of `onFill` on the fill of a live order: what is cleared, what is placed, what is counted.
use trading_engine.Base.{
  ◌≡◌, ◌≢◌, refl, true, false, List, [], ◌∷◌, ◌++◌, arith, length, All, ap, ◌∙◌, if◌then◌else◌,
}
use trading_engine.Core.Structs.{Fill}
use trading_engine.Core.Numbers.{Numbers, to_decimal, to_double}
use trading_engine.Grid.{Context, GridLevel, Grid, next_count}
use trading_engine.Grid.Fills.{
  is_buy_of, is_sell_of, clear_buy, clear_sell, mid_value, fill_levels, on_fill,
}
use trading_engine.Grid.Fills.Routing.{
  Foreign, fill_levels-append, buy_filled_top, sell_filled_bottom,
}

module _ (n : Numbers) (c : Context n) (g : Grid n) (w : Context.World c)
    (fill : Fill (Numbers.Decimal n)) where
  open c use {submit_order}

  abbrev mid : Numbers.Double n
  mid = mid_value n c w g.cfg.symbol_id

  -- The price of the sell that takes the profit of a filled buy: that of the level, but the mid price
  -- where there is a positive one below it.
  abbrev pub profit_price : GridLevel n → Numbers.Decimal n
  profit_price l =
      if Numbers.less n (Numbers.literal n 0 0) mid
      then if Numbers.less n mid (to_double n l.price)
        then to_decimal n mid
        else to_decimal n (to_double n l.price)
      else to_decimal n (to_double n l.price)

  -- The price of the buy after a filled sell: that of the level, but the mid price where there is a
  -- positive one above it.
  abbrev pub buy_back_price : GridLevel n → Numbers.Decimal n
  buy_back_price l =
      if Numbers.less n (Numbers.literal n 0 0) mid
      then if Numbers.less n (to_double n l.price) mid
        then to_decimal n mid
        else to_decimal n (to_double n l.price)
      else to_decimal n (to_double n l.price)

  -- The level waits for other orders than the filled one.
  abbrev pub IsOther : GridLevel n → Type 0
  IsOther l = (fill.order_id ≢ l.buy_order_id) × (fill.order_id ≢ l.sell_order_id)

  on_fill_at :
      (xs ys : List (GridLevel n))
      → g.levels ≡ xs ++ ys
      → All (Foreign n c fill.order_id) xs
      → on_fill n c g w fill ≡ fill_levels n c g w fill.order_id mid (length xs) ys
  unfolding on_fill
  on_fill_at xs ys e foreign =
      ap (fill_levels n c g w fill.order_id mid 0) e
      ∙ fill_levels-append n c g w fill.order_id mid 0 xs ys foreign
      ∙ ap (λ i. fill_levels n c g w fill.order_id mid i ys) (omega arith)

  -- For the fill of the live buy of the highest level, where no level before it waits for that
  -- order: the buy is cleared, one fill is counted, and nothing is submitted.
  on_fill_buy_top :
      (xs : List (GridLevel n)) (l : GridLevel n)
      → g.levels ≡ xs ++ (l ∷ [])
      → All (Foreign n c fill.order_id) xs
      → is_buy_of n c fill.order_id l ≡ true
      → on_fill n c g w fill ≡ (
        record g {
          levels = xs ++ (clear_buy n c l ∷ []);
          fills_processed = next_count g.fills_processed;
        },
        w,
      )
  unfolding fill_levels
  on_fill_buy_top xs l e foreign hit =
      on_fill_at xs (l ∷ []) e foreign ∙ rw hit (buy_filled_top n c g w mid (length xs) xs l e refl)

  -- For the fill of the live sell of the lowest level, whose buy it is not: the sell is cleared,
  -- one fill is counted, and nothing is submitted.
  on_fill_sell_bottom :
      (l : GridLevel n) (ys : List (GridLevel n))
      → g.levels ≡ l ∷ ys
      → is_buy_of n c fill.order_id l ≡ false
      → is_sell_of n c fill.order_id l ≡ true
      → on_fill n c g w fill ≡ (
        record g { levels = clear_sell n c l ∷ ys; fills_processed = next_count g.fills_processed },
        w,
      )
  unfolding fill_levels
  on_fill_sell_bottom l ys e not_buy hit =
      on_fill_at [] (l ∷ ys) e tt ∙ rw (not_buy, hit) (sell_filled_bottom n c g w mid l ys e)
