-- ===== src/Grid/Fills.antt =====
-- `GridStrategy::onFill`: the first level that waits for the fill's order clears it and places the
-- opposite order one level on.
pub mod Routing
pub mod Orders
use trading_engine.Base.{
  ℕ, zero, suc, ◌+◌, ◌-◌, ◌<◌, ◌≡◌, ◌≢◌, ◌⊎◌, refl, Bool, true, false, not, ◌&&◌, List, [], ◌∷◌,
  ◌++◌, Option, none, some, arith, ◌==◌, ltb, if◌then◌else◌, length, get_elem?, All, ap,
}
use trading_engine.Core.Enums.{OrderSide}
use trading_engine.Core.Structs.{Fill}
use trading_engine.Core.Numbers.{Numbers, to_decimal, to_double, std_max, std_min}
use trading_engine.Grid.{
  Context, Config, GridLevel, Grid, next_count, modify_at, order_for, note_buy, note_sell,
  place_buy_at, place_sell_at,
}

module _ (n : Numbers) (c : Context n) where
  open n use {Double, Decimal, less, literal}
  open c use {World, mid_price, submit_order}

  abbrev pub is_buy_of : ℕ → GridLevel n → Bool
  is_buy_of id l = not (id == 0) && id == l.buy_order_id

  abbrev pub is_sell_of : ℕ → GridLevel n → Bool
  is_sell_of id l = not (id == 0) && id == l.sell_order_id

  abbrev pub clear_buy : GridLevel n → GridLevel n
  clear_buy l = record l { buy_order_id = 0 }

  abbrev pub clear_sell : GridLevel n → GridLevel n
  clear_sell l = record l { sell_order_id = 0 }

  -- `mid ? toDouble(*mid) : 0.0`
  pub mid_value : World → ℕ → Double
  mid_value w symbol = elim (mid_price w symbol) [ none ↦ literal 0 0 | some m ↦ to_double n m ]

  -- The price of the take-profit sell at a level, and of the buy-back.
  abbrev pub exit_price : Double → GridLevel n → Decimal
  exit_price mid l =
      let price = to_double n l.price in
      to_decimal n (if less (literal 0 0) mid then std_min n price mid else price)

  abbrev pub reentry_price : Double → GridLevel n → Decimal
  reentry_price mid l =
      let price = to_double n l.price in
      to_decimal n (if less (literal 0 0) mid then std_max n price mid else price)

  -- A buy has filled at level i.
  unfoldable pub buy_filled : Grid n → World → Double → ℕ → Grid n × World
  buy_filled g w mid i =
      let g' = record g {
        levels = modify_at g.levels i clear_buy;
        fills_processed = next_count g.fills_processed;
      } in
      elim (get_elem? g'.levels (i + 1)) [
        | none ↦ (g', w)
        | some next ↦
            let (g'', w', oid) = place_sell_at n c g' w (i + 1) (exit_price mid next) in (g'', w')
      ]

  -- A sell has filled at level i.
  unfoldable pub sell_filled : Grid n → World → Double → ℕ → Grid n × World
  sell_filled g w mid i =
      let g' = record g {
        levels = modify_at g.levels i clear_sell;
        fills_processed = next_count g.fills_processed;
      } in
      if ltb 0 i
      then elim (get_elem? g'.levels (i - 1)) [
        | none ↦ (g', w)
        | some below ↦
            let (g'', w', oid) = place_buy_at n c g' w (i - 1) (reentry_price mid below) in
            (g'', w')
      ]
      else (g', w)

  -- The loop over the levels from index i on. It writes nothing before it returns.
  unfoldable pub fill_levels : Grid n → World → ℕ → Double → ℕ → List (GridLevel n) → Grid n × World
  fill_levels g w id mid i [] = (g, w)
  fill_levels g w id mid i (l ∷ ls) =
      let rest = fill_levels g w id mid (i + 1) ls in
      if is_buy_of id l
      then buy_filled g w mid i
      else if is_sell_of id l
      then sell_filled g w mid i
      else rest

  unfoldable pub on_fill : Grid n → World → Fill Decimal → Grid n × World
  on_fill g w fill = fill_levels g w fill.order_id (mid_value w g.cfg.symbol_id) 0 g.levels
