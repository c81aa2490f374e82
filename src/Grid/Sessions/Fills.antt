-- ===== src/Grid/Sessions/Fills.antt =====
-- What `onFill` of include/chronos/strategies/grid_strategy.hpp does to the ids and the prices of the levels.
use trading_engine.Base.{
  ℕ, zero, suc, ◌+◌, ◌-◌, ◌≤◌, inl, inr, refl, List, [], ◌∷◌, arith, ◌∙◌, get_elem?, ltb,
  Bool-cases, Option-cases,
}
use trading_engine.Core.Structs.{Fill}
use trading_engine.Core.Enums.{OrderSide}
use trading_engine.Core.Numbers.{Numbers}
use trading_engine.Grid.{
  Context, GridLevel, Grid, modify_at, place_buy_at, place_sell_at, order_for,
}
use trading_engine.Grid.Fills.{
  buy_filled, sell_filled, fill_levels, on_fill, clear_buy, clear_sell, is_buy_of, is_sell_of,
}
use trading_engine.Grid.Sessions.{RisingIds}
use trading_engine.Grid.Sessions.Slots.{done}
use trading_engine.Grid.Sessions.Callbacks.{
  LevelRenewed, Renewed, Renewed-cons, unchanged, Carried, Renewed-Carried, unchanged-Carried,
}

module _ {n : Numbers} {c : Context n} (fresh : RisingIds c) where
  open n use {Double, Decimal}
  open c use {World, mid_price, submit_order, cancel_order}
  open fresh use {issued, submitted, cancelled}

  modify_at-Renewed :
      (w w' : World) (ls : List (GridLevel n)) (i : ℕ) (f : GridLevel n → GridLevel n)
      → issued w ≤ issued w'
      → ((l : GridLevel n) → LevelRenewed fresh w w' l (f l))
      → Renewed fresh w w' ls (modify_at ls i f)
  modify_at-Renewed w w' [] i f h each = (done h, refl)
  modify_at-Renewed w w' (l ∷ ls) zero f h each =
      Renewed-cons fresh {w = w} {w' = w'} ls ls (each l) (unchanged fresh w' w' ls (omega arith))
  modify_at-Renewed w w' (l ∷ ls) (suc i) f h each =
      Renewed-cons fresh {w = w} {w' = w} ls (modify_at ls i f)
        ((issued w, omega arith, omega arith), refl) (modify_at-Renewed w w' ls i f h each)

  modify_at-Carried :
      (w w' : World) (ls : List (GridLevel n)) (i : ℕ) (f : GridLevel n → GridLevel n)
      → issued w ≤ issued w'
      → ((l : GridLevel n) → LevelRenewed fresh w w' l (f l))
      → Carried fresh w w' ls (modify_at ls i f)
  modify_at-Carried w w' ls i f h each =
      Renewed-Carried fresh w w' ls (modify_at ls i f) (modify_at-Renewed w w' ls i f h each)

  -- First a slot is cleared, then another one gets the id of an order.
  Carried-trans :
      (w w' w'' : World) (ls ls' ls'' : List (GridLevel n))
      → Carried fresh w w' ls ls'
      → Carried fresh w' w'' ls' ls''
      → Carried fresh w w'' ls ls''
  Carried-trans w w' w'' ls ls' ls'' (good, same) (good', same') =
      (λ h. good' (good h), same' ∙ same)

  place_sell_at-Carried :
      (g : Grid n) (w : World) (i : ℕ) (price : Decimal)
      → let (g', w', oid) = place_sell_at n c g w i price in Carried fresh w w' g.levels g'.levels
  unfolding place_sell_at
  place_sell_at-Carried g w i price =
      let o = order_for n g.cfg OrderSide.sell price in
      let given = submitted w o in
      modify_at-Carried w (submit_order w o).0 g.levels i _ given.0
        (λ l. ((issued w, ground arith, ground arith), ground arith))

  place_buy_at-Carried :
      (g : Grid n) (w : World) (i : ℕ) (price : Decimal)
      → let (g', w', oid) = place_buy_at n c g w i price in Carried fresh w w' g.levels g'.levels
  unfolding place_buy_at
  place_buy_at-Carried g w i price =
      let o = order_for n g.cfg OrderSide.buy price in
      let given = submitted w o in
      modify_at-Carried w (submit_order w o).0 g.levels i _ given.0
        (λ l. ((issued (submit_order w o).0, ground arith, ground arith), ground arith))

  buy_filled-Carried :
      (g : Grid n) (w : World) (mid : Double) (i : ℕ)
      → Carried fresh w (buy_filled n c g w mid i).1 g.levels (buy_filled n c g w mid i).0.levels
  unfolding buy_filled
  buy_filled-Carried g w mid i =
      let cleared_levels = modify_at g.levels i (clear_buy n c) in
      let cleared : Carried fresh w w g.levels cleared_levels =
        modify_at-Carried w w g.levels i (clear_buy n c) (omega arith)
          (λ l. ((issued w, omega arith, omega arith), refl)) in
      elim (Option-cases (get_elem? cleared_levels (i + 1))) [
        | inl top ↦ rw (top, buy_filled) cleared
        | inr (up, found) ↦
            rw (found, buy_filled)
              (Carried-trans w w _ g.levels cleared_levels _ cleared
                (place_sell_at-Carried _ w (i + 1) _))
      ]

  sell_filled-Carried :
      (g : Grid n) (w : World) (mid : Double) (i : ℕ)
      → Carried fresh w (sell_filled n c g w mid i).1 g.levels (sell_filled n c g w mid i).0.levels
  unfolding sell_filled
  sell_filled-Carried g w mid i =
      let cleared_levels = modify_at g.levels i (clear_sell n c) in
      let cleared : Carried fresh w w g.levels cleared_levels =
        modify_at-Carried w w g.levels i (clear_sell n c) (omega arith)
          (λ l. ((issued w, omega arith, omega arith), refl)) in
      elim (Bool-cases (ltb 0 i)) [
        | inl inner ↦ elim (Option-cases (get_elem? cleared_levels (i - 1))) [
          | inl none_below ↦ rw (inner, none_below, sell_filled) cleared
          | inr (below, found) ↦
              rw (inner, found, sell_filled)
                (Carried-trans w w _ g.levels cleared_levels _ cleared
                  (place_buy_at-Carried _ w (i - 1) _))
        ]
        | inr lowest ↦ rw (lowest, sell_filled) cleared
      ]

  fill_levels-Carried :
      (g : Grid n) (w : World) (id : ℕ) (mid : Double) (i : ℕ) (ls : List (GridLevel n))
      → let (g', w') = fill_levels n c g w id mid i ls in Carried fresh w w' g.levels g'.levels
  unfolding fill_levels
  fill_levels-Carried g w id mid i [] = unchanged-Carried fresh w w g.levels (omega arith)
  fill_levels-Carried g w id mid i (l ∷ ls) = elim (Bool-cases (is_buy_of n c id l)) [
    | inl bought ↦ rw bought (buy_filled-Carried g w mid i)
    | inr not_bought ↦ elim (Bool-cases (is_sell_of n c id l)) [
      | inl sold ↦ rw (not_bought, sold) (sell_filled-Carried g w mid i)
      | inr not_sold ↦ rw (not_bought, not_sold) (fill_levels-Carried g w id mid (i + 1) ls)
    ]
  ]

  pub on_fill-Carried :
      (g : Grid n) (w : World) (fill : Fill Decimal)
      → Carried fresh w (on_fill n c g w fill).1 g.levels (on_fill n c g w fill).0.levels
  unfolding on_fill
  on_fill-Carried g w fill = fill_levels-Carried g w fill.order_id _ 0 g.levels
