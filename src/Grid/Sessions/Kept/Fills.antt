-- ===== src/Grid/Sessions/Kept/Fills.antt =====
-- `onFill` of include/chronos/strategies/grid_strategy.hpp keeps what the calls of the context keep.
use trading_engine.Base.{
  ℕ, ◌+◌, ◌-◌, ◌≡◌, inl, inr, refl, List, [], ◌∷◌, get_elem?, ltb, Bool-cases, Option-cases, arith,
}
use trading_engine.Core.Enums.{OrderSide}
use trading_engine.Core.Structs.{Fill}
use trading_engine.Core.Numbers.{Numbers}
use trading_engine.Grid.{
  Context, GridLevel, Grid, place_buy_at, place_sell_at, modify_at, order_for,
}
use trading_engine.Grid.Fills.{
  buy_filled, sell_filled, fill_levels, on_fill, clear_buy, clear_sell, is_buy_of, is_sell_of,
}
use trading_engine.Grid.Sessions.Kept.{
  IsKept, Grows, LevelsKept, LevelsKept-trans, modify_at-LevelsKept, unchanged, note_buy-Good,
  note_sell-Good,
}

module _ {n : Numbers} {c : Context n} {P : Context.World c → OrderSide → ℕ → Type 0} where
  open n use {Double, Decimal}
  open c use {World}

  place_sell_at-LevelsKept :
      (g : Grid n) (w : World) (i : ℕ) (price : Decimal)
      → IsKept c P g.cfg
      → let (g', w', oid) = place_sell_at n c g w i price in LevelsKept c P w w' g.levels g'.levels
  unfolding place_sell_at
  place_sell_at-LevelsKept g w i price kept =
      let grows : Grows c P w
          (Context.submit_order c w (order_for n g.cfg OrderSide.sell price)).0 =
        λ side id p. IsKept.submitted kept w OrderSide.sell side price id p in
      modify_at-LevelsKept c P g.levels i _ grows
        (λ l. note_sell-Good c P l _ grows (IsKept.answered kept w OrderSide.sell price))

  place_buy_at-LevelsKept :
      (g : Grid n) (w : World) (i : ℕ) (price : Decimal)
      → IsKept c P g.cfg
      → let (g', w', oid) = place_buy_at n c g w i price in LevelsKept c P w w' g.levels g'.levels
  unfolding place_buy_at
  place_buy_at-LevelsKept g w i price kept =
      let grows : Grows c P w (Context.submit_order c w (order_for n g.cfg OrderSide.buy price)).0 =
        λ side id p. IsKept.submitted kept w OrderSide.buy side price id p in
      modify_at-LevelsKept c P g.levels i _ grows
        (λ l. note_buy-Good c P l _ grows (IsKept.answered kept w OrderSide.buy price))

  buy_filled-LevelsKept :
      (g : Grid n) (w : World) (mid : Double) (i : ℕ)
      → IsKept c P g.cfg
      → LevelsKept c P w (buy_filled n c g w mid i).1 g.levels (buy_filled n c g w mid i).0.levels
  unfolding buy_filled
  buy_filled-LevelsKept g w mid i kept =
      let cleared_levels = modify_at g.levels i (clear_buy n c) in
      let cleared : LevelsKept c P w w g.levels cleared_levels =
        modify_at-LevelsKept c P g.levels i (clear_buy n c) (λ side id p. p)
          (λ l (b, s). (IsKept.unset kept w OrderSide.buy, s)) in
      elim (Option-cases (get_elem? cleared_levels (i + 1))) [
        | inl top ↦ rw (top, buy_filled) cleared
        | inr (up, found) ↦
            rw (found, buy_filled)
              (LevelsKept-trans c P g.levels cleared_levels _ cleared
                (place_sell_at-LevelsKept _ w (i + 1) _ kept))
      ]

  sell_filled-LevelsKept :
      (g : Grid n) (w : World) (mid : Double) (i : ℕ)
      → IsKept c P g.cfg
      → LevelsKept c P w (sell_filled n c g w mid i).1 g.levels (sell_filled n c g w mid i).0.levels
  unfolding sell_filled
  sell_filled-LevelsKept g w mid i kept =
      let cleared_levels = modify_at g.levels i (clear_sell n c) in
      let cleared : LevelsKept c P w w g.levels cleared_levels =
        modify_at-LevelsKept c P g.levels i (clear_sell n c) (λ side id p. p)
          (λ l (b, s). (b, IsKept.unset kept w OrderSide.sell)) in
      elim (Bool-cases (ltb 0 i)) [
        | inl inner ↦ elim (Option-cases (get_elem? cleared_levels (i - 1))) [
          | inl none_below ↦ rw (inner, none_below, sell_filled) cleared
          | inr (below, found) ↦
              rw (inner, found, sell_filled)
                (LevelsKept-trans c P g.levels cleared_levels _ cleared
                  (place_buy_at-LevelsKept _ w (i - 1) _ kept))
        ]
        | inr lowest ↦ rw (lowest, sell_filled) cleared
      ]

  fill_levels-LevelsKept :
      (g : Grid n) (w : World) (id : ℕ) (mid : Double) (i : ℕ) (ls : List (GridLevel n))
      → IsKept c P g.cfg
      → let (g', w') = fill_levels n c g w id mid i ls in LevelsKept c P w w' g.levels g'.levels
  unfolding fill_levels
  fill_levels-LevelsKept g w id mid i [] kept = unchanged c P g.levels (λ side id p. p)
  fill_levels-LevelsKept g w id mid i (l ∷ ls) kept = elim (Bool-cases (is_buy_of n c id l)) [
    | inl bought ↦ rw bought (buy_filled-LevelsKept g w mid i kept)
    | inr not_bought ↦ elim (Bool-cases (is_sell_of n c id l)) [
      | inl sold ↦ rw (not_bought, sold) (sell_filled-LevelsKept g w mid i kept)
      | inr not_sold ↦ rw (not_bought, not_sold) (fill_levels-LevelsKept g w id mid (i + 1) ls kept)
    ]
  ]

  pub on_fill-LevelsKept :
      (g : Grid n) (w : World) (fill : Fill Decimal)
      → IsKept c P g.cfg
      → LevelsKept c P w (on_fill n c g w fill).1 g.levels (on_fill n c g w fill).0.levels
  unfolding on_fill
  on_fill-LevelsKept g w fill kept = fill_levels-LevelsKept g w fill.order_id _ 0 g.levels kept

-- The configuration stays.
module _ (n : Numbers) (c : Context n) where
  open n use {Double, Decimal}
  open c use {World}

  fill_levels-cfg :
      (g : Grid n) (w : World) (id : ℕ) (mid : Double) (i : ℕ) (ls : List (GridLevel n))
      → (fill_levels n c g w id mid i ls).0.cfg ≡ g.cfg
  unfolding fill_levels buy_filled sell_filled place_buy_at place_sell_at
  fill_levels-cfg g w id mid i [] = refl
  fill_levels-cfg g w id mid i (l ∷ ls) =
      let rest = fill_levels-cfg g w id mid (i + 1) ls in ground arith

  pub on_fill-cfg :
      (g : Grid n) (w : World) (fill : Fill Decimal) → (on_fill n c g w fill).0.cfg ≡ g.cfg
  unfolding on_fill
  on_fill-cfg g w fill = fill_levels-cfg g w fill.order_id _ 0 g.levels
