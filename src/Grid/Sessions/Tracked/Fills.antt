-- ===== src/Grid/Sessions/Tracked/Fills.antt =====
-- `onFill` of include/chronos/strategies/grid_strategy.hpp loses no id, if the slot that it places into is free.
use mathlib.Core.List.{Memᴰ}
use mathlib.Core.Path.{subst}
use native.Mathlib.Nat.{add-zero}
use trading_engine.Base.{
  ℕ, zero, suc, ◌+◌, ◌-◌, ◌≡◌, ◌≢◌, inl, inr, refl, sym, ap, ◌∙◌, true, List, [], ◌∷◌, some, ltb,
  get_elem?, Bool-cases, Option-cases, arith,
}
use trading_engine.Core.Structs.{Fill}
use trading_engine.Core.Numbers.{Numbers}
use trading_engine.Grid.{Context, GridLevel, Grid, modify_at, place_buy_at, place_sell_at}
use trading_engine.Grid.Fills.{
  buy_filled, sell_filled, fill_levels, on_fill, clear_buy, clear_sell, is_buy_of, is_sell_of,
}
use trading_engine.Grid.Sessions.Tracked.{
  IsLedger, Tracks, Tracks-trans, level-Tracks, modify_at-Tracks, same, note_buy-Tracks,
  note_sell-Tracks,
}

module _ {ℓ} {A : Type ℓ} where
  get_elem?-modify_at_ne :
      (xs : List A) (i j : ℕ) (f : A → A) → i ≢ j → get_elem? (modify_at xs i f) j ≡ get_elem? xs j
  get_elem?-modify_at_ne [] i j f ne = refl
  get_elem?-modify_at_ne (x ∷ xs) zero zero f ne = absurd (ne refl)
  get_elem?-modify_at_ne (x ∷ xs) zero (suc j) f ne = refl
  get_elem?-modify_at_ne (x ∷ xs) (suc i) zero f ne = refl
  get_elem?-modify_at_ne (x ∷ xs) (suc i) (suc j) f ne =
      get_elem?-modify_at_ne xs i j f (λ e. ne (omega (arith, e)))

-- Where the fill's order stands, the next level has no live sell, or the level below no live buy.
pub record FindsFree {n : Numbers} (c : Context n) (g : Grid n) (id : ℕ) : Type 0 where
  pub above :
      (i : ℕ) (l next : GridLevel n)
      → get_elem? g.levels i ≡ some l
      → is_buy_of n c id l ≡ true
      → get_elem? g.levels (i + 1) ≡ some next
      → next.sell_order_id ≡ 0
  pub below :
      (i : ℕ) (l before : GridLevel n)
      → get_elem? g.levels (i + 1) ≡ some l
      → is_sell_of n c id l ≡ true
      → get_elem? g.levels i ≡ some before
      → before.buy_order_id ≡ 0

module _ {n : Numbers} {c : Context n} {Settled Given : Context.World c → ℕ → Type 0}
    (ledger : IsLedger c Settled Given) where
  open n use {Double, Decimal}
  open c use {World}

  place_sell_at-Tracks :
      (g : Grid n) (w : World) (i : ℕ) (price : Decimal) (l : GridLevel n)
      → get_elem? g.levels i ≡ some l
      → l.sell_order_id ≡ 0
      → let (g', w', oid) = place_sell_at n c g w i price in
        Tracks c Settled Given w w' g.levels g'.levels
  unfolding place_sell_at
  place_sell_at-Tracks g w i price l found free =
      modify_at-Tracks c Settled Given g.levels i l _ found
        (λ x e. note_sell-Tracks c Settled Given ledger w _ x (rw e free))

  place_buy_at-Tracks :
      (g : Grid n) (w : World) (i : ℕ) (price : Decimal) (l : GridLevel n)
      → get_elem? g.levels i ≡ some l
      → l.buy_order_id ≡ 0
      → let (g', w', oid) = place_buy_at n c g w i price in
        Tracks c Settled Given w w' g.levels g'.levels
  unfolding place_buy_at
  place_buy_at-Tracks g w i price l found free =
      modify_at-Tracks c Settled Given g.levels i l _ found
        (λ x e. note_buy-Tracks c Settled Given ledger w _ x (rw e free))

  clear_buy-Tracks :
      (g : Grid n) (w : World) (i id : ℕ) (l : GridLevel n)
      → get_elem? g.levels i ≡ some l
      → is_buy_of n c id l ≡ true
      → Settled w id
      → Tracks c Settled Given w w g.levels (modify_at g.levels i (clear_buy n c))
  clear_buy-Tracks g w i id l found own filled =
      modify_at-Tracks c Settled Given g.levels i l (clear_buy n c) found (λ x e.
        level-Tracks c Settled Given x (clear_buy n c x) (λ k s. s)
          (inl (subst (Settled w) (ground arith) filled)) (inr (Memᴰ.tail (Memᴰ.head refl)))
          (λ k g. inl g))

  clear_sell-Tracks :
      (g : Grid n) (w : World) (i id : ℕ) (l : GridLevel n)
      → get_elem? g.levels i ≡ some l
      → is_sell_of n c id l ≡ true
      → Settled w id
      → Tracks c Settled Given w w g.levels (modify_at g.levels i (clear_sell n c))
  clear_sell-Tracks g w i id l found own filled =
      modify_at-Tracks c Settled Given g.levels i l (clear_sell n c) found (λ x e.
        level-Tracks c Settled Given x (clear_sell n c x) (λ k s. s) (inr (Memᴰ.head refl))
          (inl (subst (Settled w) (ground arith) filled)) (λ k g. inl g))

  buy_filled-Tracks :
      (g : Grid n) (w : World) (mid : Double) (i id : ℕ) (l : GridLevel n)
      → FindsFree c g id
      → get_elem? g.levels i ≡ some l
      → is_buy_of n c id l ≡ true
      → Settled w id
      → let (g', w') = buy_filled n c g w mid i in Tracks c Settled Given w w' g.levels g'.levels
  unfolding buy_filled
  buy_filled-Tracks g w mid i id l free at own filled =
      let cleared_levels = modify_at g.levels i (clear_buy n c) in
      let cleared = clear_buy-Tracks g w i id l at own filled in
      elim (Option-cases (get_elem? cleared_levels (i + 1))) [
        | inl top ↦ rw (top, buy_filled) cleared
        | inr (next, found) ↦
            let there =
              sym (get_elem?-modify_at_ne g.levels i (i + 1) (clear_buy n c) (omega arith))
              ∙ found in
            rw (found, buy_filled)
              (Tracks-trans c Settled Given cleared
                (place_sell_at-Tracks _ w (i + 1) _ next found (free.above i l next at own there)))
      ]

  sell_filled-Tracks :
      (g : Grid n) (w : World) (mid : Double) (i id : ℕ) (l : GridLevel n)
      → FindsFree c g id
      → get_elem? g.levels i ≡ some l
      → is_sell_of n c id l ≡ true
      → Settled w id
      → let (g', w') = sell_filled n c g w mid i in Tracks c Settled Given w w' g.levels g'.levels
  unfolding sell_filled
  sell_filled-Tracks g w mid i id l free at own filled =
      let cleared_levels = modify_at g.levels i (clear_sell n c) in
      let cleared = clear_sell-Tracks g w i id l at own filled in
      elim (Bool-cases (ltb 0 i)) [
        | inl inner ↦ elim (Option-cases (get_elem? cleared_levels (i - 1))) [
          | inl none_below ↦ rw (inner, none_below, sell_filled) cleared
          | inr (before, found) ↦
              let back : i - 1 + 1 ≡ i = ground arith in
              let there =
                sym (get_elem?-modify_at_ne g.levels i (i - 1) (clear_sell n c) (ground arith))
                ∙ found in
              let none_live =
                free.below (i - 1) l before (ap (get_elem? g.levels) back ∙ at) own there in
              rw (inner, found, sell_filled)
                (Tracks-trans c Settled Given cleared
                  (place_buy_at-Tracks _ w (i - 1) _ before found none_live))
        ]
        | inr lowest ↦ rw (lowest, sell_filled) cleared
      ]

  -- The loop stands at index i of the levels.
  fill_levels-Tracks :
      (g : Grid n) (w : World) (id : ℕ) (mid : Double) (i : ℕ) (ls : List (GridLevel n))
      → FindsFree c g id
      → ((k : ℕ) → get_elem? g.levels (i + k) ≡ get_elem? ls k)
      → Settled w id
      → let (g', w') = fill_levels n c g w id mid i ls in
        Tracks c Settled Given w w' g.levels g'.levels
  unfolding fill_levels
  fill_levels-Tracks g w id mid i [] free at filled = same c Settled Given w g.levels
  fill_levels-Tracks g w id mid i (l ∷ ls) free at filled =
      let here = ap (get_elem? g.levels) (sym (add-zero i)) ∙ at 0 in
      elim (Bool-cases (is_buy_of n c id l)) [
        | inl bought ↦ rw bought (buy_filled-Tracks g w mid i id l free here bought filled)
        | inr not_bought ↦ elim (Bool-cases (is_sell_of n c id l)) [
          | inl sold ↦
              rw (not_bought, sold) (sell_filled-Tracks g w mid i id l free here sold filled)
          | inr not_sold ↦
              rw (not_bought, not_sold)
                (fill_levels-Tracks g w id mid (i + 1) ls free
                  (λ k. ap (get_elem? g.levels) (omega arith) ∙ at (suc k)) filled)
        ]
      ]

  pub on_fill-Tracks :
      (g : Grid n) (w : World) (fill : Fill Decimal)
      → FindsFree c g fill.order_id
      → Settled w fill.order_id
      → let (g', w') = on_fill n c g w fill in Tracks c Settled Given w w' g.levels g'.levels
  unfolding on_fill
  on_fill-Tracks g w fill free filled =
      fill_levels-Tracks g w fill.order_id _ 0 g.levels free
        (λ k. ap (get_elem? g.levels) (omega arith)) filled
