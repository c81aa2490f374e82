-- ===== src/Grid/Fills/Routing.antt =====
-- Which level a fill reaches, and what it does there.
use native.Mathlib.Numerals.{add-one}
use trading_engine.Base.{
  lt→ltb, ℕ, zero, suc, ◌+◌, ◌-◌, ◌≡◌, refl, false, List, [], ◌∷◌, ◌++◌, some, arith, length,
  get_elem?, All, ap, ◌∙◌,
}
use trading_engine.Core.Enums.{OrderSide}
use trading_engine.Core.Structs.{Fill}
use trading_engine.Core.Numbers.{Numbers}
use trading_engine.Grid.{
  Context, GridLevel, Grid, next_count, modify_at, order_for, note_buy, note_sell, place_buy_at,
  place_sell_at,
}
use trading_engine.Grid.Fills.{
  is_buy_of, is_sell_of, clear_buy, clear_sell, exit_price, reentry_price, buy_filled, sell_filled,
  fill_levels, on_fill,
}

module _ {ℓ} {A : Type ℓ} where
  modify_at-append :
      (xs : List A) (y : A) (ys : List A) (i : ℕ) (f : A → A)
      → i ≡ length xs
      → modify_at (xs ++ (y ∷ ys)) i f ≡ xs ++ (f y ∷ ys)
  modify_at-append [] y ys zero f e = refl
  modify_at-append [] y ys (suc i) f e = absurd (omega arith)
  modify_at-append (x ∷ xs) y ys zero f e = absurd (omega arith)
  modify_at-append (x ∷ xs) y ys (suc i) f e =
      ap (λ l. x ∷ l) (modify_at-append xs y ys i f (omega arith))

  get_elem?-append :
      (xs : List A) (y : A) (ys : List A) (i : ℕ)
      → i ≡ length xs
      → get_elem? (xs ++ (y ∷ ys)) i ≡ some y
  get_elem?-append [] y ys zero e = refl
  get_elem?-append [] y ys (suc i) e = absurd (omega arith)
  get_elem?-append (x ∷ xs) y ys zero e = absurd (omega arith)
  get_elem?-append (x ∷ xs) y ys (suc i) e = get_elem?-append xs y ys i (omega arith)

  modify_at_after :
      (xs : List A) (y : A) (ys : List A) (i : ℕ) (f : A → A)
      → i ≡ length xs
      → modify_at (xs ++ (y ∷ ys)) (i + 1) f ≡ xs ++ (y ∷ modify_at ys 0 f)
  modify_at_after [] y ys zero f e = refl
  modify_at_after [] y ys (suc i) f e = absurd (omega arith)
  modify_at_after (x ∷ xs) y ys zero f e = absurd (omega arith)
  modify_at_after (x ∷ xs) y ys (suc i) f e =
      rw add-one (ap (λ l. x ∷ l) (rw add-one at (modify_at_after xs y ys i f (omega arith))))

  get_elem?_after :
      (xs : List A) (y : A) (ys : List A) (i : ℕ)
      → i ≡ length xs
      → get_elem? (xs ++ (y ∷ ys)) (i + 1) ≡ get_elem? ys 0
  get_elem?_after [] y ys zero e = refl
  get_elem?_after [] y ys (suc i) e = absurd (omega arith)
  get_elem?_after (x ∷ xs) y ys zero e = absurd (omega arith)
  get_elem?_after (x ∷ xs) y ys (suc i) e =
      rw add-one (rw add-one at (get_elem?_after xs y ys i (omega arith)))

module _ (n : Numbers) (c : Context n) where
  open n use {Double, Decimal}
  open c use {World, submit_order}

  -- The fill's order is none of the level's.
  abbrev pub Foreign : ℕ → GridLevel n → Type 0
  Foreign id l = (is_buy_of n c id l ≡ false) × (is_sell_of n c id l ≡ false)

  fill_levels-Foreign :
      (g : Grid n) (w : World) (id : ℕ) (mid : Double) (i : ℕ) (ls : List (GridLevel n))
      → All (Foreign id) ls
      → fill_levels n c g w id mid i ls ≡ (g, w)
  unfolding fill_levels
  fill_levels-Foreign g w id mid i [] h = refl
  fill_levels-Foreign g w id mid i (l ∷ ls) h =
      rw (h.0.0, h.0.1) (fill_levels-Foreign g w id mid (i + 1) ls h.1)

  -- A fill whose order id is 0, or that no level waits for, changes neither the strategy nor
  -- anything behind the context.
  on_fill-Foreign :
      (g : Grid n) (w : World) (fill : Fill Decimal)
      → All (Foreign fill.order_id) g.levels
      → on_fill n c g w fill ≡ (g, w)
  unfolding on_fill
  on_fill-Foreign g w fill h = fill_levels-Foreign g w fill.order_id _ 0 g.levels h

  pub fill_levels-append :
      (g : Grid n) (w : World) (id : ℕ) (mid : Double) (i : ℕ) (xs ys : List (GridLevel n))
      → All (Foreign id) xs
      → fill_levels n c g w id mid i (xs ++ ys) ≡ fill_levels n c g w id mid (i + length xs) ys
  unfolding fill_levels
  fill_levels-append g w id mid i [] ys h = ap (λ j. fill_levels n c g w id mid j ys) (omega arith)
  fill_levels-append g w id mid i (x ∷ xs) ys h =
      rw (h.0.0, h.0.1)
        (fill_levels-append g w id mid (i + 1) xs ys h.1
          ∙ ap (λ j. fill_levels n c g w id mid j ys) (omega arith))

  module _ (g : Grid n) (w : World) (mid : Double) (i : ℕ) (xs : List (GridLevel n)) where
    -- The buy of a level with one above it has filled.
    pub buy_filled_below :
        (l next : GridLevel n) (ys : List (GridLevel n))
        → g.levels ≡ xs ++ (l ∷ next ∷ ys)
        → i ≡ length xs
        → let (w', oid) =
            submit_order w (order_for n g.cfg OrderSide.sell (exit_price n c mid next)) in
          buy_filled n c g w mid i ≡ (
            record g {
              levels = xs ++ (clear_buy n c l ∷ note_sell n oid next ∷ ys);
              fills_processed = next_count g.fills_processed;
            },
            w',
          )
    unfolding buy_filled place_sell_at
    buy_filled_below l next ys e at_i =
        let cleared =
          ap (λ ls. modify_at ls i (clear_buy n c)) e
          ∙ modify_at-append xs l (next ∷ ys) i (clear_buy n c) at_i in
        let found = get_elem?_after xs (clear_buy n c l) (next ∷ ys) i at_i in
        let noted =
          modify_at_after xs (clear_buy n c l) (next ∷ ys) i
            (note_sell n
              (submit_order w (order_for n g.cfg OrderSide.sell (exit_price n c mid next))).1)
            at_i in
        rw (cleared, found, buy_filled, cleared, noted)

    pub buy_filled_top :
        (l : GridLevel n)
        → g.levels ≡ xs ++ (l ∷ [])
        → i ≡ length xs
        → buy_filled n c g w mid i ≡ (
          record g {
            levels = xs ++ (clear_buy n c l ∷ []);
            fills_processed = next_count g.fills_processed;
          },
          w,
        )
    unfolding buy_filled
    buy_filled_top l e at_i =
        let cleared =
          ap (λ ls. modify_at ls i (clear_buy n c)) e
          ∙ modify_at-append xs l [] i (clear_buy n c) at_i in
        let found = get_elem?_after xs (clear_buy n c l) [] i at_i in
        rw (cleared, found, buy_filled, cleared)

    pub sell_filled_above :
        (below l : GridLevel n) (ys : List (GridLevel n))
        → g.levels ≡ xs ++ (below ∷ l ∷ ys)
        → i ≡ length xs
        → let (w', oid) =
            submit_order w (order_for n g.cfg OrderSide.buy (reentry_price n c mid below)) in
          sell_filled n c g w mid (i + 1) ≡ (
            record g {
              levels = xs ++ (note_buy n oid below ∷ clear_sell n c l ∷ ys);
              fills_processed = next_count g.fills_processed;
            },
            w',
          )
    unfolding sell_filled place_buy_at
    sell_filled_above below l ys e at_i =
        let cleared =
          ap (λ ls. modify_at ls (i + 1) (clear_sell n c)) e
          ∙ modify_at_after xs below (l ∷ ys) i (clear_sell n c) at_i in
        let found = get_elem?-append xs below (clear_sell n c l ∷ ys) i at_i in
        let noted =
          modify_at-append xs below (clear_sell n c l ∷ ys) i
            (note_buy n
              (submit_order w (order_for n g.cfg OrderSide.buy (reentry_price n c mid below))).1)
            at_i in
        let back : i + 1 - 1 ≡ i = omega arith in
        let later = lt→ltb 0 (i + 1) (omega arith) in
        rw (later, back, cleared, found, cleared, back, place_buy_at, noted)

  pub sell_filled_bottom :
      (g : Grid n) (w : World) (mid : Double) (l : GridLevel n) (ys : List (GridLevel n))
      → g.levels ≡ l ∷ ys
      → sell_filled n c g w mid 0 ≡ (
        record g { levels = clear_sell n c l ∷ ys; fills_processed = next_count g.fills_processed },
        w,
      )
  unfolding sell_filled
  sell_filled_bottom g w mid l ys e = rw e
