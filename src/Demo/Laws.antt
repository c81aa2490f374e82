-- ===== src/Demo/Laws.antt =====
-- The orders and the fills of tools/generate_demo_logs.cpp.
use trading_engine.Base.{
  ℕ, zero, suc, ◌+◌, ◌<◌, ◌≡◌, refl, ◌∙◌, ap, true, List, [], ◌∷◌, ◌++◌, some, arith, get_elem?,
}
use trading_engine.Core.Numbers.{Numbers}
use trading_engine.Core.Structs.{OrderRequest, Fill}
use trading_engine.Demo.{
  Call, write_order, write_fill, flush, stop, main, write_ticks, write_orders, write_fills,
  demo_order, demo_fill,
}

module _ (n : Numbers) where
  open n use {Decimal}

  -- The orders and the fills that are written.
  abbrev pub orders : List (Call n) → List (OrderRequest Decimal)
  orders [] = []
  orders (write_order o ∷ cs) = o ∷ orders cs
  orders (_ ∷ cs) = orders cs

  abbrev pub fills : List (Call n) → List (Fill Decimal)
  fills [] = []
  fills (write_fill f ∷ cs) = f ∷ fills cs
  fills (_ ∷ cs) = fills cs

  pub skip_ticks :
      (rounds i : ℕ) (cs : List (Call n))
      → (orders (write_ticks n rounds i ++ cs) ≡ orders cs)
        × (fills (write_ticks n rounds i ++ cs) ≡ fills cs)
  skip_ticks zero i cs = (refl, refl)
  skip_ticks (suc rounds) i cs = skip_ticks rounds (i + 1) cs

  pub fills_past_orders :
      (rounds i : ℕ) (cs : List (Call n)) → fills (write_orders n rounds i ++ cs) ≡ fills cs
  fills_past_orders zero i cs = refl
  fills_past_orders (suc rounds) i cs = fills_past_orders rounds (i + 1) cs

  nth_order :
      (rounds i k : ℕ) (cs : List (Call n))
      → k < rounds
      → get_elem? (orders (write_orders n rounds i ++ cs)) k ≡ some (demo_order n (i + k))
  nth_order zero i k cs lt = absurd (omega arith)
  nth_order (suc rounds) i zero cs lt = ap (λ j. some (demo_order n j)) (omega arith)
  nth_order (suc rounds) i (suc k) cs lt =
      nth_order rounds (i + 1) k cs (omega arith) ∙ ap (λ j. some (demo_order n j)) (omega arith)

  nth_fill :
      (rounds i k : ℕ) (cs : List (Call n))
      → k < rounds
      → get_elem? (fills (write_fills n rounds i ++ cs)) k ≡ some (demo_fill n (i + k))
  nth_fill zero i k cs lt = absurd (omega arith)
  nth_fill (suc rounds) i zero cs lt = ap (λ j. some (demo_fill n j)) (omega arith)
  nth_fill (suc rounds) i (suc k) cs lt =
      nth_fill rounds (i + 1) k cs (omega arith) ∙ ap (λ j. some (demo_fill n j)) (omega arith)

  -- The fill and the order agree.
  abbrev pub Answers : Fill Decimal → OrderRequest Decimal → Type 0
  Answers f o =
      (f.order_id ≡ o.order_id)
      × (f.fill_price ≡ o.price)
      × (f.fill_quantity ≡ o.quantity)
      × (f.symbol_id ≡ o.symbol_id)

  -- If the log opens, then for k below 30 the k-th fill that the generator writes has the order id,
  -- the price, the quantity and the symbol of the k-th order that it writes.
  fills_answer_orders :
      (k : ℕ)
      → k < 30
      → (f : Fill Decimal) × (o : OrderRequest Decimal) × (get_elem? (fills (main n true).1) k
          ≡ some f)
        × (get_elem? (orders (main n true).1) k ≡ some o)
        × Answers f o
  unfolding main
  fills_answer_orders k lt =
      let tail = flush ∷ stop ∷ [] in
      let after_ticks = write_orders n 50 0 ++ (write_fills n 30 0 ++ tail) in
      let f_at = nth_fill 30 0 k tail lt in
      let o_at = nth_order 50 0 k (write_fills n 30 0 ++ tail) (omega arith) in
      (
        demo_fill n (0 + k),
        demo_order n (0 + k),
        ap (λ fs. get_elem? fs k)
              ((skip_ticks 1000 0 after_ticks).1
                ∙ fills_past_orders 50 0 (write_fills n 30 0 ++ tail))
            ∙ f_at,
        ap (λ os. get_elem? os k) (skip_ticks 1000 0 after_ticks).0 ∙ o_at,
        (refl, refl, refl, refl),
      )
