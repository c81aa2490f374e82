-- ===== src/Grid/Sessions/Cancels.antt =====
-- What `GridStrategy::onTimer` of include/chronos/strategies/grid_strategy.hpp cancels after any sequence of
-- callbacks.
use mathlib.Core.List.{Memᴰ}
use trading_engine.Base.{
  ℕ, ◌≡◌, ◌≢◌, inl, inr, refl, true, List, [], ◌∷◌, All, Bool-cases, Option-cases, arith,
  if◌then◌else◌,
}
use trading_engine.Core.Enums.{OrderSide}
use trading_engine.Core.Numbers.{Numbers, to_double}
use trading_engine.Grid.{Context, Config, GridLevel, Grid, order_for}
use trading_engine.Grid.Timers.{
  stale_buy, stale_sell, stale_ids, cancel_all, timer_levels-cancel_all, on_timer,
}
use trading_engine.Grid.Sessions.{History}
use trading_engine.Grid.Sessions.Kept.{Good}
use trading_engine.Grid.Sessions.Orders.{recording, SubmitsNothing, IsOrderOf, history-Good}

module _ {n : Numbers} (c : Context n) where
  open n use {Double}

  -- The id was given to an order of the strategy.
  abbrev pub IsSubmission : Config n → Context.World (recording c) → ℕ → Type 0
  IsSubmission cfg w id =
      (side : OrderSide) × (price : Numbers.Decimal n) × Memᴰ (id, order_for n cfg side price) w.1

  IsOrderOf-IsSubmission :
      (cfg : Config n) (w : Context.World (recording c)) (side : OrderSide) (id : ℕ)
      → IsOrderOf c cfg w side id
      → id ≢ 0
      → IsSubmission cfg w id
  IsOrderOf-IsSubmission cfg w side id own set = elim own [
    | inl unset ↦ absurd (set unset)
    | inr (price, there) ↦ (side, price, there)
  ]

  stale_buy-set : (mid : Double) (l : GridLevel n) → stale_buy n c mid l ≡ true → l.buy_order_id ≢ 0
  stale_buy-set mid l stale = ground arith

  stale_sell-set :
      (mid : Double) (l : GridLevel n) → stale_sell n c mid l ≡ true → l.sell_order_id ≢ 0
  stale_sell-set mid l stale = ground arith

  stale_ids-own :
      (cfg : Config n) (w : Context.World (recording c)) (mid : Double) (ls : List (GridLevel n))
      → All (Good (recording c) (IsOrderOf c cfg) w) ls
      → All (IsSubmission cfg w) (stale_ids n (recording c) mid ls)
  unfolding stale_ids
  stale_ids-own cfg w mid [] good = tt
  stale_ids-own cfg w mid (l ∷ ls) ((buy, sell), good) =
      let rest = stale_ids-own cfg w mid ls good in
      let to_sell = stale_sell n (recording c) mid l in
      let after_buy : All (IsSubmission cfg w) (
          if to_sell
          then l.sell_order_id ∷ stale_ids n (recording c) mid ls
          else stale_ids n (recording c) mid ls) =
        elim (Bool-cases to_sell) [
          | inl stale ↦ rw stale (
            IsOrderOf-IsSubmission cfg w OrderSide.sell _ sell (stale_sell-set mid l stale),
            rest,
          )
          | inr live ↦ rw live rest
        ] in
      elim (Bool-cases (stale_buy n (recording c) mid l)) [
        | inl stale ↦ rw stale (
          IsOrderOf-IsSubmission cfg w OrderSide.buy _ buy (stale_buy-set mid l stale),
          after_buy,
        )
        | inr live ↦ rw live after_buy
      ]

  -- For a context that also keeps the submissions: after any sequence of callbacks, and of changes
  -- elsewhere that submit nothing for the strategy, what `onTimer` does to the context is to cancel
  -- some ids, and each of these was the context's answer to an order that the strategy submitted.
  pub timer_cancels_own :
      {cfg : Config n} {g : Grid n} {w : Context.World (recording c)}
      → History n (recording c) (SubmitsNothing c) cfg g w
      → (ids : List ℕ) × ((on_timer n (recording c) g w).1 ≡ cancel_all n (recording c) w ids)
        × All (IsSubmission cfg w) ids
  unfolding on_timer cancel_all
  timer_cancels_own {cfg = cfg} {g = g} {w = w} h = elim (Bool-cases g.initialized) [
    | inl up ↦ elim (Option-cases (Context.mid_price c w.0 g.cfg.symbol_id)) [
      | inl unpriced ↦ rw (up, unpriced) ([], refl, tt)
      | inr (mid, priced) ↦
          rw (up, priced)
            (
              stale_ids n (recording c) (to_double n mid) g.levels,
              timer_levels-cancel_all n (recording c) (to_double n mid) w g.levels,
              stale_ids-own cfg w (to_double n mid) g.levels (history-Good c h).0,
            )
    ]
    | inr down ↦ rw down ([], refl, tt)
  ]
