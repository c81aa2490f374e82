-- ===== src/Grid/Sessions/Kept/Callbacks.antt =====
-- `onTick` and `onTimer` of include/chronos/strategies/grid_strategy.hpp keep what the calls of the context
-- keep.
use trading_engine.Base.{
  ℕ, ◌≡◌, inl, inr, List, [], ◌∷◌, ◌&&◌, ◌==◌, Bool-cases, Option-cases, arith,
}
use trading_engine.Core.Enums.{OrderSide}
use trading_engine.Core.Numbers.{Numbers, to_double}
use trading_engine.Grid.{Context, Config, GridLevel, Grid}
use trading_engine.Grid.Ticks.{
  TickLoop, offer_buy, offer_sell, tick_level, tick_levels, tick_with, on_tick,
}
use trading_engine.Grid.Timers.{
  stale_buy, stale_sell, drop_buy, drop_sell, timer_level, timer_levels, timer_with, on_timer,
}
use trading_engine.Grid.Sessions.Kept.{
  IsKept, LevelKept, LevelsKept, LevelKept-trans, LevelsKept-cons, unmoved, unchanged,
  note_buy-Good, note_sell-Good,
}

module _ {n : Numbers} {c : Context n} {P : Context.World c → OrderSide → ℕ → Type 0}
    {cfg : Config n} (kept : IsKept c P cfg) where
  open n use {Double, Decimal, less}
  open c use {World, mid_price, submit_order, cancel_order}
  open kept use {unset, answered, submitted, cancelled}

  offer_buy-LevelKept :
      (mid : Double) (s : TickLoop c) (l : GridLevel n)
      → LevelKept c P s.world (offer_buy n c cfg mid s l).1.world l (offer_buy n c cfg mid s l).0
  unfolding offer_buy
  offer_buy-LevelKept mid s l =
      elim (Bool-cases (less (to_double n l.price) mid && l.buy_order_id == 0)) [
        | inl offers ↦ rw offers (
          λ side id p. submitted s.world OrderSide.buy side _ id p,
          note_buy-Good c P l _ (λ side id p. submitted s.world OrderSide.buy side _ id p)
              (answered s.world OrderSide.buy _),
        )
        | inr passes ↦ rw passes (unmoved c P s.world l)
      ]

  offer_sell-LevelKept :
      (mid : Double) (s : TickLoop c) (l : GridLevel n)
      → LevelKept c P s.world (offer_sell n c cfg mid s l).1.world l (offer_sell n c cfg mid s l).0
  unfolding offer_sell
  offer_sell-LevelKept mid s l =
      elim (Bool-cases (less mid (to_double n l.price) && l.sell_order_id == 0)) [
        | inl offers ↦ rw offers (
          λ side id p. submitted s.world OrderSide.sell side _ id p,
          note_sell-Good c P l _ (λ side id p. submitted s.world OrderSide.sell side _ id p)
              (answered s.world OrderSide.sell _),
        )
        | inr passes ↦ rw passes (unmoved c P s.world l)
      ]

  tick_levels-LevelsKept :
      (mid : Double) (s : TickLoop c) (ls : List (GridLevel n))
      → LevelsKept c P s.world
          (tick_levels n c cfg mid s ls).1.world
          ls
          (tick_levels n c cfg mid s ls).0
  unfolding tick_levels tick_level
  tick_levels-LevelsKept mid s [] = unchanged c P [] (λ side id p. p)
  tick_levels-LevelsKept mid s (l ∷ ls) =
      let (l', s') = offer_buy n c cfg mid s l in
      let (l'', s'') = offer_sell n c cfg mid s' l' in
      LevelsKept-cons c P l l'' ls (tick_levels n c cfg mid s'' ls).0
        (LevelKept-trans c P l l' l'' (offer_buy-LevelKept mid s l)
          (offer_sell-LevelKept mid s' l'))
        (tick_levels-LevelsKept mid s'' ls)

  drop_buy-LevelKept :
      (mid : Double) (w : World) (l : GridLevel n)
      → LevelKept c P w (drop_buy n c mid w l).1 l (drop_buy n c mid w l).0
  unfolding drop_buy
  drop_buy-LevelKept mid w l = elim (Bool-cases (stale_buy n c mid l)) [
    | inl stale ↦ rw stale (
      λ side id p. cancelled w _ side id p,
      λ (b, s). (unset _ OrderSide.buy, cancelled w _ OrderSide.sell _ s),
    )
    | inr live ↦ rw live (unmoved c P w l)
  ]

  drop_sell-LevelKept :
      (mid : Double) (w : World) (l : GridLevel n)
      → LevelKept c P w (drop_sell n c mid w l).1 l (drop_sell n c mid w l).0
  unfolding drop_sell
  drop_sell-LevelKept mid w l = elim (Bool-cases (stale_sell n c mid l)) [
    | inl stale ↦ rw stale (
      λ side id p. cancelled w _ side id p,
      λ (b, s). (cancelled w _ OrderSide.buy _ b, unset _ OrderSide.sell),
    )
    | inr live ↦ rw live (unmoved c P w l)
  ]

  timer_levels-LevelsKept :
      (mid : Double) (w : World) (ls : List (GridLevel n))
      → LevelsKept c P w (timer_levels n c mid w ls).1 ls (timer_levels n c mid w ls).0
  unfolding timer_levels timer_level
  timer_levels-LevelsKept mid w [] = unchanged c P [] (λ side id p. p)
  timer_levels-LevelsKept mid w (l ∷ ls) =
      let (l', w') = drop_buy n c mid w l in
      let (l'', w'') = drop_sell n c mid w' l' in
      LevelsKept-cons c P l l'' ls (timer_levels n c mid w'' ls).0
        (LevelKept-trans c P l l' l'' (drop_buy-LevelKept mid w l) (drop_sell-LevelKept mid w' l'))
        (timer_levels-LevelsKept mid w'' ls)

module _ {n : Numbers} {c : Context n} {P : Context.World c → OrderSide → ℕ → Type 0} where
  open c use {World, mid_price}

  pub on_tick-LevelsKept :
      (g : Grid n) (w : World)
      → IsKept c P g.cfg
      → LevelsKept c P w (on_tick n c g w).1 g.levels (on_tick n c g w).0.levels
  unfolding on_tick
  on_tick-LevelsKept g w kept = elim (Bool-cases g.initialized) [
    | inl up ↦ elim (Option-cases (mid_price w g.cfg.symbol_id)) [
      | inl unpriced ↦ rw (up, unpriced) (unchanged c P g.levels (λ side id p. p))
      | inr (mid, priced) ↦
          rw (up, priced) (tick_levels-LevelsKept kept (to_double n mid) _ g.levels)
    ]
    | inr down ↦ rw down (unchanged c P g.levels (λ side id p. p))
  ]

  pub on_timer-LevelsKept :
      (g : Grid n) (w : World)
      → IsKept c P g.cfg
      → LevelsKept c P w (on_timer n c g w).1 g.levels (on_timer n c g w).0.levels
  unfolding on_timer
  on_timer-LevelsKept g w kept = elim (Bool-cases g.initialized) [
    | inl up ↦ elim (Option-cases (mid_price w g.cfg.symbol_id)) [
      | inl unpriced ↦ rw (up, unpriced) (unchanged c P g.levels (λ side id p. p))
      | inr (mid, priced) ↦
          rw (up, priced) (timer_levels-LevelsKept kept (to_double n mid) w g.levels)
    ]
    | inr down ↦ rw down (unchanged c P g.levels (λ side id p. p))
  ]

-- The configuration stays.
module _ (n : Numbers) (c : Context n) where
  open c use {World}

  pub on_tick-cfg : (g : Grid n) (w : World) → (on_tick n c g w).0.cfg ≡ g.cfg
  unfolding on_tick tick_with
  on_tick-cfg g w = ground arith

  pub on_timer-cfg : (g : Grid n) (w : World) → (on_timer n c g w).0.cfg ≡ g.cfg
  unfolding on_timer timer_with
  on_timer-cfg g w = ground arith
