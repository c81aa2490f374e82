-- ===== src/Grid/Sessions/Tracked/Callbacks.antt =====
-- `onTick` and `onTimer` of include/chronos/strategies/grid_strategy.hpp lose no id.
use mathlib.Core.List.{Memᴰ}
use trading_engine.Base.{
  ℕ, inl, inr, refl, List, [], ◌∷◌, ◌&&◌, ◌==◌, Bool-cases, Option-cases, arith,
}
use trading_engine.Core.Numbers.{Numbers, to_double}
use trading_engine.Grid.{Context, Config, GridLevel, Grid}
use trading_engine.Grid.Ticks.{TickLoop, offer_buy, offer_sell, tick_level, tick_levels, on_tick}
use trading_engine.Grid.Timers.{
  stale_buy, stale_sell, drop_buy, drop_sell, timer_level, timer_levels, on_timer,
}
use trading_engine.Grid.Sessions.Tracked.{
  IsLedger, Tracks, Tracks-trans, Tracks-cons, level-Tracks, same, note_buy-Tracks,
  note_sell-Tracks,
}

module _ {n : Numbers} {c : Context n} {Settled Given : Context.World c → ℕ → Type 0}
    (ledger : IsLedger c Settled Given) where
  open n use {Double, less}
  open c use {World, mid_price, cancel_order}
  open ledger use {cancelled, settled, not_given}

  offer_buy-Tracks :
      (cfg : Config n) (mid : Double) (s : TickLoop c) (l : GridLevel n)
      → let (l', s') = offer_buy n c cfg mid s l in
        Tracks c Settled Given s.world s'.world (l ∷ []) (l' ∷ [])
  unfolding offer_buy
  offer_buy-Tracks cfg mid s l =
      elim (Bool-cases (less (to_double n l.price) mid && l.buy_order_id == 0)) [
        | inl offers ↦ rw offers (note_buy-Tracks c Settled Given ledger s.world _ l (ground arith))
        | inr passes ↦ rw passes (same c Settled Given s.world (l ∷ []))
      ]

  offer_sell-Tracks :
      (cfg : Config n) (mid : Double) (s : TickLoop c) (l : GridLevel n)
      → let (l', s') = offer_sell n c cfg mid s l in
        Tracks c Settled Given s.world s'.world (l ∷ []) (l' ∷ [])
  unfolding offer_sell
  offer_sell-Tracks cfg mid s l =
      elim (Bool-cases (less mid (to_double n l.price) && l.sell_order_id == 0)) [
        | inl offers ↦
            rw offers (note_sell-Tracks c Settled Given ledger s.world _ l (ground arith))
        | inr passes ↦ rw passes (same c Settled Given s.world (l ∷ []))
      ]

  tick_levels-Tracks :
      (cfg : Config n) (mid : Double) (s : TickLoop c) (ls : List (GridLevel n))
      → let (ls', s') = tick_levels n c cfg mid s ls in
        Tracks c Settled Given s.world s'.world ls ls'
  unfolding tick_levels tick_level
  tick_levels-Tracks cfg mid s [] = same c Settled Given s.world []
  tick_levels-Tracks cfg mid s (l ∷ ls) =
      let (l', s') = offer_buy n c cfg mid s l in
      let (l'', s'') = offer_sell n c cfg mid s' l' in
      Tracks-cons c Settled Given l l'' ls (tick_levels n c cfg mid s'' ls).0
        (Tracks-trans c Settled Given (offer_buy-Tracks cfg mid s l)
          (offer_sell-Tracks cfg mid s' l'))
        (tick_levels-Tracks cfg mid s'' ls)

  drop_buy-Tracks :
      (mid : Double) (w : World) (l : GridLevel n)
      → let (l', w') = drop_buy n c mid w l in Tracks c Settled Given w w' (l ∷ []) (l' ∷ [])
  unfolding drop_buy
  drop_buy-Tracks mid w l = elim (Bool-cases (stale_buy n c mid l)) [
    | inl stale ↦ rw stale (
        level-Tracks c Settled Given l (record l { buy_order_id = 0 }) (cancelled w _)
          (inl (settled w _)) (inr (Memᴰ.tail (Memᴰ.head refl))) (λ id g. inl (not_given w _ id g)))
    | inr live ↦ rw live (same c Settled Given w (l ∷ []))
  ]

  drop_sell-Tracks :
      (mid : Double) (w : World) (l : GridLevel n)
      → let (l', w') = drop_sell n c mid w l in Tracks c Settled Given w w' (l ∷ []) (l' ∷ [])
  unfolding drop_sell
  drop_sell-Tracks mid w l = elim (Bool-cases (stale_sell n c mid l)) [
    | inl stale ↦ rw stale (
        level-Tracks c Settled Given l (record l { sell_order_id = 0 }) (cancelled w _)
          (inr (Memᴰ.head refl)) (inl (settled w _)) (λ id g. inl (not_given w _ id g)))
    | inr live ↦ rw live (same c Settled Given w (l ∷ []))
  ]

  timer_levels-Tracks :
      (mid : Double) (w : World) (ls : List (GridLevel n))
      → let (ls', w') = timer_levels n c mid w ls in Tracks c Settled Given w w' ls ls'
  unfolding timer_levels timer_level
  timer_levels-Tracks mid w [] = same c Settled Given w []
  timer_levels-Tracks mid w (l ∷ ls) =
      let (l', w') = drop_buy n c mid w l in
      let (l'', w'') = drop_sell n c mid w' l' in
      Tracks-cons c Settled Given l l'' ls (timer_levels n c mid w'' ls).0
        (Tracks-trans c Settled Given (drop_buy-Tracks mid w l) (drop_sell-Tracks mid w' l'))
        (timer_levels-Tracks mid w'' ls)

  pub on_tick-Tracks :
      (g : Grid n) (w : World)
      → let (g', w') = on_tick n c g w in Tracks c Settled Given w w' g.levels g'.levels
  unfolding on_tick
  on_tick-Tracks g w = elim (Bool-cases g.initialized) [
    | inl up ↦ elim (Option-cases (mid_price w g.cfg.symbol_id)) [
      | inl unpriced ↦ rw (up, unpriced) (same c Settled Given w g.levels)
      | inr (mid, priced) ↦ rw (up, priced) (tick_levels-Tracks g.cfg (to_double n mid) _ g.levels)
    ]
    | inr down ↦ rw down (same c Settled Given w g.levels)
  ]

  pub on_timer-Tracks :
      (g : Grid n) (w : World)
      → let (g', w') = on_timer n c g w in Tracks c Settled Given w w' g.levels g'.levels
  unfolding on_timer
  on_timer-Tracks g w = elim (Bool-cases g.initialized) [
    | inl up ↦ elim (Option-cases (mid_price w g.cfg.symbol_id)) [
      | inl unpriced ↦ rw (up, unpriced) (same c Settled Given w g.levels)
      | inr (mid, priced) ↦ rw (up, priced) (timer_levels-Tracks (to_double n mid) w g.levels)
    ]
    | inr down ↦ rw down (same c Settled Given w g.levels)
  ]
