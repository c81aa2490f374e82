-- ===== src/Grid/Sessions/Orders.antt =====
-- Which orders the ids are of that `GridStrategy` of include/chronos/strategies/grid_strategy.hpp notes at its
-- levels.
use mathlib.Core.List.{Memᴰ}
use mathlib.Core.Path.{subst}
use trading_engine.Base.{
  ℕ, zero, suc, ◌+◌, ◌≡◌, ◌⊎◌, inl, inr, refl, sym, ◌∙◌, List, [], ◌∷◌, some, All, All-get_elem?,
  get_elem?, arith,
}
use trading_engine.Base.Int.{pos, negsuc}
use trading_engine.Core.Enums.{OrderSide}
use trading_engine.Core.Structs.{OrderRequest}
use trading_engine.Core.Numbers.{Numbers}
use trading_engine.Grid.{
  Context, Config, GridLevel, Grid, order_for, construct, level_prices, with_levels, on_load,
  on_unload,
}
use trading_engine.Grid.Sessions.{
  Step, History, loaded, unloaded, ticked, timed, filled, elsewhere, constructed, later,
  first_levels,
}
use trading_engine.Grid.Sessions.Kept.{IsKept, Good, LevelsKept, unchanged}
use trading_engine.Grid.Sessions.Kept.Callbacks.{
  on_tick-LevelsKept, on_timer-LevelsKept, on_tick-cfg, on_timer-cfg,
}
use trading_engine.Grid.Sessions.Kept.Fills.{on_fill-LevelsKept, on_fill-cfg}

module _ {n : Numbers} (c : Context n) where
  -- The orders that the strategy has submitted, with the id that each was given, the last one first.
  abbrev pub Submissions : Type 0
  Submissions = List (ℕ × OrderRequest (Numbers.Decimal n))

  -- The same context, with the submissions of the strategy.
  abbrev pub recording : Context n
  recording = record {
    World = Context.World c × Submissions;
    mid_price = λ w symbol. Context.mid_price c w.0 symbol;
    submit_order =
        λ w o. let (w', oid) = Context.submit_order c w.0 o in ((w', (oid, o) ∷ w.1), oid);
    cancel_order = λ w id. let (w', ok) = Context.cancel_order c w.0 id in ((w', w.1), ok);
  }

  -- A change elsewhere submits nothing for the strategy.
  abbrev pub SubmitsNothing : Context.World recording → Context.World recording → Type 0
  SubmitsNothing w w' = w'.1 ≡ w.1

  -- The id is 0, or was given to an order of the strategy on this side of the market.
  abbrev pub IsOrderOf : Config n → Context.World recording → OrderSide → ℕ → Type 0
  IsOrderOf cfg w side id =
      (id ≡ 0) ⊎ ((price : Numbers.Decimal n) × Memᴰ (id, order_for n cfg side price) w.1)

  IsOrderOf-IsKept : (cfg : Config n) → IsKept recording (IsOrderOf cfg) cfg
  IsOrderOf-IsKept cfg = record {
    unset = λ w side. inl refl;
    answered = λ w side price. inr (price, Memᴰ.head refl);
    submitted = λ w side other price id given. elim given [
      | inl none_given ↦ inl none_given
      | inr (before, there) ↦ inr (before, Memᴰ.tail there)
    ];
    cancelled = λ w cancel side id given. given;
  }

  IsKept-at : {cfg : Config n} (g : Grid n) → g.cfg ≡ cfg → IsKept recording (IsOrderOf cfg) g.cfg
  IsKept-at {cfg = cfg} g same =
      subst (IsKept recording (IsOrderOf cfg)) (sym same) (IsOrderOf-IsKept cfg)

  -- What each callback keeps.
  Step-LevelsKept :
      {cfg : Config n} {g : Grid n} {w : Context.World recording} {g' : Grid n}
      {w' : Context.World recording}
      → Step n recording SubmitsNothing g w g' w'
      → g.cfg ≡ cfg
      → LevelsKept recording (IsOrderOf cfg) w w' g.levels g'.levels × (g'.cfg ≡ cfg)
  unfolding on_load on_unload
  Step-LevelsKept {cfg = cfg} {g = g} {w = w} loaded same =
      (unchanged recording (IsOrderOf cfg) {w = w} {w' = w} g.levels (λ side id p. p), same)
  Step-LevelsKept {cfg = cfg} {g = g} {w = w} unloaded same =
      (unchanged recording (IsOrderOf cfg) {w = w} {w' = w} g.levels (λ side id p. p), same)
  Step-LevelsKept {g = g} {w = w} ticked same =
      (on_tick-LevelsKept g w (IsKept-at g same), on_tick-cfg n recording g w ∙ same)
  Step-LevelsKept {g = g} {w = w} timed same =
      (on_timer-LevelsKept g w (IsKept-at g same), on_timer-cfg n recording g w ∙ same)
  Step-LevelsKept {g = g} {w = w} (filled fill) same =
      (on_fill-LevelsKept g w fill (IsKept-at g same), on_fill-cfg n recording g w fill ∙ same)
  Step-LevelsKept {cfg = cfg} {g = g} {w = w} (elsewhere w' quiet) same = (
    unchanged recording (IsOrderOf cfg) {w = w} {w' = w'} g.levels (λ side id p. rw quiet p),
    same,
  )

  level_prices-Good :
      (w : Context.World recording) (cfg : Config n) (i rounds : ℕ)
      → All (Good recording (IsOrderOf cfg) w) (level_prices n cfg i rounds)
  unfolding level_prices
  level_prices-Good w cfg i zero = tt
  level_prices-Good w cfg i (suc rounds) =
      ((inl refl, inl refl), level_prices-Good w cfg (i + 1) rounds)

  first_levels-Good :
      (w : Context.World recording) (cfg : Config n)
      → All (Good recording (IsOrderOf cfg) w) (first_levels n cfg)
  first_levels-Good w cfg =
      elim cfg.grid_levels
        as (λ z.
          All (Good recording (IsOrderOf cfg) w)
            (elim z [ pos l ↦ level_prices n cfg 0 (l + 1) | negsuc l ↦ [] ])) [
              | pos l ↦ level_prices-Good w cfg 0 (l + 1)
              | negsuc l ↦ tt
            ]

  construct-Good :
      (w : Context.World recording) (cfg : Config n) (g : Grid n)
      → construct n cfg ≡ some g
      → All (Good recording (IsOrderOf cfg) w) g.levels × (g.cfg ≡ cfg)
  unfolding construct with_levels
  construct-Good w cfg g e =
      let start : g.levels ≡ first_levels n cfg = ground arith in
      (
        subst (All (Good recording (IsOrderOf cfg) w)) (sym start) (first_levels-Good w cfg),
        ground arith,
      )

  pub history-Good :
      {cfg : Config n} {g : Grid n} {w : Context.World recording}
      → History n recording SubmitsNothing cfg g w
      → All (Good recording (IsOrderOf cfg) w) g.levels × (g.cfg ≡ cfg)
  history-Good {w = w} (constructed e) = construct-Good w _ _ e
  history-Good (later h step) =
      let (good, same) = history-Good h in
      let (kept, same') = Step-LevelsKept step same in (kept.1 good, same')

  -- For a context that also keeps the submissions: after any sequence of callbacks, and of changes
  -- elsewhere that submit nothing for the strategy, the buy id of each level is 0 or was the
  -- context's answer to a buy that the strategy submitted, and the sell id of each level is 0 or
  -- was the answer to such a sell.
  pub ids_are_own :
      {cfg : Config n} {g : Grid n} {w : Context.World recording}
      → History n recording SubmitsNothing cfg g w
      → (i : ℕ) (l : GridLevel n) → get_elem? g.levels i ≡ some l
      → IsOrderOf cfg w OrderSide.buy l.buy_order_id
        × IsOrderOf cfg w OrderSide.sell l.sell_order_id
  ids_are_own {cfg = cfg} {g = g} {w = w} h i l e =
      All-get_elem? (Good recording (IsOrderOf cfg) w) g.levels i l (history-Good h).0 e
