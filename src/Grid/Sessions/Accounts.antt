-- ===== src/Grid/Sessions/Accounts.antt =====
-- What becomes of the orders that `GridStrategy` of include/chronos/strategies/grid_strategy.hpp submits.
use mathlib.Core.List.Memᴰ
use mathlib.Core.List.{Memᴰ}
use mathlib.Core.Path.{subst}
use trading_engine.Base.{ℕ, ◌≡◌, ◌⊎◌, inl, inr, refl, sym, ap, List, [], ◌∷◌, ◌++◌}
use trading_engine.Core.Structs.{OrderRequest}
use trading_engine.Core.Numbers.{Numbers}
use trading_engine.Grid.{Context, Config, GridLevel, Grid, on_load, on_unload}
use trading_engine.Grid.Sessions.{
  Step, History, loaded, unloaded, ticked, timed, filled, elsewhere, constructed, later, ids,
}
use trading_engine.Grid.Sessions.Orders.{recording}
use trading_engine.Grid.Sessions.Tracked.{IsLedger, Known, Known-Tracks, Tracks, same, unchanged}
use trading_engine.Grid.Sessions.Tracked.Callbacks.{on_tick-Tracks, on_timer-Tracks}
use trading_engine.Grid.Sessions.Tracked.Fills.{FindsFree, on_fill-Tracks}

module _ {n : Numbers} (c : Context n) where
  -- The same context, with the ids that it was asked to cancel, the last one first.
  abbrev pub cancelling : Context n
  cancelling = record {
    World = Context.World c × List ℕ;
    mid_price = λ w symbol. Context.mid_price c w.0 symbol;
    submit_order = λ w o. let (w', oid) = Context.submit_order c w.0 o in ((w', w.1), oid);
    cancel_order = λ w id. let (w', ok) = Context.cancel_order c w.0 id in ((w', id ∷ w.1), ok);
  }

  -- Both the submissions and the cancellations are kept.
  abbrev pub bookkeeping : Context n
  bookkeeping = recording cancelling

  abbrev pub World : Type 0
  World = Context.World bookkeeping

  -- A change elsewhere neither submits nor cancels for the strategy.
  abbrev pub AsksNothing : World → World → Type 0
  AsksNothing w w' = (w'.1 ≡ w.1) × (w'.0.1 ≡ w.0.1)

  -- The order whose fill `onFill` is given.
  abbrev pub filled_by :
      {g : Grid n} {w : World} {g' : Grid n} {w' : World}
      → Step n bookkeeping AsksNothing g w g' w'
      → List ℕ
  filled_by loaded = []
  filled_by unloaded = []
  filled_by ticked = []
  filled_by timed = []
  filled_by (filled fill) = fill.order_id ∷ []
  filled_by (elsewhere w' quiet) = []

  -- If it is a fill, the slot that `onFill` places into is free.
  abbrev pub FillFindsFree :
      {g : Grid n} {w : World} {g' : Grid n} {w' : World}
      → Step n bookkeeping AsksNothing g w g' w'
      → Type 0
  FillFindsFree loaded = Unit
  FillFindsFree unloaded = Unit
  FillFindsFree ticked = Unit
  FillFindsFree timed = Unit
  FillFindsFree {g} (filled fill) = FindsFree bookkeeping g fill.order_id
  FillFindsFree (elsewhere w' quiet) = Unit

  abbrev pub Session : Config n → Grid n → World → Type 0
  Session = History n bookkeeping AsksNothing

  abbrev pub filled_ids : {cfg : Config n} {g : Grid n} {w : World} → Session cfg g w → List ℕ
  filled_ids (constructed e) = []
  filled_ids (later h step) = filled_by step ++ filled_ids h

  -- The world in which the strategy is constructed.
  abbrev pub first_world : {cfg : Config n} {g : Grid n} {w : World} → Session cfg g w → World
  first_world (constructed {w = w} e) = w
  first_world (later h step) = first_world h

  abbrev pub FillsFindFree : {cfg : Config n} {g : Grid n} {w : World} → Session cfg g w → Type 0
  FillsFindFree (constructed e) = Unit
  FillsFindFree (later h step) = FillFindsFree step × FillsFindFree h

  abbrev Settled : List ℕ → World → ℕ → Type 0
  Settled done w id = (id ≡ 0) ⊎ (Memᴰ id w.0.1 ⊎ Memᴰ id done)

  abbrev Given : World → ℕ → Type 0
  Given w id = (o : OrderRequest (Numbers.Decimal n)) × Memᴰ (id, o) w.1

  Given-submit :
      (w : World) (o : OrderRequest (Numbers.Decimal n)) (id : ℕ)
      → Given (Context.submit_order bookkeeping w o).0 id
      → (id ≡ (Context.submit_order bookkeeping w o).1) ⊎ Given w id
  Given-submit w o id (o', Memᴰ.head e) = inl (ap (λ p. p.0) e)
  Given-submit w o id (o', Memᴰ.tail m) = inr (o', m)

  ledger : (done : List ℕ) → IsLedger bookkeeping (Settled done) Given
  ledger done = record {
    unset = λ w. inl refl;
    submitted = λ w o id s. s;
    given = Given-submit;
    cancelled = λ w cancel id s. elim s [
      | inl zero_id ↦ inl zero_id
      | inr (inl m) ↦ inr (inl (Memᴰ.tail m))
      | inr (inr m) ↦ inr (inr m)
    ];
    settled = λ w cancel. inr (inl (Memᴰ.head refl));
    not_given = λ w cancel id g. g;
  }

  Step-Tracks :
      {g : Grid n} {w : World} {g' : Grid n} {w' : World}
      (step : Step n bookkeeping AsksNothing g w g' w') (done : List ℕ)
      → FillFindsFree step
      → Tracks bookkeeping (Settled (filled_by step ++ done)) Given w w' g.levels g'.levels
  unfolding on_load on_unload
  Step-Tracks {g = g} {w = w} loaded done free = same bookkeeping (Settled done) Given w g.levels
  Step-Tracks {g = g} {w = w} unloaded done free = same bookkeeping (Settled done) Given w g.levels
  Step-Tracks {g = g} {w = w} ticked done free = on_tick-Tracks (ledger done) g w
  Step-Tracks {g = g} {w = w} timed done free = on_timer-Tracks (ledger done) g w
  Step-Tracks {g = g} {w = w} (filled fill) done free =
      on_fill-Tracks (ledger (fill.order_id ∷ done)) g w fill free (inr (inr (Memᴰ.head refl)))
  Step-Tracks {g = g} {w = w} (elsewhere w' quiet) done free =
      unchanged bookkeeping (Settled done) Given {w = w} {w' = w'} g.levels (λ id s. rw quiet.1 s)
        (λ id given. (given.0, rw (sym quiet.0) given.1))

  Known-done :
      (w : World) (ls : List (GridLevel n)) (more done : List ℕ) (id : ℕ)
      → Known bookkeeping (Settled done) Given w ls id
      → Known bookkeeping (Settled (more ++ done)) Given w ls id
  Known-done w ls more done id (inl (inl unset)) = inl (inl unset)
  Known-done w ls more done id (inl (inr (inl m))) = inl (inr (inl m))
  Known-done w ls more done id (inl (inr (inr m))) = inl (inr (inr (Memᴰ.append_right more m)))
  Known-done w ls more done id (inr m) = inr m

  history-Known :
      {cfg : Config n} {g : Grid n} {w : World} (h : Session cfg g w)
      → (first_world h).1 ≡ []
      → FillsFindFree h
      → (id : ℕ) → Given w id
      → Known bookkeeping (Settled (filled_ids h)) Given w g.levels id
  history-Known (constructed e) fresh free id (o, m) =
      absurd (Memᴰ.not-nil (subst (Memᴰ (id, o)) fresh m))
  history-Known (later {g = g} {w = w} h step) fresh (free, before) id given =
      let t = Step-Tracks step (filled_ids h) free in
      elim (t.noted id given) [
        | inl old ↦ Known-Tracks bookkeeping (Settled (filled_by step ++ filled_ids h)) Given t id (
            Known-done w g.levels (filled_by step) (filled_ids h) id
              (history-Known h fresh before id old))
        | inr known ↦ known
      ]

  -- For a context that also keeps what it is asked to submit, nothing at first, and to cancel:
  -- after any sequence of callbacks, and of changes elsewhere that ask it nothing for the strategy,
  -- where each fill finds the slot free that `onFill` places into: an id that the context gave to
  -- an order of the strategy is 0, or stands at a level, or was asked to be cancelled, or `onFill`
  -- was given its fill.
  pub orders_accounted :
      {cfg : Config n} {g : Grid n} {w : World} (h : Session cfg g w)
      → (first_world h).1 ≡ []
      → FillsFindFree h
      → (id : ℕ) (o : OrderRequest (Numbers.Decimal n)) → Memᴰ (id, o) w.1
      → (id ≡ 0) ⊎ (Memᴰ id (ids g.levels) ⊎ (Memᴰ id w.0.1 ⊎ Memᴰ id (filled_ids h)))
  orders_accounted h fresh free id o m = elim (history-Known h fresh free id (o, m)) [
    | inl (inl unset) ↦ inl unset
    | inl (inr gone) ↦ inr (inr gone)
    | inr there ↦ inr (inl there)
  ]
