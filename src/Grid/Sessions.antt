-- ===== src/Grid/Sessions.antt =====
-- Any sequence of the callbacks of include/chronos/strategies/grid_strategy.hpp, between which whatever
-- is behind the context may change.
mod Slots
mod Callbacks
mod Fills
mod Kept
mod Tracked
mod Tests
pub mod Histories
pub mod Orders
pub mod Cancels
pub mod Counts
pub mod Accounts
use trading_engine.Base.Int.{pos, negsuc}
use trading_engine.Base.{ℕ, ◌+◌, ◌≤◌, ◌<◌, ◌≡◌, ◌⊎◌, List, [], ◌∷◌, some}
use trading_engine.Core.Structs.{OrderRequest, Fill}
use trading_engine.Core.Numbers.{Numbers}
use trading_engine.Grid.{
  Context, Config, GridLevel, Grid, construct, level_prices, on_load, on_unload,
}
use trading_engine.Grid.Ticks.{on_tick}
use trading_engine.Grid.Timers.{on_timer}
use trading_engine.Grid.Fills.{on_fill}

-- What the context promises of its ids: `submit_order` gives 0, or an id above all that it gave before,
-- as a generator that counts up does. No id from `issued w` on has been given in the world w.
pub record RisingIds {n : Numbers} (c : Context n) : Type 0 where
  pub issued : Context.World c → ℕ
  pub submitted :
      (w : Context.World c) (o : OrderRequest (Numbers.Decimal n))
      → let (w', oid) = Context.submit_order c w o in
        (issued w ≤ issued w') × ((oid ≡ 0) ⊎ ((issued w ≤ oid) × (oid < issued w')))
  pub cancelled : (w : Context.World c) (id : ℕ) → issued w ≤ issued (Context.cancel_order c w id).0

-- A change elsewhere may give ids too.
abbrev pub MoreIds :
    {n : Numbers} {c : Context n} → RisingIds c → Context.World c → Context.World c → Type 0
MoreIds fresh w w' = RisingIds.issued fresh w ≤ RisingIds.issued fresh w'

module _ (n : Numbers) (c : Context n) (Changes : Context.World c → Context.World c → Type 0) where
  open c use {World}

  -- One callback, or a change elsewhere, of which `Changes` says what it may be.
  pub data Step (g : Grid n) (w : World) : Grid n → World → Type 0 where
    loaded : Step g w (on_load n c g) w
    unloaded : Step g w (on_unload n c g) w
    ticked : Step g w (on_tick n c g w).0 (on_tick n c g w).1
    timed : Step g w (on_timer n c g w).0 (on_timer n c g w).1
    filled :
        (fill : Fill (Numbers.Decimal n))
        → Step g w (on_fill n c g w fill).0 (on_fill n c g w fill).1
    elsewhere : (w' : World) → Changes w w' → Step g w g w'

  -- From the construction on.
  pub data History (cfg : Config n) : Grid n → World → Type 0 where
    constructed : {g : Grid n} {w : World} → construct n cfg ≡ some g → History cfg g w
    later : {g g' : Grid n} {w w' : World} → History cfg g w → Step g w g' w' → History cfg g' w'

-- The ids of the levels, the buy before the sell.
abbrev pub ids : {n : Numbers} → List (GridLevel n) → List ℕ
ids [] = []
ids (l ∷ ls) = l.buy_order_id ∷ l.sell_order_id ∷ ids ls

abbrev pub prices : {n : Numbers} → List (GridLevel n) → List (Numbers.Decimal n)
prices [] = []
prices (l ∷ ls) = l.price ∷ prices ls

-- The levels that the constructor makes.
abbrev pub first_levels : (n : Numbers) → Config n → List (GridLevel n)
first_levels n cfg = elim cfg.grid_levels [ pos l ↦ level_prices n cfg 0 (l + 1) | negsuc l ↦ [] ]
