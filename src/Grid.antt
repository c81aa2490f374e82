-- ===== src/Grid.antt =====
-- include/chronos/strategies/grid_strategy.hpp: `GridStrategy`, over the number types and over the
-- strategy context, which it calls.
pub mod Ticks
pub mod Timers
pub mod Fills
pub mod Sessions
pub mod Tests
use trading_engine.Base.{
  ℕ, zero, suc, ◌+◌, ◌%◌, ◌^◌, Bool, true, false, not, ◌&&◌, List, [], ◌∷◌, ◌++◌, Option, none,
  some, length, get_elem?, ltb, ◌==◌, if◌then◌else◌,
}
use trading_engine.Base.Int.{ℤ, pos, negsuc}
use trading_engine.Core.Enums.{OrderSide, OrderType, TimeInForce}
use trading_engine.Core.Structs.{Tick, Fill, OrderRequest, default_order_request}
use trading_engine.Core.Numbers.{Numbers, to_decimal, to_double, zero_decimal, std_max, std_min}

-- What the strategy calls of `StrategyContext`; its bodies are in the library that is linked.
-- A world is all state behind the context.
pub record Context (n : Numbers) : Type 1 where
  pub World : Type 0
  pub mid_price : World → ℕ → Option (Numbers.Decimal n)
  pub submit_order : World → OrderRequest (Numbers.Decimal n) → World × ℕ
  pub cancel_order : World → ℕ → World × Bool

pub record Config (n : Numbers) : Type 0 where
  pub grid_low : Numbers.Double n
  pub grid_high : Numbers.Double n
  pub grid_levels : ℤ
  pub quantity : Numbers.Double n
  pub symbol_id : ℕ

pub record GridLevel (n : Numbers) : Type 0 where
  pub price : Numbers.Decimal n
  pub buy_order_id : ℕ
  pub sell_order_id : ℕ

-- The data members. The counters are of 64 bits.
pub record Grid (n : Numbers) : Type 0 where
  pub cfg : Config n
  pub levels : List (GridLevel n)
  pub initialized : Bool
  pub ticks_processed : ℕ
  pub fills_processed : ℕ

-- `++` on a 64-bit counter.
abbrev pub next_count : ℕ → ℕ
next_count x = (x + 1) % 2 ^ 64

-- `tickCount`, `fillCount` and `isInitialized`.
abbrev pub tick_count : {n : Numbers} → Grid n → ℕ
tick_count g = g.ticks_processed

abbrev pub fill_count : {n : Numbers} → Grid n → ℕ
fill_count g = g.fills_processed

abbrev pub is_initialized : {n : Numbers} → Grid n → Bool
is_initialized g = g.initialized

-- A write to one element of a vector.
abbrev pub modify_at {ℓ} : {A : Type ℓ} → List A → ℕ → (A → A) → List A
modify_at [] i f = []
modify_at (x ∷ xs) zero f = f x ∷ xs
modify_at (x ∷ xs) (suc i) f = x ∷ modify_at xs i f

module _ (n : Numbers) where
  open n use {Double, Decimal, of_integer, literal, add, sub, mul, div, less, round, pow as power}

  -- `roundPrice`
  pub round_price : Decimal → ℕ → Decimal
  round_price price decimals =
      let v = to_decimal_arg price in
      let factor = power (literal 10 0) (of_integer (pos decimals)) in
      to_decimal n (div (round (mul v factor)) factor)
    where
      to_decimal_arg : Decimal → Double
      to_decimal_arg p = to_double n p

  -- The prices of the constructor's loop, from index i on.
  unfoldable pub level_prices : Config n → ℕ → ℕ → List (GridLevel n)
  level_prices cfg i zero = []
  level_prices cfg i (suc rounds) =
      let spacing = div (sub cfg.grid_high cfg.grid_low) (of_integer cfg.grid_levels) in
      record {
        price = to_decimal n (add cfg.grid_low (mul spacing (of_integer (pos i))));
        buy_order_id = 0;
        sell_order_id = 0;
      }
      ∷ level_prices cfg (i + 1) rounds

  with_levels : Config n → List (GridLevel n) → Grid n
  with_levels cfg levels = record {
    cfg = cfg;
    levels = levels;
    initialized = false;
    ticks_processed = 0;
    fills_processed = 0;
  }

  -- The constructor. For `grid_levels` below -1 the `reserve` throws, since the argument converts to a
  -- size beyond what a vector can hold.
  unfoldable pub construct : Config n → Option (Grid n)
  unfolding level_prices with_levels
  construct cfg = elim cfg.grid_levels [
    | pos l ↦ some (with_levels cfg (level_prices cfg 0 (l + 1)))
    | negsuc zero ↦ some (with_levels cfg [])
    | negsuc (suc l) ↦ none
  ]

  -- The order that `placeBuyAt` and `placeSellAt` submit.
  pub order_for : Config n → OrderSide → Decimal → OrderRequest Decimal
  unfolding round_price
  order_for cfg side price = record (default_order_request (zero_decimal n)) {
    symbol_id = cfg.symbol_id;
    price = round_price price 1;
    quantity = to_decimal n cfg.quantity;
    side = side;
    type = OrderType.limit;
    tif = TimeInForce.gtc;
  }

  -- `if (oid) levels_[level_idx].buy_order_id = oid`, at the level, and the same for the sell side.
  abbrev pub note_buy : ℕ → GridLevel n → GridLevel n
  note_buy oid l = if oid == 0 then l else record l { buy_order_id = oid }

  abbrev pub note_sell : ℕ → GridLevel n → GridLevel n
  note_sell oid l = if oid == 0 then l else record l { sell_order_id = oid }

  -- What the loop of `onTick` offers at its k-th buy and its k-th sell of the tick.
  pub buy_price : Double → Double → ℕ → Decimal
  buy_price level_price mid k =
      to_decimal n (
        add (add (std_max n level_price mid) (literal 5 1))
          (mul (of_integer (pos k)) (literal 1 1)))

  pub sell_price : Double → Double → ℕ → Decimal
  sell_price level_price mid k =
      to_decimal n (
        sub (sub (std_min n level_price mid) (literal 5 1))
          (mul (of_integer (pos k)) (literal 1 1)))

module _ (n : Numbers) (c : Context n) where
  open n use {Decimal}
  open c use {World, submit_order}

  -- `placeBuyAt` and `placeSellAt`.
  unfoldable pub place_buy_at : Grid n → World → ℕ → Decimal → Grid n × World × ℕ
  place_buy_at g w i price =
      let (w', oid) = submit_order w (order_for n g.cfg OrderSide.buy price) in
      (record g { levels = modify_at g.levels i (note_buy n oid) }, w', oid)

  unfoldable pub place_sell_at : Grid n → World → ℕ → Decimal → Grid n × World × ℕ
  place_sell_at g w i price =
      let (w', oid) = submit_order w (order_for n g.cfg OrderSide.sell price) in
      (record g { levels = modify_at g.levels i (note_sell n oid) }, w', oid)

  -- `placeBuy` and `placeSell`, at the level's own price; an index out of range has no meaning.
  pub place_buy : Grid n → World → ℕ → Option (Grid n × World × ℕ)
  place_buy g w i = elim (get_elem? g.levels i) [
    | none ↦ none
    | some l ↦ some (place_buy_at g w i l.price)
  ]

  pub place_sell : Grid n → World → ℕ → Option (Grid n × World × ℕ)
  place_sell g w i = elim (get_elem? g.levels i) [
    | none ↦ none
    | some l ↦ some (place_sell_at g w i l.price)
  ]

  -- `symbols`
  pub symbols : Grid n → List ℕ
  symbols g = g.cfg.symbol_id ∷ []

  unfoldable pub on_load : Grid n → Grid n
  on_load g = record g { initialized = true }

  unfoldable pub on_unload : Grid n → Grid n
  on_unload g = record g { initialized = false }
