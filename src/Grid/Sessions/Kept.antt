-- ===== src/Grid/Sessions/Kept.antt =====
-- A property of the ids that `GridStrategy` of include/chronos/strategies/grid_strategy.hpp notes, on either
-- side, that the calls of the context keep.
pub mod Callbacks
pub mod Fills
use trading_engine.Base.{
  ℕ, zero, suc, ◌≡◌, inl, inr, refl, List, [], ◌∷◌, All, ◌==◌, Bool-cases, if◌then◌else◌,
}
use trading_engine.Core.Enums.{OrderSide}
use trading_engine.Core.Numbers.{Numbers}
use trading_engine.Grid.{Context, Config, GridLevel, modify_at, note_buy, note_sell, order_for}

-- P holds of 0, of what `submit_order` answers, and goes on to hold after each call.
pub record IsKept {n : Numbers} (c : Context n) (P : Context.World c → OrderSide → ℕ → Type 0)
    (cfg : Config n) : Type 0 where
  pub unset : (w : Context.World c) (side : OrderSide) → P w side 0
  pub answered :
      (w : Context.World c) (side : OrderSide) (price : Numbers.Decimal n)
      → let (w', id) = Context.submit_order c w (order_for n cfg side price) in P w' side id
  pub submitted :
      (w : Context.World c) (side other : OrderSide) (price : Numbers.Decimal n) (id : ℕ)
      → P w other id
      → P (Context.submit_order c w (order_for n cfg side price)).0 other id
  pub cancelled :
      (w : Context.World c) (cancel : ℕ) (side : OrderSide) (id : ℕ)
      → P w side id
      → P (Context.cancel_order c w cancel).0 side id

module _ {n : Numbers} (c : Context n) (P : Context.World c → OrderSide → ℕ → Type 0) where
  open c use {World}

  abbrev pub Grows : World → World → Type 0
  Grows w w' = (side : OrderSide) (id : ℕ) → P w side id → P w' side id

  abbrev pub Good : World → GridLevel n → Type 0
  Good w l = P w OrderSide.buy l.buy_order_id × P w OrderSide.sell l.sell_order_id

  -- What a loop's body does to one level, and a callback to all.
  abbrev pub LevelKept : World → World → GridLevel n → GridLevel n → Type 0
  LevelKept w w' l l' = Grows w w' × (Good w l → Good w' l')

  abbrev pub LevelsKept : World → World → List (GridLevel n) → List (GridLevel n) → Type 0
  LevelsKept w w' ls ls' = Grows w w' × (All (Good w) ls → All (Good w') ls')

  pub grown : {w w' : World} (l : GridLevel n) → Grows w w' → Good w l → Good w' l
  grown l grows (b, s) = (grows OrderSide.buy _ b, grows OrderSide.sell _ s)

  pub grown-All :
      {w w' : World} (ls : List (GridLevel n)) → Grows w w' → All (Good w) ls → All (Good w') ls
  grown-All [] grows h = tt
  grown-All (l ∷ ls) grows (h, hs) = (grown l grows h, grown-All ls grows hs)

  pub unmoved : (w : World) (l : GridLevel n) → LevelKept w w l l
  unmoved w l = (λ side id p. p, λ h. h)

  pub unchanged : {w w' : World} (ls : List (GridLevel n)) → Grows w w' → LevelsKept w w' ls ls
  unchanged ls grows = (grows, grown-All ls grows)

  pub LevelKept-trans :
      {w w' w'' : World} (l l' l'' : GridLevel n)
      → LevelKept w w' l l'
      → LevelKept w' w'' l' l''
      → LevelKept w w'' l l''
  LevelKept-trans l l' l'' (grows, good) (grows', good') =
      (λ side id p. grows' side id (grows side id p), λ h. good' (good h))

  pub LevelsKept-trans :
      {w w' w'' : World} (ls ls' ls'' : List (GridLevel n))
      → LevelsKept w w' ls ls'
      → LevelsKept w' w'' ls' ls''
      → LevelsKept w w'' ls ls''
  LevelsKept-trans ls ls' ls'' (grows, good) (grows', good') =
      (λ side id p. grows' side id (grows side id p), λ h. good' (good h))

  pub LevelsKept-cons :
      {w w' w'' : World} (l l' : GridLevel n) (ls ls' : List (GridLevel n))
      → LevelKept w w' l l'
      → LevelsKept w' w'' ls ls'
      → LevelsKept w w'' (l ∷ ls) (l' ∷ ls')
  LevelsKept-cons l l' ls ls' (grows, good) (grows', good') = (
    λ side id p. grows' side id (grows side id p),
    λ (h, hs). (grown l' grows' (good h), good' (grown-All ls grows hs)),
  )

  pub modify_at-LevelsKept :
      {w w' : World} (ls : List (GridLevel n)) (i : ℕ) (f : GridLevel n → GridLevel n)
      → Grows w w'
      → ((l : GridLevel n) → Good w l → Good w' (f l))
      → LevelsKept w w' ls (modify_at ls i f)
  modify_at-LevelsKept [] i f grows each = (grows, λ h. tt)
  modify_at-LevelsKept (l ∷ ls) zero f grows each =
      (grows, λ (h, hs). (each l h, grown-All ls grows hs))
  modify_at-LevelsKept (l ∷ ls) (suc i) f grows each =
      (grows, λ (h, hs). (grown l grows h, (modify_at-LevelsKept ls i f grows each).1 hs))

  pub note_buy-Good :
      {w w' : World} (l : GridLevel n) (id : ℕ)
      → Grows w w'
      → P w' OrderSide.buy id
      → Good w l
      → Good w' (note_buy n id l)
  note_buy-Good l id grows p h = elim (Bool-cases (id == 0)) [
    | inl z ↦ rw z (grown l grows h)
    | inr set ↦ rw set (p, grows OrderSide.sell _ h.1)
  ]

  pub note_sell-Good :
      {w w' : World} (l : GridLevel n) (id : ℕ)
      → Grows w w'
      → P w' OrderSide.sell id
      → Good w l
      → Good w' (note_sell n id l)
  note_sell-Good l id grows p h = elim (Bool-cases (id == 0)) [
    | inl z ↦ rw z (grown l grows h)
    | inr set ↦ rw set (grows OrderSide.buy _ h.0, p)
  ]
