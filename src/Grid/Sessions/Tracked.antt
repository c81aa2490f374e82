-- ===== src/Grid/Sessions/Tracked.antt =====
-- How a callback of include/chronos/strategies/grid_strategy.hpp accounts for the ids that the context gives:
-- none gets lost.
pub mod Callbacks
pub mod Fills
use mathlib.Core.List.Memᴰ
use mathlib.Core.List.{Memᴰ}
use mathlib.Core.Path.{subst}
use mathlib.Core.Logic.{⊎_elim}
use trading_engine.Base.{
  ℕ, zero, suc, ◌≡◌, ◌⊎◌, inl, inr, refl, sym, List, [], ◌∷◌, some, ◌==◌, ==_iff, ◌∙◌, true,
  Bool-cases, get_elem?, arith, if◌then◌else◌,
}
use mathlib.Core.Option.{some-injective, none-ne-some}
use trading_engine.Core.Structs.{OrderRequest}
use trading_engine.Core.Numbers.{Numbers}
use trading_engine.Grid.{Context, GridLevel, modify_at, note_buy, note_sell}
use trading_engine.Grid.Sessions.{ids}

-- `Settled` is what an id may come to beside standing at a level, `Given` that the context gave it.
pub record IsLedger {n : Numbers} (c : Context n) (Settled Given : Context.World c → ℕ → Type 0)
    : Type 0 where
  pub unset : (w : Context.World c) → Settled w 0
  pub submitted :
      (w : Context.World c) (o : OrderRequest (Numbers.Decimal n)) (id : ℕ)
      → Settled w id
      → Settled (Context.submit_order c w o).0 id
  pub given :
      (w : Context.World c) (o : OrderRequest (Numbers.Decimal n)) (id : ℕ)
      → Given (Context.submit_order c w o).0 id
      → (id ≡ (Context.submit_order c w o).1) ⊎ Given w id
  pub cancelled :
      (w : Context.World c) (cancel id : ℕ)
      → Settled w id
      → Settled (Context.cancel_order c w cancel).0 id
  pub settled :
      (w : Context.World c) (cancel : ℕ) → Settled (Context.cancel_order c w cancel).0 cancel
  pub not_given :
      (w : Context.World c) (cancel id : ℕ)
      → Given (Context.cancel_order c w cancel).0 id
      → Given w id

module _ {n : Numbers} (c : Context n) (Settled Given : Context.World c → ℕ → Type 0) where
  open c use {World}

  abbrev pub Known : World → List (GridLevel n) → ℕ → Type 0
  Known w ls id = Settled w id ⊎ Memᴰ id (ids ls)

  -- What a callback does to the levels, or a loop's body to one: no id gets lost.
  pub record Tracks (w w' : World) (ls ls' : List (GridLevel n)) : Type 0 where
    pub grows : (id : ℕ) → Settled w id → Settled w' id
    pub kept : (id : ℕ) → Memᴰ id (ids ls) → Known w' ls' id
    pub noted : (id : ℕ) → Given w' id → Given w id ⊎ Known w' ls' id

  pub Known-Tracks :
      {w w' : World} {ls ls' : List (GridLevel n)}
      → Tracks w w' ls ls'
      → (id : ℕ) → Known w ls id
      → Known w' ls' id
  Known-Tracks t id (inl s) = inl (t.grows id s)
  Known-Tracks t id (inr m) = t.kept id m

  pub unchanged :
      {w w' : World} (ls : List (GridLevel n))
      → ((id : ℕ) → Settled w id → Settled w' id)
      → ((id : ℕ) → Given w' id → Given w id)
      → Tracks w w' ls ls
  unchanged ls grows back = record {
    grows = grows;
    kept = λ id m. inr m;
    noted = λ id g. inl (back id g);
  }

  pub same : (w : World) (ls : List (GridLevel n)) → Tracks w w ls ls
  same w ls = unchanged ls (λ id s. s) (λ id g. g)

  pub Tracks-trans :
      {w w' w'' : World} {ls ls' ls'' : List (GridLevel n)}
      → Tracks w w' ls ls'
      → Tracks w' w'' ls' ls''
      → Tracks w w'' ls ls''
  Tracks-trans {w} {w'} {w''} {ls} {ls'} {ls''} t t' = record {
    grows = λ id s. t'.grows id (t.grows id s);
    kept = λ id m. Known-Tracks t' id (t.kept id m);
    noted = λ id g. back id (t'.noted id g);
  }
    where
      back : (id : ℕ) → Given w' id ⊎ Known w'' ls'' id → Given w id ⊎ Known w'' ls'' id
      back id (inl g) = elim (t.noted id g) [
        | inl before ↦ inl before
        | inr known ↦ inr (Known-Tracks t' id known)
      ]
      back id (inr known) = inr known

  Known-head :
      {w : World} (l : GridLevel n) (ls : List (GridLevel n)) (id : ℕ)
      → Known w (l ∷ []) id
      → Known w (l ∷ ls) id
  Known-head l ls id (inl s) = inl s
  Known-head l ls id (inr m) = inr (Memᴰ.append_left (ids ls) m)

  Known-tail :
      {w : World} (l : GridLevel n) (ls : List (GridLevel n)) (id : ℕ)
      → Known w ls id
      → Known w (l ∷ ls) id
  Known-tail l ls id (inl s) = inl s
  Known-tail l ls id (inr m) = inr (Memᴰ.tail (Memᴰ.tail m))

  pub Tracks-cons :
      {w w' w'' : World} (l l' : GridLevel n) (ls ls' : List (GridLevel n))
      → Tracks w w' (l ∷ []) (l' ∷ [])
      → Tracks w' w'' ls ls'
      → Tracks w w'' (l ∷ ls) (l' ∷ ls')
  Tracks-cons {w} {w'} {w''} l l' ls ls' t t' = record {
    grows = λ id s. t'.grows id (t.grows id s);
    kept = λ id m. both id (Memᴰ.append_cases (ids (l ∷ [])) m);
    noted = λ id g. back id (t'.noted id g);
  }
    where
      later : (id : ℕ) → Known w' (l' ∷ []) id → Known w'' (l' ∷ ls') id
      later id (inl s) = inl (t'.grows id s)
      later id (inr m) = Known-head l' ls' id (inr m)

      both : (id : ℕ) → Memᴰ id (ids (l ∷ [])) ⊎ Memᴰ id (ids ls) → Known w'' (l' ∷ ls') id
      both id (inl m) = later id (t.kept id m)
      both id (inr m) = Known-tail l' ls' id (t'.kept id m)

      back : (id : ℕ) → Given w' id ⊎ Known w'' ls' id → Given w id ⊎ Known w'' (l' ∷ ls') id
      back id (inl g) = elim (t.noted id g) [
        | inl before ↦ inl before
        | inr known ↦ inr (later id known)
      ]
      back id (inr known) = inr (Known-tail l' ls' id known)

  pub modify_at-Tracks :
      {w w' : World} (ls : List (GridLevel n)) (i : ℕ) (l : GridLevel n)
      (f : GridLevel n → GridLevel n)
      → get_elem? ls i ≡ some l
      → ((x : GridLevel n) → x ≡ l → Tracks w w' (x ∷ []) (f x ∷ []))
      → Tracks w w' ls (modify_at ls i f)
  modify_at-Tracks [] i l f found each = absurd (none-ne-some l found)
  modify_at-Tracks {w' = w'} (x ∷ ls) zero l f found each =
      Tracks-cons x (f x) ls ls (each x (some-injective x l found)) (same w' ls)
  modify_at-Tracks {w} (x ∷ ls) (suc i) l f found each =
      Tracks-cons x x ls (modify_at ls i f) (same w (x ∷ [])) (modify_at-Tracks ls i l f found each)

  pub level-Tracks :
      {w w' : World} (l l' : GridLevel n)
      → ((id : ℕ) → Settled w id → Settled w' id)
      → Known w' (l' ∷ []) l.buy_order_id
      → Known w' (l' ∷ []) l.sell_order_id
      → ((id : ℕ) → Given w' id → Given w id ⊎ Known w' (l' ∷ []) id)
      → Tracks w w' (l ∷ []) (l' ∷ [])
  level-Tracks {w = w} {w' = w'} l l' grows buy sell noted = record {
    grows = grows;
    kept = kept;
    noted = noted;
  }
    where
      kept : (id : ℕ) → Memᴰ id (ids (l ∷ [])) → Known w' (l' ∷ []) id
      kept id (Memᴰ.head e) = subst (Known w' (l' ∷ [])) (sym e) buy
      kept id (Memᴰ.tail (Memᴰ.head e)) = subst (Known w' (l' ∷ [])) (sym e) sell
      kept id (Memᴰ.tail (Memᴰ.tail m)) = elim m [ ]

  module _ (ledger : IsLedger c Settled Given) where
    open c use {submit_order}
    open ledger use {unset, submitted, given}

    zero_id : (w : World) (id : ℕ) → id ≡ 0 → Settled w id
    zero_id w id e = subst (Settled w) (sym e) (unset w)

    -- An order that the context refuses is none to keep.
    no_order :
        (w : World) (o : OrderRequest (Numbers.Decimal n)) (l : GridLevel n)
        → ((submit_order w o).1 == 0) ≡ true
        → (id : ℕ) → Given (submit_order w o).0 id
        → Given w id ⊎ Known (submit_order w o).0 (l ∷ []) id
    no_order w o l refused id g =
        ⊎_elim
          (λ e.
            inr (
              inl
                (zero_id (submit_order w o).0 id (e ∙ (==_iff (submit_order w o).1 0).0 refused))))
          (λ b. inl b) (given w o id g)

    -- An order's id is noted where none stands.
    pub note_buy-Tracks :
        (w : World) (o : OrderRequest (Numbers.Decimal n)) (l : GridLevel n)
        → l.buy_order_id ≡ 0
        → let (w', oid) = submit_order w o in Tracks w w' (l ∷ []) (note_buy n oid l ∷ [])
    note_buy-Tracks w o l free =
        let (w', oid) = submit_order w o in
        elim (Bool-cases (oid == 0)) [
          | inl refused ↦ rw refused (
              level-Tracks {w = w} {w' = w'} l l (submitted w o) (inr (Memᴰ.head refl))
                (inr (Memᴰ.tail (Memᴰ.head refl))) (no_order w o l refused))
          | inr set ↦ rw set (
              level-Tracks {w = w} {w' = w'} l (record l { buy_order_id = oid }) (submitted w o)
                (inl (zero_id w' l.buy_order_id free)) (inr (Memᴰ.tail (Memᴰ.head refl)))
                (λ id g. ⊎_elim (λ e. inr (inr (Memᴰ.head e))) (λ b. inl b) (given w o id g)))
        ]

    pub note_sell-Tracks :
        (w : World) (o : OrderRequest (Numbers.Decimal n)) (l : GridLevel n)
        → l.sell_order_id ≡ 0
        → let (w', oid) = submit_order w o in Tracks w w' (l ∷ []) (note_sell n oid l ∷ [])
    note_sell-Tracks w o l free =
        let (w', oid) = submit_order w o in
        elim (Bool-cases (oid == 0)) [
          | inl refused ↦ rw refused (
              level-Tracks {w = w} {w' = w'} l l (submitted w o) (inr (Memᴰ.head refl))
                (inr (Memᴰ.tail (Memᴰ.head refl))) (no_order w o l refused))
          | inr set ↦ rw set (
              level-Tracks {w = w} {w' = w'} l (record l { sell_order_id = oid }) (submitted w o)
                (inr (Memᴰ.head refl)) (inl (zero_id w' l.sell_order_id free))
                (λ id g.
                  ⊎_elim (λ e. inr (inr (Memᴰ.tail (Memᴰ.head e)))) (λ b. inl b) (given w o id g)))
        ]
