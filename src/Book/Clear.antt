-- ===== src/Book/Clear.antt =====
-- `ColdData::clear` of include/chronos/market_data/orderbook_v2.hpp.
use trading_engine.Base.{ℕ, zero, suc, ◌+◌, ◌≡◌, refl, ◌∙◌, ap, List, [], ◌∷◌, arith, length, set}
use trading_engine.Core.Numbers.{Numbers}
use trading_engine.Book.{
  ColdData, default_level, default_cold_data, clear, clear_levels, max_depth, repeated,
}

-- Writing one value at every index of a list.
overwrite : {A : Type 0} → A → (rounds i : ℕ) → List A → List A
overwrite v zero i xs = xs
overwrite v (suc rounds) i xs = overwrite v rounds (i + 1) (set xs i v)

overwrite-cons :
    {A : Type 0} (v x : A) (rounds i : ℕ) (xs : List A)
    → overwrite v rounds (suc i) (x ∷ xs) ≡ x ∷ overwrite v rounds i xs
unfolding overwrite
overwrite-cons v x zero i xs = refl
overwrite-cons v x (suc rounds) i xs =
    ap (λ j. overwrite v rounds j (x ∷ set xs i v)) (omega arith)
    ∙ overwrite-cons v x rounds (i + 1) (set xs i v)

overwrite_all :
    (n : Numbers) {A : Type 0} (v : A) (rounds : ℕ) (xs : List A)
    → length xs ≡ rounds
    → overwrite v rounds 0 xs ≡ repeated n v rounds
unfolding overwrite
overwrite_all n v zero [] e = refl
overwrite_all n v zero (x ∷ xs) e = absurd (omega arith)
overwrite_all n v (suc rounds) [] e = absurd (omega arith)
overwrite_all n v (suc rounds) (x ∷ xs) e =
    ap (λ j. overwrite v rounds j (v ∷ xs)) (omega arith)
    ∙ overwrite-cons v v rounds 0 xs
    ∙ ap (λ rest. v ∷ rest) (overwrite_all n v rounds xs (omega arith))

module _ (n : Numbers) where
  clear_levels_lem :
      (rounds i : ℕ) (c : ColdData n)
      → clear_levels n rounds i c ≡ record c {
        bids = overwrite (default_level n) rounds i c.bids;
        asks = overwrite (default_level n) rounds i c.asks;
      }
  unfolding overwrite
  clear_levels_lem zero i c = refl
  clear_levels_lem (suc rounds) i c = clear_levels_lem rounds (i + 1) _

  -- On cold data whose two arrays have the full depth, `clear` gives the data of a new book, except
  -- that it keeps the time of the last update.
  pub clear_lem :
      (c : ColdData n)
      → length c.bids ≡ max_depth
      → length c.asks ≡ max_depth
      → clear n c ≡ record (default_cold_data n) { last_update_time = c.last_update_time }
  clear_lem c bids asks =
      clear_levels_lem max_depth 0 (record c { bid_count = 0; ask_count = 0 })
      ∙ ap
          (λ b. record c {
            bids = b;
            asks = overwrite (default_level n) max_depth 0 c.asks;
            bid_count = 0;
            ask_count = 0;
          })
          (overwrite_all n (default_level n) max_depth c.bids bids)
      ∙ ap (λ a. record (default_cold_data n) { asks = a; last_update_time = c.last_update_time })
          (overwrite_all n (default_level n) max_depth c.asks asks)
