-- ===== src/Mpmc/Calls.antt =====
-- `try_push` and `try_pop` of include/chronos/utils/mpmc_queue.hpp as whole calls, where no other thread comes
-- between: a compare-exchange succeeds. The loop runs on fuel.
mod Holding
mod Moves
pub mod Bounded
use trading_engine.Base.{
  ℕ, zero, suc, ◌+◌, Bool, true, false, ◌&&◌, List, [], ◌∷◌, ◌++◌, Option, none, some, update,
  length, ltb, ◌==◌, if◌then◌else◌, ◌>>=◌,
}
use trading_engine.Base.Int.{ℤ, pos, pos_part, neg_part, ltb_ℤ}
use trading_engine.Mpmc.{Mem, capacity, slot, wrap, push_diff, pop_diff}

abbrev pub is_zero : ℤ → Bool
is_zero d = pos_part d == 0 && neg_part d == 0

module _ {A : Type 0} (k : ℕ) where
  -- The queue after a push that wins, and after a pop that wins.
  abbrev pub after_push : Mem A → A → Mem A
  after_push m val = record m {
    head = wrap (m.head + 1);
    cells = update m.cells (slot k m.head) val;
    seq = update m.seq (slot k m.head) (wrap (m.head + 1));
  }

  abbrev pub after_pop : Mem A → Mem A
  after_pop m = record m {
    tail = wrap (m.tail + 1);
    seq = update m.seq (slot k m.tail) (wrap (m.tail + capacity k));
  }

  unfoldable pub try_push : (fuel : ℕ) → Mem A → A → Option (Bool × Mem A)
  try_push zero m val = none
  try_push (suc fuel) m val =
      let again = try_push fuel m val in
      let d = push_diff k m m.head in
      if is_zero d
      then some (true, after_push m val)
      else if ltb_ℤ d (pos 0)
      then some (false, m)
      else again

  -- What the call writes to its argument, if it returns true.
  unfoldable pub try_pop : (fuel : ℕ) → Mem A → Option (Option A × Mem A)
  try_pop zero m = none
  try_pop (suc fuel) m =
      let again = try_pop fuel m in
      let d = pop_diff k m m.tail in
      if is_zero d
      then some (some (m.cells (slot k m.tail)), after_pop m)
      else if ltb_ℤ d (pos 0)
      then some (none, m)
      else again
