-- ===== src/Mpmc/Progress/Alone.antt =====
-- `try_push` and `try_pop` of include/chronos/utils/mpmc_queue.hpp from any state that threads can
-- bring the queue to.
use trading_engine.Base.{ℕ, ◌+◌, ◌^◌, ◌≤◌, ◌<◌, arith}
use trading_engine.Mpmc.{
  Mem, Pc, capacity, wrap, IsPositive, push_diff, pop_diff, idle, push_copy, push_store, pushed,
  pop_copy, pop_store, popped,
}
use trading_engine.Mpmc.System.{System, Reach}
use trading_engine.Mpmc.Slots.{slot_apart, diff_positive}
use trading_engine.Mpmc.Invariant.{Inv, empty_slot, full_slot}
use trading_engine.Mpmc.Invariant.Moves.{seq_small}
use trading_engine.Mpmc.Reachable.{Reach-Inv}
use trading_engine.Mpmc.Safety.{bounds}
use trading_engine.Mpmc.Progress.{Ends}
use trading_engine.Mpmc.Progress.Rank.{OnTime, rank-le, rank-Ends}

module _ {A : Type 0} (k : ℕ) where
  push_on_time :
      {m : Mem A} {pc : ℕ → Pc A} {values : ℕ → A}
      → 2 ≤ capacity k
      → m.head + capacity k < 2 ^ 63
      → Inv k m pc values
      → ¬ IsPositive (push_diff k m m.head)
  push_on_time {m = m} {values = f} two small inv late =
      let room = inv.room in
      let ahead =
        diff_positive _ m.head (seq_small k m f (bounds k two small inv) m.head) (omega arith)
          late in
      elim (inv.slots m.head) [
        | empty_slot u d e lo hi ↦ omega (arith, slot_apart k m.head u)
        | full_slot u d e lo hi c ↦ omega (arith, slot_apart k u m.head d)
      ]

  pop_on_time :
      {m : Mem A} {pc : ℕ → Pc A} {values : ℕ → A}
      → 2 ≤ capacity k
      → m.head + capacity k < 2 ^ 63
      → Inv k m pc values
      → ¬ IsPositive (pop_diff k m m.tail)
  pop_on_time {m = m} {values = f} two small inv late =
      let room = inv.room in
      let order = inv.order in
      let ahead =
        diff_positive _ (wrap (m.tail + 1)) (seq_small k m f (bounds k two small inv) m.tail)
          (omega arith) late in
      elim (inv.slots m.tail) [
        | empty_slot u d e lo hi ↦ omega (arith, slot_apart k m.tail u)
        | full_slot u d e lo hi c ↦ omega (arith, slot_apart k m.tail u)
      ]

  pub on_time :
      {m : Mem A} {pc : ℕ → Pc A} {values : ℕ → A}
      → 2 ≤ capacity k
      → m.head + capacity k < 2 ^ 63
      → Inv k m pc values
      → (p : Pc A) → OnTime k m p
  on_time two small inv (push_copy v t) = tt
  on_time two small inv (push_store v t) = tt
  on_time two small inv (pushed result) = tt
  on_time two small inv (pop_copy t) = tt
  on_time two small inv (pop_store t v) = tt
  on_time two small inv (popped result) = tt
  on_time two small inv idle = (push_on_time two small inv, pop_on_time two small inv)
  on_time two small inv _ = (push_on_time two small inv, pop_on_time two small inv)

  -- For N a power of two, at least 2, in every reachable state with the head ticket and N below 2 ^
  -- 63 together: a thread that runs alone from there on, and whose compare-exchanges fail only if
  -- they find another value, has a next access until it has returned from its call, and has
  -- returned after at most six, whatever the other threads stopped at.
  alone-Ends :
      2 ≤ capacity k
      → {junk : ℕ → A} {s : System A} → Reach k junk s
      → s.mem.head + capacity k < 2 ^ 63
      → (i : ℕ) → Ends k 6 s.mem (s.pc i)
  alone-Ends two {s = s} r small i =
      rank-Ends k 6 s.mem (s.pc i) (rank-le k s.mem (s.pc i))
        (on_time two small (Reach-Inv k two r) (s.pc i))
