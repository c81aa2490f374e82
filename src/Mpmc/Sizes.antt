-- ===== src/Mpmc/Sizes.antt =====
-- `size` of include/chronos/utils/mpmc_queue.hpp while other threads go on between its two loads.
use trading_engine.Base.{ℕ, ◌+◌, ◌^◌, ◌≤◌, ◌<◌, ◌≡◌, arith}
use trading_engine.Mpmc
use trading_engine.Mpmc.{Mem, Pc, Move, capacity, size_of}
use trading_engine.Mpmc.System.{System, Step, pick, Reach, start, later, start_of}
use trading_engine.Mpmc.Reachable.{Reach-Inv}

module _ {A : Type 0} (k : ℕ) where
  -- The execution goes on from one state to another.
  pub data Onward (s : System A) : System A → Type 0 where
    here : Onward s s
    onward :
        {t u : System A} → Onward s t → t.mem.head + capacity k < 2 ^ 63 → Step k t u → Onward s u

  Onward-Reach : {junk : ℕ → A} {s t : System A} → Reach k junk s → Onward s t → Reach k junk t
  Onward-Reach r here = r
  Onward-Reach r (onward on small step) = later (Onward-Reach r on) small step

  -- Every execution goes on from the construction.
  pub Reach-Onward : {junk : ℕ → A} {s : System A} → Reach k junk s → Onward (start_of k junk) s
  Reach-Onward start = here
  Reach-Onward (later r small step) = onward (Reach-Onward r) small step

  module _ (two : 2 ≤ capacity k) where
    tail_Move :
        {m m' : Mem A} {p p' : Pc A}
        → m.tail ≤ m.head
        → m.head + capacity k < 2 ^ 63
        → Move k m p m' p'
        → m.tail ≤ m'.tail
    tail_Move order small (Mpmc.pop_win e) = omega (arith, e)
    tail_Move order small (Mpmc.call_push v) = omega arith
    tail_Move order small _ = omega arith

    tail_Onward :
        {junk : ℕ → A} {s t : System A} → Reach k junk s → Onward s t → s.mem.tail ≤ t.mem.tail
    tail_Onward r here = omega arith
    tail_Onward r (onward {t = t} on small (pick i mv)) =
        let inv = Reach-Inv k two (Onward-Reach r on) in
        omega (arith, tail_Onward r on, tail_Move inv.order small mv)

    -- For N a power of two, at least 2, and two states of one execution, the second not before the
    -- first and both with head tickets below 2 ^ 63: if `size` loads the head in the first and the
    -- tail in the second, then its answer is the head less the tail, at most N, if the tail has not
    -- passed that head, and else it is above 2 ^ 63.
    pub racing_size :
        {junk : ℕ → A} {s t : System A}
        → Reach k junk s
        → Onward s t
        → s.mem.head < 2 ^ 63
        → t.mem.head < 2 ^ 63
        → (t.mem.tail ≤ s.mem.head
            → (size_of s.mem.head t.mem.tail + t.mem.tail ≡ s.mem.head)
              × (size_of s.mem.head t.mem.tail ≤ capacity k))
          × (s.mem.head < t.mem.tail → 2 ^ 63 < size_of s.mem.head t.mem.tail)
    unfolding size_of
    racing_size r on small later_small =
        let inv = Reach-Inv k two r in
        let order = inv.order in
        let room = inv.room in
        let inv' = Reach-Inv k two (Onward-Reach r on) in
        let order' = inv'.order in
        let tails = tail_Onward r on in
        (λ behind. (omega arith, omega arith), λ passed. omega arith)
