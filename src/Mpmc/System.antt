-- ===== src/Mpmc/System.antt =====
-- Any number of threads that push and pop on one queue, interleaved in any order.
use trading_engine.Base.{ℕ, ◌+◌, ◌^◌, ◌<◌, update}
use trading_engine.Mpmc.{Mem, Pc, init, idle, push_copy, Move, capacity}

-- `values t` is the value that the push with ticket t has claimed its slot for. No thread reads it:
-- it is the record of the order in which the pushes took their tickets.
pub record System (A : Type 0) : Type 0 where
  pub mem : Mem A
  pub pc : ℕ → Pc A
  pub values : ℕ → A

-- A thread comes to the copy in `try_push` exactly by winning the compare-exchange on `head_`.
abbrev pub claim : {A : Type 0} → Pc A → (ℕ → A) → ℕ → A
claim (push_copy val ticket) h = update h ticket val
claim _ h = h

module _ {A : Type 0} (k : ℕ) where
  pub data Step (s : System A) : System A → Type 0 where
    pick :
        (i : ℕ) {m : Mem A} {p : Pc A}
        → Move k s.mem (s.pc i) m p
        → Step s (record { mem = m; pc = update s.pc i p; values = claim p s.values })

  abbrev pub start_of : (ℕ → A) → System A
  start_of junk = record { mem = init junk; pc = λ _. idle; values = junk }

  -- Executions in which no ticket comes near 2 ^ 63: at a billion pushes a second, for centuries.
  pub data Reach (junk : ℕ → A) : System A → Type 0 where
    start : Reach junk (start_of junk)
    later :
        {s t : System A} → Reach junk s → s.mem.head + capacity k < 2 ^ 63 → Step s t → Reach junk t
