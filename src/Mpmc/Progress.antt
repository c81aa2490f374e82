-- ===== src/Mpmc/Progress.antt =====
-- Calls of include/chronos/utils/mpmc_queue.hpp that are under way: by a thread that runs alone from some
-- moment on, and by one that runs among others.
mod Rank
pub mod Alone
pub mod Contended
use trading_engine.Base.{
  ℕ, zero, suc, ◌+◌, ◌^◌, ◌≤◌, ◌<◌, ◌≡◌, ◌≢◌, ◌⊎◌, inl, inr, refl, sym, ap, arith, ℕ_discrete, Bool,
  Option,
}
use mathlib.Core.Path.{subst}
use trading_engine.Mpmc
use trading_engine.Mpmc.{
  Mem, Pc, Move, capacity, slot, diff, wrap, IsZero, IsNegative, IsPositive, push_diff, pop_diff,
  idle, push_load, push_top, push_cas, push_copy, push_store, pushed, pop_load, pop_top, pop_cas,
  pop_copy, pop_store, popped, push_lose, pop_lose,
}
use trading_engine.Mpmc.System.{System, Reach}
use trading_engine.Mpmc.Slots.{slot_apart, diff_positive}
use trading_engine.Mpmc.Invariant.{Inv, SlotState, empty_slot, full_slot}
use trading_engine.Mpmc.Invariant.Moves.{Bounds, seq_small}
use trading_engine.Mpmc.Reachable.{Reach-Inv}
use trading_engine.Mpmc.Safety.{bounds}
use trading_engine.Mpmc.Schedule.{sign_of}

-- A compare-exchange that fails has found another value than the one it expects.
unfoldable pub IsStrong :
    {A : Type 0} {k : ℕ} {m m' : Mem A} {p p' : Pc A} → Move k m p m' p' → Type 0
IsStrong {m = m} (push_lose {ticket = t}) = m.head ≢ t
IsStrong {m = m} (pop_lose {ticket = t}) = m.tail ≢ t
IsStrong _ = Unit

-- The thread is in no call.
abbrev pub IsBack : {A : Type 0} → Pc A → Type 0
IsBack idle = Unit
IsBack (pushed _) = Unit
IsBack (popped _) = Unit
IsBack _ = ⊥

pub IsBack-dec : {A : Type 0} (p : Pc A) → Dec (IsBack p)
IsBack-dec idle = yes tt
IsBack-dec (pushed _) = yes tt
IsBack-dec (popped _) = yes tt
IsBack-dec (push_load _) = no (λ h. h)
IsBack-dec _ = no (λ h. h)

module _ {A : Type 0} (k : ℕ) where
  -- An access that the thread has to make.
  abbrev pub Access : Mem A → Pc A → Type 0
  Access m p = (m' : Mem A) × (p' : Pc A) × (step : Move k m p m' p') × IsStrong step

  -- Alone, the thread returns after at most n moves: until then it always has one, whichever it
  -- makes.
  abbrev pub Ends : ℕ → Mem A → Pc A → Type 0
  Ends zero m p = IsBack p
  Ends (suc n) m p =
      IsBack p
      ⊎ (Access m p
          × ((m' : Mem A) (p' : Pc A) (step : Move k m p m' p') → IsStrong step → Ends n m' p'))
