-- ===== src/Mpmc/Schedule.antt =====
-- Reachable states of the queue by evaluation: threads make their steps in a given order. A thread
-- that is idle begins the call that the schedule names, and a compare-exchange that can win does.
use mathlib.Core.Logic.{dite}
use trading_engine.Base.{ℕ, zero, suc, ◌+◌, ◌^◌, ◌⊎◌, inl, inr, refl, dec_lt, ℕ_discrete, arith}
use trading_engine.Base.Int.{ℤ, pos, negsuc, ◌-ℤ◌}
use trading_engine.Mpmc
use trading_engine.Mpmc.{
  Mem, Pc, Move, capacity, slot, diff, IsZero, IsNegative, IsPositive, push_diff, pop_diff, idle,
  push_load, push_top, push_cas, push_copy, push_store, pushed, pop_load, pop_top, pop_cas,
  pop_copy, pop_store, popped,
}
use trading_engine.Mpmc.System.{System, pick, Reach, start, later}

pub data Call (A : Type 0) : Type 0 where
  push : A → Call A
  pop : Call A

pub sign_of : (d : ℤ) → IsZero d ⊎ (IsNegative d ⊎ IsPositive d)
sign_of (pos zero) = inl refl
sign_of (pos (suc n)) = inr (inr (ground arith))
sign_of (negsuc n) = inr (inl (ground arith))

module _ {A : Type 0} (k : ℕ) where
  abbrev Next : Mem A → Pc A → Type 0
  Next m p = (m' : Mem A) × (p' : Pc A) × Move k m p m' p'

  after_load_push : (m : Mem A) (v : A) (t : ℕ) → Next m (push_top v t)
  unfolding sign_of
  after_load_push m v t = elim (sign_of (push_diff k m t)) [
    | inl z ↦ (_, _, Mpmc.push_free z)
    | inr (inl z) ↦ (_, _, Mpmc.push_full z)
    | inr (inr z) ↦ (_, _, Mpmc.push_late z)
  ]

  after_load_pop : (m : Mem A) (t : ℕ) → Next m (pop_top t)
  unfolding sign_of
  after_load_pop m t = elim (sign_of (pop_diff k m t)) [
    | inl z ↦ (_, _, Mpmc.pop_ready z)
    | inr (inl z) ↦ (_, _, Mpmc.pop_empty z)
    | inr (inr z) ↦ (_, _, Mpmc.pop_late z)
  ]

  begin : (m : Mem A) → Call A → Next m idle
  begin m (push v) = (_, _, Mpmc.call_push v)
  begin m pop = (_, _, Mpmc.call_pop)

  next_move : (m : Mem A) (c : Call A) (p : Pc A) → Next m p
  unfolding begin after_load_push after_load_pop ℕ_discrete
  next_move m c idle = begin m c
  next_move m c (push_load v) = (_, _, Mpmc.load_head)
  next_move m c (push_top v t) = after_load_push m v t
  next_move m c (push_cas v t) =
      dite (ℕ_discrete m.head t) (λ e. (_, _, Mpmc.push_win e)) (λ e. (_, _, Mpmc.push_lose))
  next_move m c (push_copy v t) = (_, _, Mpmc.push_write)
  next_move m c (push_store v t) = (_, _, Mpmc.push_publish)
  next_move m c (pushed r) = (_, _, Mpmc.push_return)
  next_move m c pop_load = (_, _, Mpmc.load_tail)
  next_move m c (pop_top t) = after_load_pop m t
  next_move m c (pop_cas t) =
      dite (ℕ_discrete m.tail t) (λ e. (_, _, Mpmc.pop_win e)) (λ e. (_, _, Mpmc.pop_lose))
  next_move m c (pop_copy t) = (_, _, Mpmc.pop_read)
  next_move m c (pop_store t v) = (_, _, Mpmc.pop_release)
  next_move m c (popped r) = (_, _, Mpmc.pop_return)

  pub record Run (junk : ℕ → A) : Type 0 where
    pub last : System A
    pub open last use *
    pub reach : Reach k junk last

  turn : {junk : ℕ → A} → Run junk → ℕ → Call A → Run junk
  unfolding next_move dec_lt
  turn r i c = elim (dec_lt (r.mem.head + capacity k) (2 ^ 63)) [
    | yes small ↦ record {
      last = _;
      reach = later r.reach small (pick i (next_move r.mem c (r.pc i)).2);
    }
    | no _ ↦ r
  ]

  -- n steps of thread i.
  unfoldable pub turns : {junk : ℕ → A} → ℕ → ℕ → Call A → Run junk → Run junk
  unfolding turn diff slot ◌-ℤ◌
  turns zero i c r = r
  turns (suc n) i c r = turns n i c (turn r i c)

  unfoldable pub fresh : (junk : ℕ → A) → Run junk
  fresh junk = record { last = _; reach = start }
