-- ===== src/Mpmc/Progress/Rank.antt =====
-- A call of include/chronos/utils/mpmc_queue.hpp that is under way: that its thread has an access to make, and
-- how many are left if no other thread takes a ticket.
use trading_engine.Base.{
  ℕ, zero, suc, ◌≤◌, ◌⊎◌, inl, inr, sym, arith, ◌==◌, if◌then◌else◌, ℕ_discrete,
}
use mathlib.Core.Path.{subst}
use trading_engine.Mpmc
use trading_engine.Mpmc.{
  Mem, Pc, Move, IsPositive, push_diff, pop_diff, idle, push_load, push_top, push_cas, push_copy,
  push_store, pushed, pop_load, pop_top, pop_cas, pop_copy, pop_store, popped,
}
use trading_engine.Mpmc.Schedule.{sign_of}
use trading_engine.Mpmc.Progress.{IsStrong, IsBack, IsBack-dec, Ends, Access}

module _ {A : Type 0} (k : ℕ) where
  -- The thread is back, or it has an access to make.
  pub goes_on : (m : Mem A) (p : Pc A) → IsBack p ⊎ Access k m p
  unfolding IsStrong
  goes_on m idle = inl tt
  goes_on m (push_load v) = inr (_, _, Mpmc.load_head, tt)
  goes_on m (push_top v t) = inr (elim (sign_of (push_diff k m t)) [
    | inl z ↦ (_, _, Mpmc.push_free z, tt)
    | inr (inl z) ↦ (_, _, Mpmc.push_full z, tt)
    | inr (inr z) ↦ (_, _, Mpmc.push_late z, tt)
  ])
  goes_on m (push_cas v t) = inr (elim (ℕ_discrete m.head t) [
    | yes e ↦ (_, _, Mpmc.push_win e, tt)
    | no e ↦ (_, _, Mpmc.push_lose, e)
  ])
  goes_on m (push_copy v t) = inr (_, _, Mpmc.push_write, tt)
  goes_on m (push_store v t) = inr (_, _, Mpmc.push_publish, tt)
  goes_on m (pushed result) = inl tt
  goes_on m pop_load = inr (_, _, Mpmc.load_tail, tt)
  goes_on m (pop_top t) = inr (elim (sign_of (pop_diff k m t)) [
    | inl z ↦ (_, _, Mpmc.pop_ready z, tt)
    | inr (inl z) ↦ (_, _, Mpmc.pop_empty z, tt)
    | inr (inr z) ↦ (_, _, Mpmc.pop_late z, tt)
  ])
  goes_on m (pop_cas t) = inr (elim (ℕ_discrete m.tail t) [
    | yes e ↦ (_, _, Mpmc.pop_win e, tt)
    | no e ↦ (_, _, Mpmc.pop_lose, e)
  ])
  goes_on m (pop_copy t) = inr (_, _, Mpmc.pop_read, tt)
  goes_on m (pop_store t v) = inr (_, _, Mpmc.pop_release, tt)
  goes_on m (popped result) = inl tt

  -- The accesses that a thread still has to make if no other takes a ticket.
  abbrev pub rank : Mem A → Pc A → ℕ
  rank m (push_load v) = 5
  rank m (push_top v t) = if m.head == t then 4 else 6
  rank m (push_cas v t) = if m.head == t then 3 else 5
  rank m (push_copy v t) = 2
  rank m (push_store v t) = 1
  rank m pop_load = 5
  rank m (pop_top t) = if m.tail == t then 4 else 6
  rank m (pop_cas t) = if m.tail == t then 3 else 5
  rank m (pop_copy t) = 2
  rank m (pop_store t v) = 1
  rank m _ = 0

  pub rank-le : (m : Mem A) (p : Pc A) → rank m p ≤ 6
  rank-le m (push_load v) = omega arith
  rank-le m p = ground arith

  -- No push is late on the ticket that the next push takes, and no pop on that of the next pop. After
  -- its compare-exchange a thread needs this no more.
  abbrev pub OnTime : Mem A → Pc A → Type 0
  OnTime m (push_copy v t) = Unit
  OnTime m (push_store v t) = Unit
  OnTime m (pushed result) = Unit
  OnTime m (pop_copy t) = Unit
  OnTime m (pop_store t v) = Unit
  OnTime m (popped result) = Unit
  OnTime m _ = (¬ IsPositive (push_diff k m m.head)) × (¬ IsPositive (pop_diff k m m.tail))

  -- An access leaves fewer of them.
  pub own_rank :
      {m m' : Mem A} {p p' : Pc A}
      → OnTime m p
      → ¬ IsBack p
      → (step : Move k m p m' p') → IsStrong step
      → suc (rank m' p') ≤ rank m p
  unfolding IsStrong
  own_rank {m} h back (Mpmc.push_late {ticket = t} late) strong = elim (ℕ_discrete m.head t) [
    | yes e ↦ absurd (h.0 (subst (λ t. IsPositive (push_diff k m t)) (sym e) late))
    | no e ↦ ground arith
  ]
  own_rank {m} h back (Mpmc.pop_late {ticket = t} late) strong = elim (ℕ_discrete m.tail t) [
    | yes e ↦ absurd (h.1 (subst (λ t. IsPositive (pop_diff k m t)) (sym e) late))
    | no e ↦ ground arith
  ]
  own_rank h back (Mpmc.push_lose {ticket = t}) strong = ground arith
  own_rank h back (Mpmc.pop_lose {ticket = t}) strong = ground arith
  own_rank h back step strong = ground arith

  own_OnTime :
      {m m' : Mem A} {p p' : Pc A} → OnTime m p → ¬ IsBack p → Move k m p m' p' → OnTime m' p'
  own_OnTime h back (Mpmc.call_push v) = absurd (back tt)
  own_OnTime h back Mpmc.call_pop = absurd (back tt)
  own_OnTime h back Mpmc.push_return = absurd (back tt)
  own_OnTime h back Mpmc.pop_return = absurd (back tt)
  own_OnTime h back (Mpmc.push_win e) = tt
  own_OnTime h back Mpmc.push_write = tt
  own_OnTime h back Mpmc.push_publish = tt
  own_OnTime h back (Mpmc.push_full z) = tt
  own_OnTime h back (Mpmc.pop_win e) = tt
  own_OnTime h back Mpmc.pop_read = tt
  own_OnTime h back Mpmc.pop_release = tt
  own_OnTime h back (Mpmc.pop_empty z) = tt
  own_OnTime h back _ = h

  rank_zero : (m : Mem A) (p : Pc A) → rank m p ≤ 0 → IsBack p
  rank_zero m (push_top v t) le = absurd (ground arith)
  rank_zero m (push_cas v t) le = absurd (ground arith)
  rank_zero m (pop_top t) le = absurd (ground arith)
  rank_zero m (pop_cas t) le = absurd (ground arith)
  rank_zero m (pushed result) le = tt
  rank_zero m p le = ground arith

  pub rank-Ends : (n : ℕ) (m : Mem A) (p : Pc A) → rank m p ≤ n → OnTime m p → Ends k n m p
  rank-Ends zero m p le h = rank_zero m p le
  rank-Ends (suc n) m p le h = elim (IsBack-dec p) [
    | yes back ↦ inl back
    | no under_way ↦ elim (goes_on m p) [
      | inl back ↦ inl back
      | inr some_step ↦ inr (
        some_step,
        λ m' p' step strong.
            rank-Ends n m' p' (omega (arith, own_rank h under_way step strong))
              (own_OnTime h under_way step),
      )
    ]
  ]
