-- ===== src/Mpmc/Progress/Contended.antt =====
-- Calls of `try_push` and `try_pop` of include/chronos/utils/mpmc_queue.hpp while other threads go on: a
-- round of the loop is made again only if another thread has taken the ticket.
use trading_engine.Base.{
  ℕ, suc, ◌+◌, ◌*◌, ◌^◌, ◌≤◌, ◌<◌, ◌≢◌, ◌⊎◌, Bool, true, false, arith, update, update_self,
  update_ne, if◌then◌else◌,
}
use trading_engine.Mpmc
use trading_engine.Mpmc.{
  Mem, Pc, Move, capacity, IsPositive, push_diff, pop_diff, idle, push_load, push_top, push_cas,
  push_copy, push_store, pushed, pop_load, pop_top, pop_cas, pop_copy, pop_store, popped,
}
use trading_engine.Mpmc.System.{System, claim, pick, Reach, later}
use trading_engine.Mpmc.Reachable.{Reach-Inv}
use trading_engine.Mpmc.Progress.{IsStrong, IsBack, Access}
use trading_engine.Mpmc.Progress.Rank.{rank, rank-le, own_rank, goes_on}
use trading_engine.Mpmc.Progress.Alone.{on_time}

module _ {A : Type 0} (k : ℕ) where
  abbrev pub is_popping : Pc A → Bool
  is_popping pop_load = true
  is_popping (pop_top _) = true
  is_popping (pop_cas _) = true
  is_popping (pop_copy _) = true
  is_popping (pop_store _ _) = true
  is_popping _ = false

  -- 1 for a move that takes a ticket of the kind that a thread at p wants.
  unfoldable pub takes : Pc A → {m m' : Mem A} {q q' : Pc A} → Move k m q m' q' → ℕ
  takes p (Mpmc.push_win _) = if is_popping p then 0 else 1
  takes p (Mpmc.pop_win _) = if is_popping p then 1 else 0
  takes p _ = 0

  -- From s on, thread i has made n accesses of one call, and the others any of theirs; by these
  -- they have taken `rivals` tickets that the call might have taken.
  pub data Ongoing (i : ℕ) (s : System A) : (n rivals : ℕ) → System A → Type 0 where
    begun : Ongoing i s 0 0 s
    own :
        {n rivals : ℕ} {t : System A} {m : Mem A} {p : Pc A}
        → Ongoing i s n rivals t
        → t.mem.head + capacity k < 2 ^ 63
        → ¬ IsBack (t.pc i)
        → (step : Move k t.mem (t.pc i) m p) → IsStrong step
        → Ongoing i s
            (suc n)
            rivals
            (record { mem = m; pc = update t.pc i p; values = claim p t.values })
    other :
        {n rivals : ℕ} {t : System A} {m : Mem A} {p : Pc A} (j : ℕ)
        → j ≢ i
        → Ongoing i s n rivals t
        → t.mem.head + capacity k < 2 ^ 63
        → (step : Move k t.mem (t.pc j) m p)
        → Ongoing i s n
            (rivals + takes (t.pc i) step)
            (record { mem = m; pc = update t.pc j p; values = claim p t.values })

  other_rank :
      {m m' : Mem A} {q q' : Pc A} (p : Pc A) (step : Move k m q m' q')
      → rank k m' p ≤ rank k m p + 2 * takes p step
  unfolding takes
  other_rank p (Mpmc.push_win {ticket = t} e) = ground arith
  other_rank p (Mpmc.pop_win {ticket = t} e) = ground arith
  other_rank p step = ground arith

  -- The bound holds with what is still to do, and the state can be reached.
  Ongoing-rank :
      2 ≤ capacity k
      → {junk : ℕ → A} {i : ℕ} {s : System A} → Reach k junk s
      → {n rivals : ℕ} {t : System A} → Ongoing i s n rivals t
      → Reach k junk t × (n + rank k t.mem (t.pc i) ≤ rank k s.mem (s.pc i) + 2 * rivals)
  Ongoing-rank two r begun = (r, omega arith)
  Ongoing-rank two {i = i} r (own {n = n} {t = t} {m = m} {p = p} before small back step strong) =
      let (at, bound) = Ongoing-rank two r before in
      let inv = Reach-Inv k two at in
      let less = own_rank k (on_time k two small inv (t.pc i)) back step strong in
      (later at small (pick i step), rw (update_self t.pc i p) (omega arith))
  Ongoing-rank two {i = i} r (other {t = t} {p = p} j ne before small step) =
      let (at, bound) = Ongoing-rank two r before in
      (
        later at small (pick j step),
        rw (update_ne t.pc j i p ne) (omega (arith, other_rank (t.pc i) step)),
      )

  -- For N a power of two, at least 2, from any reachable state on, while threads interleave in any
  -- way with the head ticket and N below 2 ^ 63 together, and a thread stays in one call whose
  -- compare-exchanges fail only if they find another value: the accesses that it makes are at most
  -- six and two for each ticket that other threads take meanwhile, by pops if it is in a pop and
  -- else by pushes; and unless it has returned it has a next access to make.
  pub ongoing-Ends :
      2 ≤ capacity k
      → {junk : ℕ → A} {i : ℕ} {s : System A} → Reach k junk s
      → {n rivals : ℕ} {t : System A} → Ongoing i s n rivals t
      → (n ≤ 6 + 2 * rivals) × (IsBack (t.pc i) ⊎ Access k t.mem (t.pc i))
  ongoing-Ends two {i = i} {s = s} r {t = t} h =
      (omega (arith, rank-le k s.mem (s.pc i), (Ongoing-rank two r h).1), goes_on k t.mem (t.pc i))
