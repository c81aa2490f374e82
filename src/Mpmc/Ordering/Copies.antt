-- ===== src/Mpmc/Ordering/Copies.antt =====
-- All copies of a cell of the queue are ordered by acquire and release.
use trading_engine.Base.{
  ℕ, ◌+◌, ◌^◌, ◌≤◌, ◌<◌, ◌≡◌, ◌≢◌, refl, sym, some, true, arith, ℕ_discrete, update, update_self,
  update_ne,
}
use mathlib.Core.Path.{subst}
use trading_engine.Mpmc
use trading_engine.Mpmc.{Mem, Pc, Move, capacity, slot, push_copy, pop_copy}
use trading_engine.Mpmc.System.{System, pick, Reach, start, later}
use trading_engine.Mpmc.Invariant.{Inv}
use trading_engine.Mpmc.Invariant.Moves.{Bounds}
use trading_engine.Mpmc.Reachable.{Reach-Inv}
use trading_engine.Mpmc.Safety.{accesses, bounds}
use trading_engine.Mpmc.Ordering.{View, Views, acquire, release, copy, effect_on_views, views_of}
use trading_engine.Mpmc.Ordering.Moves.{Covers, AllSent, Holds, Move-Holds_self, Move-Holds_other}
use trading_engine.Mpmc.Ordering.Sent.{Move-AllSent}

module _ {A : Type 0} (k : ℕ) (two : 2 ≤ capacity k) where
  -- A step changes what happens before the accesses of its own thread only.
  held_other :
      {m m' : Mem A} {p p' : Pc A} (mv : Move k m p m' p') (i j : ℕ) (v : Views)
      → i ≢ j
      → v.held j ≡ (effect_on_views k mv i v).held j
  unfolding acquire release copy
  held_other (Mpmc.push_free {ticket = t} z) i j v ne = sym (update_ne v.held i j _ ne)
  held_other (Mpmc.push_full {ticket = t} z) i j v ne = sym (update_ne v.held i j _ ne)
  held_other (Mpmc.push_late {ticket = t} z) i j v ne = sym (update_ne v.held i j _ ne)
  held_other (Mpmc.push_write {ticket = t}) i j v ne = sym (update_ne v.held i j _ ne)
  held_other (Mpmc.push_publish {ticket = t}) i j v ne = refl
  held_other (Mpmc.pop_ready {ticket = t} z) i j v ne = sym (update_ne v.held i j _ ne)
  held_other (Mpmc.pop_empty {ticket = t} z) i j v ne = sym (update_ne v.held i j _ ne)
  held_other (Mpmc.pop_late {ticket = t} z) i j v ne = sym (update_ne v.held i j _ ne)
  held_other (Mpmc.pop_read {ticket = t}) i j v ne = sym (update_ne v.held i j _ ne)
  held_other (Mpmc.pop_release {ticket = t}) i j v ne = refl
  held_other _ i j v ne = refl

  record Ordered (m : Mem A) (pc : ℕ → Pc A) (v : Views) : Type 0 where
    sent : AllSent k m v
    holds : (i : ℕ) → Holds k m (pc i) (v.held i) v.copies

  Move-Ordered :
      {m m' : Mem A} {pc : ℕ → Pc A} {values : ℕ → A} {p : Pc A} (i : ℕ) (v : Views)
      → m.head + capacity k < 2 ^ 63
      → Inv k m pc values
      → (mv : Move k m (pc i) m' p) → Ordered m pc v
      → Ordered m' (update pc i p) (effect_on_views k mv i v)
  Move-Ordered {m} {m'} {pc} {values} {p} i v small inv mv o = record {
    sent = Move-AllSent k m values known mv i v (inv.knows i) (o.holds i) o.sent;
    holds = λ j. held_by j;
  }
    where
      known : Bounds k m values
      known = bounds k two small inv

      held_by :
          (j : ℕ)
          → Holds k m'
              (update pc i p j)
              ((effect_on_views k mv i v).held j)
              (effect_on_views k mv i v).copies
      held_by j = elim (ℕ_discrete i j) [
        | yes same ↦
            subst
              (λ t.
                Holds k m' (update pc i p t) ((effect_on_views k mv i v).held t)
                  (effect_on_views k mv i v).copies)
              same
              (rw (update_self pc i p)
                (Move-Holds_self k m values known mv i v (inv.knows i) o.sent (o.holds i)))
        | no other ↦ rw (update_ne pc i j p other) (
            subst (λ w. Holds k m' (pc j) w (effect_on_views k mv i v).copies)
              (held_other mv i j v other)
              (Move-Holds_other k m values known mv i v (pc j) (v.held j) (inv.knows i)
                (inv.knows j)
                (
                  λ t w w'. other (inv.one_writer i j t w w'),
                  λ t r r'. other (inv.one_reader i j t r r'),
                )
                (o.holds j)))
      ]

  Reach-Ordered :
      {junk : ℕ → A} {s : System A} (r : Reach k junk s) → Ordered s.mem s.pc (views_of k r)
  unfolding views_of
  Reach-Ordered start = record {
    sent = λ t waits n lt. absurd (omega (arith, lt));
    holds = λ i. tt;
  }
  Reach-Ordered (later r small (pick i mv)) =
      Move-Ordered i (views_of k r) small (Reach-Inv k two r) mv (Reach-Ordered r)

  Holds-accesses :
      (m : Mem A) (p : Pc A) (w : View) (copies : ℕ → ℕ) (c : ℕ)
      → Holds k m p w copies
      → accesses k p ≡ some c
      → Covers w c (copies c)
  Holds-accesses m (push_copy _ t) w copies c h e =
      subst (λ x. Covers w x (copies x)) (ground arith) h
  Holds-accesses m (pop_copy t) w copies c h e = subst (λ x. Covers w x (copies x)) (ground arith) h
  Holds-accesses m _ w copies c h e = cc

  -- For N a power of two, at least 2, in every execution while tickets are far below 2 ^ 63: when a
  -- thread stands before a copy into or out of a cell, all copies of that cell so far happen before
  -- it, by the order of each thread's accesses and by loads of sequence numbers with acquire that
  -- read what stores with release wrote. The accesses of head and tail are not needed for it.
  pub copies_ordered :
      {junk : ℕ → A} {s : System A} (r : Reach k junk s) (i c : ℕ)
      → accesses k (s.pc i) ≡ some c
      → (n : ℕ) → n < (views_of k r).copies c
      → (views_of k r).held i c n ≡ true
  copies_ordered {s = s} r i c e =
      let o = Reach-Ordered r in
      Holds-accesses s.mem (s.pc i) ((views_of k r).held i) (views_of k r).copies c (o.holds i) e
