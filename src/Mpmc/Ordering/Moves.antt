-- ===== src/Mpmc/Ordering/Moves.antt =====
-- What happens before the next access of a thread: a step of the queue keeps it.
use mathlib.Core.Path.{subst}
use trading_engine.Base.{
  ℕ, ◌+◌, ◌≤◌, ◌<◌, ◌≡◌, ◌⊎◌, inl, inr, refl, sym, ap, true, arith, ℕ_discrete, update, update_self,
  update_ne,
}
use trading_engine.Mpmc
use trading_engine.Mpmc.{
  Mem, Pc, capacity, slot, push_cas, push_copy, push_store, pop_cas, pop_copy, pop_store, Move,
}
use trading_engine.Mpmc.Slots.{slot_apart, diff_zero}
use trading_engine.Mpmc.Invariant.{Knows}
use trading_engine.Mpmc.Invariant.Moves.{Bounds, Apart, seq_small, ready_eq}
use trading_engine.Mpmc.Ordering.{
  View, Views, join, with_copy, acquire, release, copy, effect_on_views,
}

-- All copies of a cell so far.
abbrev pub Covers : View → ℕ → ℕ → Type 0
Covers w cell count = (n : ℕ) → n < count → w cell n ≡ true

Covers-join : (v w : View) (cell count : ℕ) → Covers w cell count → Covers (join v w) cell count
Covers-join v w cell count h n lt = let e = h n lt in ground arith

Covers-with_copy :
    (w : View) (cell count : ℕ)
    → Covers w cell count
    → Covers (with_copy w cell count) cell (count + 1)
Covers-with_copy w cell count h n lt = elim (ℕ_discrete count n) [
  | yes last ↦ ground arith
  | no earlier ↦ let e = h n (omega arith) in ground arith
]

acquire-Covers :
    (v : Views) (i cell count : ℕ)
    → Covers (v.sent cell) cell count
    → Covers ((acquire i cell v).held i) cell count
unfolding acquire
acquire-Covers v i cell count h =
    rw (update_self v.held i (join (v.held i) (v.sent cell)))
      (Covers-join (v.held i) (v.sent cell) cell count h)

copy-Covers :
    (v : Views) (i cell : ℕ)
    → Covers (v.held i) cell (v.copies cell)
    → Covers ((copy i cell v).held i) cell ((copy i cell v).copies cell)
unfolding copy
copy-Covers v i cell h =
    rw
      (
        update_self v.held i (with_copy (v.held i) cell (v.copies cell)),
        update_self v.copies cell (v.copies cell + 1),
      )
      (Covers-with_copy (v.held i) cell (v.copies cell) h)

module _ {A : Type 0} (k : ℕ) (m : Mem A) where
  -- The cell waits for a ticket that no thread has taken yet.
  abbrev pub Waits : ℕ → Type 0
  Waits t = ((m.seq (slot k t) ≡ t) × (m.head ≤ t)) ⊎ ((m.seq (slot k t) ≡ t + 1) × (m.tail ≤ t))

  abbrev pub AllSent : Views → Type 0
  AllSent v = (t : ℕ) → Waits t → Covers (v.sent (slot k t)) (slot k t) (v.copies (slot k t))

  -- What happens before the next access of a thread that has, or can get, the ticket it looked at.
  abbrev pub Holds : Pc A → View → (ℕ → ℕ) → Type 0
  Holds (push_cas _ t) w copies = m.head ≤ t → Covers w (slot k t) (copies (slot k t))
  Holds (push_copy _ t) w copies = Covers w (slot k t) (copies (slot k t))
  Holds (push_store _ t) w copies = Covers w (slot k t) (copies (slot k t))
  Holds (pop_cas t) w copies = m.tail ≤ t → Covers w (slot k t) (copies (slot k t))
  Holds (pop_copy t) w copies = Covers w (slot k t) (copies (slot k t))
  Holds (pop_store t _) w copies = Covers w (slot k t) (copies (slot k t))
  Holds _ w copies = Unit

module _ {A : Type 0} (k : ℕ) (m : Mem A) (values : ℕ → A) (b : Bounds k m values) where
  pub Move-Holds_self :
      {p p' : Pc A} {m' : Mem A} (mv : Move k m p m' p') (i : ℕ) (v : Views)
      → Knows k m values p
      → AllSent k m v
      → Holds k m p (v.held i) v.copies
      → Holds k m' p' ((effect_on_views k mv i v).held i) (effect_on_views k mv i v).copies
  unfolding acquire release
  Move-Holds_self (Mpmc.push_free {ticket = t} z) i v know sent h = λ late.
      acquire-Covers v i (slot k t) (v.copies (slot k t)) (
        sent t
          (inl (diff_zero _ _ (seq_small k m values b t) (omega (arith, b.small, b.room)) z, late)))
  Move-Holds_self (Mpmc.push_win {ticket = t} e) i v know sent h = h (omega (arith, e))
  Move-Holds_self (Mpmc.push_write {ticket = t}) i v know sent h = copy-Covers v i (slot k t) h
  Move-Holds_self (Mpmc.pop_ready {ticket = t} z) i v know sent h = λ late.
      acquire-Covers v i (slot k t) (v.copies (slot k t))
        (sent t (inr (ready_eq k m values b t know z, late)))
  Move-Holds_self (Mpmc.pop_win {ticket = t} e) i v know sent h = h (omega (arith, e))
  Move-Holds_self (Mpmc.pop_read {ticket = t}) i v know sent h = copy-Covers v i (slot k t) h
  Move-Holds_self _ i v know sent h = tt

  -- The copies of the cell whose ticket a thread has, or can get, are no more than before.
  abbrev Kept : Pc A → (ℕ → ℕ) → (ℕ → ℕ) → Type 0
  Kept (push_cas _ t) old new = m.head ≤ t → new (slot k t) ≡ old (slot k t)
  Kept (push_copy _ t) old new = new (slot k t) ≡ old (slot k t)
  Kept (push_store _ t) old new = new (slot k t) ≡ old (slot k t)
  Kept (pop_cas t) old new = m.tail ≤ t → new (slot k t) ≡ old (slot k t)
  Kept (pop_copy t) old new = new (slot k t) ≡ old (slot k t)
  Kept (pop_store t _) old new = new (slot k t) ≡ old (slot k t)
  Kept _ old new = Unit

  Kept-same : (q : Pc A) (old : ℕ → ℕ) → Kept q old old
  Kept-same (push_cas _ t) old = λ late. refl
  Kept-same (push_copy _ t) old = refl
  Kept-same (push_store _ t) old = refl
  Kept-same (pop_cas t) old = λ late. refl
  Kept-same (pop_copy t) old = refl
  Kept-same (pop_store t _) old = refl
  Kept-same _ old = tt

  Holds-Kept :
      (m' : Mem A) (q : Pc A) (w : View) (old new : ℕ → ℕ)
      → m.head ≤ m'.head
      → m.tail ≤ m'.tail
      → Kept q old new
      → Holds k m q w old
      → Holds k m' q w new
  Holds-Kept m' (push_cas _ t) w old new hd tl same h =
      λ late. subst (Covers w (slot k t)) (sym (same (omega arith))) (h (omega arith))
  Holds-Kept m' (push_copy _ t) w old new hd tl same h = subst (Covers w (slot k t)) (sym same) h
  Holds-Kept m' (push_store _ t) w old new hd tl same h = subst (Covers w (slot k t)) (sym same) h
  Holds-Kept m' (pop_cas t) w old new hd tl same h =
      λ late. subst (Covers w (slot k t)) (sym (same (omega arith))) (h (omega arith))
  Holds-Kept m' (pop_copy t) w old new hd tl same h = subst (Covers w (slot k t)) (sym same) h
  Holds-Kept m' (pop_store t _) w old new hd tl same h = subst (Covers w (slot k t)) (sym same) h
  Holds-Kept m' _ w old new hd tl same h = tt

  -- No other thread has, or can get, a ticket of the cell that a thread copies.
  push_copy-Kept :
      (val : A) (u : ℕ) (q : Pc A) (old : ℕ → ℕ) (x : ℕ)
      → Knows k m values (push_copy val u)
      → Knows k m values q
      → Apart k m values b (push_copy val u) q
      → Kept q old (update old (slot k u) x)
  push_copy-Kept val u (push_cas _ t) old x know knows a =
      λ late. update_ne old (slot k u) (slot k t) x (λ e. ground (arith, ap m.seq e))
  push_copy-Kept val u (push_copy _ t) old x know knows a =
      update_ne old (slot k u) (slot k t) x (λ e. ground (arith, ap m.seq e, a.0 u))
  push_copy-Kept val u (push_store _ t) old x know knows a =
      update_ne old (slot k u) (slot k t) x (λ e. ground (arith, ap m.seq e, a.0 u))
  push_copy-Kept val u (pop_cas t) old x know knows a = λ late.
      update_ne old (slot k u) (slot k t) x
        (λ e. ground (arith, ap m.seq e, slot_apart k t u (sym e), b.two))
  push_copy-Kept val u (pop_copy t) old x know knows a =
      update_ne old (slot k u) (slot k t) x
        (λ e. ground (arith, ap m.seq e, slot_apart k t u (sym e), b.two))
  push_copy-Kept val u (pop_store t _) old x know knows a =
      update_ne old (slot k u) (slot k t) x
        (λ e. ground (arith, ap m.seq e, slot_apart k t u (sym e), b.two))
  push_copy-Kept val u _ old x know knows a = tt

  pop_copy-Kept :
      (u : ℕ) (q : Pc A) (old : ℕ → ℕ) (x : ℕ)
      → Knows k m values (pop_copy u)
      → Knows k m values q
      → Apart k m values b (pop_copy u) q
      → Kept q old (update old (slot k u) x)
  pop_copy-Kept u (push_cas _ t) old x know knows a = λ late.
      update_ne old (slot k u) (slot k t) x
        (λ e. ground (arith, ap m.seq e, slot_apart k u t e, b.two))
  pop_copy-Kept u (push_copy _ t) old x know knows a =
      update_ne old (slot k u) (slot k t) x
        (λ e. ground (arith, ap m.seq e, slot_apart k u t e, b.two))
  pop_copy-Kept u (push_store _ t) old x know knows a =
      update_ne old (slot k u) (slot k t) x
        (λ e. ground (arith, ap m.seq e, slot_apart k u t e, b.two))
  pop_copy-Kept u (pop_cas t) old x know knows a =
      λ late. update_ne old (slot k u) (slot k t) x (λ e. ground (arith, ap m.seq e))
  pop_copy-Kept u (pop_copy t) old x know knows a =
      update_ne old (slot k u) (slot k t) x (λ e. ground (arith, ap m.seq e, a.1 u))
  pop_copy-Kept u (pop_store t _) old x know knows a =
      update_ne old (slot k u) (slot k t) x (λ e. ground (arith, ap m.seq e, a.1 u))
  pop_copy-Kept u _ old x know knows a = tt

  pub Move-Holds_other :
      {p p' : Pc A} {m' : Mem A} (mv : Move k m p m' p') (i : ℕ) (v : Views) (q : Pc A) (w : View)
      → Knows k m values p
      → Knows k m values q
      → Apart k m values b p q
      → Holds k m q w v.copies
      → Holds k m' q w (effect_on_views k mv i v).copies
  unfolding acquire release copy
  Move-Holds_other (Mpmc.push_free {ticket = t} z) i v q w know knows a h = h
  Move-Holds_other (Mpmc.push_full {ticket = t} z) i v q w know knows a h = h
  Move-Holds_other (Mpmc.push_late {ticket = t} z) i v q w know knows a h = h
  Move-Holds_other {m' = m'} (Mpmc.push_win {ticket = t} e) i v q w know knows a h =
      Holds-Kept m' q w v.copies v.copies (omega (arith, e, b.small)) (omega arith)
        (Kept-same q v.copies) h
  Move-Holds_other {m' = m'} (Mpmc.push_write {ticket = t}) i v q w know knows a h =
      Holds-Kept m' q w v.copies _ (omega arith) (omega arith)
        (push_copy-Kept _ t q v.copies _ know knows a) h
  Move-Holds_other {m' = m'} (Mpmc.push_publish {ticket = t}) i v q w know knows a h =
      Holds-Kept m' q w v.copies v.copies (omega arith) (omega arith) (Kept-same q v.copies) h
  Move-Holds_other {m' = m'} (Mpmc.pop_win {ticket = t} e) i v q w know knows a h =
      Holds-Kept m' q w v.copies v.copies (omega arith) (omega (arith, e, b.small, b.order))
        (Kept-same q v.copies) h
  Move-Holds_other (Mpmc.pop_read {ticket = t}) i v q w know knows a h =
      Holds-Kept m q w v.copies _ (omega arith) (omega arith)
        (pop_copy-Kept t q v.copies _ know knows a) h
  Move-Holds_other {m' = m'} (Mpmc.pop_release {ticket = t}) i v q w know knows a h =
      Holds-Kept m' q w v.copies v.copies (omega arith) (omega arith) (Kept-same q v.copies) h
  Move-Holds_other _ i v q w know knows a h = h
