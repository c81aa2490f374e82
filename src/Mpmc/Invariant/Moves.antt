-- ===== src/Mpmc/Invariant/Moves.antt =====
-- A step of thread i, from p to p', keeps each part of the invariant.
use trading_engine.Base.{
  ℕ, ◌+◌, ◌-◌, ◌^◌, ◌≤◌, ◌<◌, ◌≡◌, inr, sym, ap, some, arith, ◌∙◌, ℕ_discrete,
}
use trading_engine.Mpmc
use trading_engine.Mpmc.{
  Mem, Pc, capacity, slot, idle, push_load, push_top, push_cas, push_copy, push_store, pushed,
  pop_load, pop_top, pop_cas, pop_copy, pop_store, popped, Move,
}
use trading_engine.Mpmc.System.{claim}
use trading_engine.Mpmc.Slots.{slot_next, slot_apart, diff_zero}
use trading_engine.Mpmc.Invariant.{Knows, SlotState, empty_slot, full_slot, writes, reads}

module _ {A : Type 0} (k : ℕ) (m : Mem A) (values : ℕ → A) where
  -- Facts on memory that every step may use.
  pub record Bounds : Type 0 where
    pub two : 2 ≤ capacity k
    pub small : m.head + capacity k < 2 ^ 63
    pub order : m.tail ≤ m.head
    pub room : m.head ≤ m.tail + capacity k
    pub slots : (t : ℕ) → SlotState k m values (slot k t)

  module _ (b : Bounds) where
    open b use {two, small, order, room, slots}

    pub seq_small : (t : ℕ) → m.seq (slot k t) < 2 ^ 63
    seq_small t = elim (slots t) [
      | empty_slot u e s lo hi ↦ omega arith
      | full_slot u e s lo hi c ↦ omega arith
    ]

    -- The slot of a ticket whose push is over still holds what that push wrote.
    cell_of_full : (t : ℕ) → m.seq (slot k t) ≡ t + 1 → m.cells (slot k t) ≡ values t
    cell_of_full t q = elim (slots t) [
      | empty_slot u e s lo hi ↦ absurd (omega (arith, slot_apart k t u (sym e)))
      | full_slot u e s lo hi c ↦ let same : u ≡ t = omega arith in c ∙ ap values same
    ]

    pub ready_eq :
        (t : ℕ) → t ≤ m.tail → Mpmc.IsZero (Mpmc.pop_diff k m t) → m.seq (slot k t) ≡ t + 1
    ready_eq t h z =
        let e = diff_zero (m.seq (slot k t)) (Mpmc.wrap (t + 1)) (seq_small t) (omega arith) z in
        omega arith

    -- What the thread that moves knows afterwards.
    pub Move-Knows_self :
        {p p' : Pc A} {m' : Mem A}
        → Move k m p m' p'
        → Knows k m values p
        → Knows k m' (claim p' values) p'
    Move-Knows_self (Mpmc.call_push v) h = tt
    Move-Knows_self Mpmc.load_head h = omega arith
    Move-Knows_self (Mpmc.push_free {ticket = t} z) h =
        (h, inr (diff_zero _ _ (seq_small t) (omega arith) z))
    Move-Knows_self (Mpmc.push_win {ticket = t} e) h = ground arith
    Move-Knows_self (Mpmc.push_write {ticket = t}) h = ground arith
    Move-Knows_self (Mpmc.pop_ready {ticket = t} z) h = (h, inr (ready_eq t h z))
    Move-Knows_self (Mpmc.pop_win {ticket = t} e) h = ground arith
    Move-Knows_self (Mpmc.pop_read {ticket = t}) h = (h.0, h.1, sym (cell_of_full t h.1))
    Move-Knows_self _ h = ground arith

    -- No two threads are between compare-exchange and store with one ticket.
    abbrev pub Apart : Pc A → Pc A → Type 0
    Apart p q =
        ((t : ℕ) → writes p ≡ some t → writes q ≡ some t → ⊥)
        × ((t : ℕ) → reads p ≡ some t → reads q ≡ some t → ⊥)

    pub Move-Knows_other :
        {p p' : Pc A} {m' : Mem A}
        → Move k m p m' p'
        → Knows k m values p
        → (q : Pc A) → Apart p q
        → Knows k m values q
        → Knows k m' (claim p' values) q
    Move-Knows_other (Mpmc.push_win {ticket = t} e) h q a g = ground arith
    Move-Knows_other (Mpmc.push_write {ticket = t}) h q a g = ground (arith, a.0 t)
    Move-Knows_other (Mpmc.push_publish {ticket = t}) h q a g =
        ground (arith, a.0 t, slot_apart k (t - 1) t)
    Move-Knows_other (Mpmc.pop_win {ticket = t} e) h q a g = ground arith
    Move-Knows_other (Mpmc.pop_release {ticket = t}) h q a g =
        ground (arith, a.1 t, slot_apart k t (t + 1))
    Move-Knows_other Mpmc.load_head h q a g = g
    Move-Knows_other _ h q a g = g

    pub Move-slots :
        {p p' : Pc A} {m' : Mem A}
        → Move k m p m' p'
        → Knows k m values p
        → (u : ℕ) → SlotState k m' (claim p' values) (slot k u)
    Move-slots (Mpmc.push_win {ticket = t} e) h u = elim (slots u) [
      | empty_slot w d s lo hi ↦ empty_slot w d s lo hi
      | full_slot w d s lo hi c ↦
          full_slot w d s (ground arith) (ground (arith, slot_next k w)) (ground arith)
    ]
    Move-slots (Mpmc.push_write {ticket = t}) h u = elim (slots u) [
      | empty_slot w d s lo hi ↦ empty_slot w d s lo hi
      | full_slot w d s lo hi c ↦ full_slot w d s lo hi (ground (arith, slot_apart k w t))
    ]
    Move-slots (Mpmc.push_publish {ticket = t}) h u = elim (ℕ_discrete (slot k t) (slot k u)) [
      | yes here ↦ elim (slots t) [
        | empty_slot w d s lo hi ↦
            full_slot t here (ground arith) (omega arith) (omega arith) (ground arith)
        | full_slot w d s lo hi c ↦ absurd (omega (arith, slot_apart k w t d))
      ]
      | no there ↦ elim (slots u) [
        | empty_slot w d s lo hi ↦ empty_slot w d (ground arith) lo hi
        | full_slot w d s lo hi c ↦ full_slot w d (ground arith) lo hi c
      ]
    ]
    Move-slots (Mpmc.pop_win {ticket = t} e) h u = elim (slots u) [
      | empty_slot w d s lo hi ↦ empty_slot w d s (omega arith) (ground arith)
      | full_slot w d s lo hi c ↦ full_slot w d s lo hi c
    ]
    Move-slots (Mpmc.pop_release {ticket = t}) h u = elim (ℕ_discrete (slot k t) (slot k u)) [
      | yes here ↦ elim (slots t) [
        | empty_slot w d s lo hi ↦ absurd (omega (arith, slot_apart k t w (sym d)))
        | full_slot w d s lo hi c ↦
            empty_slot (t + capacity k) (slot_next k t ∙ here) (ground arith) (omega arith)
              (omega arith)
      ]
      | no there ↦ elim (slots u) [
        | empty_slot w d s lo hi ↦ empty_slot w d (ground arith) lo hi
        | full_slot w d s lo hi c ↦ full_slot w d (ground arith) lo hi c
      ]
    ]
    Move-slots _ h u = slots u

    pub Move-order :
        {p p' : Pc A} {m' : Mem A}
        → Move k m p m' p'
        → Knows k m values p
        → (m'.tail ≤ m'.head) × (m'.head ≤ m'.tail + capacity k)
    Move-order (Mpmc.push_win {ticket = t} e) h = elim (slots t) [
      | empty_slot w d s lo hi ↦ ground arith
      | full_slot w d s lo hi c ↦ absurd (ground (arith, slot_apart k w t d))
    ]
    Move-order (Mpmc.pop_win {ticket = t} e) h = elim (slots t) [
      | empty_slot w d s lo hi ↦ absurd (ground (arith, slot_apart k t w (sym d)))
      | full_slot w d s lo hi c ↦ ground arith
    ]
    Move-order _ h = (order, room)
