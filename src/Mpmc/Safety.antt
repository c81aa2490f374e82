-- ===== src/Mpmc/Safety.antt =====
-- What holds of the queue in every reachable state.
use trading_engine.Base.{
  ℕ, ◌+◌, ◌-◌, ◌^◌, ◌≤◌, ◌<◌, ◌≡◌, ◌⊎◌, inl, inr, refl, sym, some, none, Option, arith, ◌∙◌, dec_lt,
  false, length, ap,
}
use trading_engine.Mpmc
use trading_engine.Mpmc.{
  Mem, Pc, Move, capacity, slot, diff, size, push_copy, push_store, pop_copy, pop_store, push_top,
  pop_top, pushed, popped, IsNegative, push_diff, pop_diff,
}
use trading_engine.Mpmc.System.{System, Reach}
use trading_engine.Mpmc.Slots.{slot_apart, diff_negative}
use trading_engine.Mpmc.Invariant.{Inv, Knows, empty_slot, full_slot, writes, reads}
use trading_engine.Mpmc.Invariant.Moves.{Bounds, seq_small}
use trading_engine.Mpmc.Reachable.{Reach-Inv}
use trading_engine.Mpmc.Refine.{contents, length-window}

-- The cell that the next step of a thread reads or writes by its `memcpy`.
abbrev pub accesses : {A : Type 0} → ℕ → Pc A → Option ℕ
accesses k (push_copy _ t) = some (slot k t)
accesses k (pop_copy t) = some (slot k t)
accesses k _ = none

module _ {A : Type 0} (k : ℕ) (two : 2 ≤ capacity k) where
  accesses_apart :
      (m : Mem A) (values : ℕ → A) (p q : Pc A) (c : ℕ)
      → Knows k m values p
      → Knows k m values q
      → accesses k p ≡ some c
      → accesses k q ≡ some c
      → ((t : ℕ) × (writes p ≡ some t) × (writes q ≡ some t))
        ⊎ ((t : ℕ) × (reads p ≡ some t) × (reads q ≡ some t))
  accesses_apart m f (push_copy v t) (push_copy w u) c g h a b = inl (t, refl, ground arith)
  accesses_apart m f (pop_copy t) (pop_copy u) c g h a b = inr (t, refl, ground arith)
  accesses_apart m f (push_copy v t) (pop_copy u) c g h a b =
      absurd (ground (arith, slot_apart k u t))
  accesses_apart m f (pop_copy t) (push_copy w u) c g h a b =
      absurd (ground (arith, slot_apart k t u))
  accesses_apart m f _ _ c g h a b = cc

  -- For N a power of two, at least 2, in every state reachable while tickets are far below 2 ^ 63:
  -- no two different threads stand before a copy into or out of the same cell.
  pub no_data_race :
      {junk : ℕ → A} {s : System A}
      → Reach k junk s
      → (i j c : ℕ) → accesses k (s.pc i) ≡ some c
      → accesses k (s.pc j) ≡ some c
      → i ≡ j
  no_data_race {s = s} r i j c a b =
      let inv = Reach-Inv k two r in
      elim (accesses_apart s.mem s.values (s.pc i) (s.pc j) c (inv.knows i) (inv.knows j) a b) [
        | inl (t, w, v) ↦ inv.one_writer i j t w v
        | inr (t, w, v) ↦ inv.one_reader i j t w v
      ]

  Knows-pop_store :
      (m : Mem A) (values : ℕ → A) (p : Pc A) {t : ℕ} {v : A}
      → Knows k m values p
      → p ≡ pop_store t v
      → (v ≡ values t) × (t < m.tail)
  Knows-pop_store m f p g e = ground arith

  -- For N a power of two, at least 2, in every state reachable while tickets are far below 2 ^ 63:
  -- the value that a pop with ticket t has copied out, and is about to return, is the one that the
  -- push with ticket t has put, and t is below the tail.
  pub pop_returns_put :
      {junk : ℕ → A} {s : System A}
      → Reach k junk s
      → (i : ℕ) {t : ℕ} {v : A} → s.pc i ≡ pop_store t v
      → (v ≡ s.values t) × (t < s.mem.tail)
  pop_returns_put {s = s} r i e =
      Knows-pop_store s.mem s.values (s.pc i) ((Reach-Inv k two r).knows i) e

  -- For N a power of two, at least 2, in every reachable state with a head ticket below 2 ^ 63:
  -- `size` is the number of values in the queue, and at most N.
  size-eq-length :
      {junk : ℕ → A} {s : System A}
      → Reach k junk s
      → s.mem.head < 2 ^ 63
      → (size s.mem ≡ length (contents s)) × (size s.mem ≤ capacity k)
  unfolding size
  size-eq-length {s = s} r small =
      let inv = Reach-Inv k two r in
      let order = inv.order in
      let room = inv.room in
      let count = length-window s.values s.mem.tail (s.mem.head - s.mem.tail) in
      (omega arith, omega arith)

  top_of_push :
      (m : Mem A) (values : ℕ → A) (p : Pc A) {t : ℕ} {v : A}
      → Knows k m values p
      → p ≡ push_top v t
      → t ≤ m.head
  top_of_push m f p g e = ground arith

  top_of_pop :
      (m : Mem A) (values : ℕ → A) (p : Pc A) {t : ℕ}
      → Knows k m values p
      → p ≡ pop_top t
      → t ≤ m.tail
  top_of_pop m f p g e = ground arith

  -- A step after which `try_push` has returned false is made at the head of its loop, on a sequence
  -- number behind the ticket.
  refusal_of_push :
      (m : Mem A) {p p' : Pc A} {m' : Mem A}
      → Move k m p m' p'
      → p' ≡ pushed false
      → (v : A) × (t : ℕ) × (p ≡ push_top v t) × IsNegative (push_diff k m t)
  refusal_of_push m (Mpmc.push_full {val = v} {ticket = t} neg) e = (v, t, refl, neg)
  refusal_of_push m _ e = absurd (ground arith)

  -- The same for `try_pop`.
  refusal_of_pop :
      (m : Mem A) {p p' : Pc A} {m' : Mem A}
      → Move k m p m' p'
      → p' ≡ popped none
      → (t : ℕ) × (p ≡ pop_top t) × IsNegative (pop_diff k m t)
  refusal_of_pop m (Mpmc.pop_empty {ticket = t} neg) e = (t, refl, neg)
  refusal_of_pop m _ e = absurd (ground arith)

  pub bounds :
      {m : Mem A} {pc : ℕ → Pc A} {values : ℕ → A}
      → m.head + capacity k < 2 ^ 63
      → Inv k m pc values
      → Bounds k m values
  bounds small inv = record {
    two = two;
    small = small;
    order = inv.order;
    room = inv.room;
    slots = inv.slots;
  }

  -- For N a power of two, at least 2, and any number of threads with any interleaving of single
  -- accesses to shared memory, as long as the head ticket and N stay below 2 ^ 63: if a step of a
  -- thread makes `try_push` return false, then at this moment the queue holds N values, or the cell
  -- that the next push needs belongs to a pop that has its ticket and has not yet handed the cell
  -- back.
  pub full_truthful :
      {junk : ℕ → A} {s : System A}
      → Reach k junk s
      → s.mem.head + capacity k < 2 ^ 63
      → (i : ℕ) {m : Mem A} → Move k s.mem (s.pc i) m (pushed false)
      → (s.mem.head ≡ s.mem.tail + capacity k)
        ⊎ ((u : ℕ) × (s.mem.head ≡ u + capacity k)
            × (u < s.mem.tail)
            × (s.mem.seq (slot k u) ≡ u + 1))
  full_truthful {s = s} r small i mv =
      let (v, t, at_top, neg) = refusal_of_push s.mem mv refl in
      let inv = Reach-Inv k two r in
      let below = top_of_push s.mem s.values (s.pc i) (inv.knows i) at_top in
      let less =
        diff_negative _ t (seq_small k s.mem s.values (bounds small inv) t) (omega arith) neg in
      elim (inv.slots t) [
        | empty_slot u d e lo hi ↦ inl (omega (arith, slot_apart k u t d))
        | full_slot u d e lo hi c ↦
            let apart = slot_apart k u t d (omega arith) in
            let room = inv.room in
            elim (dec_lt u s.mem.tail) [
              | yes taken ↦ inr (u, omega arith, taken, ap s.mem.seq d ∙ e)
              | no free ↦ inl (omega arith)
            ]
      ]

  -- For N a power of two, at least 2, and any number of threads with any interleaving of single
  -- accesses to shared memory, as long as the head ticket and N stay below 2 ^ 63: if a step of a
  -- thread makes `try_pop` return false, then at this moment the queue is empty, or its oldest
  -- value belongs to a push that has its ticket and has not yet handed its cell over.
  pub empty_truthful :
      {junk : ℕ → A} {s : System A}
      → Reach k junk s
      → s.mem.head + capacity k < 2 ^ 63
      → (i : ℕ) {m : Mem A} → Move k s.mem (s.pc i) m (popped none)
      → (s.mem.head ≡ s.mem.tail)
        ⊎ ((s.mem.tail < s.mem.head) × (s.mem.seq (slot k s.mem.tail) ≡ s.mem.tail))
  empty_truthful {s = s} r small i mv =
      let (t, at_top, neg) = refusal_of_pop s.mem mv refl in
      let inv = Reach-Inv k two r in
      let below = top_of_pop s.mem s.values (s.pc i) (inv.knows i) at_top in
      let order = inv.order in
      let less =
        diff_negative _ (Mpmc.wrap (t + 1)) (seq_small k s.mem s.values (bounds small inv) t)
          (omega arith) neg in
      elim (inv.slots t) [
        | empty_slot u d e lo hi ↦
            let here : t ≡ s.mem.tail = omega arith in
            elim (dec_lt s.mem.tail s.mem.head) [
              | yes more ↦ inr (more, ap (λ x. s.mem.seq (slot k x)) (sym here) ∙ omega arith)
              | no same ↦ inl (omega arith)
            ]
        | full_slot u d e lo hi c ↦ inl (omega (arith, slot_apart k u t d (omega arith)))
      ]
