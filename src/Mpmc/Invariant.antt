-- ===== src/Mpmc/Invariant.antt =====
-- What every reachable state of the queue satisfies: the state of each slot, and what the local
-- variables of each thread say about shared memory.
use trading_engine.Base.{ℕ, ◌+◌, ◌≤◌, ◌<◌, ◌≡◌, ◌⊎◌, Option, none, some}
pub mod Moves
pub mod Owners
use trading_engine.Mpmc.{
  Mem, Pc, capacity, slot, push_top, push_cas, push_copy, push_store, pop_top, pop_cas, pop_copy,
  pop_store,
}

-- The ticket whose slot a thread may write, between its compare-exchange and its store of `seq`.
abbrev pub writes : {A : Type 0} → Pc A → Option ℕ
writes (push_copy _ t) = some t
writes (push_store _ t) = some t
writes _ = none

-- The ticket whose slot a thread may read.
abbrev pub reads : {A : Type 0} → Pc A → Option ℕ
reads (pop_copy t) = some t
reads (pop_store t _) = some t
reads _ = none

module _ {A : Type 0} (k : ℕ) (m : Mem A) (values : ℕ → A) where
  -- A slot waits for the push with ticket t, or holds what it wrote.
  pub data SlotState (i : ℕ) : Type 0 where
    empty_slot :
        (t : ℕ) → slot k t ≡ i → m.seq i ≡ t → t < m.tail + capacity k → m.tail ≤ t → SlotState i
    full_slot :
        (t : ℕ)
        → slot k t ≡ i
        → m.seq i ≡ t + 1
        → t < m.head
        → m.head ≤ t + capacity k
        → m.cells i ≡ values t
        → SlotState i

  abbrev pub Knows : Pc A → Type 0
  Knows (push_top _ t) = t ≤ m.head
  Knows (push_cas _ t) = (t ≤ m.head) × ((t < m.head) ⊎ (m.seq (slot k t) ≡ t))
  Knows (push_copy v t) = (t < m.head) × (m.seq (slot k t) ≡ t) × (values t ≡ v)
  Knows (push_store v t) =
      (t < m.head) × (m.seq (slot k t) ≡ t) × (values t ≡ v) × (m.cells (slot k t) ≡ v)
  Knows (pop_top t) = t ≤ m.tail
  Knows (pop_cas t) = (t ≤ m.tail) × ((t < m.tail) ⊎ (m.seq (slot k t) ≡ t + 1))
  Knows (pop_copy t) = (t < m.tail) × (m.seq (slot k t) ≡ t + 1)
  Knows (pop_store t v) = (t < m.tail) × (m.seq (slot k t) ≡ t + 1) × (values t ≡ v)
  Knows _ = Unit

pub record Inv {A : Type 0} (k : ℕ) (m : Mem A) (pc : ℕ → Pc A) (values : ℕ → A) : Type 0 where
  pub order : m.tail ≤ m.head
  pub room : m.head ≤ m.tail + capacity k
  pub slots : (t : ℕ) → SlotState k m values (slot k t)
  pub knows : (i : ℕ) → Knows k m values (pc i)
  pub one_writer : (i j t : ℕ) → writes (pc i) ≡ some t → writes (pc j) ≡ some t → i ≡ j
  pub one_reader : (i j t : ℕ) → reads (pc i) ≡ some t → reads (pc j) ≡ some t → i ≡ j
