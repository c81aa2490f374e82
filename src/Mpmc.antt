-- ===== src/Mpmc.antt =====
-- include/chronos/utils/mpmc_queue.hpp: the shared memory of `MPMCQueue<T, N>` with N = 2 ^ k, and
-- the code of `try_push` and `try_pop`, one access of shared memory to a step.
pub mod System
pub mod Slots
pub mod Invariant
pub mod Reachable
pub mod Refine
pub mod Safety
pub mod Schedule
pub mod Calls
mod Progress
mod Admitted
mod History
mod Conserved
pub mod Ordering
mod Sizes
mod Tests
use Prim.Native.Nat.{bit_and}
use trading_engine.Base.{
  ℕ, ◌+◌, ◌-◌, ◌%◌, ◌^◌, ◌≡◌, Bool, true, false, Option, none, some, ltb, ◌==◌, if◌then◌else◌,
  update,
}
use trading_engine.Base.Int.{ℤ, pos, negsuc, ◌-ℤ◌, ltb_ℤ}

-- `size_t` arithmetic is modulo 2 ^ 64.
abbrev pub wrap : ℕ → ℕ
wrap x = x % 2 ^ 64

-- `static_cast<int64_t>` of a `size_t`.
abbrev pub to_i64 : ℕ → ℤ
to_i64 x = if ltb x (2 ^ 63) then pos x else negsuc (2 ^ 64 - 1 - x)

-- `static_cast<int64_t>(seq) - static_cast<int64_t>(ticket)`.
pub diff : ℕ → ℕ → ℤ
unfolding ◌-ℤ◌
diff seq ticket = to_i64 seq -ℤ to_i64 ticket

-- `MPMCQueue::capacity`: N, which the static assertion makes a power of two.
abbrev pub capacity : ℕ → ℕ
capacity k = 2 ^ k

-- The static assertion on N, a `size_t`: `(N & (N - 1)) == 0`.
unfoldable pub admits : ℕ → Bool
admits n = bit_and n (wrap (n + 2 ^ 64 - 1)) == 0

-- `pos & (N - 1)`: the index of a ticket's slot.
pub slot : ℕ → ℕ → ℕ
slot k ticket = bit_and ticket (capacity k - 1)

-- The members of the class. Cells of the arrays from N on are never used.
pub record Mem (A : Type 0) : Type 0 where
  pub cells : ℕ → A
  pub seq : ℕ → ℕ
  pub head : ℕ
  pub tail : ℕ

-- The constructor: slot i has sequence number i. The cells hold whatever T's constructor put there.
abbrev pub init : {A : Type 0} → (ℕ → A) → Mem A
init junk = record { cells = junk; seq = λ i. i; head = 0; tail = 0 }

-- `size`, from the value loaded from `head_` and the one loaded after it from `tail_`.
unfoldable pub size_of : (head tail : ℕ) → ℕ
size_of head tail = (head + 2 ^ 64 - tail) % 2 ^ 64

-- `size` and `empty`, where both loads find one state.
pub size : {A : Type 0} → Mem A → ℕ
unfolding size_of
size m = size_of m.head m.tail

pub is_empty : {A : Type 0} → Mem A → Bool
unfolding size
is_empty m = size m == 0

-- Where a thread stands, with the local variables that are live there.
pub data Pc (A : Type 0) : Type 0 where
  idle : Pc A
  push_load : (val : A) → Pc A  -- before `pos = head_.load`
  push_top : (val : A) (ticket : ℕ) → Pc A  -- the head of the loop, before `s.seq.load`
  push_cas : (val : A) (ticket : ℕ) → Pc A  -- `diff == 0`, before the compare-exchange
  push_copy : (val : A) (ticket : ℕ) → Pc A  -- before the `memcpy`
  push_store : (val : A) (ticket : ℕ) → Pc A  -- before `s.seq.store`
  pushed : (result : Bool) → Pc A  -- `try_push` has returned
  pop_load : Pc A
  pop_top : (ticket : ℕ) → Pc A
  pop_cas : (ticket : ℕ) → Pc A
  pop_copy : (ticket : ℕ) → Pc A
  pop_store : (ticket : ℕ) (val : A) → Pc A
  popped : (result : Option A) → Pc A  -- `try_pop` has returned; `some` holds what it wrote to `val`

-- The branch that a value of `diff` takes.
abbrev pub IsZero : ℤ → Type 0
IsZero d = d ≡ pos 0

abbrev pub IsNegative : ℤ → Type 0
IsNegative d = ltb_ℤ d (pos 0) ≡ true

abbrev pub IsPositive : ℤ → Type 0
IsPositive d = ltb_ℤ (pos 0) d ≡ true

module _ {A : Type 0} (k : ℕ) (m : Mem A) where
  abbrev pub push_diff : ℕ → ℤ
  push_diff ticket = diff (m.seq (slot k ticket)) ticket

  abbrev pub pop_diff : ℕ → ℤ
  pop_diff ticket = diff (m.seq (slot k ticket)) (wrap (ticket + 1))

  -- One step of one thread. A weak compare-exchange may fail whatever it finds.
  pub data Move : Pc A → Mem A → Pc A → Type 0 where
    call_push : (val : A) → Move idle m (push_load val)
    load_head : {val : A} → Move (push_load val) m (push_top val m.head)
    push_free :
        {val : A} {ticket : ℕ}
        → IsZero (push_diff ticket)
        → Move (push_top val ticket) m (push_cas val ticket)
    push_full :
        {val : A} {ticket : ℕ}
        → IsNegative (push_diff ticket)
        → Move (push_top val ticket) m (pushed false)
    push_late :
        {val : A} {ticket : ℕ}
        → IsPositive (push_diff ticket)
        → Move (push_top val ticket) m (push_load val)
    push_win :
        {val : A} {ticket : ℕ}
        → m.head ≡ ticket
        → Move (push_cas val ticket) (record m { head = wrap (ticket + 1) }) (push_copy val ticket)
    push_lose : {val : A} {ticket : ℕ} → Move (push_cas val ticket) m (push_top val m.head)
    push_write :
        {val : A} {ticket : ℕ}
        → Move
            (push_copy val ticket)
            (record m { cells = update m.cells (slot k ticket) val })
            (push_store val ticket)
    push_publish :
        {val : A} {ticket : ℕ}
        → Move
            (push_store val ticket)
            (record m { seq = update m.seq (slot k ticket) (wrap (ticket + 1)) })
            (pushed true)
    push_return : {result : Bool} → Move (pushed result) m idle
    call_pop : Move idle m pop_load
    load_tail : Move pop_load m (pop_top m.tail)
    pop_ready : {ticket : ℕ} → IsZero (pop_diff ticket) → Move (pop_top ticket) m (pop_cas ticket)
    pop_empty : {ticket : ℕ} → IsNegative (pop_diff ticket) → Move (pop_top ticket) m (popped none)
    pop_late : {ticket : ℕ} → IsPositive (pop_diff ticket) → Move (pop_top ticket) m pop_load
    pop_win :
        {ticket : ℕ}
        → m.tail ≡ ticket
        → Move (pop_cas ticket) (record m { tail = wrap (ticket + 1) }) (pop_copy ticket)
    pop_lose : {ticket : ℕ} → Move (pop_cas ticket) m (pop_top m.tail)
    pop_read : {ticket : ℕ} → Move (pop_copy ticket) m (pop_store ticket (m.cells (slot k ticket)))
    pop_release :
        {ticket : ℕ} {val : A}
        → Move
            (pop_store ticket val)
            (record m { seq = update m.seq (slot k ticket) (wrap (ticket + capacity k)) })
            (popped (some val))
    pop_return : {result : Option A} → Move (popped result) m idle
