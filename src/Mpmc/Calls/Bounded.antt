-- ===== src/Mpmc/Calls/Bounded.antt =====
-- Whole calls of include/chronos/utils/mpmc_queue.hpp, one after another, against a queue of bounded length.
use trading_engine.Base.{
  ℕ, suc, ◌+◌, ◌^◌, ◌≤◌, ◌<◌, ◌≡◌, refl, sym, ap, ◌∙◌, Bool, true, false, List, [], ◌∷◌, ◌++◌,
  Option, none, some, arith, length, ltb, lt→ltb, if◌then◌else◌, ◌>>=◌, dec_lt,
}
use native.Mathlib.Nat.{mod-eq_of_lt}
use trading_engine.Mpmc.{Mem, init, capacity, slot, wrap}
use trading_engine.Mpmc.Slots.{slot_next, slot-eq-mod}
use trading_engine.Mpmc.Schedule.{Call, push, pop}
use trading_engine.Mpmc.Calls.{after_push, after_pop, try_push, try_pop}
use trading_engine.Mpmc.Calls.Holding.{
  Holding, diff_same, diff_below, after_push-Holding, after_pop-Holding,
}

pub data Answer (A : Type 0) : Type 0 where
  pushed_answer : Bool → Answer A
  popped_answer : Option A → Answer A

-- A queue of at most N values.
abbrev pub bounded_call : {A : Type 0} → ℕ → List A → Call A → Answer A × List A
bounded_call size xs (push v) =
    if ltb (length xs) size then (pushed_answer true, xs ++ (v ∷ [])) else (pushed_answer false, xs)
bounded_call size [] pop = (popped_answer none, [])
bounded_call size (x ∷ xs) pop = (popped_answer (some x), xs)

abbrev pub bounded_calls : {A : Type 0} → ℕ → List A → List (Call A) → List (Answer A)
bounded_calls size xs [] = []
bounded_calls size xs (c ∷ cs) =
    let (answer, ys) = bounded_call size xs c in answer ∷ bounded_calls size ys cs

module _ {A : Type 0} (k : ℕ) where
  -- One call, and a list of them, with the same fuel for each.
  abbrev pub call : (fuel : ℕ) → Mem A → Call A → Option (Answer A × Mem A)
  call fuel m (push v) = try_push k fuel m v >>= λ r. some (pushed_answer r.0, r.1)
  call fuel m pop = try_pop k fuel m >>= λ r. some (popped_answer r.0, r.1)

  abbrev pub calls : (fuel : ℕ) → Mem A → List (Call A) → Option (List (Answer A))
  calls fuel m [] = some []
  calls fuel m (c ∷ cs) = call fuel m c >>= λ r. calls fuel r.1 cs >>= λ rest. some (r.0 ∷ rest)

  module _ (two : 2 ≤ capacity k) (fuel : ℕ) where
    -- What a call answers and leaves, next to the bounded queue.
    abbrev Agrees : Mem A → List A → Call A → Type 0
    Agrees m xs c =
        (m' : Mem A) × (call (suc fuel) m c ≡ some ((bounded_call (capacity k) xs c).0, m'))
        × Holding k m' (bounded_call (capacity k) xs c).1
        × (m'.head ≤ m.head + 1)

    push_room :
        (m : Mem A) (xs : List A) (v : A)
        → Holding k m xs
        → m.head + capacity k < 2 ^ 63
        → length xs < capacity k
        → Agrees m xs (push v)
    unfolding try_push
    push_room m xs v h small lt =
        let count = h.count in
        let free : m.seq (slot k m.head) ≡ m.head =
          ap (λ t. m.seq (slot k t)) count ∙ h.free (length xs) (omega arith) lt ∙ sym count in
        let same = diff_same (m.seq (slot k m.head)) m.head (omega arith) free in
        let fits = lt→ltb (length xs) (capacity k) lt in
        (
          after_push k m v,
          rw (same, fits) refl,
          rw fits (after_push-Holding k m xs v h small lt),
          omega arith,
        )

    push_full :
        (m : Mem A) (xs : List A) (v : A)
        → Holding k m xs
        → m.head + capacity k < 2 ^ 63
        → ltb (length xs) (capacity k) ≡ false
        → Agrees m xs (push v)
    unfolding try_push
    push_full m xs v h small full =
        let room = h.room in
        let many : length xs ≡ capacity k = ground arith in
        let count = h.count in
        let taken : m.seq (slot k m.head) ≡ m.tail + 1 =
          ap (λ t. m.seq (slot k t)) {y = m.tail + capacity k} (omega arith)
          ∙ ap m.seq (slot_next k m.tail)
          ∙ ap (λ t. m.seq (slot k t)) {y = m.tail + 0} (omega arith)
          ∙ (h.full 0 (omega arith)).0
          ∙ omega arith in
        let below = diff_below (m.seq (slot k m.head)) m.head (omega arith) (omega arith) in
        (m, rw (below.0, below.1, full) refl, rw full h, omega arith)

    pop_none : (m : Mem A) → Holding k m [] → m.head + capacity k < 2 ^ 63 → Agrees m [] pop
    unfolding try_pop
    pop_none m h small =
        let count = h.count in
        let free : m.seq (slot k m.tail) ≡ m.tail =
          ap (λ t. m.seq (slot k t)) {y = m.tail + 0} (omega arith)
          ∙ h.free 0 (omega arith) (omega arith)
          ∙ omega arith in
        let below =
          diff_below (m.seq (slot k m.tail)) (wrap (m.tail + 1)) (omega arith) (omega arith) in
        (m, rw (below.0, below.1) refl, h, omega arith)

    pop_some :
        (m : Mem A) (x : A) (xs : List A)
        → Holding k m (x ∷ xs)
        → m.head + capacity k < 2 ^ 63
        → Agrees m (x ∷ xs) pop
    unfolding try_pop
    pop_some m x xs h small =
        let count = h.count in
        let (number, value) = h.full 0 (omega arith) in
        let here : m.tail ≡ m.tail + 0 = omega arith in
        let ready : m.seq (slot k m.tail) ≡ wrap (m.tail + 1) =
          ap (λ t. m.seq (slot k t)) here ∙ number ∙ omega arith in
        let same = diff_same (m.seq (slot k m.tail)) (wrap (m.tail + 1)) (omega arith) ready in
        let found : some (m.cells (slot k m.tail)) ≡ some x =
          ap (λ t. some (m.cells (slot k t))) here ∙ sym value in
        (
          after_pop k m,
          rw same (ap (λ o. some (popped_answer o, after_pop k m)) found),
          after_pop-Holding k m x xs h small,
          omega arith,
        )

    call-Agrees :
        (m : Mem A) (xs : List A) (c : Call A)
        → Holding k m xs
        → m.head + capacity k < 2 ^ 63
        → Agrees m xs c
    call-Agrees m xs (push v) h small = elim (dec_lt (length xs) (capacity k)) [
      | yes lt ↦ push_room m xs v h small lt
      | no many ↦ push_full m xs v h small (ground arith)
    ]
    call-Agrees m [] pop h small = pop_none m h small
    call-Agrees m (x ∷ xs) pop h small = pop_some m x xs h small

    calls-Holding :
        (cs : List (Call A)) (m : Mem A) (xs : List A)
        → Holding k m xs
        → m.head + length cs + capacity k < 2 ^ 63
        → calls (suc fuel) m cs ≡ some (bounded_calls (capacity k) xs cs)
    calls-Holding [] m xs h small = refl
    calls-Holding (c ∷ cs) m xs h small =
        let (m', answered, held, up) = call-Agrees m xs c h (omega arith) in
        rw (answered, calls-Holding cs m' (bounded_call (capacity k) xs c).1 held (omega arith))
          refl

    init-Holding : (junk : ℕ → A) → Holding k (init junk) []
    init-Holding junk = record {
      count = omega arith;
      room = omega arith;
      full = λ i lt. absurd (omega arith);
      free = λ i lo hi. slot-eq-mod k (0 + i) ∙ mod-eq_of_lt (omega arith);
    }

    -- For N a power of two, at least 2, and calls that come one after another, with N below 2 ^ 63
    -- together with their number: the loop of each call ends in its first round, and the answers
    -- are those of a queue that takes a value exactly if it holds fewer than N, and gives back the
    -- oldest one exactly if it holds any.
    pub calls-eq-bounded_calls :
        (junk : ℕ → A) (cs : List (Call A))
        → length cs + capacity k < 2 ^ 63
        → calls (suc fuel) (init junk) cs ≡ some (bounded_calls (capacity k) [] cs)
    calls-eq-bounded_calls junk cs small =
        calls-Holding cs (init junk) [] (init-Holding junk) (omega arith)
