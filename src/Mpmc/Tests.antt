-- ===== src/Mpmc/Tests.antt =====
-- Runs of the queue, and the theorems at them.
use trading_engine.Base.{
  ℕ, ◌+◌, ◌*◌, ◌^◌, ◌≤◌, ◌<◌, ◌≡◌, ◌⊎◌, ◌↔◌, refl, arith, true, false, some, none, List, [], ◌∷◌,
  ◌++◌, get_elem?,
}
use trading_engine.Mpmc
use trading_engine.Mpmc.{
  Mem, init, admits, Pc, Move, capacity, slot, size_of, popped, pushed, pop_store, push_top,
  pop_top, push_copy, push_diff, pop_diff, IsNegative,
}
use trading_engine.Mpmc.System.{System, start}
use trading_engine.Mpmc.Sizes.{Reach-Onward, racing_size}
use trading_engine.Mpmc.History.{trace_of, pop-gets_nth}
use trading_engine.Mpmc.Conserved.{Holds, puts_conserved}
use mathlib.Core.List.{Perm}
use trading_engine.Mpmc.Admitted.{admits_lem}
use trading_engine.Mpmc.Ordering.{views_of, copy, acquire, release}
use trading_engine.Mpmc.Ordering.Copies.{copies_ordered}
use trading_engine.Mpmc.Refine.{contents, hands, after, nothing, QueueStep, Move-QueueStep}
use trading_engine.Mpmc.Safety.{no_data_race, full_truthful, empty_truthful}
use trading_engine.Mpmc.Progress.{IsBack, IsStrong, Access}
use trading_engine.Mpmc.Progress.Contended.{Ongoing, begun, own, other, ongoing-Ends, takes}
use trading_engine.Mpmc.Calls.Bounded.{pushed_answer, popped_answer, calls, calls-eq-bounded_calls}
use trading_engine.Mpmc.Schedule.{Call, push, pop, Run, turns, fresh}

abbrev junk : ℕ → ℕ
junk _ = 0

-- Two cells. Thread 0 pushes 7 and 8 and returns from both calls.
abbrev two_values : Run 1 junk
two_values = turns 1 7 0 (push 8) (turns 1 7 0 (push 7) (fresh 1 junk))

two_values_result : (contents two_values.last ≡ 7 ∷ 8 ∷ []) × (two_values.mem.head ≡ 2)
unfolding turns fresh
two_values_result = (refl, refl)

-- Thread 1 is about to win `tail_`.
abbrev before_win : Run 1 junk
before_win = turns 1 3 1 pop two_values

-- Thread 1 has won ticket 0 and is about to copy.
abbrev before_copy : Run 1 junk
before_copy = turns 1 1 1 pop before_win

-- Thread 1 has copied the value of ticket 0 and is about to hand its cell back.
abbrev copied : Run 1 junk
copied = turns 1 2 1 pop before_win

-- While thread 1 stands there, thread 0 tries to push.
abbrev full : Run 1 junk
full = turns 1 2 0 (push 9) copied

-- Thread 2 asks an empty queue.
abbrev asked : Run 1 junk
asked = turns 1 2 2 pop (fresh 1 junk)

-- Thread 1 copies the value of its ticket.
Move-QueueStep_example :
    QueueStep {A = ℕ} 2 1
      (8 ∷ [])
      (hands before_copy.last)
      (hands (after before_copy.last 1 before_copy.mem (pop_store 0 7)))
      nothing
      (8 ∷ [])
unfolding turns fresh
Move-QueueStep_example =
    Move-QueueStep 1 (omega arith) before_copy.reach (omega arith) 1 Mpmc.pop_read

no_data_race_example : ◌≡◌ {A = ℕ} 0 0
unfolding turns fresh
no_data_race_example =
    no_data_race 1 (omega arith) (turns 1 4 0 (push 7) (fresh 1 junk)).reach 0 0 0 refl refl

pop-gets_nth_example : get_elem? (trace_of copied.reach).0 0 ≡ some 7
unfolding turns fresh
pop-gets_nth_example = pop-gets_nth 1 (omega arith) (trace_of copied.reach).2 1 refl

puts_conserved_example :
    (held : List ℕ) × Holds (hands copied.last) held
    × Perm (trace_of copied.reach).0 ((trace_of copied.reach).1 ++ (held ++ contents copied.last))
unfolding turns fresh
puts_conserved_example = puts_conserved 1 (omega arith) (trace_of copied.reach).2

-- Thread 1 has returned from its call.
abbrev delivered : Run 1 junk
delivered = turns 1 2 1 pop copied

delivered_trace :
    ((trace_of delivered.reach).0 ≡ 7 ∷ 8 ∷ []) × ((trace_of delivered.reach).1 ≡ 7 ∷ [])
unfolding turns fresh trace_of
delivered_trace = (refl, refl)

-- The head is loaded at the start, and the tail when one value has been taken out.
racing_size_example :
    (1 ≤ 0 → (size_of 0 1 + 1 ≡ 0) × (size_of 0 1 ≤ 2)) × (0 < 1 → 2 ^ 63 < size_of 0 1)
unfolding turns fresh
racing_size_example =
    racing_size 1 (omega arith) start (Reach-Onward 1 copied.reach) (omega arith) (omega arith)

full_truthful_example :
    (full.mem.head ≡ full.mem.tail + 2)
    ⊎ ((u : ℕ) × (full.mem.head ≡ u + 2) × (u < full.mem.tail) × (full.mem.seq (slot 1 u) ≡ u + 1))
unfolding turns fresh
full_truthful_example =
    full_truthful 1 (omega arith) full.reach (omega arith) 0 (Mpmc.push_full refl)

empty_truthful_example :
    (asked.mem.head ≡ asked.mem.tail)
    ⊎ ((asked.mem.tail < asked.mem.head) × (asked.mem.seq (slot 1 asked.mem.tail) ≡ asked.mem.tail))
unfolding turns fresh
empty_truthful_example =
    empty_truthful 1 (omega arith) asked.reach (omega arith) 2 (Mpmc.pop_empty refl)

-- The static assertion lets N = 1 pass, and there the queue does not work: after two pushes with no
-- pop in between, both of which return true, `size` is 2.
one_cell_overflows : (r : Run 0 junk) × (r.mem.head ≡ 2) × (r.mem.tail ≡ 0) × (r.pc 0 ≡ pushed true)
unfolding turns fresh
one_cell_overflows = (turns 0 6 0 (push 8) (turns 0 7 0 (push 7) (fresh 0 junk)), refl, refl, refl)

-- Two pushes fill two cells, a third is refused, and two pops of three find a value.
abbrev six_calls : List (Call ℕ)
six_calls = push 7 ∷ push 8 ∷ push 9 ∷ pop ∷ pop ∷ pop ∷ []

calls-eq-bounded_calls_example :
    calls 1 1 (init junk) six_calls
    ≡ some (
        pushed_answer true
        ∷ pushed_answer true
        ∷ pushed_answer false
        ∷ popped_answer (some 7)
        ∷ popped_answer (some 8)
        ∷ popped_answer none
        ∷ [])
calls-eq-bounded_calls_example =
    calls-eq-bounded_calls 1 (omega arith) 0 junk six_calls (omega arith)

-- Threads 0 and 1 are both before the compare-exchange on ticket 0. Thread 1 wins it, and thread 0 loses.
abbrev racing : Run 1 junk
racing = turns 1 3 1 (push 8) (turns 1 3 0 (push 7) (fresh 1 junk))

abbrev raced : (t : System ℕ) × Ongoing 1 0 racing.last 1 1 t
unfolding takes turns fresh IsStrong
raced = (
  _,
  own (other 1 (omega arith) begun (omega arith) (Mpmc.push_win refl)) (omega arith) (λ back. back)
      Mpmc.push_lose (omega arith),
)

ongoing-Ends_example :
    (1 ≤ 6 + 2 * 1) × (IsBack (raced.0.pc 0) ⊎ Access 1 raced.0.mem (raced.0.pc 0))
unfolding takes turns fresh IsStrong
ongoing-Ends_example = ongoing-Ends 1 (omega arith) racing.reach raced.1

admits_lem_example : (admits 48 ≡ true) ↔ ((◌≡◌ {A = ℕ} 48 0) ⊎ ((k : ℕ) × (48 ≡ capacity k)))
admits_lem_example = admits_lem 48 (omega arith)

copies_ordered_example : (views_of 1 before_copy.reach).held 1 0 0 ≡ true
unfolding turns fresh views_of copy acquire release
copies_ordered_example = copies_ordered 1 (omega arith) before_copy.reach 1 0 refl 0 (omega arith)
