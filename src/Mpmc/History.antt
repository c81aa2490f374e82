-- ===== src/Mpmc/History.antt =====
-- All that goes through the queue of include/chronos/utils/mpmc_queue.hpp in an execution.
use trading_engine.Base.{
  ℕ, zero, suc, ◌+◌, ◌^◌, ◌≤◌, ◌<◌, ◌≡◌, refl, sym, ap, ◌∙◌, List, [], ◌∷◌, ◌++◌, arith, append_nil,
  get_elem?, some, none,
}
use trading_engine.Mpmc
use trading_engine.Mpmc.{Mem, Pc, Move, capacity, wrap, pop_store}
use trading_engine.Mpmc.Reachable.{Reach-Inv}
use trading_engine.Mpmc.Safety.{pop_returns_put}
use trading_engine.Mpmc.System.{System, pick, Reach, start, later, start_of, claim}
use trading_engine.Mpmc.Refine.{Effect, window, window_snoc, put, handed, effect, after}

abbrev pub put_by : {A : Type 0} → Effect A → List A
put_by (put v) = v ∷ []
put_by _ = []

abbrev pub given_by : {A : Type 0} → Effect A → List A
given_by (handed v) = v ∷ []
given_by _ = []

-- An execution, with the values that pushes have put, in the order in which they took their tickets,
-- and those that pops have handed to their callers, in the order in which they returned.
pub data Trace {A : Type 0} (k : ℕ) (junk : ℕ → A) : System A → (puts given : List A) → Type 0 where
  begun : Trace k junk (start_of k junk) [] []
  moved :
      {s : System A} {puts given : List A}
      → Trace k junk s puts given
      → s.mem.head + capacity k < 2 ^ 63
      → (i : ℕ) {m : Mem A} {p : Pc A} → Move k s.mem (s.pc i) m p
      → Trace k junk
          (after s i m p)
          (puts ++ put_by (effect (s.pc i) p))
          (given ++ given_by (effect (s.pc i) p))

pub Trace-Reach :
    {A : Type 0} {k : ℕ} {junk : ℕ → A} {s : System A} {puts given : List A}
    → Trace k junk s puts given
    → Reach k junk s
Trace-Reach begun = start
Trace-Reach (moved h small i mv) = later (Trace-Reach h) small (pick i mv)

-- Every execution has its trace.
unfoldable pub trace_of :
    {A : Type 0} {k : ℕ} {junk : ℕ → A} {s : System A}
    → Reach k junk s
    → (puts : List A) × (given : List A) × Trace k junk s puts given
trace_of start = ([], [], begun)
trace_of (later r small (pick i mv)) =
    let (puts, given, h) = trace_of r in (_, _, moved h small i mv)

get_elem?-window :
    {A : Type 0} (f : ℕ → A) (u n t : ℕ) → t < n → get_elem? (window f u n) t ≡ some (f (u + t))
get_elem?-window f u zero t lt = absurd (omega arith)
get_elem?-window f u (suc n) zero lt = ap (λ i. some (f i)) (omega arith)
get_elem?-window f u (suc n) (suc t) lt =
    get_elem?-window f (u + 1) n t (omega arith) ∙ ap (λ i. some (f i)) (omega arith)

module _ {A : Type 0} (k : ℕ) where
  Move-puts :
      {m m' : Mem A} {p p' : Pc A} (values : ℕ → A)
      → Move k m p m' p'
      → m.head + capacity k < 2 ^ 63
      → window values 0 m.head ++ put_by (effect p p') ≡ window (claim p' values) 0 m'.head
  Move-puts {m} values (Mpmc.push_win {val = v} {ticket = t} e) small =
      let grown : wrap (t + 1) ≡ suc m.head = omega arith in
      rw grown (sym (window_snoc values 0 m.head t v (omega arith)))
  Move-puts {m} values (Mpmc.pop_return {result = none}) small = append_nil (window values 0 m.head)
  Move-puts {m} values (Mpmc.pop_return {result = some v}) small =
      append_nil (window values 0 m.head)
  Move-puts {m} values _ small = append_nil (window values 0 m.head)

  -- The t-th value that is put, from 0, is that of the push with ticket t.
  puts-eq-window :
      {junk : ℕ → A} {s : System A} {puts given : List A}
      → Trace k junk s puts given
      → puts ≡ window s.values 0 s.mem.head
  puts-eq-window begun = refl
  puts-eq-window (moved {s = s} h small i {p = p} mv) =
      ap (λ t. t ++ put_by (effect (s.pc i) p)) (puts-eq-window h) ∙ Move-puts s.values mv small

  -- For N a power of two, at least 2, in every execution while tickets are far below 2 ^ 63: the
  -- value that a pop with ticket t has copied out, and is about to return, is the t-th value that
  -- pushes have put, counted from 0 in the order of their compare-exchanges.
  pub pop-gets_nth :
      2 ≤ capacity k
      → {junk : ℕ → A} {s : System A} {puts given : List A} → Trace k junk s puts given
      → (i : ℕ) {t : ℕ} {v : A} → s.pc i ≡ pop_store t v
      → get_elem? puts t ≡ some v
  pop-gets_nth two {s = s} h i {t = t} e =
      let (same, below) = pop_returns_put k two (Trace-Reach h) i e in
      let order = (Reach-Inv k two (Trace-Reach h)).order in
      ap (λ ps. get_elem? ps t) (puts-eq-window h)
      ∙ get_elem?-window s.values 0 s.mem.head t (omega arith)
      ∙ ap (λ u. some (s.values u)) (omega arith)
      ∙ ap some (sym same)
