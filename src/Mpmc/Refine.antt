-- ===== src/Mpmc/Refine.antt =====
-- The queue against a bounded first-in first-out list: the compare-exchanges on `head_` and `tail_`
-- are the points at which the pushes and the pops take effect.
use trading_engine.Base.{
  ℕ, zero, suc, ◌+◌, ◌-◌, ◌^◌, ◌≤◌, ◌<◌, ◌≡◌, ◌≢◌, refl, sym, ◌∙◌, ap, List, [], ◌∷◌, ◌++◌, length,
  arith, update, update_ne, update_self, Option, some, none, ℕ_discrete,
}
use mathlib.Core.Path.{ap₂, subst}
use trading_engine.Mpmc
use trading_engine.Mpmc.{Mem, Pc, Move, idle, push_copy, pop_copy, pop_store, popped, capacity}
use trading_engine.Mpmc.Invariant.{Knows}
use trading_engine.Mpmc.System.{System, claim, pick, Reach, later}
use trading_engine.Mpmc.Reachable.{Reach-Inv}

-- What a step does to the queue, as its clients see it: a push puts a value into it, a pop takes the
-- oldest value out of it, and later hands a value to its caller.
pub data Effect (A : Type 0) : Type 0 where
  nothing : Effect A
  put : A → Effect A
  took : Effect A
  handed : A → Effect A

-- A step of thread i on a bounded queue, oldest value first, and on the hands of the threads: what a
-- thread has taken out of the queue and not yet handed to its caller.
pub data QueueStep {A : Type 0} (bound i : ℕ) (q : List A) (hands hands' : ℕ → Option A)
    : Effect A → List A → Type 0 where
  stay : ((j : ℕ) → hands' j ≡ hands j) → QueueStep bound i q hands hands' nothing q
  enqueue :
      (v : A)
      → length q < bound
      → ((j : ℕ) → hands' j ≡ hands j)
      → QueueStep bound i q hands hands' (put v) (q ++ v ∷ [])
  dequeue :
      (v : A) (r : List A)
      → q ≡ v ∷ r
      → hands i ≡ none
      → hands' i ≡ some v
      → ((j : ℕ) → i ≢ j → hands' j ≡ hands j)
      → QueueStep bound i q hands hands' took r
  hand_over :
      (v : A)
      → hands i ≡ some v
      → hands' i ≡ none
      → ((j : ℕ) → i ≢ j → hands' j ≡ hands j)
      → QueueStep bound i q hands hands' (handed v) q

-- A call of `try_pop` that returns true hands over what it has written to `val`.
abbrev pub handed_by : {A : Type 0} → Pc A → Effect A
handed_by (popped (some v)) = handed v
handed_by _ = nothing

-- The effect of a step, from where its thread stands before and after it: a push that has won `head_`
-- has put its value, a pop that has won `tail_` has taken one.
abbrev pub effect : {A : Type 0} → Pc A → Pc A → Effect A
effect p (push_copy v _) = put v
effect p (pop_copy _) = took
effect p idle = handed_by p
effect p _ = nothing

-- What a thread has in its hand: before its copy the value of its ticket, from then on what it has copied.
abbrev pub hand_of : {A : Type 0} → (ℕ → A) → Pc A → Option A
hand_of values (pop_copy t) = some (values t)
hand_of values (pop_store _ v) = some v
hand_of values (popped result) = result
hand_of values _ = none

abbrev pub hands : {A : Type 0} → System A → ℕ → Option A
hands s i = hand_of s.values (s.pc i)

-- The values of n tickets from t on.
abbrev pub window : {A : Type 0} → (ℕ → A) → ℕ → ℕ → List A
window f t zero = []
window f t (suc n) = f t ∷ window f (t + 1) n

-- The values with a push's ticket and no pop's, oldest first.
abbrev pub contents : {A : Type 0} → System A → List A
contents s = window s.values s.mem.tail (s.mem.head - s.mem.tail)

module _ {A : Type 0} where
  pub length-window : (f : ℕ → A) (t n : ℕ) → length (window f t n) ≡ n
  length-window f t zero = refl
  length-window f t (suc n) = ap suc (length-window f (t + 1) n)

  pub window_snoc :
      (f : ℕ → A) (t n u : ℕ) (v : A)
      → t + n ≡ u
      → window (update f u v) t (suc n) ≡ window f t n ++ v ∷ []
  window_snoc f t zero u v e = ground arith
  window_snoc f t (suc n) u v e =
      ap₂ ◌∷◌ (update_ne f u t v (omega arith)) (window_snoc f (t + 1) n u v (omega arith))

  window_put :
      (bound i : ℕ) (f : ℕ → A) (v : A) (lo hi u hi' : ℕ) {h h' : ℕ → Option A}
      → hi ≡ u
      → hi' ≡ hi + 1
      → lo ≤ hi
      → hi' ≤ lo + bound
      → ((j : ℕ) → h' j ≡ h j)
      → QueueStep bound i (window f lo (hi - lo)) h h' (put v) (window (update f u v) lo (hi' - lo))
  window_put bound i f v lo hi u hi' e e' order room same =
      let grown : hi' - lo ≡ suc (hi - lo) = omega arith in
      rw (grown, window_snoc f lo (hi - lo) u v (omega arith))
        (enqueue v (omega (arith, length-window f lo (hi - lo))) same)

  window_shrinks :
      (f : ℕ → A) (lo hi u lo' : ℕ)
      → lo ≡ u
      → lo' ≡ lo + 1
      → lo' ≤ hi
      → window f lo (hi - lo) ≡ f u ∷ window f lo' (hi - lo')
  window_shrinks f lo hi u lo' e e' order =
      let shrunk : hi - lo ≡ suc (hi - lo') = omega arith in rw (shrunk, e', ← e) refl

  same_hands :
      {h h' : ℕ → Option A} (i : ℕ)
      → h' i ≡ h i
      → ((j : ℕ) → i ≢ j → h' j ≡ h j)
      → (j : ℕ) → h' j ≡ h j
  same_hands {h} {h'} i own others j = elim (ℕ_discrete i j) [
    | yes here ↦ subst (λ u. h' u ≡ h u) here own
    | no other ↦ others j other
  ]

-- The state after thread i has made a step.
abbrev pub after : {A : Type 0} → System A → ℕ → Mem A → Pc A → System A
after s i m p = record { mem = m; pc = update s.pc i p; values = claim p s.values }

module _ {A : Type 0} (k : ℕ) (m : Mem A) (values : ℕ → A) where
  -- A step claims no ticket below the head.
  claim_kept :
      {p p' : Pc A} {m' : Mem A}
      → Move k m p m' p'
      → (t : ℕ) → t < m.head
      → claim p' values t ≡ values t
  claim_kept (Mpmc.push_win {val = v} {ticket = u} e) t old = update_ne values u t v (omega arith)
  claim_kept _ t old = refl

  -- So it changes no other thread's hand.
  hand_kept :
      {p p' : Pc A} {m' : Mem A}
      → Move k m p m' p'
      → m.tail ≤ m.head
      → (q : Pc A) → Knows k m values q
      → hand_of (claim p' values) q ≡ hand_of values q
  hand_kept mv order (pop_copy t) knows = ap some (claim_kept mv t (omega (arith, knows.0)))
  hand_kept mv order _ knows = refl

  Move-step :
      {p p' : Pc A} {m' : Mem A} {h h' : ℕ → Option A} (i : ℕ)
      → Move k m p m' p'
      → m.head + capacity k < 2 ^ 63
      → (m.tail ≤ m.head)
      → (m'.tail ≤ m'.head) × (m'.head ≤ m'.tail + capacity k)
      → Knows k m' (claim p' values) p'
      → h i ≡ hand_of values p
      → h' i ≡ hand_of (claim p' values) p'
      → ((j : ℕ) → i ≢ j → h' j ≡ h j)
      → QueueStep
          (capacity k)
          i
          (window values m.tail (m.head - m.tail))
          h
          h'
          (effect p p')
          (window (claim p' values) m'.tail (m'.head - m'.tail))
  Move-step i (Mpmc.push_win {val = v} {ticket = t} e) small order room knows own own' others =
      window_put (capacity k) i values v m.tail m.head t _ e (omega arith) order room.1
        (same_hands i (own' ∙ sym own) others)
  Move-step i (Mpmc.pop_win {ticket = t} e) small order room knows own own' others =
      dequeue (values t) _ (window_shrinks values m.tail m.head t _ e (omega arith) room.0) own own'
        others
  Move-step i Mpmc.pop_read small order room knows own own' others =
      stay (same_hands i (own' ∙ ap some (sym knows.2) ∙ sym own) others)
  Move-step i (Mpmc.pop_return {result = none}) small order room knows own own' others =
      stay (same_hands i (own' ∙ sym own) others)
  Move-step i (Mpmc.pop_return {result = some v}) small order room knows own own' others =
      hand_over v own own' others
  Move-step i _ small order room knows own own' others = stay (same_hands i (own' ∙ sym own) others)

module _ {A : Type 0} (k : ℕ) (two : 2 ≤ capacity k) where
  -- For N a power of two, at least 2, and any number of threads with any interleaving of single
  -- accesses to shared memory, as long as the head ticket and N stay below 2 ^ 63: each step of
  -- each thread is a step of a first-in first-out queue of at most N values, where a pop takes the
  -- oldest value into its hand, one value at most, keeps it whatever other threads do, and hands to
  -- its caller what is in its hand. The queue's values are those with a push's ticket and no pop's.
  -- What a pop hands to its caller is what it has copied out of its cell.
  pub Move-QueueStep :
      {junk : ℕ → A} {s : System A}
      → Reach k junk s
      → s.mem.head + capacity k < 2 ^ 63
      → (i : ℕ) {m : Mem A} {p : Pc A} → Move k s.mem (s.pc i) m p
      → QueueStep
          (capacity k)
          i
          (contents s)
          (hands s)
          (hands (after s i m p))
          (effect (s.pc i) p)
          (contents (after s i m p))
  Move-QueueStep {s = s} r small i {m = m} {p = p} mv =
      let inv = Reach-Inv k two r in
      let inv' = Reach-Inv k two (later r small (pick i mv)) in
      let here : update s.pc i p i ≡ p = update_self s.pc i p in
      Move-step k s.mem s.values i mv small inv.order (inv'.order, inv'.room)
        (subst (Knows k m (claim p s.values)) here (inv'.knows i)) refl
        (ap (hand_of (claim p s.values)) here)
        (λ j other.
          ap (hand_of (claim p s.values)) (update_ne s.pc i j p other)
          ∙ hand_kept k s.mem s.values mv inv.order (s.pc j) (inv.knows j))
