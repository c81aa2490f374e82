-- ===== src/Seqlock/Released.antt =====
-- The write of `publishParams` of include/chronos/risk/risk_engine.hpp by the order that its stores with
-- release ask for. A store with release comes after all accesses before it, but a later plain access may come
-- before it: so the copies of the fields may come to memory before the odd version does. Readers load in program order.
use trading_engine.Base.{
  ℕ, ◌+◌, ◌<◌, ◌≡◌, refl, sym, Bool, true, false, Option, arith, update, ℕ_discrete, update_self,
}
use mathlib.Core.Path.{subst}
use trading_engine.Seqlock.Copied.{copy_rest}
use trading_engine.Seqlock.{
  Hot, bump, Reader, top, reading, returned, Read, begin, read_field, accept, may_retry,
}

-- The writer, with whether its odd version has come to memory.
pub data ReleaseWriter : Type 0 where
  resting : (done : ℕ) → ReleaseWriter
  writing : (done : ℕ) (field : ℕ) (marked : Bool) → ReleaseWriter

pub record ReleaseSystem (A : Type 0) : Type 0 where
  pub hot : Hot A
  pub writer : ReleaseWriter
  pub readers : ℕ → Reader A

module _ {A : Type 0} (width : ℕ) (values : ℕ → ℕ → A) where
  -- The stores of one write come to memory in program order, but the first, of the odd version, at any time
  -- before the last, which is to the same atomic.
  pub data ReleaseWrite (m : Hot A) : ReleaseWriter → Hot A → ReleaseWriter → Type 0 where
    set_out : {j : ℕ} → ReleaseWrite m (resting j) m (writing j 0 false)
    mark :
        {j f : ℕ}
        → ReleaseWrite m
            (writing j f false)
            (record m { version = bump m.version })
            (writing j f true)
    copy_field :
        {j f : ℕ} {marked : Bool}
        → f < width
        → ReleaseWrite m
            (writing j f marked)
            (record m { cells = update m.cells f (values (j + 1) f) })
            (writing j (f + 1) marked)
    end_write :
        {j f : ℕ}
        → f ≡ width
        → ReleaseWrite m
            (writing j f true)
            (record m { version = bump m.version })
            (resting (j + 1))

module _ {A : Type 0} (width : ℕ) (limit : Option ℕ) (values : ℕ → ℕ → A) where
  pub data ReleaseStep (s : ReleaseSystem A) : ReleaseSystem A → Type 0 where
    by_writer :
        {m : Hot A} {p : ReleaseWriter}
        → ReleaseWrite width values s.hot s.writer m p
        → ReleaseStep s (record s { hot = m; writer = p })
    by_reader :
        (i : ℕ) {p : Reader A}
        → Read width limit s.hot (s.readers i) p
        → ReleaseStep s (record s { readers = update s.readers i p })

  abbrev pub release_start : ReleaseSystem A
  release_start = record {
    hot = record { cells = values 0; version = 0 };
    writer = resting 0;
    readers = λ _. top 0;
  }

  pub data ReleaseReach : ReleaseSystem A → Type 0 where
    start : ReleaseReach release_start
    later : {s t : ReleaseSystem A} → ReleaseReach s → ReleaseStep s t → ReleaseReach t

  -- A reachable state over the shared memory `m` whose reader 0 stands at `p`.
  abbrev At : Hot A → Reader A → Type 0
  At m p = (s : ReleaseSystem A) × ReleaseReach s × (s.hot ≡ m) × (s.readers 0 ≡ p)

  step_At : {m : Hot A} {p q : Reader A} → Read width limit m p q → At m p → At m q
  step_At {m = m} {p = p} {q = q} mv (s, r, same, here) = (
    record s { readers = update s.readers 0 q },
    later r (
        by_reader 0 (
          subst (λ h. Read width limit h (s.readers 0) q) (sym same)
            (subst (λ p'. Read width limit m p' q) (sym here) mv))),
    same,
    update_self s.readers 0 q,
  )

  -- The first field of the first write has come to memory, and the odd version has not.
  abbrev overtaken : Hot A
  overtaken = record { cells = update (values 0) 0 (values 1 0); version = 0 }

  overtaken-At : 0 < width → At overtaken (top 0)
  overtaken-At some_field = (
    record { hot = overtaken; writer = writing 0 1 false; readers = λ _. top 0 },
    later (later start (by_writer set_out)) (by_writer (copy_field some_field)),
    refl,
    refl,
  )

  -- For at least two fields and a bound that admits a round: if the stores of a write come to
  -- memory in an order that only their release orderings restrict, there is an execution in which a
  -- reader returns, after its version check, the first field of the second state published together
  -- with the second field of the first.
  pub checked_read_is_torn :
      1 < width
      → may_retry limit 0 ≡ true
      → (s : ReleaseSystem A) × ReleaseReach s
        × ((copy : ℕ → A) × (s.readers 0 ≡ returned copy)
            × (copy 0 ≡ values 1 0)
            × (copy 1 ≡ values 0 1))
  unfolding ℕ_discrete
  checked_read_is_torn wide admitted =
      let began =
        step_At {m = overtaken} (begin (values 0) admitted refl) (overtaken-At (omega arith)) in
      let (last, at, same) =
        copy_rest width overtaken.cells (λ f copy. At overtaken (reading 0 0 f copy))
          (λ f copy lt at. step_At (read_field lt) at) width 0 (values 0) (omega arith)
          (λ g lt. absurd (omega arith)) began in
      let (s, r, hot, here) = step_At (accept refl refl) at in
      (s, r, (last, here, same 0 (omega arith), same 1 wide))
