-- ===== src/Seqlock/Acquired.antt =====
-- The optimistic reads of include/chronos/market_data/orderbook_v2.hpp and include/chronos/risk/risk_engine.hpp
-- by the order that their loads with acquire ask for. A load with acquire comes before all accesses after
-- it, but an earlier plain load may come after it: so the fields may be loaded after the second version.
use trading_engine.Base.{
  ℕ, ◌+◌, ◌%◌, ◌<◌, ◌≡◌, ◌≢◌, refl, sym, true, Option, arith, update, ℕ_discrete, update_self,
}
use mathlib.Core.Path.{subst}
use trading_engine.Seqlock.Copied.{copy_rest}
use trading_engine.Seqlock.{Hot, Writer, resting, Write, start_write, copy_field, may_retry}

-- A reader, before and after its second load of the version.
pub data AcquireReader (A : Type 0) : Type 0 where
  top : (retry : ℕ) → AcquireReader A
  reading : (retry seen field : ℕ) (copy : ℕ → A) → AcquireReader A
  rechecked : (retry seen again field : ℕ) (copy : ℕ → A) → AcquireReader A
  returned : (copy : ℕ → A) → AcquireReader A

pub record AcquireSystem (A : Type 0) : Type 0 where
  pub hot : Hot A
  pub writer : Writer
  pub readers : ℕ → AcquireReader A

module _ {A : Type 0} (width : ℕ) (limit : Option ℕ) (m : Hot A) where
  -- The rounds of the loop; what follows its end is left out.
  pub data AcquireRead : AcquireReader A → AcquireReader A → Type 0 where
    busy :
        {r : ℕ} → may_retry limit r ≡ true → m.version % 2 ≡ 1 → AcquireRead (top r) (top (r + 1))
    begin :
        {r : ℕ} (junk : ℕ → A)
        → may_retry limit r ≡ true
        → m.version % 2 ≡ 0
        → AcquireRead (top r) (reading r m.version 0 junk)
    read_field :
        {r v f : ℕ} {copy : ℕ → A}
        → f < width
        → AcquireRead (reading r v f copy) (reading r v (f + 1) (update copy f (m.cells f)))
    recheck :
        {r v f : ℕ} {copy : ℕ → A}
        → AcquireRead (reading r v f copy) (rechecked r v m.version f copy)
    read_late :
        {r v again f : ℕ} {copy : ℕ → A}
        → f < width
        → AcquireRead
            (rechecked r v again f copy)
            (rechecked r v again (f + 1) (update copy f (m.cells f)))
    accept :
        {r v again f : ℕ} {copy : ℕ → A}
        → f ≡ width
        → v ≡ again
        → AcquireRead (rechecked r v again f copy) (returned copy)
    changed :
        {r v again f : ℕ} {copy : ℕ → A}
        → f ≡ width
        → v ≢ again
        → AcquireRead (rechecked r v again f copy) (top (r + 1))

module _ {A : Type 0} (width : ℕ) (limit : Option ℕ) (values : ℕ → ℕ → A) where
  pub data AcquireStep (s : AcquireSystem A) : AcquireSystem A → Type 0 where
    by_writer :
        {m : Hot A} {p : Writer}
        → Write width values s.hot s.writer m p
        → AcquireStep s (record s { hot = m; writer = p })
    by_reader :
        (i : ℕ) {p : AcquireReader A}
        → AcquireRead width limit s.hot (s.readers i) p
        → AcquireStep s (record s { readers = update s.readers i p })

  abbrev pub acquire_start : AcquireSystem A
  acquire_start = record {
    hot = record { cells = values 0; version = 0 };
    writer = resting 0;
    readers = λ _. top 0;
  }

  pub data AcquireReach : AcquireSystem A → Type 0 where
    start : AcquireReach acquire_start
    later : {s t : AcquireSystem A} → AcquireReach s → AcquireStep s t → AcquireReach t

  -- A reachable state over the shared memory `m` whose reader 0 stands at `p`.
  abbrev At : Hot A → AcquireReader A → Type 0
  At m p = (s : AcquireSystem A) × AcquireReach s × (s.hot ≡ m) × (s.readers 0 ≡ p)

  step_At : {m : Hot A} {p q : AcquireReader A} → AcquireRead width limit m p q → At m p → At m q
  step_At {m = m} {p = p} {q = q} mv (s, r, same, here) = (
    record s { readers = update s.readers 0 q },
    later r (
        by_reader 0 (
          subst (λ h. AcquireRead width limit h (s.readers 0) q) (sym same)
            (subst (λ p'. AcquireRead width limit m p' q) (sym here) mv))),
    same,
    update_self s.readers 0 q,
  )

  -- The reader has loaded both versions, and then the first write has come to its first field.
  abbrev written : Hot A
  written = record { cells = update (values 0) 0 (values 1 0); version = 1 }

  written-At : 0 < width → may_retry limit 0 ≡ true → At written (rechecked 0 0 0 0 (values 0))
  unfolding ℕ_discrete
  written-At some_field admitted =
      let begun = later start (by_reader 0 (begin (values 0) admitted refl)) in
      let both = later begun (by_reader 0 recheck) in
      let marked = later both (by_writer start_write) in
      (_, later marked (by_writer (copy_field some_field)), refl, refl)

  -- For at least two fields and a bound that admits a round: if the loads of a read come in an
  -- order that only their acquire orderings restrict, there is an execution, with a writer that
  -- stores in program order, in which a reader returns, after its version check, the first field of
  -- the second state published together with the second field of the first.
  pub late_read_is_torn :
      1 < width
      → may_retry limit 0 ≡ true
      → (s : AcquireSystem A) × AcquireReach s
        × ((copy : ℕ → A) × (s.readers 0 ≡ returned copy)
            × (copy 0 ≡ values 1 0)
            × (copy 1 ≡ values 0 1))
  unfolding ℕ_discrete
  late_read_is_torn wide admitted =
      let (last, at, same) =
        copy_rest width written.cells (λ f copy. At written (rechecked 0 0 0 f copy))
          (λ f copy lt at. step_At (read_late lt) at) width 0 (values 0) (omega arith)
          (λ g lt. absurd (omega arith)) (written-At (omega arith) admitted) in
      let (s, r, hot, here) = step_At (accept refl refl) at in
      (s, r, (last, here, same 0 (omega arith), same 1 wide))
