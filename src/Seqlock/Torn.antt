-- ===== src/Seqlock/Torn.antt =====
-- The fallback of `readHotParamsOptimistic`: after its last round it reads without a version check.
use trading_engine.Base.{
  ℕ, ◌+◌, ◌%◌, ◌^◌, ◌≤◌, ◌<◌, ◌≡◌, refl, sym, some, arith, update, ℕ_discrete, update_self, zero,
  suc,
}
use mathlib.Core.Path.{subst}
use trading_engine.Seqlock.Copied.{copy_rest}
use trading_engine.Seqlock.{
  Hot, Reader, top, fallback, returned_unchecked, Read, System, by_writer, by_reader, Reach, start,
  later, writing, start_write, copy_field, busy, give_up, read_unchecked, return_unchecked,
}

module _ {A : Type 0} (width : ℕ) (limit : ℕ) (values : ℕ → ℕ → A) where
  -- A reachable state over the shared memory `m` whose reader 0 stands at `p`.
  abbrev At : Hot A → Reader A → Type 0
  At m p = (s : System A) × Reach width (some limit) values s × (s.hot ≡ m) × (s.readers 0 ≡ p)

  step_At :
      {m : Hot A} {p q : Reader A}
      → m.version + 2 < 2 ^ 64
      → Read width (some limit) m p q
      → At m p
      → At m q
  step_At {m = m} {p = p} {q = q} small mv (s, r, same, here) = (
    record s { readers = update s.readers 0 q },
    later r (subst (λ h. h.version + 2 < 2 ^ 64) (sym same) small) (
        by_reader 0 (
          subst (λ h. Read width (some limit) h (s.readers 0) q) (sym same)
            (subst (λ p'. Read width (some limit) m p' q) (sym here) mv))),
    same,
    update_self s.readers 0 q,
  )

  busy_rounds :
      {m : Hot A} (k r : ℕ)
      → m.version + 2 < 2 ^ 64
      → m.version % 2 ≡ 1
      → r + k ≤ limit
      → At m (top r)
      → At m (top (r + k))
  busy_rounds {m = m} zero r small odd le at = subst (λ j. At m (top j)) (omega arith) at
  busy_rounds {m = m} (suc k) r small odd le at =
      subst (λ j. At m (top j)) (omega arith)
        (busy_rounds k (r + 1) small odd (omega arith) (step_At small (busy (ground arith) odd) at))

  -- The memory while the first write has copied one field of it.
  abbrev half_written : Hot A
  half_written = record { cells = update (values 0) 0 (values 1 0); version = 1 }

  half_written-At : 0 < width → At half_written (top 0)
  half_written-At some_field = (
    record { hot = half_written; writer = writing 0 1; readers = λ _. top 0 },
    later (later start (omega arith) (by_writer start_write)) (omega arith)
        (by_writer (copy_field some_field)),
    refl,
    refl,
  )

  -- For at least two fields and any bound on the rounds, there is an execution in which
  -- `readHotParamsOptimistic` returns by its fallback the first field of the second state published
  -- together with the second field of the first: a mix, and not an old state.
  pub fallback_is_torn :
      1 < width
      → (s : System A) × Reach width (some limit) values s
        × ((copy : ℕ → A) × (s.readers 0 ≡ returned_unchecked copy)
            × (copy 0 ≡ values 1 0)
            × (copy 1 ≡ values 0 1))
  unfolding ℕ_discrete
  fallback_is_torn wide =
      let rounds =
        busy_rounds limit 0 (omega arith) refl (omega arith) (half_written-At (omega arith)) in
      let given_up =
        step_At {m = half_written} (omega arith) (give_up (values 0) (ground arith)) rounds in
      let (last, at, same) =
        copy_rest width half_written.cells (λ f copy. At half_written (fallback f copy))
          (λ f copy lt at. step_At (omega arith) (read_unchecked lt) at) width 0 (values 0)
          (omega arith) (λ g lt. absurd (omega arith)) given_up in
      let (s, r, hot, here) = step_At (omega arith) (return_unchecked refl) at in
      (s, r, (last, here, same 0 (omega arith), same 1 wide))
