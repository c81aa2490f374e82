-- ===== src/Seqlock/Retries.antt =====
-- The rounds of `readHotParamsOptimistic` of include/chronos/risk/risk_engine.hpp.
use trading_engine.Base.{
  ℕ, ◌+◌, ◌-◌, ◌*◌, ◌%◌, ◌≤◌, ◌<◌, ◌≡◌, ◌⊎◌, inl, inr, ◌∙◌, ap, some, arith, update, ℕ_discrete,
  dec_lt,
}
use trading_engine.Seqlock.{
  Hot, Reader, top, reading, returned, fallback, returned_unchecked, Read, busy, begin, read_field,
  accept, changed, give_up, read_unchecked, return_unchecked,
}

-- The reader has come to a `return`.
abbrev pub HasReturned : {A : Type 0} → Reader A → Type 0
HasReturned (returned copy) = Unit
HasReturned (returned_unchecked copy) = Unit
HasReturned _ = ⊥

-- A round takes one off the rounds that are left.
one_round :
    (width limit r : ℕ)
    → r < limit
    → (limit - r) * (width + 2) ≡ (limit - (r + 1)) * (width + 2) + (width + 2)
one_round width limit r lt =
    let split : limit - r ≡ limit - (r + 1) + 1 = omega arith in
    ap (λ n. n * (width + 2)) split ∙ grind arith

module _ {A : Type 0} (width limit : ℕ) where
  -- No field past the last is to be read, and a round that is under way is one of the `limit` ones.
  abbrev pub InRange : Reader A → Type 0
  InRange (reading r v f copy) = (f ≤ width) × (r < limit)
  InRange (fallback f copy) = f ≤ width
  InRange _ = Unit

  -- An upper bound on the loads that are left.
  abbrev pub loads_left : Reader A → ℕ
  loads_left (top r) = (limit - r) * (width + 2) + (width + 3)
  loads_left (reading r v f copy) = (limit - (r + 1)) * (width + 2) + (width + 3) + (width - f) + 1
  loads_left (fallback f copy) = width - f + 1
  loads_left _ = 0

  -- Each access brings the read nearer to its end.
  Read-loads_left :
      {m : Hot A} {p q : Reader A}
      → Read width (some limit) m p q
      → InRange p
      → (loads_left q < loads_left p) × InRange q
  Read-loads_left (busy {r} more odd) g =
      let round = one_round width limit r (ground arith) in (omega arith, tt)
  Read-loads_left (begin {r} junk more even) g =
      let lt : r < limit = ground arith in
      let round = one_round width limit r lt in (omega arith, (omega arith, lt))
  Read-loads_left (read_field lt) g = (omega arith, (omega arith, g.1))
  Read-loads_left (accept end same) g = (omega arith, tt)
  Read-loads_left (changed {r} end other) g = (omega arith, tt)
  Read-loads_left (give_up {r} junk more) g = (omega arith, omega arith)
  Read-loads_left (read_unchecked lt) g = (omega arith, omega arith)
  Read-loads_left (return_unchecked end) g = (omega arith, tt)

  -- The read is at a `return`, or its next access is possible on any memory.
  abbrev pub CanGoOn : Reader A → Type 0
  CanGoOn p = HasReturned p ⊎ ((m : Hot A) → (q : Reader A) × Read width (some limit) m p q)

  go_on : (p : Reader A) → InRange p → CanGoOn p
  go_on (top r) g = inr (λ m. elim (dec_lt r limit) [
    | yes more ↦ elim (ℕ_discrete (m.version % 2) 1) [
      | yes odd ↦ (top (r + 1), busy (ground arith) odd)
      | no even ↦ (reading r m.version 0 m.cells, begin m.cells (ground arith) (omega arith))
    ]
    | no never ↦ (fallback 0 m.cells, give_up m.cells (ground arith))
  ])
  go_on (reading r v f copy) g = inr (λ m. elim (dec_lt f width) [
    | yes more ↦ (reading r v (f + 1) (update copy f (m.cells f)), read_field more)
    | no never ↦ elim (ℕ_discrete v m.version) [
      | yes same ↦ (returned copy, accept (omega arith) same)
      | no other ↦ (top (r + 1), changed (omega arith) other)
    ]
  ])
  go_on (fallback f copy) g = inr (λ m. elim (dec_lt f width) [
    | yes more ↦ (fallback (f + 1) (update copy f (m.cells f)), read_unchecked more)
    | no never ↦ (returned_unchecked copy, return_unchecked (omega arith))
  ])
  go_on (returned copy) g = inl tt
  go_on (returned_unchecked copy) g = inl tt

  -- A run of accesses of one reader; between them, other threads may change the memory in any way.
  pub data Reads : ℕ → Reader A → Type 0 where
    no_access : Reads 0 (top 0)
    one_more :
        {k : ℕ} {p q : Reader A} (m : Hot A)
        → Reads k p
        → Read width (some limit) m p q
        → Reads (k + 1) q

  Reads-loads_left :
      {k : ℕ} {p : Reader A}
      → Reads k p
      → (k + loads_left p ≤ limit * (width + 2) + (width + 3)) × InRange p
  Reads-loads_left no_access =
      let start : limit - 0 ≡ limit = omega arith in
      let bound = ap (λ n. n * (width + 2)) start in (omega arith, tt)
  Reads-loads_left (one_more m run mv) =
      let before = Reads-loads_left run in
      let after = Read-loads_left mv before.1 in (omega arith, after.1)

  -- With `limit` rounds and `width` fields, a read that has made k accesses and loop tests, while
  -- the memory changed in any way between them, has k at most limit * (width + 2) + width + 3, and
  -- it has returned or has a next access on any memory.
  pub read_returns :
      {k : ℕ} {p : Reader A} → Reads k p → (k ≤ limit * (width + 2) + (width + 3)) × CanGoOn p
  read_returns {p = p} run = let left = Reads-loads_left run in (omega arith, go_on p left.1)
