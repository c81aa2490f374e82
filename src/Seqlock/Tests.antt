-- ===== src/Seqlock/Tests.antt =====
-- Reads of two fields: one after a whole write, one in the fallback.
use trading_engine.Base.{ℕ, ◌+◌, ◌*◌, ◌≤◌, ◌<◌, ◌≡◌, refl, none, some, arith, ℕ_discrete}
use trading_engine.Seqlock.{
  reading, returned, returned_unchecked, System, by_writer, by_reader, Reach, start, later,
  start_write, copy_field, end_write, begin, read_field, accept, max_retries,
}
use trading_engine.Seqlock.Acquired.{AcquireReader, AcquireSystem, AcquireReach, late_read_is_torn}
use trading_engine.Seqlock.Invariant.{read_consistent}
use trading_engine.Seqlock.Released.{ReleaseSystem, ReleaseReach, checked_read_is_torn}
use trading_engine.Seqlock.Torn.{fallback_is_torn}
use trading_engine.Seqlock.Retries.{read_returns, no_access, one_more, CanGoOn}

-- The j-th state published.
abbrev prices : ℕ → ℕ → ℕ
prices j f = 10 * j + f

-- A reader that starts after the first write has ended.
one_write :
    (s : System ℕ) × Reach 2 none prices s × ((copy : ℕ → ℕ) × (s.readers 0 ≡ returned copy))
unfolding ℕ_discrete
one_write =
    let written =
      later
        (later
          (later (later start (omega arith) (by_writer start_write)) (omega arith)
            (by_writer (copy_field (omega arith))))
          (omega arith) (by_writer (copy_field (omega arith))))
        (omega arith) (by_writer (end_write refl)) in
    let began = later written (omega arith) (by_reader 0 (begin (λ _. 0) refl refl)) in
    let first = later began (omega arith) (by_reader 0 (read_field (omega arith))) in
    let second = later first (omega arith) (by_reader 0 (read_field (omega arith))) in
    let run = later second (omega arith) (by_reader 0 (accept refl refl)) in (_, run, (_, refl))

read_consistent_example :
    (j : ℕ) × (2 * j ≤ one_write.0.hot.version) × ((f : ℕ) → f < 2 → one_write.2.0 f ≡ prices j f)
read_consistent_example = read_consistent 2 prices one_write.1 0 one_write.2.1

fallback_is_torn_example :
    (s : System ℕ) × Reach 5 (some max_retries) prices s
    × ((copy : ℕ → ℕ) × (s.readers 0 ≡ returned_unchecked copy)
        × (copy 0 ≡ prices 1 0)
        × (copy 1 ≡ prices 0 1))
fallback_is_torn_example = fallback_is_torn 5 max_retries prices (omega arith)

read_returns_example :
    (1 ≤ max_retries * (5 + 2) + (5 + 3)) × CanGoOn 5 max_retries (reading 0 0 0 (prices 0))
read_returns_example =
    read_returns 5 max_retries
      (one_more (record { cells = prices 0; version = 0 }) no_access (begin (prices 0) refl refl))

checked_read_is_torn_example :
    (s : ReleaseSystem ℕ) × ReleaseReach 5 (some max_retries) prices s
    × ((copy : ℕ → ℕ) × (s.readers 0 ≡ returned copy)
        × (copy 0 ≡ prices 1 0)
        × (copy 1 ≡ prices 0 1))
checked_read_is_torn_example = checked_read_is_torn 5 (some max_retries) prices (omega arith) refl

late_read_is_torn_example :
    (s : AcquireSystem ℕ) × AcquireReach 5 (some max_retries) prices s
    × ((copy : ℕ → ℕ) × (s.readers 0 ≡ AcquireReader.returned copy)
        × (copy 0 ≡ prices 1 0)
        × (copy 1 ≡ prices 0 1))
late_read_is_torn_example = late_read_is_torn 5 (some max_retries) prices (omega arith) refl
