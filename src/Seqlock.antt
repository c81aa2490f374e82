-- ===== src/Seqlock.antt =====
-- The sequence lock over hot data: `readHotDataOptimistic` of include/chronos/market_data/orderbook_v2.hpp,
-- `readHotParamsOptimistic` of include/chronos/risk/risk_engine.hpp, and the write of `publishParams`
-- there, one access of shared memory to a step.
pub mod Invariant
pub mod Retries
mod Copied
pub mod Torn
pub mod Released
pub mod Acquired
pub mod Writes
mod Tests
use trading_engine.Base.{
  ℕ, ◌+◌, ◌%◌, ◌^◌, ◌<◌, ◌≡◌, ◌≢◌, Bool, true, false, Option, none, some, ltb, update,
}

-- The hot structure: its data fields by index, and the version counter. An odd version means that a
-- write is in progress.
pub record Hot (A : Type 0) : Type 0 where
  pub cells : ℕ → A
  pub version : ℕ

-- `version.store(version.load() + 1)`
abbrev pub bump : ℕ → ℕ
bump v = (v + 1) % 2 ^ 64

-- The writer, with the number of writes that it has finished and the next field that its `memcpy` copies.
pub data Writer : Type 0 where
  resting : (done : ℕ) → Writer
  writing : (done : ℕ) (field : ℕ) → Writer

-- A reader: `retry` counts the rounds, `seen` is the version loaded first, `copy` what `func` has read.
pub data Reader (A : Type 0) : Type 0 where
  top : (retry : ℕ) → Reader A
  reading : (retry seen field : ℕ) (copy : ℕ → A) → Reader A
  returned : (copy : ℕ → A) → Reader A
  fallback : (field : ℕ) (copy : ℕ → A) → Reader A
  returned_unchecked : (copy : ℕ → A) → Reader A

-- `retry < MAX_RETRIES`; the reader of the order book has no such bound.
abbrev pub may_retry : Option ℕ → ℕ → Bool
may_retry none retry = true
may_retry (some limit) retry = ltb retry limit

-- `MAX_RETRIES` of `readHotParamsOptimistic`.
abbrev pub max_retries : ℕ
max_retries = 100

module _ {A : Type 0} (width : ℕ) (values : ℕ → ℕ → A) where
  -- `values j` is what the j-th write publishes; `values 0` stands there at the start.
  pub data Write (m : Hot A) : Writer → Hot A → Writer → Type 0 where
    start_write :
        {j : ℕ} → Write m (resting j) (record m { version = bump m.version }) (writing j 0)
    copy_field :
        {j f : ℕ}
        → f < width
        → Write m
            (writing j f)
            (record m { cells = update m.cells f (values (j + 1) f) })
            (writing j (f + 1))
    end_write :
        {j f : ℕ}
        → f ≡ width
        → Write m (writing j f) (record m { version = bump m.version }) (resting (j + 1))

module _ {A : Type 0} (width : ℕ) (limit : Option ℕ) (m : Hot A) where
  pub data Read : Reader A → Reader A → Type 0 where
    busy : {r : ℕ} → may_retry limit r ≡ true → m.version % 2 ≡ 1 → Read (top r) (top (r + 1))
    begin :
        {r : ℕ} (junk : ℕ → A)
        → may_retry limit r ≡ true
        → m.version % 2 ≡ 0
        → Read (top r) (reading r m.version 0 junk)
    read_field :
        {r v f : ℕ} {copy : ℕ → A}
        → f < width
        → Read (reading r v f copy) (reading r v (f + 1) (update copy f (m.cells f)))
    accept :
        {r v f : ℕ} {copy : ℕ → A}
        → f ≡ width
        → v ≡ m.version
        → Read (reading r v f copy) (returned copy)
    changed :
        {r v f : ℕ} {copy : ℕ → A}
        → f ≡ width
        → v ≢ m.version
        → Read (reading r v f copy) (top (r + 1))
    give_up : {r : ℕ} (junk : ℕ → A) → may_retry limit r ≡ false → Read (top r) (fallback 0 junk)
    read_unchecked :
        {f : ℕ} {copy : ℕ → A}
        → f < width
        → Read (fallback f copy) (fallback (f + 1) (update copy f (m.cells f)))
    return_unchecked :
        {f : ℕ} {copy : ℕ → A} → f ≡ width → Read (fallback f copy) (returned_unchecked copy)

-- One writer and any number of readers.
pub record System (A : Type 0) : Type 0 where
  pub hot : Hot A
  pub writer : Writer
  pub readers : ℕ → Reader A

module _ {A : Type 0} (width : ℕ) (limit : Option ℕ) (values : ℕ → ℕ → A) where
  pub data Step (s : System A) : System A → Type 0 where
    by_writer :
        {m : Hot A} {p : Writer}
        → Write width values s.hot s.writer m p
        → Step s (record s { hot = m; writer = p })
    by_reader :
        (i : ℕ) {p : Reader A}
        → Read width limit s.hot (s.readers i) p
        → Step s (record s { readers = update s.readers i p })

  -- Nothing is published yet beyond the first values, and every reader is about to read.
  abbrev pub start_of : System A
  start_of = record {
    hot = record { cells = values 0; version = 0 };
    writer = resting 0;
    readers = λ _. top 0;
  }

  -- Executions in which the version does not wrap.
  pub data Reach : System A → Type 0 where
    start : Reach start_of
    later : {s t : System A} → Reach s → s.hot.version + 2 < 2 ^ 64 → Step s t → Reach t
