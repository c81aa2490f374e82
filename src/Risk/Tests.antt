-- ===== src/Risk/Tests.antt =====
-- A publication of new parameters.
use trading_engine.Base.{ℕ, zero, suc, ◌*◌, ◌≤◌, ◌<◌, ◌≡◌, refl, some, arith, ℕ_discrete}
use trading_engine.Base.Int.{pos}
use trading_engine.Core.Whole.{whole}
use trading_engine.Config.{RiskParameters, default_risk_parameters}
use trading_engine.Risk.{RiskEngine, HotParams, converted, publish_params}
use trading_engine.Seqlock.{
  Hot, resting, returned, System, by_writer, by_reader, Reach, start, later, start_write,
  copy_field, end_write, begin, read_field, accept, max_retries,
}
use trading_engine.Seqlock.Writes.{Writes}
use trading_engine.Risk.Accesses.{
  IsHistory, Word, rate, word, Represents, published, publish_params-Writes, reader_sees_published,
}
use trading_engine.Risk.Publish.{IsSplit, readers_on_0}

abbrev old : RiskParameters whole
old = default_risk_parameters whole

abbrev new : RiskParameters whole
new = record old { max_order_value = pos 7; max_orders_per_second = 3 }

abbrev hot_of : RiskParameters whole → ℕ → HotParams whole
hot_of p version = record { limits = converted whole p; version = version }

abbrev about_to_publish : RiskEngine whole
about_to_publish = record {
  hot_params = hot_of old 4;
  cold_0 = record { params = old; hot = hot_of old 3; update_time_us = 0 };
  cold_1 = record { params = new; hot = hot_of old 1; update_time_us = 0 };
  active_cold = 0;
  write_idx = 1;
}

abbrev split : IsSplit whole about_to_publish
split = readers_on_0 refl refl

-- Parameters are published again and again, in turn those of the two buffers.
abbrev at_start : RiskEngine whole
at_start = record about_to_publish { hot_params = hot_of old 0 }

abbrev steady : ℕ → RiskEngine whole
steady zero = at_start
steady (suc j) = publish_params whole (steady j)

abbrev steady-IsHistory : IsHistory whole steady
steady-IsHistory = record {
  split = readers_on_0 refl refl;
  fresh = refl;
  same_hot = λ j. refl;
  same_readers = λ j. refl;
  same_writer = λ j. refl;
}

publish_params-Writes_example :
    (m : Hot (Word whole)) × Writes 5
      (published whole steady)
      (record { cells = published whole steady 0; version = 0 })
      (resting 0)
      m
      (resting 2)
    × Represents whole m (steady 2).hot_params
publish_params-Writes_example = publish_params-Writes whole steady-IsHistory 2

-- The first publication, access by access, and a reader behind it.
abbrev Run : System (Word whole) → Type 0
Run s = Reach 5 (some max_retries) (published whole steady) s

one_read :
    (s : System (Word whole)) × Run s × ((copy : ℕ → Word whole) × (s.readers 0 ≡ returned copy))
unfolding ℕ_discrete
one_read =
    let start_1 = later start (omega arith) (by_writer start_write) in
    let copy_0 = later start_1 (omega arith) (by_writer (copy_field (omega arith))) in
    let copy_1 = later copy_0 (omega arith) (by_writer (copy_field (omega arith))) in
    let copy_2 = later copy_1 (omega arith) (by_writer (copy_field (omega arith))) in
    let copy_3 = later copy_2 (omega arith) (by_writer (copy_field (omega arith))) in
    let copy_4 = later copy_3 (omega arith) (by_writer (copy_field (omega arith))) in
    let end_1 = later copy_4 (omega arith) (by_writer (end_write refl)) in
    let began = later end_1 (omega arith) (by_reader 0 (begin (λ _. rate 0) refl refl)) in
    let read_0 = later began (omega arith) (by_reader 0 (read_field (omega arith))) in
    let read_1 = later read_0 (omega arith) (by_reader 0 (read_field (omega arith))) in
    let read_2 = later read_1 (omega arith) (by_reader 0 (read_field (omega arith))) in
    let read_3 = later read_2 (omega arith) (by_reader 0 (read_field (omega arith))) in
    let read_4 = later read_3 (omega arith) (by_reader 0 (read_field (omega arith))) in
    let run = later read_4 (omega arith) (by_reader 0 (accept refl refl)) in (_, run, (_, refl))

reader_sees_published_example :
    (j : ℕ) × (2 * j ≤ one_read.0.hot.version)
    × ((f : ℕ) → f < 5 → one_read.2.0 f ≡ word whole (steady j).hot_params.limits f)
reader_sees_published_example =
    reader_sees_published whole steady-IsHistory one_read.1 0 one_read.2.1
