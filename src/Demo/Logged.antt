-- ===== src/Demo/Logged.antt =====
-- The log buffers after the records of tools/generate_demo_logs.cpp, if nothing has been flushed.
use trading_engine.Base.{
  ℕ, zero, suc, ◌+◌, ◌*◌, ◌^◌, ◌≤◌, ◌<◌, ◌≡◌, ◌∙◌, refl, sym, true, some, List, [], ◌∷◌, ◌++◌, map,
  arith, length, All,
}
use mathlib.Core.Path.{subst}
use trading_engine.Base.Int.{ℤ}
use trading_engine.Core.Numbers.{Numbers}
use trading_engine.Core.Structs.{Tick, OrderRequest, Fill}
use trading_engine.Layout.Raw.{IsRaw64, raw_tick, raw_order, raw_fill}
use trading_engine.Layout.Readers.{IsTick, IsOrder, IsFill}
use trading_engine.Layout.Codec
use trading_engine.Layout.Codec.{Codec}
use trading_engine.Log.{LogBuffer}
use trading_engine.Log.Append.{IsBuffer}
use trading_engine.Log.Records.{append_all, read_records, read_records-append_fitting}
use trading_engine.Demo.{
  Call, write_tick, flush, stop, main, write_ticks, write_orders, write_fills, demo_tick,
  demo_order, demo_fill, demo_log_config,
}
use trading_engine.Demo.Laws.{orders, fills, skip_ticks, fills_past_orders}

-- So many records, all of them in the ranges of their members' types.
abbrev AreRecords : (c : Codec) → ℕ → List c.Record → Type 0
AreRecords c k rs = (length rs ≡ k) × All c.IsRecord rs

-- An empty buffer takes the k records, and they are read back from it.
abbrev pub IsLogged : (c : Codec) → LogBuffer → ℕ → List c.Record → Type 0
IsLogged c buf k rs =
    ((append_all c buf rs).write_pos ≡ k * c.size)
    × (read_records c k (append_all c buf rs).data_ ≡ some rs)

AreRecords-IsLogged :
    (c : Codec) (buf : LogBuffer) (k : ℕ) (rs : List c.Record)
    → IsBuffer buf
    → buf.write_pos ≡ 0
    → k * c.size ≤ length buf.data_
    → AreRecords c k rs
    → IsLogged c buf k rs
AreRecords-IsLogged c buf k rs h at room (count, records) =
    subst (λ j. IsLogged c buf j rs) count
      (read_records-append_fitting c buf rs h at records
        (subst (λ j. j * c.size ≤ length buf.data_) (sym count) room))

module _ (n : Numbers) where
  open n use {Decimal}

  -- The ticks that are written.
  abbrev pub ticks : List (Call n) → List (Tick Decimal)
  ticks [] = []
  ticks (write_tick t ∷ cs) = t ∷ ticks cs
  ticks (_ ∷ cs) = ticks cs

  -- The ticks come before all else, and the orders before the fills.
  abbrev tail : List (Call n)
  tail = flush ∷ stop ∷ []

  no_ticks_in_fills : (rounds i : ℕ) → ticks (write_fills n rounds i ++ tail) ≡ []
  no_ticks_in_fills zero i = refl
  no_ticks_in_fills (suc rounds) i = no_ticks_in_fills rounds (i + 1)

  no_ticks_in_orders :
      (rounds i : ℕ) (cs : List (Call n))
      → ticks cs ≡ []
      → ticks (write_orders n rounds i ++ cs) ≡ []
  no_ticks_in_orders zero i cs h = h
  no_ticks_in_orders (suc rounds) i cs h = no_ticks_in_orders rounds (i + 1) cs h

  no_orders_in_fills : (rounds i : ℕ) → orders n (write_fills n rounds i ++ tail) ≡ []
  no_orders_in_fills zero i = refl
  no_orders_in_fills (suc rounds) i = no_orders_in_fills rounds (i + 1)

  -- What is in memory of the records that the generator writes.
  abbrev pub all_ticks : List (Tick ℤ)
  all_ticks = map (raw_tick n) (ticks (main n true).1)

  abbrev pub all_orders : List (OrderRequest ℤ)
  all_orders = map (raw_order n) (orders n (main n true).1)

  abbrev pub all_fills : List (Fill ℤ)
  all_fills = map (raw_fill n) (fills n (main n true).1)

  module _ (fits : IsRaw64 n) where
    demo_tick-IsTick : (i : ℕ) → i < 2 ^ 32 → IsTick (raw_tick n (demo_tick n i))
    demo_tick-IsTick i h = (
      (omega arith, omega arith),
      (omega arith, omega arith),
      (fits _, fits _),
      omega arith,
      refl,
    )

    demo_order-IsOrder : (i : ℕ) → i < 2 ^ 32 → IsOrder (raw_order n (demo_order n i))
    demo_order-IsOrder i h = (
      (omega arith, omega arith, fits _, fits _, fits _, omega arith),
      (omega arith, omega arith, omega arith),
      omega arith,
      refl,
    )

    demo_fill-IsFill : (i : ℕ) → i < 2 ^ 32 → IsFill (raw_fill n (demo_fill n i))
    demo_fill-IsFill i h = (
      (omega arith, omega arith, omega arith, omega arith, omega arith),
      (fits _, fits _),
      (omega arith, omega arith, omega arith),
      omega arith,
      refl,
    )

    written_ticks :
        (rounds i : ℕ) (cs : List (Call n))
        → ticks cs ≡ []
        → i + rounds ≤ 2 ^ 32
        → AreRecords Codec.ticks rounds (map (raw_tick n) (ticks (write_ticks n rounds i ++ cs)))
    written_ticks zero i cs none_left h = rw none_left (refl, tt)
    written_ticks (suc rounds) i cs none_left h =
        let (count, records) = written_ticks rounds (i + 1) cs none_left (omega arith) in
        (omega arith, (demo_tick-IsTick i (omega arith), records))

    written_orders :
        (rounds i : ℕ) (cs : List (Call n))
        → orders n cs ≡ []
        → i + rounds ≤ 2 ^ 32
        → AreRecords Codec.orders rounds
            (map (raw_order n) (orders n (write_orders n rounds i ++ cs)))
    written_orders zero i cs none_left h = rw none_left (refl, tt)
    written_orders (suc rounds) i cs none_left h =
        let (count, records) = written_orders rounds (i + 1) cs none_left (omega arith) in
        (omega arith, (demo_order-IsOrder i (omega arith), records))

    written_fills :
        (rounds i : ℕ)
        → i + rounds ≤ 2 ^ 32
        → AreRecords Codec.fills rounds
            (map (raw_fill n) (fills n (write_fills n rounds i ++ tail)))
    written_fills zero i h = (refl, tt)
    written_fills (suc rounds) i h =
        let (count, records) = written_fills rounds (i + 1) (omega arith) in
        (omega arith, (demo_fill-IsFill i (omega arith), records))

    -- If the raw values of decimals are in the range of `int64_t` and the log opens: of the records
    -- that the generator writes, the thousand ticks, the fifty orders and the thirty fills, each
    -- kind offered in order by `appendToBuffer` to an empty buffer of the size that its settings
    -- ask for, all are taken, and they are read back from the buffer as they were and in this
    -- order.
    pub main-IsLogged :
        (buf : LogBuffer)
        → IsBuffer buf
        → buf.write_pos ≡ 0
        → length buf.data_ ≡ demo_log_config.buffer_size
        → IsLogged Codec.ticks buf 1000 all_ticks
          × IsLogged Codec.orders buf 50 all_orders
          × IsLogged Codec.fills buf 30 all_fills
    unfolding main
    main-IsLogged buf h at sized =
        let after_ticks = write_orders n 50 0 ++ (write_fills n 30 0 ++ tail) in
        let past_ticks = skip_ticks n 1000 0 after_ticks in
        let past_orders = fills_past_orders n 50 0 (write_fills n 30 0 ++ tail) in
        (
          AreRecords-IsLogged Codec.ticks buf 1000 all_ticks h at (omega arith) (
              written_ticks 1000 0 after_ticks
                (no_ticks_in_orders 50 0 (write_fills n 30 0 ++ tail) (no_ticks_in_fills 30 0))
                (omega arith)),
          AreRecords-IsLogged Codec.orders buf 50 all_orders h at (omega arith) (
              subst (λ os. AreRecords Codec.orders 50 (map (raw_order n) os)) (sym past_ticks.0)
                (written_orders 50 0 (write_fills n 30 0 ++ tail) (no_orders_in_fills 30 0)
                  (omega arith))),
          AreRecords-IsLogged Codec.fills buf 30 all_fills h at (omega arith) (
              subst (λ fs. AreRecords Codec.fills 30 (map (raw_fill n) fs))
                (sym (past_ticks.1 ∙ past_orders)) (written_fills 30 0 (omega arith))),
        )
