-- ===== src/Demo/Tests.antt =====
-- The log buffers of the demo, with number types that meet the hypothesis.
use trading_engine.Base.{ℕ, zero, suc, ◌^◌, ◌%◌, ◌<◌, ◌≡◌, refl, ap, arith, length}
use trading_engine.Core.Whole.{whole}
use trading_engine.Core.Structs.{zeros}
use trading_engine.Core.Numbers.{Numbers}
use trading_engine.Layout.Numerals.{signed, raw_bits, IsI64}
use trading_engine.Layout.Raw.{IsRaw64}
use trading_engine.Layout.Codec
use trading_engine.Log.{LogBuffer}
use trading_engine.Log.Append.{IsBuffer}
use trading_engine.Demo.Logged.{IsLogged, all_ticks, all_orders, all_fills, main-IsLogged}

-- Whole numbers whose raw values wrap around as an `int64_t` does.
abbrev narrow : Numbers
narrow = record whole { raw_value = λ d. signed (raw_bits d % 2 ^ 64) }

signed-IsI64 : (bits : ℕ) → bits < 2 ^ 64 → IsI64 (signed bits)
signed-IsI64 bits h = ground arith

narrow-IsRaw64 : IsRaw64 narrow
narrow-IsRaw64 d = signed-IsI64 (raw_bits d % 2 ^ 64) (omega arith)

blank : ℕ → LogBuffer
blank size = record { data_ = zeros size; write_pos = 0 }

length-zeros : (k : ℕ) → length (zeros k) ≡ k
length-zeros zero = refl
length-zeros (suc k) = ap suc (length-zeros k)

length-blank : (k : ℕ) → length (blank k).data_ ≡ k
unfolding blank
length-blank k = length-zeros k

blank-at_zero : (k : ℕ) → (blank k).write_pos ≡ 0
unfolding blank
blank-at_zero k = refl

blank-IsBuffer : (k : ℕ) → k < 2 ^ 63 → IsBuffer (blank k)
blank-IsBuffer k h = (omega (arith, blank-at_zero k), omega (arith, length-blank k))

main-IsLogged_example :
    IsLogged Codec.ticks (blank 65536) 1000 (all_ticks narrow)
    × IsLogged Codec.orders (blank 65536) 50 (all_orders narrow)
    × IsLogged Codec.fills (blank 65536) 30 (all_fills narrow)
main-IsLogged_example =
    main-IsLogged narrow narrow-IsRaw64 (blank 65536) (blank-IsBuffer 65536 (omega arith))
      (blank-at_zero 65536) (length-blank 65536)
