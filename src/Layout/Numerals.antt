-- ===== src/Layout/Numerals.antt =====
-- Little-endian numerals and two's complement, with which the bytes of an object are read.
use trading_engine.Base.{
  ℕ, zero, suc, ◌+◌, ◌-◌, ◌*◌, ◌/◌, ◌%◌, ◌^◌, ◌<◌, ◌≡◌, List, [], ◌∷◌, arith, ltb, if◌then◌else◌,
}
use native.Mathlib.Nat.{pow-suc}
use trading_engine.Base.Int.{ℤ, pos, negsuc}

abbrev pub numeral : ℕ → ℕ → List ℕ
numeral zero n = []
numeral (suc size) n = n % 256 ∷ numeral size (n / 256)

-- The number that bytes stand for.
abbrev pub number : List ℕ → ℕ
number [] = 0
number (b ∷ bs) = b + 256 * number bs

pub number-numeral : (size n : ℕ) → n < 256 ^ size → number (numeral size n) ≡ n
number-numeral zero n h = omega arith
number-numeral (suc size) n h =
    omega (arith, pow-suc 256 size, number-numeral size (n / 256) (omega (arith, pow-suc 256 size)))

-- The 64 bits of an `int64_t`.
abbrev pub raw_bits : ℤ → ℕ
raw_bits (pos n) = n
raw_bits (negsuc n) = 2 ^ 64 - 1 - n

abbrev pub IsI64 : ℤ → Type 0
IsI64 (pos n) = n < 2 ^ 63
IsI64 (negsuc n) = n < 2 ^ 63

abbrev pub signed : ℕ → ℤ
signed bits = if ltb bits (2 ^ 63) then pos bits else negsuc (2 ^ 64 - 1 - bits)

pub raw_bits-lt : (d : ℤ) → IsI64 d → raw_bits d < 256 ^ 8
raw_bits-lt (pos n) h = omega arith
raw_bits-lt (negsuc n) h = omega arith

pub signed-raw_bits : (d : ℤ) → IsI64 d → signed (raw_bits d) ≡ d
signed-raw_bits (pos n) h = ground arith
signed-raw_bits (negsuc n) h = ground arith
