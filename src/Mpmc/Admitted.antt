-- ===== src/Mpmc/Admitted.antt =====
-- The sizes that the static assertion of include/chronos/utils/mpmc_queue.hpp lets pass.
use Prim.Native.Nat.{bit_and}
use trading_engine.Base.{
  ℕ, ◌+◌, ◌-◌, ◌^◌, ◌<◌, ◌≡◌, ◌⊎◌, ◌↔◌, true, ap, sym, ◌∙◌, arith, ==_iff, dec_lt,
}
use trading_engine.Base.Bits.{zero-bit_and, bit_and_pred}
use trading_engine.Mpmc.{admits, capacity, wrap}

-- At 0 the mask is all ones.
mask_lem : (n : ℕ) → n < 2 ^ 64 → bit_and n (wrap (n + 2 ^ 64 - 1)) ≡ bit_and n (n - 1)
mask_lem n h = elim (dec_lt 0 n) [
  | yes pos ↦ ap (bit_and n) (omega arith)
  | no zero_n ↦
      let none_left : n ≡ 0 = omega arith in
      rw none_left (zero-bit_and (wrap (0 + 2 ^ 64 - 1)) ∙ sym (zero-bit_and (0 - 1)))
]

-- For N below 2 ^ 64, the static assertion lets N pass exactly if it is 0 or a power of two.
pub admits_lem : (n : ℕ) → n < 2 ^ 64 → (admits n ≡ true) ↔ ((n ≡ 0) ⊎ ((k : ℕ) × (n ≡ capacity k)))
unfolding admits
admits_lem n h =
    let test = ==_iff (bit_and n (wrap (n + 2 ^ 64 - 1))) 0 in
    (
      λ e. (bit_and_pred n).0 (sym (mask_lem n h) ∙ test.0 e),
      λ e. test.1 (mask_lem n h ∙ (bit_and_pred n).1 e),
    )
