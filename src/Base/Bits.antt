-- ===== src/Base/Bits.antt =====
-- `x & (2 ^ k - 1)` is the remainder of x by 2 ^ k.
use Prim.Native.Nat.{
  ℕ, zero, suc, ◌+◌, ◌-◌, ◌*◌, ◌/◌, ◌%◌, ◌^◌, ◌≤◌, ◌<◌, min, bit_and, digits, bit_and-bitwise,
}
use mathlib.Core.Path.{◌≡◌, refl, ap, ◌∙◌}
use mathlib.Core.Logic.{◌↔◌, ◌⊎◌, inl, inr}
use native.Mathlib.Decide.{dec_lt}
use native.Mathlib.Nat.{
  pow-suc, mod-lt, mod-eq_of_lt, mod-add-div', add-mul-mod_self_right, mod_self,
}
use native.Mathlib.Omega.{arith}

-- The digit recursion that `bit_and` stands for, with its fuel made explicit.
abbrev conj : ℕ → ℕ → ℕ → ℕ
conj fuel x y = digits (λ y. zero) min fuel x y

conj_fuel : (f g x y : ℕ) → x ≤ f → x ≤ g → conj f x y ≡ conj g x y
conj_fuel zero zero x y p q = refl
conj_fuel zero (suc g) zero y p q = refl
conj_fuel zero (suc g) (suc x) y p q = absurd (omega arith)
conj_fuel (suc f) zero zero y p q = refl
conj_fuel (suc f) zero (suc x) y p q = absurd (omega arith)
conj_fuel (suc f) (suc g) zero y p q = refl
conj_fuel (suc f) (suc g) (suc x) y p q =
    omega (arith, conj_fuel f g (suc x / 2) (y / 2) (omega arith) (omega arith))

pub zero-bit_and : (y : ℕ) → bit_and 0 y ≡ 0
zero-bit_and y = bit_and-bitwise 0 y

bit_and_step : (x y : ℕ) → bit_and x y ≡ bit_and (x / 2) (y / 2) * 2 + min (x % 2) (y % 2)
bit_and_step zero y = omega (arith, zero-bit_and y, zero-bit_and (y / 2))
bit_and_step (suc x) y = omega (
  arith,
  bit_and-bitwise (suc x) y,
  bit_and-bitwise (suc x / 2) (y / 2),
  conj_fuel x (suc x / 2) (suc x / 2) (y / 2) (omega arith) (omega arith),
)

bit_and-zero_fuel : (f x : ℕ) → x ≤ f → bit_and x 0 ≡ 0
bit_and-zero_fuel zero zero h = refl
bit_and-zero_fuel zero (suc x) h = absurd (omega arith)
bit_and-zero_fuel (suc f) x h =
    omega (arith, bit_and_step x 0, bit_and-zero_fuel f (x / 2) (omega arith))

pub pow_pos : (k : ℕ) → 0 < 2 ^ k
pow_pos zero = omega arith
pow_pos (suc k) = rw pow-suc (omega (arith, pow_pos k))

-- The remainder by twice m, from that of the half by m.
mod-double : (m x : ℕ) → 0 < m → x % (m * 2) ≡ x / 2 % m * 2 + x % 2
mod-double m x h =
    let q = x / 2 / m in
    let r = x / 2 % m in
    let split : x ≡ r * 2 + x % 2 + q * (m * 2) =
      omega (arith, ap (λ (t : ℕ). t * 2) (mod-add-div' (x / 2) m)) in
    let bound : r * 2 + x % 2 < m * 2 = omega (arith, mod-lt (x / 2) h) in
    ap (λ (t : ℕ). t % (m * 2)) split
    ∙ add-mul-mod_self_right (r * 2 + x % 2) q (m * 2)
    ∙ mod-eq_of_lt bound

-- A mask of k ones keeps the k low bits.
pub bit_and_mask : (k x : ℕ) → bit_and x (2 ^ k - 1) ≡ x % 2 ^ k
bit_and_mask zero x = omega (arith, bit_and-zero_fuel x x (omega arith))
bit_and_mask (suc k) x =
    let half : (2 ^ k * 2 - 1) / 2 ≡ 2 ^ k - 1 = omega (arith, pow_pos k) in
    let odd : (2 ^ k * 2 - 1) % 2 ≡ 1 = omega (arith, pow_pos k) in
    rw
      (
        pow-suc,
        mod-double (2 ^ k) x (pow_pos k),
        bit_and_step x (2 ^ k * 2 - 1),
        half,
        odd,
        bit_and_mask k (x / 2),
      )
      (omega arith)

bit_and_self : (f x : ℕ) → x ≤ f → bit_and x x ≡ x
bit_and_self zero zero h = bit_and-zero_fuel 0 0 h
bit_and_self zero (suc x) h = absurd (omega arith)
bit_and_self (suc f) x h = omega (arith, bit_and_step x x, bit_and_self f (x / 2) (omega arith))

half_pow : (n k : ℕ) → n % 2 ≡ 0 → n / 2 ≡ 2 ^ k → n ≡ 2 ^ suc k
half_pow n k even e = omega (arith, pow-suc 2 k)

-- A number that shares no one with its predecessor is 0 or a power of two.
pow_of_bit_and : (f n : ℕ) → n ≤ f → 0 < n → bit_and n (n - 1) ≡ 0 → (k : ℕ) × (n ≡ 2 ^ k)
pow_of_bit_and zero n h pos e = absurd (omega arith)
pow_of_bit_and (suc f) n h pos e = elim (dec_lt (n % 2) 1) [
  | yes even ↦
      let shared : bit_and (n / 2) (n / 2 - 1) ≡ 0 =
        let same : (n - 1) / 2 ≡ n / 2 - 1 = omega arith in
        omega (arith, bit_and_step n (n - 1), ap (bit_and (n / 2)) same) in
      let (k, half) = pow_of_bit_and f (n / 2) (omega arith) (omega arith) shared in
      (suc k, half_pow n k (omega arith) half)
  | no odd ↦
      let same : (n - 1) / 2 ≡ n / 2 = omega arith in
      (
        0,
        omega (
          arith,
          bit_and_step n (n - 1),
          ap (bit_and (n / 2)) same,
          bit_and_self (n / 2) (n / 2) (omega arith),
        ),
      )
]

pub bit_and_pred : (n : ℕ) → (bit_and n (n - 1) ≡ 0) ↔ ((n ≡ 0) ⊎ ((k : ℕ) × (n ≡ 2 ^ k)))
bit_and_pred n = (to, from)
  where
    to : bit_and n (n - 1) ≡ 0 → (n ≡ 0) ⊎ ((k : ℕ) × (n ≡ 2 ^ k))
    to e = elim (dec_lt 0 n) [
      | yes pos ↦ inr (pow_of_bit_and n n (omega arith) pos e)
      | no zero_n ↦ inl (omega arith)
    ]

    from : (n ≡ 0) ⊎ ((k : ℕ) × (n ≡ 2 ^ k)) → bit_and n (n - 1) ≡ 0
    from (inl e) = ap (λ n. bit_and n (n - 1)) e ∙ zero-bit_and 0
    from (inr (k, e)) = ap (λ n. bit_and n (n - 1)) e ∙ bit_and_mask k (2 ^ k) ∙ mod_self (2 ^ k)
