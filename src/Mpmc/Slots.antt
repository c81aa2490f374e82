-- ===== src/Mpmc/Slots.antt =====
-- Tickets and slots: which tickets share a slot, and what `diff` says of a sequence number.
use native.Mathlib.Nat.{mod-lt, mod-eq_of_lt, add-mod_right, mod-add-div'}
use trading_engine.Base.{ℕ, ◌+◌, ◌/◌, ◌%◌, ◌^◌, ◌≤◌, ◌<◌, ◌≡◌, ◌∙◌, sym, arith, dec_lt}
use trading_engine.Base.Bits.{bit_and_mask, pow_pos}
use trading_engine.Mpmc.{capacity, slot, diff, IsZero, IsNegative, IsPositive}

pub slot-eq-mod : (k t : ℕ) → slot k t ≡ t % capacity k
unfolding slot
slot-eq-mod k t = bit_and_mask k t

pub slot_lt : (k t : ℕ) → slot k t < capacity k
slot_lt k t = omega (arith, slot-eq-mod k t, mod-lt t (pow_pos k))

pub slot_idem : (k t : ℕ) → slot k (slot k t) ≡ slot k t
slot_idem k t = slot-eq-mod k (slot k t) ∙ mod-eq_of_lt (slot_lt k t)

-- The next ticket of a slot comes N tickets later.
pub slot_next : (k t : ℕ) → slot k (t + capacity k) ≡ slot k t
slot_next k t =
    slot-eq-mod k (t + capacity k) ∙ add-mod_right t (capacity k) ∙ sym (slot-eq-mod k t)

-- No ticket in between shares the slot.
pub slot_apart : (k t u : ℕ) → slot k t ≡ slot k u → t < u → t + capacity k ≤ u
slot_apart k t u e h =
    let n = capacity k in
    let same : t % n ≡ u % n = sym (slot-eq-mod k t) ∙ e ∙ slot-eq-mod k u in
    let parts_t = mod-add-div' t n in
    let parts_u = mod-add-div' u n in
    elim (dec_lt (t / n) (u / n)) [ yes below ↦ grind arith | no above ↦ absurd (grind arith) ]

pub diff_zero : (a b : ℕ) → a < 2 ^ 63 → b < 2 ^ 63 → IsZero (diff a b) → a ≡ b
unfolding diff
diff_zero a b ha hb h = ground arith

pub diff_negative : (a b : ℕ) → a < 2 ^ 63 → b < 2 ^ 63 → IsNegative (diff a b) → a < b
unfolding diff
diff_negative a b ha hb h = ground arith

pub diff_positive : (a b : ℕ) → a < 2 ^ 63 → b < 2 ^ 63 → IsPositive (diff a b) → b < a
unfolding diff
diff_positive a b ha hb h = ground arith
