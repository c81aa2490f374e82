-- ===== src/Affinity/Masks.antt =====
-- The processors that `setCpuAffinity` of include/chronos/utils/cpu_affinity.hpp asks for.
use trading_engine.Base.{
  ℕ, zero, suc, ◌+◌, ◌≤◌, ◌<◌, ◌≡◌, refl, ◌∙◌, ap, Bool, true, false, List, some, get_elem?, set,
  length, length-set, get_elem?-set_self, get_elem?-set_ne, arith, ltb, ◌==◌, ℕ_discrete, dec_lt,
}
use trading_engine.Base.Int.{ℤ, pos, negsuc}
use trading_engine.Affinity.{cpu_setsize, clear_bits, set_from, loop_bound, affinity_mask}

length-clear_bits : (n : ℕ) → length (clear_bits n) ≡ n
unfolding clear_bits
length-clear_bits zero = refl
length-clear_bits (suc n) = omega (arith, length-clear_bits n)

get_elem?-clear_bits : (n j : ℕ) → j < n → get_elem? (clear_bits n) j ≡ some false
unfolding clear_bits
get_elem?-clear_bits zero j h = absurd (omega arith)
get_elem?-clear_bits (suc n) zero h = refl
get_elem?-clear_bits (suc n) (suc j) h = get_elem?-clear_bits n j (omega arith)

set_from-before :
    (rounds i j : ℕ) (mask : List Bool)
    → j < i
    → get_elem? (set_from rounds i mask) j ≡ get_elem? mask j
set_from-before zero i j mask h = refl
set_from-before (suc rounds) i j mask h =
    set_from-before rounds (i + 1) j (set mask i true) (omega arith)
    ∙ get_elem?-set_ne mask true (λ e. omega arith)

set_from-inside :
    (rounds i j : ℕ) (mask : List Bool)
    → i ≤ j
    → j < i + rounds
    → j < length mask
    → get_elem? (set_from rounds i mask) j ≡ some true
set_from-inside zero i j mask lo hi inside = absurd (omega arith)
set_from-inside (suc rounds) i j mask lo hi inside = elim (ℕ_discrete i j) [
  | yes e ↦
      set_from-before rounds (i + 1) j (set mask i true) (omega arith)
      ∙ ap (λ k. get_elem? (set mask k true) j) e
      ∙ get_elem?-set_self mask j true inside
  | no ne ↦
      set_from-inside rounds (i + 1) j (set mask i true) (omega (arith, ne)) (omega arith)
        (omega (arith, length-set mask i true))
]

set_from-after :
    (rounds i j : ℕ) (mask : List Bool)
    → i + rounds ≤ j
    → get_elem? (set_from rounds i mask) j ≡ get_elem? mask j
set_from-after zero i j mask h = refl
set_from-after (suc rounds) i j mask h =
    set_from-after rounds (i + 1) j (set mask i true) (omega arith)
    ∙ get_elem?-set_ne mask true (λ e. omega arith)

-- Which processors a call asks for.
abbrev pub is_asked : (nprocs cpu : ℤ) → ℕ → Bool
is_asked nprocs (pos cpu) j = cpu == j
is_asked nprocs (negsuc cpu) j = ltb j (loop_bound nprocs)

-- For each processor of a cpu_set_t: `setCpuAffinity` asks the system for it exactly if it is the
-- processor given, or, for a negative argument, if it is among the first ones, as many as the
-- system reports or, if it reports none, as the set holds.
pub affinity_mask_lem :
    (nprocs cpu : ℤ) (j : ℕ)
    → j < cpu_setsize
    → get_elem? (affinity_mask nprocs cpu) j ≡ some (is_asked nprocs cpu j)
affinity_mask_lem nprocs (pos cpu) j h = elim (ℕ_discrete cpu j) [
  | yes e ↦
      let asked : true ≡ (cpu == j) = ground arith in
      ap (λ k. get_elem? (set (clear_bits cpu_setsize) k true) j) e
      ∙ get_elem?-set_self (clear_bits cpu_setsize) j true
          (omega (arith, length-clear_bits cpu_setsize))
      ∙ ap some asked
  | no ne ↦
      let asked : false ≡ (cpu == j) = ground arith in
      get_elem?-set_ne (clear_bits cpu_setsize) true ne
      ∙ get_elem?-clear_bits cpu_setsize j h
      ∙ ap some asked
]
affinity_mask_lem nprocs (negsuc cpu) j h = elim (dec_lt j (loop_bound nprocs)) [
  | yes lt ↦
      let asked : true ≡ ltb j (loop_bound nprocs) = ground arith in
      set_from-inside (loop_bound nprocs) 0 j (clear_bits cpu_setsize) (omega arith) (omega arith)
        (omega (arith, length-clear_bits cpu_setsize))
      ∙ ap some asked
  | no ge ↦
      let asked : false ≡ ltb j (loop_bound nprocs) = ground arith in
      set_from-after (loop_bound nprocs) 0 j (clear_bits cpu_setsize) (omega arith)
      ∙ get_elem?-clear_bits cpu_setsize j h
      ∙ ap some asked
]
