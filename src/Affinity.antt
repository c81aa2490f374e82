-- ===== src/Affinity.antt =====
-- `setCpuAffinity` and `numCores` of include/chronos/utils/cpu_affinity.hpp. The number of processors and the
-- answers of the system are parameters. The names ending in `_mac` and `_elsewhere` are what is built
-- for macOS and for other systems, and the others what is built for Linux.
mod Masks
mod Tests
use trading_engine.Base.{
  ℕ, zero, suc, ◌+◌, ◌%◌, ◌^◌, Bool, true, false, List, [], ◌∷◌, set, ltb, if◌then◌else◌,
}
use trading_engine.Base.Int.{ℤ, pos, negsuc}

-- `CPU_SETSIZE` of the C library, and a `cpu_set_t` as the list of its bits.
abbrev pub cpu_setsize : ℕ
cpu_setsize = 1024

pub clear_bits : ℕ → List Bool
clear_bits zero = []
clear_bits (suc n) = false ∷ clear_bits n

-- `CPU_SET`, which does nothing for a number that the set has no bit for.
abbrev pub cpu_set : ℕ → List Bool → List Bool
cpu_set cpu mask = set mask cpu true

-- The loop, from processor i on.
abbrev pub set_from : (rounds i : ℕ) → List Bool → List Bool
set_from zero i mask = mask
set_from (suc rounds) i mask = set_from rounds (i + 1) (cpu_set i mask)

-- `nprocs > 0 ? nprocs : CPU_SETSIZE`
abbrev pub loop_bound : ℤ → ℕ
loop_bound (pos zero) = cpu_setsize
loop_bound (pos (suc n)) = suc n
loop_bound (negsuc n) = cpu_setsize

-- The set that is handed to the system.
abbrev pub affinity_mask : (nprocs cpu : ℤ) → List Bool
affinity_mask nprocs (pos cpu) = cpu_set cpu (clear_bits cpu_setsize)
affinity_mask nprocs (negsuc cpu) = set_from (loop_bound nprocs) 0 (clear_bits cpu_setsize)

abbrev pub is_success : ℤ → Bool
is_success (pos zero) = true
is_success _ = false

abbrev pub set_cpu_affinity : (nprocs : ℤ) → (List Bool → ℤ) → (cpu : ℤ) → Bool
set_cpu_affinity nprocs setaffinity cpu = is_success (setaffinity (affinity_mask nprocs cpu))

-- The cast of a `long` to `int` keeps a number of processors as it is.
abbrev pub num_cores : ℤ → ℤ
num_cores (pos (suc n)) = pos (suc n)
num_cores _ = pos 1

abbrev pub affinity_tag : ℤ → ℤ
affinity_tag (pos cpu) = pos cpu
affinity_tag (negsuc cpu) = pos 0

-- `KERN_SUCCESS` is 0.
abbrev pub set_cpu_affinity_mac : (ℤ → ℤ) → (cpu : ℤ) → Bool
set_cpu_affinity_mac policy_set cpu = is_success (policy_set (affinity_tag cpu))

-- The answer of `sysctlbyname`, and what it writes to `count`.
abbrev pub num_cores_mac : (answer count : ℤ) → ℤ
num_cores_mac answer count = if is_success answer then count else pos 1

abbrev pub set_cpu_affinity_elsewhere : (cpu : ℤ) → Bool
set_cpu_affinity_elsewhere cpu = false

abbrev pub num_cores_elsewhere : ℤ
num_cores_elsewhere = pos 1
