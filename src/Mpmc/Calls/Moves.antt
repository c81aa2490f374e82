-- ===== src/Mpmc/Calls/Moves.antt =====
-- The whole calls of include/chronos/utils/mpmc_queue.hpp against the single accesses of one thread.
use trading_engine.Base.{
  ℕ, zero, suc, ◌≡◌, refl, Bool, true, false, Option, none, some, arith, OnSome, Bool-cases, inl,
  inr,
}
use trading_engine.Base.Int.{ℤ, pos, ltb_ℤ}
use trading_engine.Mpmc
use trading_engine.Mpmc.{
  Mem, Pc, Move, push_load, pushed, pop_load, popped, push_diff, pop_diff, IsZero, IsPositive, slot,
}
use trading_engine.Mpmc.Calls.{is_zero, after_push, after_pop, try_push, try_pop}

is_zero-IsZero : (d : ℤ) → is_zero d ≡ true → IsZero d
is_zero-IsZero d h = ground arith

positive_else : (d : ℤ) → is_zero d ≡ false → ltb_ℤ d (pos 0) ≡ false → IsPositive d
positive_else d h g = ground arith

module _ {A : Type 0} (k : ℕ) where
  -- Any number of accesses of one thread.
  pub data Moves : Mem A → Pc A → Mem A → Pc A → Type 0 where
    stay : {m : Mem A} {p : Pc A} → Moves m p m p
    go :
        {m m' m'' : Mem A} {p p' p'' : Pc A}
        → Move k m p m' p'
        → Moves m' p' m'' p''
        → Moves m p m'' p''

  won_push :
      (m : Mem A) (v : A)
      → IsZero (push_diff k m m.head)
      → Moves m (push_load v) (after_push k m v) (pushed true)
  won_push m v z = go Mpmc.load_head (
      go (Mpmc.push_free z)
        (go (Mpmc.push_win refl) (go Mpmc.push_write (go Mpmc.push_publish stay))))

  won_pop :
      (m : Mem A)
      → IsZero (pop_diff k m m.tail)
      → Moves m pop_load (after_pop k m) (popped (some (m.cells (slot k m.tail))))
  won_pop m z =
      go Mpmc.load_tail (
        go (Mpmc.pop_ready z)
          (go (Mpmc.pop_win refl) (go Mpmc.pop_read (go Mpmc.pop_release stay))))

  -- What a whole call returns and leaves, the accesses of its thread alone do.
  abbrev pub IsPush : Mem A → A → Option (Bool × Mem A) → Type 0
  IsPush m v = OnSome (λ r. Moves m (push_load v) r.1 (pushed r.0))

  abbrev pub IsPop : Mem A → Option (Option A × Mem A) → Type 0
  IsPop m = OnSome (λ r. Moves m pop_load r.1 (popped r.0))

  late-IsPush :
      (m : Mem A) (v : A) (o : Option (Bool × Mem A))
      → IsPositive (push_diff k m m.head)
      → IsPush m v o
      → IsPush m v o
  late-IsPush m v none late h = h
  late-IsPush m v (some r) late h = go Mpmc.load_head (go (Mpmc.push_late late) h)

  late-IsPop :
      (m : Mem A) (o : Option (Option A × Mem A))
      → IsPositive (pop_diff k m m.tail)
      → IsPop m o
      → IsPop m o
  late-IsPop m none late h = h
  late-IsPop m (some r) late h = go Mpmc.load_tail (go (Mpmc.pop_late late) h)

  pub try_push-IsPush : (fuel : ℕ) (m : Mem A) (v : A) → IsPush m v (try_push k fuel m v)
  unfolding try_push
  try_push-IsPush zero m v = tt
  try_push-IsPush (suc fuel) m v =
      let d = push_diff k m m.head in
      elim (Bool-cases (is_zero d)) [
        | inl z ↦ rw z (won_push m v (is_zero-IsZero d z))
        | inr nz ↦ elim (Bool-cases (ltb_ℤ d (pos 0))) [
          | inl neg ↦ rw (nz, neg) (go Mpmc.load_head (go (Mpmc.push_full neg) stay))
          | inr nn ↦
              rw (nz, nn)
                (late-IsPush m v (try_push k fuel m v) (positive_else d nz nn)
                  (try_push-IsPush fuel m v))
        ]
      ]

  pub try_pop-IsPop : (fuel : ℕ) (m : Mem A) → IsPop m (try_pop k fuel m)
  unfolding try_pop
  try_pop-IsPop zero m = tt
  try_pop-IsPop (suc fuel) m =
      let d = pop_diff k m m.tail in
      elim (Bool-cases (is_zero d)) [
        | inl z ↦ rw z (won_pop m (is_zero-IsZero d z))
        | inr nz ↦ elim (Bool-cases (ltb_ℤ d (pos 0))) [
          | inl neg ↦ rw (nz, neg) (go Mpmc.load_tail (go (Mpmc.pop_empty neg) stay))
          | inr nn ↦
              rw (nz, nn)
                (late-IsPop m (try_pop k fuel m) (positive_else d nz nn) (try_pop-IsPop fuel m))
        ]
      ]
