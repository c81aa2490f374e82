-- ===== src/Engine/Drops.antt =====
-- Ticks that are handed to the engine of include/chronos/trading/strategy_engine.hpp faster than it takes them.
use trading_engine.Base.{
  ℕ, zero, suc, ◌+◌, ◌^◌, ◌<◌, ◌≡◌, refl, sym, ap, ◌∙◌, Bool, false, List, [], ◌∷◌, ◌++◌, map,
  Option, none, some, inl, inr, ◌>>=◌, arith, length, length-append, get_elem?, ltb, Bool-cases,
  Option-cases,
}
use trading_engine.Core.Structs.{Tick, OrderRequest, Fill}
use trading_engine.Mpmc.Schedule.{Call, push}
use trading_engine.Mpmc.Calls.{try_push}
use trading_engine.Mpmc.Calls.Bounded.{
  Answer, pushed_answer, popped_answer, bounded_calls, calls, calls-eq-bounded_calls,
}
use trading_engine.Engine.{StrategyEngine, new_engine, push_tick}

-- The answers to pushes.
abbrev answer_of : {A : Type 0} → Answer A → Bool
answer_of (pushed_answer b) = b
answer_of (popped_answer o) = false

abbrev pushed_answers : (A : Type 0) → List Bool → List (Answer A)
pushed_answers A = map pushed_answer

answers_back : (A : Type 0) (bs : List Bool) → map answer_of (pushed_answers A bs) ≡ bs
answers_back A [] = refl
answers_back A (b ∷ bs) = ap (λ t. b ∷ t) (answers_back A bs)

-- An answer in front of those of the rest.
abbrev in_front : {E : Type 0} → Bool → List Bool × E → Option (List Bool × E)
in_front b rest = some (b ∷ rest.0, rest.1)

module _ {A : Type 0} where
  abbrev pushes : List A → List (Call A)
  pushes = map push

  -- Pushes alone fill the queue, and then are refused.
  nth_answer :
      (size : ℕ) (xs vs : List A) (i : ℕ)
      → i < length vs
      → get_elem? (map answer_of (bounded_calls size xs (pushes vs))) i
        ≡ some (ltb (length xs + i) size)
  nth_answer size xs [] i lt = absurd (omega arith)
  nth_answer size xs (v ∷ vs) zero lt = elim (Bool-cases (ltb (length xs) size)) [
    | inl room ↦ rw room (ap some (ground arith))
    | inr full ↦ rw full (ap some (ground arith))
  ]
  nth_answer size xs (v ∷ vs) (suc i) lt = elim (Bool-cases (ltb (length xs) size)) [
    | inl room ↦ rw room (
        nth_answer size (xs ++ (v ∷ [])) vs i (omega arith)
        ∙ ap (λ j. some (ltb j size)) (omega (arith, length-append xs (v ∷ []))))
    | inr full ↦ rw full (nth_answer size xs vs i (omega arith) ∙ ap some (ground arith))
  ]

  regroup :
      {E : Type 0} (o : Option (List Bool × E)) (b : Bool)
      → ((o >>= λ r. some (pushed_answers A r.0)) >>= λ rest. some (pushed_answer b ∷ rest))
        ≡ ((o >>= in_front b) >>= λ r. some (pushed_answers A r.0))
  regroup none b = refl
  regroup (some r) b = refl

  length-calls : (vs : List A) → length (pushes vs) ≡ length vs
  length-calls [] = refl
  length-calls (v ∷ vs) = ap suc (length-calls vs)

some_back : {A : Type 0} (a b : A) → some a ≡ some b → a ≡ b
some_back a b e = ap (λ o. elim o [ some x ↦ x | none ↦ a ]) e

read_back :
    {A E : Type 0} (o : Option (List Bool × E)) (bs : List (Answer A))
    → (o >>= λ r. some (pushed_answers A r.0)) ≡ some bs
    → (answers : List Bool) × (e : E) × (o ≡ some (answers, e)) × (answers ≡ map answer_of bs)
read_back none bs h = cc
read_back {A} (some (answers, e)) bs h = (
  answers,
  e,
  refl,
  sym (answers_back A answers) ∙ ap (map answer_of) (some_back (pushed_answers A answers) bs h),
)

module _ {D S : Type 0} where
  -- One tick after another, with the answers of `pushTick`.
  abbrev pub push_all :
      (fuel : ℕ) → StrategyEngine D S → List (Tick D) → Option (List Bool × StrategyEngine D S)
  push_all fuel e [] = some ([], e)
  push_all fuel e (t ∷ ts) = push_tick fuel e t >>= λ r. push_all fuel r.1 ts >>= in_front r.0

  push_all-calls :
      (fuel : ℕ) (e : StrategyEngine D S) (ts : List (Tick D))
      → calls 10 fuel e.tick_queue (pushes ts)
        ≡ (push_all fuel e ts >>= λ r. some (pushed_answers (Tick D) r.0))
  push_all-calls fuel e [] = refl
  push_all-calls fuel e (t ∷ ts) = elim (Option-cases (try_push 10 fuel e.tick_queue t)) [
    | inl stuck ↦ rw stuck refl
    | inr (r, ran) ↦ rw ran (
        rw (push_all-calls fuel (record e { tick_queue = r.1 }) ts)
          (regroup (push_all fuel (record e { tick_queue = r.1 }) ts) r.0))
  ]

  -- If a new engine, whose thread takes nothing meanwhile, is given ticks by `pushTick`, fewer than
  -- 2 ^ 63 together with the 1024 cells of its queue, then every call ends in its first round, and
  -- the first 1024 are answered true and all later ones false.
  pub push_all_lem :
      (tick : Tick D) (order : OrderRequest D) (fill : Fill D) (ts : List (Tick D))
      → length ts + 2 ^ 10 < 2 ^ 63
      → (answers : List Bool) × (e : StrategyEngine D S) × (push_all 1
            (new_engine tick order fill)
            ts
          ≡ some (answers, e))
        × ((i : ℕ) → i < length ts → get_elem? answers i ≡ some (ltb i (2 ^ 10)))
  push_all_lem tick order fill ts small =
      let first : StrategyEngine D S = new_engine tick order fill in
      let ran =
        sym (push_all-calls 1 first ts)
        ∙ calls-eq-bounded_calls 10 (omega arith) 0 (λ i. tick) (pushes ts)
            (omega (arith, length-calls ts)) in
      let (answers, e, done, same) =
        read_back (push_all 1 first ts) (bounded_calls (2 ^ 10) [] (pushes ts)) ran in
      (
        answers,
        e,
        done,
        λ i lt.
            ap (λ bs. get_elem? bs i) same
            ∙ nth_answer (2 ^ 10) [] ts i lt
            ∙ ap (λ (j : ℕ). some (ltb j (2 ^ 10))) (omega arith),
      )
