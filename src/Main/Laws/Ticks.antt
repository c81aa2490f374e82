-- ===== src/Main/Laws/Ticks.antt =====
-- The ticks of the replay loop of src/main.cpp.
use trading_engine.Base.{
  OnSome, ◌>>=◌, ℕ, zero, suc, ◌+◌, ◌%◌, ◌^◌, ◌<◌, ◌≡◌, refl, ap, ◌⊎◌, Bool, true, false, not, ◌&&◌,
  List, [], ◌∷◌, ◌++◌, Option, none, some, arith, length, length-append, if◌then◌else◌,
}
use mathlib.Core.Path.{subst}
use trading_engine.Core.Numbers.{Numbers}
use trading_engine.Core.Structs.{Tick}
use trading_engine.Main.{Event, on_market_tick, push_tick, publish_tick, write_tick}
use trading_engine.Main.Replay.{Turn, Host, deliver, replay_loop}

module _ (n : Numbers) where
  open n use {Decimal}

  -- The ticks of a trace that are pushed, published and written.
  abbrev pub pushed : List (Event n) → List (Tick Decimal)
  pushed [] = []
  pushed (push_tick t ∷ es) = t ∷ pushed es
  pushed (_ ∷ es) = pushed es

  abbrev pub published : List (Event n) → List (Tick Decimal)
  published [] = []
  published (publish_tick t ∷ es) = t ∷ published es
  published (_ ∷ es) = published es

  abbrev pub written_ticks : List (Event n) → List (Tick Decimal)
  written_ticks [] = []
  written_ticks (write_tick t ∷ es) = t ∷ written_ticks es
  written_ticks (_ ∷ es) = written_ticks es

  -- The three outlets got the same ticks, and the counter counted them.
  abbrev pub IsFannedOut : Bool → (count : ℕ) → List (Event n) × ℕ → Type 0
  IsFannedOut log_is_running count (es, total) =
      (published es ≡ pushed es)
      × (written_ticks es ≡ (if log_is_running then pushed es else []))
      × (total ≡ (count + length (pushed es)) % 2 ^ 64)

  tick_fans_out :
      (log : Bool) (t : Tick Decimal) (count total : ℕ) (es : List (Event n))
      → count < 2 ^ 64
      → IsFannedOut log ((count + 1) % 2 ^ 64) (es, total)
      → IsFannedOut log count (on_market_tick n log t ++ es, total)
  tick_fans_out true t count total es small h =
      (ap (λ ts. t ∷ ts) h.0, ap (λ ts. t ∷ ts) h.1, omega (arith, h.2))
  tick_fans_out false t count total es small h = (ap (λ ts. t ∷ ts) h.0, h.1, omega (arith, h.2))

  deliver-IsFannedOut :
      (log : Bool) (ticks : List (Bool × Tick Decimal)) (count : ℕ)
      → count < 2 ^ 64
      → IsFannedOut log count (deliver n log ticks count)
  deliver-IsFannedOut true [] count small = (refl, refl, omega arith)
  deliver-IsFannedOut false [] count small = (refl, refl, omega arith)
  deliver-IsFannedOut log ((false, t) ∷ rest) count small = deliver-IsFannedOut log rest count small
  deliver-IsFannedOut log ((true, t) ∷ rest) count small =
      tick_fans_out log t count _ _ small
        (deliver-IsFannedOut log rest ((count + 1) % 2 ^ 64) (omega arith))

  pushed-append : (xs ys : List (Event n)) → pushed (xs ++ ys) ≡ pushed xs ++ pushed ys
  pushed-append [] ys = refl
  pushed-append (push_tick t ∷ xs) ys = ap (λ ts. t ∷ ts) (pushed-append xs ys)
  pushed-append (_ ∷ xs) ys = pushed-append xs ys

  published-append : (xs ys : List (Event n)) → published (xs ++ ys) ≡ published xs ++ published ys
  published-append [] ys = refl
  published-append (publish_tick t ∷ xs) ys = ap (λ ts. t ∷ ts) (published-append xs ys)
  published-append (_ ∷ xs) ys = published-append xs ys

  written_ticks-append :
      (xs ys : List (Event n)) → written_ticks (xs ++ ys) ≡ written_ticks xs ++ written_ticks ys
  written_ticks-append [] ys = refl
  written_ticks-append (write_tick t ∷ xs) ys = ap (λ ts. t ∷ ts) (written_ticks-append xs ys)
  written_ticks-append (_ ∷ xs) ys = written_ticks-append xs ys

  chosen-append :
      {A : Type 0} (b : Bool) (xs ys : List A)
      → (if b then xs else []) ++ (if b then ys else []) ≡ (if b then xs ++ ys else [])
  chosen-append true xs ys = refl
  chosen-append false xs ys = refl

  append-IsFannedOut :
      (log : Bool) (count mid total : ℕ) (xs ys : List (Event n))
      → IsFannedOut log count (xs, mid)
      → IsFannedOut log mid (ys, total)
      → IsFannedOut log count (xs ++ ys, total)
  append-IsFannedOut log count mid total xs ys hx hy = (
    cc (published-append xs ys, pushed-append xs ys, hx.0, hy.0),
    cc (
      written_ticks-append xs ys,
      pushed-append xs ys,
      hx.1,
      hy.1,
      chosen-append log (pushed xs) (pushed ys),
    ),
    omega
        (arith, hx.2, hy.2, ap length (pushed-append xs ys), length-append (pushed xs) (pushed ys)),
  )

  turn-IsFannedOut :
      (log go advanced : Bool) (count : ℕ) (got : List (Event n) × ℕ)
      (rest : Option (List (Event n) × ℕ))
      → count < 2 ^ 64
      → IsFannedOut log count got
      → OnSome (IsFannedOut log got.1) rest
      → OnSome (IsFannedOut log count) (
          if go
          then (if advanced then (rest >>= λ r. some (got.0 ++ r.0, r.1)) else some got)
          else some ([], count))
  turn-IsFannedOut log true true count got none small h hr = tt
  turn-IsFannedOut log true true count got (some r) small h hr =
      append-IsFannedOut log count got.1 r.1 got.0 r.0 h hr
  turn-IsFannedOut log true false count got rest small h hr = h
  turn-IsFannedOut true false advanced count got rest small h hr = (refl, refl, omega arith)
  turn-IsFannedOut false false advanced count got rest small h hr = (refl, refl, omega arith)

  replay_loop-IsFannedOut :
      (host : Host Decimal) (fuel turn count : ℕ)
      → count < 2 ^ 64
      → OnSome (IsFannedOut host.log_is_running count) (replay_loop n host fuel turn count)
  replay_loop-IsFannedOut host zero turn count small = tt
  replay_loop-IsFannedOut host (suc fuel) turn count small =
      let now = host.turns turn in
      let got = deliver n host.log_is_running now.delivered count in
      let h = deliver-IsFannedOut host.log_is_running now.delivered count small in
      turn-IsFannedOut host.log_is_running (now.running && not now.exhausted) now.advanced count got
        (replay_loop n host fuel (turn + 1) got.1) small h
        (replay_loop-IsFannedOut host fuel (turn + 1) got.1 (omega (arith, h.2)))

  -- The loop stops at a turn: by a signal, or because the replayer is at its end.
  abbrev pub Stops : Turn Decimal → Type 0
  Stops t = (t.running ≡ false) ⊎ ((t.exhausted ≡ true) ⊎ (t.advanced ≡ false))

  abbrev HasResult : {A : Type 0} → Option A → Type 0
  HasResult none = ⊥
  HasResult (some a) = Unit

  stop-HasResult :
      {A : Type 0} (r e a : Bool) (rest : Option A) (f : A → A) (x z : A)
      → (r ≡ false) ⊎ ((e ≡ true) ⊎ (a ≡ false))
      → HasResult
          (if r && not e then (if a then (rest >>= λ s. some (f s)) else some x) else some z)
  stop-HasResult r e a rest f x z h = ground arith

  later-HasResult :
      {A : Type 0} (b a : Bool) (rest : Option A) (f : A → A) (x z : A)
      → HasResult rest
      → HasResult (if b then (if a then (rest >>= λ s. some (f s)) else some x) else some z)
  later-HasResult b a rest f x z h = ground arith

  replay_loop-HasResult :
      (host : Host Decimal) (k fuel turn count : ℕ)
      → k < fuel
      → Stops (host.turns (turn + k))
      → HasResult (replay_loop n host fuel turn count)
  replay_loop-HasResult host k zero turn count lt stop = absurd (omega arith)
  replay_loop-HasResult host zero (suc fuel) turn count lt stop =
      stop-HasResult _ _ _ _ _ _ _ (subst (λ j. Stops (host.turns j)) (omega arith) stop)
  replay_loop-HasResult host (suc k) (suc fuel) turn count lt stop = later-HasResult _ _ _ _ _ _ (
      replay_loop-HasResult host k fuel (turn + 1) _ (omega arith)
        (subst (λ j. Stops (host.turns j)) (omega arith) stop))

  result_of :
      {A : Type 0} (P : A → Type 0) (o : Option A)
      → HasResult o
      → OnSome P o
      → (a : A) × (o ≡ some a) × P a
  result_of P none h p = absurd h
  result_of P (some a) h p = (a, refl, p)

  -- If at some turn of the replay loop a signal has come, the replayer is exhausted, or it does not
  -- advance, then the loop, run on fuel for more turns than that, ends; and the ticks that it
  -- pushes to the engine are the ones that it publishes, in the same order, and the ones that it
  -- writes if the log runs, while it writes none if not; and the count is their number modulo 2 ^
  -- 64.
  pub replay_loop_lem :
      (host : Host Decimal) (k fuel : ℕ)
      → k < fuel
      → Stops (host.turns k)
      → (r : List (Event n) × ℕ) × (replay_loop n host fuel 0 0 ≡ some r)
        × IsFannedOut host.log_is_running 0 r
  replay_loop_lem host k fuel lt stop =
      result_of (IsFannedOut host.log_is_running 0) (replay_loop n host fuel 0 0)
        (replay_loop-HasResult host k fuel 0 0 lt
          (subst (λ j. Stops (host.turns j)) (omega arith) stop))
        (replay_loop-IsFannedOut host fuel 0 0 (omega arith))
