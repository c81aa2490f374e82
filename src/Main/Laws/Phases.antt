-- ===== src/Main/Laws/Phases.antt =====
-- The phases that a run of src/main.cpp goes through, and which calls it may make in each.
use trading_engine.Base.{
  ◌>>=◌, ◌≡◌, refl, ap, ◌∙◌, Bool, true, false, List, [], ◌∷◌, ◌++◌, Option, none, some,
  if◌then◌else◌,
}
use trading_engine.Core.Numbers.{Numbers}
use trading_engine.Main.{
  Event, start_engine, start_gateway, start_market_gateway, start_user_stream, set_user_stream,
  stop_user_stream, stop_market_gateway, stop_gateway, stop_engine, stop_zmq, flush_log, stop_log,
  push_tick, publish_tick, write_tick, push_fill, publish_fill,
}

pub data Phase : Type 0 where
  setup engine_up running feeding : Phase
  feed_closed gateway_down engine_down bridge_down flushed stopped : Phase

module _ (n : Numbers) where
  open n use {Decimal}

  -- A tick or a fill is handed on.
  abbrev pub is_traffic : Event n → Bool
  is_traffic (push_tick t) = true
  is_traffic (publish_tick t) = true
  is_traffic (write_tick t) = true
  is_traffic (push_fill f) = true
  is_traffic (publish_fill f) = true
  is_traffic _ = false

  -- Nothing is started, stopped, or handed on.
  abbrev pub is_preparation : Event n → Bool
  is_preparation start_engine = false
  is_preparation start_gateway = false
  is_preparation start_market_gateway = false
  is_preparation start_user_stream = false
  is_preparation stop_user_stream = false
  is_preparation stop_market_gateway = false
  is_preparation stop_gateway = false
  is_preparation stop_engine = false
  is_preparation stop_zmq = false
  is_preparation flush_log = false
  is_preparation stop_log = false
  is_preparation (push_tick t) = false
  is_preparation (publish_tick t) = false
  is_preparation (write_tick t) = false
  is_preparation (push_fill f) = false
  is_preparation (publish_fill f) = false
  is_preparation _ = true

  abbrev only : Bool → Phase → Option Phase
  only allowed p = if allowed then some p else none

  -- A replay hands ticks on once the order gateway runs, a live run once the market gateway does too.
  abbrev pub advance : (live : Bool) → Phase → Event n → Option Phase
  advance live setup start_engine = some engine_up
  advance live setup e = only (is_preparation e) setup
  advance live engine_up start_gateway = some running
  advance true running start_market_gateway = some feeding
  advance true running start_user_stream = some running
  advance true running (set_user_stream is_null) = some running
  advance false running stop_gateway = some gateway_down
  advance false running e = only (is_traffic e) running
  advance live feeding stop_market_gateway = some feed_closed
  advance live feeding e = only (is_traffic e) feeding
  advance live feed_closed stop_user_stream = some feed_closed
  advance live feed_closed stop_gateway = some gateway_down
  advance live gateway_down stop_engine = some engine_down
  advance live engine_down stop_zmq = some bridge_down
  advance live bridge_down flush_log = some flushed
  advance live flushed stop_log = some stopped
  advance _ _ _ = none

  abbrev pub runs : (live : Bool) → Phase → List (Event n) → Option Phase
  runs live p [] = some p
  runs live p (e ∷ es) = advance live p e >>= λ q. runs live q es

  runs-append :
      (live : Bool) (p : Phase) (xs ys : List (Event n))
      → runs live p (xs ++ ys) ≡ (runs live p xs >>= λ q. runs live q ys)
  runs-append live p [] ys = refl
  runs-append live p (x ∷ xs) ys = from (advance live p x) (λ q. runs-append live q xs ys)
    where
      from :
          (o : Option Phase)
          → ((q : Phase) → runs live q (xs ++ ys) ≡ (runs live q xs >>= λ q. runs live q ys))
          → (o >>= λ q. runs live q (xs ++ ys))
            ≡ ((o >>= λ q. runs live q xs) >>= λ q. runs live q ys)
      from none rest = refl
      from (some q) rest = rest q

  -- One part of a trace after another.
  pub runs_through :
      (live : Bool) (p q : Phase) (xs ys : List (Event n))
      → runs live p xs ≡ some q
      → runs live p (xs ++ ys) ≡ runs live q ys
  runs_through live p q xs ys e = runs-append live p xs ys ∙ ap (λ o. o >>= λ q. runs live q ys) e
