-- ===== src/Backtest/Replayer.antt =====
-- The inline part of `TimeReplayer` of include/chronos/backtest/time_replayer.hpp. A stream stands for its
-- reader; callbacks are left out.
use trading_engine.Base.{ℕ, Bool, true, false, List, [], ltb, leb}
use trading_engine.Core.Numbers.{Numbers}

pub record StreamPos (Reader : Type 0) : Type 0 where
  pub reader : Reader
  pub pos : ℕ

pub record HeapEntry : Type 0 where
  pub timestamp : ℕ
  pub stream_idx : ℕ

-- `HeapEntry::operator>`.
abbrev pub is_after : HeapEntry → HeapEntry → Bool
is_after a b = ltb b.timestamp a.timestamp

module _ (n : Numbers) (Reader : Type 0) where
  open n use {Double, literal}

  pub record TimeReplayer : Type 0 where
    pub streams : List (StreamPos Reader)
    pub heap : List HeapEntry
    pub current_time : ℕ
    pub events_processed : ℕ
    pub total_events : ℕ
    pub acceleration : Double
    pub paused : Bool

  abbrev pub new_replayer : TimeReplayer
  new_replayer = record {
    streams = [];
    heap = [];
    current_time = 0;
    events_processed = 0;
    total_events = 0;
    acceleration = literal 0 0;
    paused = false;
  }

  abbrev pub is_exhausted : TimeReplayer → Bool
  is_exhausted r = leb r.total_events r.events_processed

  abbrev pub set_acceleration : Double → TimeReplayer → TimeReplayer
  set_acceleration factor r = record r { acceleration = factor }

  abbrev pub pause : TimeReplayer → TimeReplayer
  pause r = record r { paused = true }

  abbrev pub resume : TimeReplayer → TimeReplayer
  resume r = record r { paused = false }
