-- ===== src/Ids.antt =====
-- The order ids of include/chronos/trading/order_id_generator.hpp. `fetch_add` is atomic, so the calls
-- of all threads come one after the other.
mod Laws
mod Tests
use trading_engine.Base.{ℕ, zero, suc, ◌+◌, ◌%◌, ◌^◌, List, [], ◌∷◌}

pub record OrderIdGenerator : Type 0 where
  pub current_id : ℕ

-- 0 is reserved for an id that is not set.
abbrev pub default_generator : OrderIdGenerator
default_generator = record { current_id = 1 }

abbrev pub from_start_id : ℕ → OrderIdGenerator
from_start_id start_id = record { current_id = start_id % 2 ^ 64 }

abbrev pub generate : OrderIdGenerator → ℕ × OrderIdGenerator
generate g = (g.current_id, record g { current_id = (g.current_id + 1) % 2 ^ 64 })

abbrev pub get_current_id : OrderIdGenerator → ℕ
get_current_id g = g.current_id

-- The ids of the next calls, of whichever threads, in their order.
abbrev pub issue : ℕ → OrderIdGenerator → List ℕ
issue zero g = []
issue (suc calls) g = (generate g).0 ∷ issue calls (generate g).1
