-- ===== src/Ids/Tests.antt =====
-- Ids across the wrap-around.
use trading_engine.Base.{ℕ, ◌≢◌, arith, get_elem?}
use trading_engine.Ids.{from_start_id, issue}
use trading_engine.Ids.Laws.{issue_distinct}

abbrev last_id : ℕ
last_id = 18446744073709551615

issue_distinct_example :
    get_elem? (issue 3 (from_start_id last_id)) 0 ≢ get_elem? (issue 3 (from_start_id last_id)) 2
issue_distinct_example = issue_distinct last_id 3 0 2 (omega arith) (omega arith) (omega arith)
