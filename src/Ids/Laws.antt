-- ===== src/Ids/Laws.antt =====
-- Properties of the ids of include/chronos/trading/order_id_generator.hpp.
use trading_engine.Base.{
  ℕ, zero, suc, ◌+◌, ◌%◌, ◌^◌, ◌≤◌, ◌<◌, ◌≡◌, ◌≢◌, sym, ◌∙◌, ap, none, some, arith, get_elem?,
}
use trading_engine.Ids.{OrderIdGenerator, default_generator, from_start_id, generate, issue}

some_injective : {a b : ℕ} → some a ≡ some b → a ≡ b
some_injective {a} e = ap (λ o. elim o [ some x ↦ x | none ↦ a ]) e

-- The k-th call from now gets the current id plus k, which wraps at 64 bits.
get_elem?-issue :
    (calls k : ℕ) (g : OrderIdGenerator)
    → g.current_id < 2 ^ 64
    → k < calls
    → get_elem? (issue calls g) k ≡ some ((g.current_id + k) % 2 ^ 64)
get_elem?-issue zero k g small lt = absurd (omega arith)
get_elem?-issue (suc calls) zero g small lt = ap some (omega arith)
get_elem?-issue (suc calls) (suc k) g small lt =
    get_elem?-issue calls k (generate g).1 (omega arith) (omega arith) ∙ ap some (omega arith)

-- From any start id, of the next calls of `generate`, at most 2 ^ 64 of them and by whichever
-- threads, no two get the same id.
pub issue_distinct :
    (start_id calls i j : ℕ)
    → calls ≤ 2 ^ 64
    → i < j
    → j < calls
    → get_elem? (issue calls (from_start_id start_id)) i
      ≢ get_elem? (issue calls (from_start_id start_id)) j
issue_distinct start_id calls i j all lt below same =
    let g = from_start_id start_id in
    let small : g.current_id < 2 ^ 64 = omega arith in
    let ids : (g.current_id + i) % 2 ^ 64 ≡ (g.current_id + j) % 2 ^ 64 = some_injective (
      sym (get_elem?-issue calls i g small (omega arith))
      ∙ same
      ∙ get_elem?-issue calls j g small below) in
    absurd (omega arith)

-- A generator made without a start id gives its first calls, fewer than 2 ^ 64 of them, the ids 1,
-- 2, 3 and so on, and so 0 to none of them.
issue_from_one :
    (calls k : ℕ)
    → calls < 2 ^ 64
    → k < calls
    → get_elem? (issue calls default_generator) k ≡ some (k + 1)
issue_from_one calls k few lt =
    get_elem?-issue calls k default_generator (omega arith) lt ∙ ap some (omega arith)
