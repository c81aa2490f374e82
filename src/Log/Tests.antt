-- ===== src/Log/Tests.antt =====
-- A record that fits behind another one, and one that does not.
use trading_engine.Base.{ℕ, ◌^◌, ◌<◌, ◌≡◌, refl, false, some, List, [], ◌∷◌, arith}
use trading_engine.Base.Int.{ℤ, pos}
use trading_engine.Core.Structs.{OrderRequest, default_order_request, zeros}
use trading_engine.Layout.Codec.{orders}
use trading_engine.Layout.Readers.{IsOrder}
use trading_engine.Log.Records.{append_all, read_records, read_records-append_all}
use trading_engine.Log.Append.{IsAppended, append_to_buffer_lem}
use trading_engine.Log.{LogBuffer, append_to_buffer}

abbrev five_bytes : LogBuffer
five_bytes = record { data_ = 7 ∷ 8 ∷ 0 ∷ 0 ∷ 0 ∷ []; write_pos = 2 }

append_to_buffer_lem_example :
    IsAppended five_bytes (4 ∷ 5 ∷ []) (append_to_buffer five_bytes (4 ∷ 5 ∷ []))
append_to_buffer_lem_example =
    append_to_buffer_lem five_bytes (4 ∷ 5 ∷ []) (omega arith, omega arith) (omega arith)

append_too_long : append_to_buffer five_bytes (1 ∷ 2 ∷ 3 ∷ 4 ∷ []) ≡ (false, five_bytes)
append_too_long = refl

-- A buffer with room for two orders and a half takes two of three.
abbrev order_buffer : LogBuffer
order_buffer = record { data_ = zeros 320; write_pos = 0 }

abbrev numbered : ℕ → OrderRequest ℤ
numbered i = record (default_order_request (pos 0)) { order_id = i }

abbrev three_orders : List (OrderRequest ℤ)
three_orders = numbered 1 ∷ numbered 2 ∷ numbered 3 ∷ []

numbered-IsOrder : (i : ℕ) → i < 2 ^ 64 → IsOrder (numbered i)
numbered-IsOrder i h = (
  (h, omega arith, omega arith, omega arith, omega arith, omega arith),
  (omega arith, omega arith, omega arith),
  omega arith,
  refl,
)

read_records-append_all_example :
    ((append_all orders order_buffer three_orders).write_pos ≡ 256)
    × (read_records orders 2 (append_all orders order_buffer three_orders).data_
        ≡ some (numbered 1 ∷ numbered 2 ∷ []))
read_records-append_all_example =
    read_records-append_all orders order_buffer three_orders (omega arith, omega arith) refl
      (
        numbered-IsOrder 1 (omega arith),
        (numbered-IsOrder 2 (omega arith), (numbered-IsOrder 3 (omega arith), tt)),
      )
