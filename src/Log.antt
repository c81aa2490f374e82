-- ===== src/Log.antt =====
-- The buffer of include/chronos/logging/log_writer.hpp that records are appended to. The mutex makes a
-- call one step; bytes are numbers, and a record is the list of its bytes.
pub mod Append
pub mod Records
pub mod Writer
mod Tests
use trading_engine.Base.{
  ℕ, ◌+◌, ◌%◌, ◌^◌, Bool, true, false, List, [], ◌∷◌, length, set, ltb, if◌then◌else◌,
}

pub record LogBuffer : Type 0 where
  pub data_ : List ℕ
  pub write_pos : ℕ

abbrev pub memcpy : List ℕ → ℕ → List ℕ → List ℕ
memcpy data_ pos [] = data_
memcpy data_ pos (byte ∷ bytes) = memcpy (set data_ pos byte) (pos + 1) bytes

-- The result, and the buffer after the call.
abbrev pub append_to_buffer : LogBuffer → List ℕ → Bool × LogBuffer
append_to_buffer buf bytes =
    let end = (buf.write_pos + length bytes) % 2 ^ 64 in
    if ltb (length buf.data_) end
    then (false, buf)
    else (true, record buf { data_ = memcpy buf.data_ buf.write_pos bytes; write_pos = end })
