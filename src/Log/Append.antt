-- ===== src/Log/Append.antt =====
-- `appendToBuffer` of include/chronos/logging/log_writer.hpp against a log of bounded size.
use trading_engine.Base.{
  ℕ, zero, suc, ◌+◌, ◌%◌, ◌^◌, ◌≤◌, ◌<◌, ◌≡◌, refl, sym, ◌∙◌, ap, Bool, true, false, List, [], ◌∷◌,
  ◌++◌, arith, take, append_assoc, append_nil, length, length-set, set, ltb, if◌then◌else◌,
}
use trading_engine.Log.{LogBuffer, memcpy, append_to_buffer}

length-memcpy : (bytes xs : List ℕ) (pos : ℕ) → length (memcpy xs pos bytes) ≡ length xs
length-memcpy [] xs pos = refl
length-memcpy (b ∷ bytes) xs pos =
    length-memcpy bytes (set xs pos b) (pos + 1) ∙ length-set xs pos b

take-set :
    (xs : List ℕ) (pos b : ℕ)
    → pos < length xs
    → take (suc pos) (set xs pos b) ≡ take pos xs ++ b ∷ []
take-set [] pos b lt = elim lt [ ]
take-set (x ∷ xs) zero b lt = refl
take-set (x ∷ xs) (suc pos) b lt = ap (λ rest. x ∷ rest) (take-set xs pos b (omega arith))

take-memcpy :
    (bytes xs : List ℕ) (pos : ℕ)
    → pos + length bytes ≤ length xs
    → take (pos + length bytes) (memcpy xs pos bytes) ≡ take pos xs ++ bytes
take-memcpy [] xs pos fits =
    ap (λ n. take n xs) {y = pos} (omega arith) ∙ sym (append_nil (take pos xs))
take-memcpy (b ∷ bytes) xs pos fits =
    ap (λ n. take n (memcpy (set xs pos b) (pos + 1) bytes)) {y = pos + 1 + length bytes}
      (omega arith)
    ∙ take-memcpy bytes (set xs pos b) (pos + 1) (omega (arith, length-set xs pos b))
    ∙ ap (λ n. take n (set xs pos b) ++ bytes) {y = suc pos} (omega arith)
    ∙ ap (λ front. front ++ bytes) (take-set xs pos b (omega arith))
    ∙ append_assoc (take pos xs) (b ∷ []) bytes

-- What is written so far.
abbrev pub written : LogBuffer → List ℕ
written buf = take buf.write_pos buf.data_

-- The write position is in the buffer, and the buffer is smaller than half of the address space.
abbrev pub IsBuffer : LogBuffer → Type 0
IsBuffer buf = (buf.write_pos ≤ length buf.data_) × (length buf.data_ < 2 ^ 63)

-- A log of bounded size: what it holds, and whether it takes more.
abbrev pub offer : ℕ → List ℕ → ℕ → List ℕ → Bool × List ℕ
offer size held used bytes =
    if ltb size (used + length bytes) then (false, held) else (true, held ++ bytes)

-- An append is an append to the bounded log, with the same answer, and the buffer stays a buffer of
-- the same size.
abbrev pub IsAppended : LogBuffer → List ℕ → Bool × LogBuffer → Type 0
IsAppended buf bytes after =
    ((after.0, written after.1) ≡ offer (length buf.data_) (written buf) buf.write_pos bytes)
    × IsBuffer after.1
    × (length after.1.data_ ≡ length buf.data_)
    × (after.1.write_pos ≡ (if after.0 then buf.write_pos + length bytes else buf.write_pos))

by_test :
    (buf : LogBuffer) (bytes : List ℕ) (full : Bool) (end : ℕ)
    → IsBuffer buf
    → end ≡ buf.write_pos + length bytes
    → full ≡ ltb (length buf.data_) (buf.write_pos + length bytes)
    → IsAppended buf bytes (
        if full
        then (false, buf)
        else (true, record buf { data_ = memcpy buf.data_ buf.write_pos bytes; write_pos = end }))
by_test buf bytes true end h straight full =
    (ap (λ t. if t then (false, written buf) else (true, written buf ++ bytes)) full, h, refl, refl)
by_test buf bytes false end h straight room =
    let fits : buf.write_pos + length bytes ≤ length buf.data_ = ground arith in
    let same_size = length-memcpy bytes buf.data_ buf.write_pos in
    (
      ap (λ bs. (true, bs))
            (ap (λ n. take n (memcpy buf.data_ buf.write_pos bytes)) straight
              ∙ take-memcpy bytes buf.data_ buf.write_pos fits)
          ∙ ap (λ t. if t then (false, written buf) else (true, written buf ++ bytes)) room,
      (omega arith, omega arith),
      same_size,
      straight,
    )

-- For a buffer whose write position is inside it and whose size is below 2 ^ 63, `appendToBuffer`
-- of a record shorter than 2 ^ 63 bytes is an append to a bounded log, on both branches: it takes
-- the record exactly if the record fits; then the bytes written so far are those before and the
-- record's, else they are as before. The size stays, the write position moves by the record's
-- length if it is taken and else not at all, and the buffer stays well formed.
pub append_to_buffer_lem :
    (buf : LogBuffer) (bytes : List ℕ)
    → IsBuffer buf
    → length bytes < 2 ^ 63
    → IsAppended buf bytes (append_to_buffer buf bytes)
append_to_buffer_lem buf bytes h small =
    let straight : (buf.write_pos + length bytes) % 2 ^ 64 ≡ buf.write_pos + length bytes =
      omega arith in
    by_test buf bytes (ltb (length buf.data_) ((buf.write_pos + length bytes) % 2 ^ 64))
      ((buf.write_pos + length bytes) % 2 ^ 64) h straight (ap (ltb (length buf.data_)) straight)

-- The two branches.
pub append_taken :
    (buf : LogBuffer) (bytes : List ℕ)
    → IsBuffer buf
    → length bytes < 2 ^ 63
    → buf.write_pos + length bytes ≤ length buf.data_
    → let after = (append_to_buffer buf bytes).1 in
      IsBuffer after
      × (length after.data_ ≡ length buf.data_)
      × (after.write_pos ≡ buf.write_pos + length bytes)
      × (written after ≡ written buf ++ bytes)
append_taken buf bytes h small fits =
    let fitting : ltb (length buf.data_) (buf.write_pos + length bytes) ≡ false = ground arith in
    let (same, after, size, moved) = append_to_buffer_lem buf bytes h small in
    let offered =
      same ∙ ap (λ t. if t then (false, written buf) else (true, written buf ++ bytes)) fitting in
    (
      after,
      size,
      moved
          ∙ ap (λ t. if t then buf.write_pos + length bytes else buf.write_pos)
              (ap (λ p. p.0) offered),
      ap (λ p. p.1) offered,
    )

pub append_refused :
    (buf : LogBuffer) (bytes : List ℕ)
    → IsBuffer buf
    → length bytes < 2 ^ 63
    → length buf.data_ < buf.write_pos + length bytes
    → append_to_buffer buf bytes ≡ (false, buf)
append_refused buf bytes h small full = ground arith
