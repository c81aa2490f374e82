-- ===== src/Log/Records.antt =====
-- `appendToBuffer` of include/chronos/logging/log_writer.hpp for one record after another.
use trading_engine.Base.{
  ℕ, zero, suc, ◌+◌, ◌*◌, ◌/◌, ◌≤◌, ◌<◌, ◌≡◌, refl, sym, ap, ◌∙◌, Option, some, List, [], ◌∷◌, ◌++◌,
  arith, length, take, drop, append_nil, append_assoc, drop-append, length-append, All, ◌>>=◌,
}
use mathlib.Core.Path.{subst}
use native.Mathlib.Nat.{mul-le-mul_right, le-div_iff_mul-le, div-add-mod, mod-lt}
use trading_engine.Layout.Codec.{Codec}
use trading_engine.Log.{LogBuffer, append_to_buffer}
use trading_engine.Log.Append.{IsBuffer, written, append_taken, append_refused}

module _ (c : Codec) where
  open c use {Record, IsRecord, size, size_bounds, bytes, read, length-bytes, read-bytes}

  -- Each record is offered once, and dropped if it is refused.
  abbrev pub append_all : LogBuffer → List Record → LogBuffer
  append_all buf [] = buf
  append_all buf (r ∷ rs) = append_all (append_to_buffer buf (bytes r)).1 rs

  -- So many records, one behind the other.
  abbrev pub read_records : ℕ → List ℕ → Option (List Record)
  read_records zero bs = some []
  read_records (suc n) bs = do r ← read bs; rs ← read_records n (drop size bs); some (r ∷ rs)

  abbrev all_bytes : List Record → List ℕ
  all_bytes [] = []
  all_bytes (r ∷ rs) = bytes r ++ all_bytes rs

  all_bytes-append :
      (rs : List Record) (r : Record) → all_bytes (rs ++ (r ∷ [])) ≡ all_bytes rs ++ bytes r
  all_bytes-append [] r = append_nil (bytes r)
  all_bytes-append (s ∷ rs) r =
      ap (λ t. bytes s ++ t) (all_bytes-append rs r)
      ∙ sym (append_assoc (bytes s) (all_bytes rs) (bytes r))

  read_records-all_bytes :
      (rs : List Record) (rest : List ℕ)
      → All IsRecord rs
      → read_records (length rs) (all_bytes rs ++ rest) ≡ some rs
  read_records-all_bytes [] rest h = refl
  read_records-all_bytes (r ∷ rs) rest (h, hs) =
      rw
        (
          append_assoc (bytes r) (all_bytes rs) rest,
          read-bytes r (all_bytes rs ++ rest) h,
          drop-append size (bytes r) (all_bytes rs ++ rest) (length-bytes r h),
          read_records-all_bytes rs rest hs,
        )
        refl

  abbrev pub Holds : LogBuffer → List Record → Type 0
  Holds buf held =
      IsBuffer buf
      × (buf.write_pos ≡ length held * size)
      × (written buf ≡ all_bytes held)
      × All IsRecord held

  length-snoc : (xs : List Record) (x : Record) → length (xs ++ (x ∷ [])) ≡ suc (length xs)
  length-snoc xs x = omega (arith, length-append xs (x ∷ []))

  snoc-All :
      (rs : List Record) (r : Record) → All IsRecord rs → IsRecord r → All IsRecord (rs ++ (r ∷ []))
  snoc-All [] r hs h = (h, hs)
  snoc-All (s ∷ rs) r (h0, hs) h = (h0, snoc-All rs r hs h)

  append-Holds :
      (buf : LogBuffer) (held : List Record) (r : Record)
      → Holds buf held
      → IsRecord r
      → suc (length held) * size ≤ length buf.data_
      → Holds (append_to_buffer buf (bytes r)).1 (held ++ (r ∷ []))
        × (length (append_to_buffer buf (bytes r)).1.data_ ≡ length buf.data_)
  append-Holds buf held r (h, at, bs, hs) hr fits =
      let sized = length-bytes r hr in
      let (after, same, moved, held_now) =
        append_taken buf (bytes r) h (omega (arith, sized, size_bounds)) (omega (arith, sized)) in
      (
        (
          after,
          omega (arith, moved, sized, at, ap (λ (k : ℕ). k * size) (length-snoc held r)),
          held_now ∙ ap (λ t. t ++ bytes r) bs ∙ sym (all_bytes-append held r),
          snoc-All held r hs hr,
        ),
        same,
      )

  refused :
      (buf : LogBuffer) (held : List Record) (r : Record)
      → Holds buf held
      → IsRecord r
      → length buf.data_ < suc (length held) * size
      → (append_to_buffer buf (bytes r)).1 ≡ buf
  refused buf held r (h, at, bs, hs) hr full =
      let sized = length-bytes r hr in
      ap (λ p. p.1)
        (append_refused buf (bytes r) h (omega (arith, sized, size_bounds)) (omega (arith, sized)))

  append_all-Holds :
      (room total : ℕ) (buf : LogBuffer) (held rs : List Record)
      → Holds buf held
      → All IsRecord rs
      → length held + room ≡ total
      → total * size ≤ length buf.data_
      → length buf.data_ < total * size + size
      → Holds (append_all buf rs) (held ++ take room rs)
  append_all-Holds zero total buf held [] h hs e low high = rw append_nil h
  append_all-Holds (suc room) total buf held [] h hs e low high = rw append_nil h
  append_all-Holds zero total buf held (r ∷ rs) h (hr, hs) e low high =
      subst (λ b. Holds (append_all b rs) (held ++ []))
        (sym (refused buf held r h hr (omega (arith, ap (λ (k : ℕ). k * size) e))))
        (append_all-Holds zero total buf held rs h hs e low high)
  append_all-Holds (suc room) total buf held (r ∷ rs) h (hr, hs) e low high =
      let more : suc (length held) ≤ total = omega arith in
      let (after, same) =
        append-Holds buf held r h hr (omega (arith, mul-le-mul_right size more)) in
      subst (Holds (append_all (append_to_buffer buf (bytes r)).1 rs))
        (append_assoc held (r ∷ []) (take room rs))
        (append_all-Holds room total (append_to_buffer buf (bytes r)).1 (held ++ (r ∷ [])) rs after
          hs (omega (arith, length-snoc held r)) (omega (arith, same)) (omega (arith, same)))

  take-drop : (n : ℕ) (bs : List ℕ) → take n bs ++ drop n bs ≡ bs
  take-drop zero bs = refl
  take-drop (suc n) [] = refl
  take-drop (suc n) (b ∷ bs) = ap (λ t. b ∷ t) (take-drop n bs)

  -- For a record type that is read back from its bytes, as ticks, orders and fills are: into an
  -- empty buffer smaller than 2 ^ 63, offered any records of the type by `appendToBuffer`, go the
  -- first ones, as many as its size divided by the size of a record, and these are what is read
  -- back from the buffer, in the same order.
  pub read_records-append_all :
      (buf : LogBuffer) (rs : List Record)
      → IsBuffer buf
      → buf.write_pos ≡ 0
      → All IsRecord rs
      → let after = append_all buf rs in
        let kept = take (length buf.data_ / size) rs in
        (after.write_pos ≡ length kept * size)
        × (read_records (length kept) after.data_ ≡ some kept)
  read_records-append_all buf rs h at hs =
      let total = length buf.data_ / size in
      let split = div-add-mod (length buf.data_) size in
      let left = mod-lt (length buf.data_) size_bounds.0 in
      let start : Holds buf [] = (h, omega arith, ap (λ n. take n buf.data_) at, tt) in
      let (inside, moved, held, good) =
        append_all-Holds total total buf [] rs start hs (omega arith) (omega (arith, split, left))
          (omega (arith, split, left)) in
      (
        moved,
        ap (read_records (length (take total rs))) (
              sym (take-drop (append_all buf rs).write_pos (append_all buf rs).data_)
              ∙ ap (λ t. t ++ drop (append_all buf rs).write_pos (append_all buf rs).data_) held)
            ∙ read_records-all_bytes (take total rs)
                (drop (append_all buf rs).write_pos (append_all buf rs).data_) good,
      )

  take-all : (n : ℕ) (rs : List Record) → length rs ≤ n → take n rs ≡ rs
  take-all zero [] h = refl
  take-all (suc n) [] h = refl
  take-all zero (r ∷ rs) h = absurd (omega arith)
  take-all (suc n) (r ∷ rs) h = ap (λ t. r ∷ t) (take-all n rs (omega arith))

  -- Records for which there is room are all taken.
  pub read_records-append_fitting :
      (buf : LogBuffer) (rs : List Record)
      → IsBuffer buf
      → buf.write_pos ≡ 0
      → All IsRecord rs
      → length rs * size ≤ length buf.data_
      → ((append_all buf rs).write_pos ≡ length rs * size)
        × (read_records (length rs) (append_all buf rs).data_ ≡ some rs)
  read_records-append_fitting buf rs h at hs fits =
      let all = take-all (length buf.data_ / size) rs ((le-div_iff_mul-le size_bounds.0).1 fits) in
      subst
        (λ kept.
          ((append_all buf rs).write_pos ≡ length kept * size)
          × (read_records (length kept) (append_all buf rs).data_ ≡ some kept))
        all (read_records-append_all buf rs h at hs)
