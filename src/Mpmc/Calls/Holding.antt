-- ===== src/Mpmc/Calls/Holding.antt =====
-- What whole calls of include/chronos/utils/mpmc_queue.hpp do to the values that the queue holds.
use trading_engine.Base.{
  ℕ, zero, suc, ◌+◌, ◌^◌, ◌≤◌, ◌<◌, ◌≡◌, ◌≢◌, refl, sym, ap, ◌∙◌, true, false, List, [], ◌∷◌, ◌++◌,
  some, arith, get_elem?, length, length-append, update, update_self, update_ne, dec_lt,
}
use trading_engine.Base.Int.{ltb_ℤ, pos}
use trading_engine.Mpmc.{Mem, capacity, slot, wrap, diff}
use trading_engine.Mpmc.Slots.{slot_apart, slot_next}
use trading_engine.Mpmc.Calls.{is_zero, after_push, after_pop}

apart : (k t u : ℕ) → t < u → u < t + capacity k → slot k t ≢ slot k u
apart k t u lt near e = omega (arith, slot_apart k t u e lt)

pub diff_same : (a b : ℕ) → a < 2 ^ 63 → a ≡ b → is_zero (diff a b) ≡ true
unfolding diff
diff_same a b ha e = ground arith

pub diff_below :
    (a b : ℕ)
    → b < 2 ^ 63
    → a < b
    → (is_zero (diff a b) ≡ false) × (ltb_ℤ (diff a b) (pos 0) ≡ true)
unfolding diff
diff_below a b hb lt = (ground arith, ground arith)

module _ {A : Type 0} (k : ℕ) where
  -- No call is under way, and the queue holds these values.
  pub record Holding (m : Mem A) (xs : List A) : Type 0 where
    pub count : m.head ≡ m.tail + length xs
    pub room : length xs ≤ capacity k
    pub full :
        (i : ℕ)
        → i < length xs
        → (m.seq (slot k (m.tail + i)) ≡ m.tail + i + 1)
          × (get_elem? xs i ≡ some (m.cells (slot k (m.tail + i))))
    pub free : (i : ℕ) → length xs ≤ i → i < capacity k → m.seq (slot k (m.tail + i)) ≡ m.tail + i

  get_elem?-front :
      (xs : List A) (x : A) (i : ℕ) → i < length xs → get_elem? (xs ++ (x ∷ [])) i ≡ get_elem? xs i
  get_elem?-front [] x i h = absurd (omega arith)
  get_elem?-front (y ∷ xs) x zero h = refl
  get_elem?-front (y ∷ xs) x (suc i) h = get_elem?-front xs x i (omega arith)

  get_elem?-end :
      (xs : List A) (x : A) (i : ℕ) → i ≡ length xs → get_elem? (xs ++ (x ∷ [])) i ≡ some x
  get_elem?-end [] x zero e = refl
  get_elem?-end [] x (suc i) e = absurd (omega arith)
  get_elem?-end (y ∷ xs) x zero e = absurd (omega arith)
  get_elem?-end (y ∷ xs) x (suc i) e = get_elem?-end xs x i (omega arith)

  pub after_push-Holding :
      (m : Mem A) (xs : List A) (v : A)
      → Holding m xs
      → m.head + capacity k < 2 ^ 63
      → length xs < capacity k
      → Holding (after_push k m v) (xs ++ (v ∷ []))
  after_push-Holding m xs v h small some_room =
      let count = h.count in
      let longer = length-append xs (v ∷ []) in
      let w = wrap (m.head + 1) in
      record {
        count = omega arith;
        room = omega arith;
        full = λ i lt. elim (dec_lt i (length xs)) [
          | yes old ↦
              let ne : slot k m.head ≢ slot k (m.tail + i) =
                λ e. apart k (m.tail + i) m.head (omega arith) (omega arith) (sym e) in
              (
                update_ne m.seq (slot k m.head) (slot k (m.tail + i)) w ne ∙ (h.full i old).0,
                get_elem?-front xs v i old
                    ∙ (h.full i old).1
                    ∙ ap some (sym (update_ne m.cells (slot k m.head) (slot k (m.tail + i)) v ne)),
              )
          | no last ↦
              let here : m.tail + i ≡ m.head = omega arith in
              (
                ap (λ t. update m.seq (slot k m.head) w (slot k t)) here
                    ∙ update_self m.seq (slot k m.head) w
                    ∙ omega arith,
                get_elem?-end xs v i (omega arith)
                    ∙ ap some (
                        sym (
                          ap (λ t. update m.cells (slot k m.head) v (slot k t)) here
                          ∙ update_self m.cells (slot k m.head) v)),
              )
        ];
        free = λ i lo hi.
            let ne = apart k m.head (m.tail + i) (omega arith) (omega arith) in
            update_ne m.seq (slot k m.head) (slot k (m.tail + i)) w ne ∙ h.free i (omega arith) hi;
      }

  pub after_pop-Holding :
      (m : Mem A) (x : A) (xs : List A)
      → Holding m (x ∷ xs)
      → m.head + capacity k < 2 ^ 63
      → Holding (after_pop k m) xs
  after_pop-Holding m x xs h small =
      let count = h.count in
      let room = h.room in
      let w = wrap (m.tail + capacity k) in
      let next : wrap (m.tail + 1) ≡ m.tail + 1 = omega arith in
      record {
        count = omega arith;
        room = omega arith;
        full = λ i lt.
            let up : wrap (m.tail + 1) + i ≡ m.tail + suc i = omega arith in
            let ne = apart k m.tail (m.tail + suc i) (omega arith) (omega arith) in
            (
              ap (λ t. update m.seq (slot k m.tail) w (slot k t)) up
                  ∙ update_ne m.seq (slot k m.tail) (slot k (m.tail + suc i)) w ne
                  ∙ (h.full (suc i) (omega arith)).0
                  ∙ omega arith,
              (h.full (suc i) (omega arith)).1 ∙ ap (λ t. some (m.cells (slot k t))) (sym up),
            );
        free = λ i lo hi.
            let up : wrap (m.tail + 1) + i ≡ m.tail + suc i = omega arith in
            ap (λ t. update m.seq (slot k m.tail) w (slot k t)) up
            ∙ elim (dec_lt (suc i) (capacity k)) [
              | yes old ↦
                  let ne = apart k m.tail (m.tail + suc i) (omega arith) (omega arith) in
                  update_ne m.seq (slot k m.tail) (slot k (m.tail + suc i)) w ne
                  ∙ h.free (suc i) (omega arith) old
                  ∙ omega arith
              | no freed ↦
                  let around : m.tail + suc i ≡ m.tail + capacity k = omega arith in
                  let same = ap (slot k) around ∙ slot_next k m.tail in
                  ap (update m.seq (slot k m.tail) w) same
                  ∙ update_self m.seq (slot k m.tail) w
                  ∙ omega arith
            ];
      }
