-- ===== src/Mpmc/Ordering/Sent.antt =====
-- What the value of each `seq` has been released with: a step of the queue keeps it.
use mathlib.Core.Path.{subst}
use trading_engine.Base.{
  ℕ, ◌+◌, ◌≤◌, ◌≡◌, ◌≢◌, ◌⊎◌, inl, inr, refl, sym, ap, arith, ◌∙◌, ℕ_discrete, update, update_self,
  update_ne,
}
use trading_engine.Mpmc
use trading_engine.Mpmc.{
  Mem, Pc, capacity, slot, push_cas, push_copy, push_store, pop_cas, pop_copy, pop_store, Move,
}
use trading_engine.Mpmc.Slots.{slot_apart}
use trading_engine.Mpmc.Invariant.{Knows}
use trading_engine.Mpmc.Invariant.Moves.{Bounds}
use trading_engine.Mpmc.Ordering.{Views, acquire, release, copy, effect_on_views}
use trading_engine.Mpmc.Ordering.Moves.{Covers, Waits, AllSent, Holds}

module _ {A : Type 0} (k : ℕ) (m : Mem A) (values : ℕ → A) (b : Bounds k m values) where
  -- A release hands on what its thread holds of the cell.
  release-AllSent :
      (m' : Mem A) (i u x : ℕ) (v : Views)
      → m'.seq ≡ update m.seq (slot k u) x
      → m'.head ≡ m.head
      → m'.tail ≡ m.tail
      → Covers (v.held i) (slot k u) (v.copies (slot k u))
      → AllSent k m v
      → AllSent k m' (release i (slot k u) v)
  unfolding release
  release-AllSent m' i u x v e hd tl mine sent t waits = elim (ℕ_discrete (slot k u) (slot k t)) [
    | yes here ↦
        subst (λ c. Covers (update v.sent (slot k u) (v.held i) c) c (v.copies c)) here
          (rw (update_self v.sent (slot k u) (v.held i)) mine)
    | no there ↦
        let same = ap (λ f. f (slot k t)) e ∙ update_ne m.seq (slot k u) (slot k t) x there in
        let before : Waits k m t = elim waits [
          | inl (q, late) ↦ inl (sym same ∙ q, omega (arith, hd, late))
          | inr (q, late) ↦ inr (sym same ∙ q, omega (arith, tl, late))
        ] in
        rw (update_ne v.sent (slot k u) (slot k t) (v.held i) there) (sent t before)
  ]

  Waits-before :
      (m' : Mem A) (t : ℕ)
      → m.head ≤ m'.head
      → m.tail ≤ m'.tail
      → ((m.seq (slot k t) ≡ t) × (m'.head ≤ t)) ⊎ ((m.seq (slot k t) ≡ t + 1) × (m'.tail ≤ t))
      → Waits k m t
  Waits-before m' t hd tl (inl (q, late)) = inl (q, omega arith)
  Waits-before m' t hd tl (inr (q, late)) = inr (q, omega arith)

  push_copy-Waits :
      (val : A) (u t : ℕ) → Knows k m values (push_copy val u) → Waits k m t → slot k u ≢ slot k t
  push_copy-Waits val u t know (inl (q, late)) e = ground (arith, ap m.seq e)
  push_copy-Waits val u t know (inr (q, late)) e =
      ground (arith, ap m.seq e, slot_apart k t u (sym e), b.two)

  pop_copy-Waits : (u t : ℕ) → Knows k m values (pop_copy u) → Waits k m t → slot k u ≢ slot k t
  pop_copy-Waits u t know (inl (q, late)) e = ground (arith, ap m.seq e, slot_apart k u t e, b.two)
  pop_copy-Waits u t know (inr (q, late)) e = ground (arith, ap m.seq e)

  pub Move-AllSent :
      {p p' : Pc A} {m' : Mem A} (mv : Move k m p m' p') (i : ℕ) (v : Views)
      → Knows k m values p
      → Holds k m p (v.held i) v.copies
      → AllSent k m v
      → AllSent k m' (effect_on_views k mv i v)
  unfolding acquire copy
  Move-AllSent (Mpmc.push_free {ticket = t} z) i v know h sent = sent
  Move-AllSent (Mpmc.push_full {ticket = t} z) i v know h sent = sent
  Move-AllSent (Mpmc.push_late {ticket = t} z) i v know h sent = sent
  Move-AllSent {m' = m'} (Mpmc.push_win {ticket = t} e) i v know h sent =
      λ u waits. sent u (Waits-before m' u (omega (arith, e, b.small)) (omega arith) waits)
  Move-AllSent {m' = m'} (Mpmc.push_write {ticket = t}) i v know h sent = λ u waits.
      rw
        (update_ne v.copies (slot k t) (slot k u) (v.copies (slot k t) + 1)
          (push_copy-Waits _ t u know waits))
        (sent u waits)
  Move-AllSent {m' = m'} (Mpmc.push_publish {ticket = t}) i v know h sent =
      release-AllSent m' i t (Mpmc.wrap (t + 1)) v refl refl refl h sent
  Move-AllSent (Mpmc.pop_ready {ticket = t} z) i v know h sent = sent
  Move-AllSent (Mpmc.pop_empty {ticket = t} z) i v know h sent = sent
  Move-AllSent (Mpmc.pop_late {ticket = t} z) i v know h sent = sent
  Move-AllSent {m' = m'} (Mpmc.pop_win {ticket = t} e) i v know h sent =
      λ u waits. sent u (Waits-before m' u (omega arith) (omega (arith, e, b.small, b.order)) waits)
  Move-AllSent (Mpmc.pop_read {ticket = t}) i v know h sent = λ u waits.
      rw
        (update_ne v.copies (slot k t) (slot k u) (v.copies (slot k t) + 1)
          (pop_copy-Waits t u know waits))
        (sent u waits)
  Move-AllSent {m' = m'} (Mpmc.pop_release {ticket = t}) i v know h sent =
      release-AllSent m' i t (Mpmc.wrap (t + capacity k)) v refl refl refl h sent
  Move-AllSent _ i v know h sent = sent
