-- ===== src/Mpmc/Invariant/Owners.antt =====
-- A step keeps the owners of the slots apart.
use trading_engine.Base.{
  ℕ, ◌<◌, ◌≡◌, ◌≢◌, ◌⊎◌, inl, inr, sym, Option, some, arith, update, ◌∙◌, ℕ_discrete,
}
use trading_engine.Mpmc
use trading_engine.Mpmc.{Mem, Pc, Move, push_copy, push_store, pop_copy, pop_store, push_load}
use trading_engine.Mpmc.Invariant.{Knows, writes, reads}

module _ {A : Type 0} (k : ℕ) (m : Mem A) (values : ℕ → A) where
  pub writes_below : (q : Pc A) (t : ℕ) → Knows k m values q → writes q ≡ some t → t < m.head
  writes_below (push_copy v u) t g e = ground arith
  writes_below (push_store v u) t g e = ground arith
  writes_below _ t g e = cc

  pub reads_below : (q : Pc A) (t : ℕ) → Knows k m values q → reads q ≡ some t → t < m.tail
  reads_below (pop_copy u) t g e = ground arith
  reads_below (pop_store u v) t g e = ground arith
  reads_below _ t g e = cc

  -- A thread that may write after its step might before, or has just taken the ticket at the head.
  Move-writes :
      {p p' : Pc A} {m' : Mem A} (t : ℕ)
      → Move k m p m' p'
      → writes p' ≡ some t
      → (writes p ≡ some t) ⊎ (m.head ≡ t)
  Move-writes t (Mpmc.push_win e) w = inr (ground arith)
  Move-writes t Mpmc.push_write w = inl w
  Move-writes t _ w = cc

  Move-reads :
      {p p' : Pc A} {m' : Mem A} (t : ℕ)
      → Move k m p m' p'
      → reads p' ≡ some t
      → (reads p ≡ some t) ⊎ (m.tail ≡ t)
  Move-reads t (Mpmc.pop_win e) w = inr (ground arith)
  Move-reads t Mpmc.pop_read w = inl w
  Move-reads t _ w = cc

-- Owners stay apart if what the moving thread takes is nobody else's.
unique_after :
    {A : Type 0} (role : Pc A → Option ℕ) (pc : ℕ → Pc A) (i : ℕ) (p' : Pc A)
    → ((a b t : ℕ) → role (pc a) ≡ some t → role (pc b) ≡ some t → a ≡ b)
    → ((j t : ℕ) → i ≢ j → role p' ≡ some t → role (pc j) ≡ some t → ⊥)
    → (a b t : ℕ) → role (update pc i p' a) ≡ some t
    → role (update pc i p' b) ≡ some t
    → a ≡ b
unique_after role pc i p' one taken a b t ra rb = elim (ℕ_discrete i a) [
  | yes ia ↦ elim (ℕ_discrete i b) [
    | yes ib ↦ sym ia ∙ ib
    | no ib ↦ absurd (taken b t ib (ground arith) (ground arith))
  ]
  | no ia ↦ elim (ℕ_discrete i b) [
    | yes ib ↦ absurd (taken a t ia (ground arith) (ground arith))
    | no ib ↦ one a b t (ground arith) (ground arith)
  ]
]

module _ {A : Type 0} (k : ℕ) (m : Mem A) (values : ℕ → A) (pc : ℕ → Pc A)
    (knows : (j : ℕ) → Knows k m values (pc j)) (i : ℕ) where
  pub one_writer_after :
      {p' : Pc A} {m' : Mem A}
      → Move k m (pc i) m' p'
      → ((a b t : ℕ) → writes (pc a) ≡ some t → writes (pc b) ≡ some t → a ≡ b)
      → (a b t : ℕ) → writes (update pc i p' a) ≡ some t
      → writes (update pc i p' b) ≡ some t
      → a ≡ b
  one_writer_after {p'} mv one = unique_after writes pc i p' one λ j t ne w v.
      elim (Move-writes k m values t mv w) [
        | inl before ↦ ne (one i j t before v)
        | inr top ↦ omega (arith, writes_below k m values (pc j) t (knows j) v)
      ]

  pub one_reader_after :
      {p' : Pc A} {m' : Mem A}
      → Move k m (pc i) m' p'
      → ((a b t : ℕ) → reads (pc a) ≡ some t → reads (pc b) ≡ some t → a ≡ b)
      → (a b t : ℕ) → reads (update pc i p' a) ≡ some t
      → reads (update pc i p' b) ≡ some t
      → a ≡ b
  one_reader_after {p'} mv one = unique_after reads pc i p' one λ j t ne w v.
      elim (Move-reads k m values t mv w) [
        | inl before ↦ ne (one i j t before v)
        | inr top ↦ omega (arith, reads_below k m values (pc j) t (knows j) v)
      ]
