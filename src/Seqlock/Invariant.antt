-- ===== src/Seqlock/Invariant.antt =====
-- The reads of the sequence lock that end by their version check.
use trading_engine.Base.{
  ℕ, ◌+◌, ◌*◌, ◌%◌, ◌^◌, ◌≤◌, ◌<◌, ◌≡◌, refl, sym, ap, ◌∙◌, Option, arith, update, ℕ_discrete,
  update_ne, update_self, ◌/◌,
}
use mathlib.Core.Path.{subst}
use trading_engine.Seqlock
use trading_engine.Seqlock.{
  Hot, Writer, Reader, resting, writing, top, reading, returned, fallback, returned_unchecked,
  Write, Read, System, Step, by_writer, by_reader, Reach, start, later,
}

module _ {A : Type 0} (width : ℕ) (values : ℕ → ℕ → A) where
  -- What the version and the cells are, by where the writer stands.
  abbrev pub Written : Hot A → Writer → Type 0
  Written m (resting j) = (m.version ≡ 2 * j) × ((f : ℕ) → f < width → m.cells f ≡ values j f)
  Written m (writing j k) =
      (m.version ≡ 2 * j + 1) × (k ≤ width) × ((f : ℕ) → f < k → m.cells f ≡ values (j + 1) f)

  -- What a reader has read, so long as the version is still the one that it saw.
  abbrev pub Seen : Hot A → Reader A → Type 0
  Seen m (reading r v k copy) =
      (v ≤ m.version)
      × (k ≤ width)
      × ((j : ℕ) → v ≡ 2 * j → m.version ≡ v → (f : ℕ) → f < k → copy f ≡ values j f)
      × (v % 2 ≡ 0)
  Seen m (returned copy) =
      (j : ℕ) × (2 * j ≤ m.version) × ((f : ℕ) → f < width → copy f ≡ values j f)
  Seen m _ = Unit

  Write-Written :
      {m m' : Hot A} {p p' : Writer}
      → m.version + 2 < 2 ^ 64
      → Write width values m p m' p'
      → Written m p
      → Written m' p'
  Write-Written small (Seqlock.start_write {j}) h =
      (omega arith, omega arith, λ f lt. absurd (omega arith))
  Write-Written small (Seqlock.copy_field {j} {f = k} lt) h =
      (h.0, omega arith, λ f below. ground (arith, h.2 f))
  Write-Written small (Seqlock.end_write {j} {f = k} e) h =
      (omega arith, λ f below. h.2 f (omega arith))

  -- Every access of the writer takes the version past an even one that was seen before, or leaves it odd.
  Write-newer :
      {m m' : Hot A} {p p' : Writer} (v : ℕ)
      → m.version + 2 < 2 ^ 64
      → Write width values m p m' p'
      → Written m p
      → v ≤ m.version
      → v % 2 ≡ 0
      → (v < m'.version) × (m.version ≤ m'.version)
  Write-newer v small Seqlock.start_write h le even = (omega arith, omega arith)
  Write-newer v small (Seqlock.copy_field lt) h le even = (omega arith, omega arith)
  Write-newer v small (Seqlock.end_write e) h le even = (omega arith, omega arith)

  Write-Seen :
      {m m' : Hot A} {p p' : Writer} (q : Reader A)
      → m.version + 2 < 2 ^ 64
      → Write width values m p m' p'
      → Written m p
      → Seen m q
      → Seen m' q
  Write-Seen (top r) small mv h g = tt
  Write-Seen {m' = m'} (reading r v k copy) small mv h g =
      let newer = Write-newer v small mv h g.0 g.3 in
      (omega arith, g.1, λ j e e' f lt. absurd (omega arith), g.3)
  Write-Seen (returned copy) small mv h (j, le, same) =
      let newer = Write-newer (2 * j) small mv h le (omega arith) in (j, omega arith, same)
  Write-Seen _ small mv h g = tt

  cells_published :
      (m : Hot A) (w : Writer) (j : ℕ)
      → Written m w
      → m.version ≡ 2 * j
      → (f : ℕ) → f < width
      → m.cells f ≡ values j f
  cells_published m (resting i) j h e f lt =
      let same : i ≡ j = omega arith in h.1 f lt ∙ ap (λ t. values t f) same
  cells_published m (writing i k) j h e f lt = absurd (omega arith)

  Read-Seen :
      {limit : Option ℕ} {m : Hot A} (w : Writer) {p p' : Reader A}
      → Read width limit m p p'
      → Written m w
      → Seen m p
      → Seen m p'
  Read-Seen w (Seqlock.begin junk more even) h g =
      (omega arith, omega arith, λ j e e' f lt. absurd (omega arith), even)
  Read-Seen {m = m} w (Seqlock.read_field {v = v} {f = k} {copy = copy} lt) h g = (
    g.0,
    omega arith,
    λ j e e' f below. elim (ℕ_discrete k f) [
      | yes here ↦
          ap (update copy k (m.cells k)) (sym here)
          ∙ update_self copy k (m.cells k)
          ∙ cells_published m w j h (e' ∙ e) k lt
          ∙ ap (values j) here
      | no other ↦ update_ne copy k f (m.cells k) other ∙ g.2 j e e' f (omega arith)
    ],
    g.3,
  )
  Read-Seen w (Seqlock.accept {v = v} end same) h g =
      (v / 2, omega arith, λ f lt. g.2 (v / 2) (omega arith) (sym same) f (omega arith))
  Read-Seen w _ h g = tt

  record Inv (s : System A) : Type 0 where
    written : Written s.hot s.writer
    seen : (i : ℕ) → Seen s.hot (s.readers i)

  returned-Seen :
      (m : Hot A) (q : Reader A) {copy : ℕ → A}
      → Seen m q
      → q ≡ returned copy
      → (j : ℕ) × (2 * j ≤ m.version) × ((f : ℕ) → f < width → copy f ≡ values j f)
  returned-Seen m q g e = subst (Seen m) e g

  module _ {limit : Option ℕ} where
    Step-Inv :
        {s t : System A} → s.hot.version + 2 < 2 ^ 64 → Step width limit values s t → Inv s → Inv t
    Step-Inv {s} small (by_writer mv) inv = record {
      written = Write-Written small mv inv.written;
      seen = λ i. Write-Seen (s.readers i) small mv inv.written (inv.seen i);
    }
    Step-Inv {s} small (by_reader i {p} mv) inv = record {
      written = inv.written;
      seen = λ k. elim (ℕ_discrete i k) [
        | yes here ↦
            subst (Seen s.hot)
              (sym (ap (update s.readers i p) (sym here) ∙ update_self s.readers i p))
              (Read-Seen s.writer mv inv.written (inv.seen i))
        | no other ↦ subst (Seen s.hot) (sym (update_ne s.readers i k p other)) (inv.seen k)
      ];
    }

    Reach-Inv : {s : System A} → Reach width limit values s → Inv s
    Reach-Inv start = record { written = (refl, λ f lt. refl); seen = λ _. tt }
    Reach-Inv (later r small st) = Step-Inv small st (Reach-Inv r)

    -- With one writer and any number of readers in any interleaving, and a version that does not
    -- wrap: what a reader returns after its version check is one published state, the same j-th in
    -- all fields, and one whose write had ended.
    pub read_consistent :
        {s : System A}
        → Reach width limit values s
        → (i : ℕ) {copy : ℕ → A} → s.readers i ≡ returned copy
        → (j : ℕ) × (2 * j ≤ s.hot.version) × ((f : ℕ) → f < width → copy f ≡ values j f)
    read_consistent {s} r i e = returned-Seen s.hot (s.readers i) ((Reach-Inv r).seen i) e
