-- ===== src/Seqlock/Writes.antt =====
-- The accesses of one whole write of the sequence lock.
use mathlib.Core.Path.{subst}
use trading_engine.Base.{
  ℕ, zero, suc, ◌+◌, ◌≤◌, ◌<◌, ◌≡◌, refl, sym, ap, ◌∙◌, arith, update, update_self, update_ne,
  ℕ_discrete,
}
use trading_engine.Seqlock.{
  Hot, Writer, resting, writing, Write, bump, start_write, copy_field, end_write,
}

module _ {A : Type 0} (width : ℕ) (values : ℕ → ℕ → A) where
  -- Accesses of the writer, one after another.
  pub data Writes (m : Hot A) (p : Writer) : Hot A → Writer → Type 0 where
    no_write : Writes m p m p
    one_write :
        {m' m'' : Hot A} {p' p'' : Writer}
        → Writes m p m' p'
        → Write width values m' p' m'' p''
        → Writes m p m'' p''

  pub Writes-append :
      {m m' : Hot A} {p p' : Writer} {m'' : Hot A} {p'' : Writer}
      → Writes m p m' p'
      → Writes m' p' m'' p''
      → Writes m p m'' p''
  Writes-append run no_write = run
  Writes-append run (one_write more step) = one_write (Writes-append run more) step

  module _ (j : ℕ) where
    -- The first f fields are copied.
    abbrev Copied : Hot A → ℕ → Hot A → Type 0
    Copied m f m' =
        Writes m (resting j) m' (writing j f)
        × (m'.version ≡ bump m.version)
        × ((g : ℕ) → g < f → m'.cells g ≡ values (j + 1) g)

    copy_fields : (m : Hot A) (f : ℕ) → f ≤ width → (m' : Hot A) × Copied m f m'
    copy_fields m zero h = (_, (one_write no_write start_write, refl, λ g lt. absurd (omega arith)))
    copy_fields m (suc f) h =
        let (m', (run, version, cells)) = copy_fields m f (omega arith) in
        (
          record m' { cells = update m'.cells f (values (j + 1) f) },
          (
            subst
                (λ k.
                  Writes m (resting j) (record m' { cells = update m'.cells f (values (j + 1) f) })
                    (writing j k))
                (omega arith) (one_write run (copy_field (omega arith))),
            version,
            λ g lt. elim (ℕ_discrete f g) [
              | yes here ↦
                  ap (update m'.cells f (values (j + 1) f)) (sym here)
                  ∙ update_self m'.cells f (values (j + 1) f)
                  ∙ ap (values (j + 1)) here
              | no other ↦ update_ne m'.cells f g (values (j + 1) f) other ∙ cells g (omega arith)
            ],
          ),
        )

    -- A whole write leaves the next values in all fields, and the version two on.
    pub whole_write :
        (m : Hot A)
        → (m' : Hot A) × Writes m (resting j) m' (resting (j + 1))
          × (m'.version ≡ bump (bump m.version))
          × ((f : ℕ) → f < width → m'.cells f ≡ values (j + 1) f)
    whole_write m =
        let (m', (run, version, cells)) = copy_fields m width (omega arith) in
        (
          record m' { version = bump m'.version },
          one_write run (end_write refl),
          ap bump version,
          cells,
        )
