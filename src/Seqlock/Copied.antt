-- ===== src/Seqlock/Copied.antt =====
-- What a reader of the sequence lock has copied while no write came in between.
use trading_engine.Base.{
  ℕ, zero, suc, ◌+◌, ◌<◌, ◌≡◌, sym, ap, ◌∙◌, arith, update, ℕ_discrete, update_ne, update_self,
}
use mathlib.Core.Path.{subst}

-- The first fields stand in the copy as they stand in memory.
abbrev pub Agrees : {A : Type 0} → ℕ → (ℕ → A) → (ℕ → A) → Type 0
Agrees f copy cells = (g : ℕ) → g < f → copy g ≡ cells g

Agrees-update :
    {A : Type 0} (f : ℕ) (copy cells : ℕ → A)
    → Agrees f copy cells
    → Agrees (f + 1) (update copy f (cells f)) cells
Agrees-update f copy cells same g lt = elim (ℕ_discrete f g) [
  | yes here ↦
      ap (update copy f (cells f)) (sym here) ∙ update_self copy f (cells f) ∙ ap cells here
  | no other ↦ update_ne copy f g (cells f) other ∙ same g (omega arith)
]

-- A loop that copies field after field, of which `At` says where it stands.
pub copy_rest :
    {A : Type 0} (width : ℕ) (cells : ℕ → A) (At : ℕ → (ℕ → A) → Type 0)
    → ((f : ℕ) (copy : ℕ → A) → f < width → At f copy → At (f + 1) (update copy f (cells f)))
    → (left f : ℕ) (copy : ℕ → A) → f + left ≡ width
    → Agrees f copy cells
    → At f copy
    → (last : ℕ → A) × At width last × Agrees width last cells
copy_rest width cells At step zero f copy end same at =
    (copy, subst (λ j. At j copy) (omega arith) at, λ g lt. same g (omega arith))
copy_rest width cells At step (suc left) f copy end same at =
    copy_rest width cells At step left (f + 1) (update copy f (cells f)) (omega arith)
      (Agrees-update f copy cells same) (step f copy (omega arith) at)
