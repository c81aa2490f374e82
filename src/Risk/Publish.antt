-- ===== src/Risk/Publish.antt =====
-- What `publishParams` does to the buffer that it publishes and to the one that it retires.
use trading_engine.Base.{ℕ, ◌+◌, ◌%◌, ◌^◌, ◌≡◌, refl, sym}
use mathlib.Core.Path.{subst}
use trading_engine.Core.Numbers.{Numbers}
use trading_engine.Risk.{
  RiskEngine, converted, publish_params, get_read_buffer, get_write_buffer, buffer,
}

-- The readers are on one buffer and the writer is on the other.
pub data IsSplit (n : Numbers) (e : RiskEngine n) : Type 0 where
  readers_on_0 : e.active_cold ≡ 0 → e.write_idx ≡ 1 → IsSplit n e
  readers_on_1 : e.active_cold ≡ 1 → e.write_idx ≡ 0 → IsSplit n e

module _ (n : Numbers) where
  -- The state with the two indices written out.
  abbrev at_indices : RiskEngine n → ℕ → ℕ → RiskEngine n
  at_indices e a w = record e { active_cold = a; write_idx = w }

  abbrev at_indices-same :
      (e : RiskEngine n) {a w : ℕ} → e.active_cold ≡ a → e.write_idx ≡ w → at_indices e a w ≡ e
  at_indices-same e a w = λ i. at_indices e (sym a i) (sym w i)

  -- If the readers are on one cold buffer and the writer on the other, then so they are after
  -- `publishParams`.
  pub publish_params-IsSplit : (e : RiskEngine n) → IsSplit n e → IsSplit n (publish_params n e)
  publish_params-IsSplit e (readers_on_0 a w) =
      subst (λ s. IsSplit n (publish_params n s)) (at_indices-same e a w) (readers_on_1 refl refl)
  publish_params-IsSplit e (readers_on_1 a w) =
      subst (λ s. IsSplit n (publish_params n s)) (at_indices-same e a w) (readers_on_0 refl refl)

  -- The writer's parameters are what readers find, in the hot and in the cold form.
  abbrev pub IsPublished : RiskEngine n → RiskEngine n → Type 0
  IsPublished e e' =
      (e'.hot_params.limits ≡ converted n (get_write_buffer n e).params)
      × (e'.hot_params.version ≡ ((e.hot_params.version + 1) % 2 ^ 64 + 1) % 2 ^ 64)
      × ((get_read_buffer n e').params ≡ (get_write_buffer n e).params)
      × ((get_read_buffer n e').hot.limits ≡ converted n (get_write_buffer n e).params)

  -- If the readers are on one cold buffer and the writer on the other, then after `publishParams`
  -- the shared hot parameters are the conversion of the parameters in the writer's buffer, two
  -- versions on, and the readers' pointer is to a cold buffer with those parameters and the same
  -- conversion.
  pub publish_params_lem : (e : RiskEngine n) → IsSplit n e → IsPublished e (publish_params n e)
  publish_params_lem e (readers_on_0 a w) =
      subst (λ s. IsPublished s (publish_params n s)) (at_indices-same e a w)
        (refl, refl, refl, refl)
  publish_params_lem e (readers_on_1 a w) =
      subst (λ s. IsPublished s (publish_params n s)) (at_indices-same e a w)
        (refl, refl, refl, refl)

  -- What is left in the buffer that the readers had.
  abbrev pub IsRetired : RiskEngine n → RiskEngine n → Type 0
  IsRetired e e' =
      ((buffer n e' e.active_cold).params ≡ (get_read_buffer n e).params)
      × ((buffer n e' e.active_cold).hot.limits ≡ converted n (get_write_buffer n e).params)

  -- If the readers are on one cold buffer and the writer on the other, then after `publishParams`
  -- the buffer that the readers had before, which a reader may still hold, keeps its parameters but
  -- not their conversion: the new one is written over it.
  pub publish_params-IsRetired : (e : RiskEngine n) → IsSplit n e → IsRetired e (publish_params n e)
  publish_params-IsRetired e (readers_on_0 a w) =
      subst (λ s. IsRetired s (publish_params n s)) (at_indices-same e a w) (refl, refl)
  publish_params-IsRetired e (readers_on_1 a w) =
      subst (λ s. IsRetired s (publish_params n s)) (at_indices-same e a w) (refl, refl)
