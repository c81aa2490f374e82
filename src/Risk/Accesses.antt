-- ===== src/Risk/Accesses.antt =====
-- `publishParams` of include/chronos/risk/risk_engine.hpp as the writer of the sequence lock on the hot
-- parameters, one access at a time, and what `readHotParamsOptimistic` sees of it.
use mathlib.Core.Path.{subst}
use trading_engine.Base.{ℕ, zero, suc, ◌+◌, ◌*◌, ◌≤◌, ◌<◌, ◌≡◌, refl, sym, ap, ◌∙◌, some, arith}
use trading_engine.Core.Numbers.{Numbers}
use trading_engine.Seqlock.{Hot, resting, returned, System, Reach, bump, max_retries}
use trading_engine.Seqlock.Writes.{Writes, no_write, whole_write, Writes-append}
use trading_engine.Seqlock.Invariant.{read_consistent}
use trading_engine.Risk.{Limits, HotParams, RiskEngine, converted, get_write_buffer, publish_params}
use trading_engine.Risk.Publish.{
  IsSplit, readers_on_0, readers_on_1, publish_params_lem, publish_params-IsSplit,
}

module _ (n : Numbers) where
  open n use {Decimal}

  -- A member of the hot parameters in front of the version.
  pub data Word : Type 0 where
    decimal : Decimal → Word
    rate : ℕ → Word

  abbrev pub word : Limits n → ℕ → Word
  word l zero = decimal l.max_order_value
  word l (suc zero) = decimal l.max_position_value
  word l (suc (suc zero)) = decimal l.max_total_position_value
  word l (suc (suc (suc zero))) = decimal l.min_available_capital
  word l (suc (suc (suc (suc f)))) = rate l.max_orders_per_second

  -- The hot structure holds these parameters.
  abbrev pub Represents : Hot Word → HotParams n → Type 0
  Represents m h = (m.version ≡ h.version) × ((f : ℕ) → f < 5 → m.cells f ≡ word h.limits f)

  -- The engine before each `publishParams`: in between only the cold parameters are changed.
  pub record IsHistory (before : ℕ → RiskEngine n) : Type 0 where
    pub split : IsSplit n (before 0)
    pub fresh : (before 0).hot_params.version ≡ 0
    pub same_hot : (j : ℕ) → (before (suc j)).hot_params ≡ (publish_params n (before j)).hot_params
    pub same_readers :
        (j : ℕ) → (before (suc j)).active_cold ≡ (publish_params n (before j)).active_cold
    pub same_writer : (j : ℕ) → (before (suc j)).write_idx ≡ (publish_params n (before j)).write_idx

  -- What the j-th `publishParams` copies to the hot parameters.
  abbrev pub published : (ℕ → RiskEngine n) → ℕ → ℕ → Word
  published before zero = word (before 0).hot_params.limits
  published before (suc j) = word (converted n (get_write_buffer n (before j)).params)

  module _ {before : ℕ → RiskEngine n} (h : IsHistory before) where
    split_at : (j : ℕ) → IsSplit n (before j)
    split_at zero = h.split
    split_at (suc j) = elim (publish_params-IsSplit n (before j) (split_at j)) [
      | readers_on_0 a w ↦ readers_on_0 (h.same_readers j ∙ a) (h.same_writer j ∙ w)
      | readers_on_1 a w ↦ readers_on_1 (h.same_readers j ∙ a) (h.same_writer j ∙ w)
    ]

    limits-published : (j f : ℕ) → published before j f ≡ word (before j).hot_params.limits f
    limits-published zero f = refl
    limits-published (suc j) f =
        ap (λ l. word l f)
          (sym (publish_params_lem n (before j) (split_at j)).0
            ∙ ap (λ p. p.limits) (sym (h.same_hot j)))

    -- The accesses of one call.
    one_call :
        (j : ℕ) {m : Hot Word}
        → Represents m (before j).hot_params
        → (m' : Hot Word) × Writes 5 (published before) m (resting j) m' (resting (suc j))
          × Represents m' (before (suc j)).hot_params
    one_call j {m} (version, cells) =
        let (m', run, version', cells') = whole_write 5 (published before) j m in
        let next : j + 1 ≡ suc j = omega arith in
        (
          m',
          subst (λ k. Writes 5 (published before) m (resting j) m' (resting k)) next run,
          (
            version'
                ∙ ap (λ v. bump (bump v)) version
                ∙ sym (publish_params_lem n (before j) (split_at j)).1
                ∙ ap (λ p. p.version) (sym (h.same_hot j)),
            λ f lt. cells' f lt ∙ ap (λ k. published before k f) next ∙ limits-published (suc j) f,
          ),
        )

    -- If at the start the readers are on one cold buffer and the writer on the other and the hot
    -- version is 0, and between calls of `publishParams` only cold parameters change: the accesses
    -- of a writer of the sequence lock, whose j-th write is what the j-th call converts, lead from
    -- the first hot parameters to those before each later call, members and version.
    pub publish_params-Writes :
        (j : ℕ)
        → (m : Hot Word) × Writes 5
            (published before)
            (record { cells = published before 0; version = 0 })
            (resting 0)
            m
            (resting j)
          × Represents m (before j).hot_params
    publish_params-Writes zero = (_, no_write, (sym h.fresh, λ f lt. refl))
    publish_params-Writes (suc j) =
        let (m, run, now) = publish_params-Writes j in
        let (m', call, after) = one_call j now in
        (m', Writes-append 5 (published before) run call, after)

    -- If at the start the readers are on one cold buffer and the writer on the other and the hot
    -- version is 0, and between calls of `publishParams` only cold parameters change: what a reader
    -- of the hot parameters, in any interleaving with the accesses of these calls and while the
    -- version does not wrap, returns after its version check is all five members as they stand
    -- after one number of calls.
    pub reader_sees_published :
        {s : System Word}
        → Reach 5 (some max_retries) (published before) s
        → (i : ℕ) {copy : ℕ → Word} → s.readers i ≡ returned copy
        → (j : ℕ) × (2 * j ≤ s.hot.version)
          × ((f : ℕ) → f < 5 → copy f ≡ word (before j).hot_params.limits f)
    reader_sees_published r i e =
        let (j, le, same) = read_consistent 5 (published before) r i e in
        (j, le, λ f lt. same f lt ∙ limits-published j f)
