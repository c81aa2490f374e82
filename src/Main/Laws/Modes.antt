-- ===== src/Main/Laws/Modes.antt =====
-- Which mode `main` of src/main.cpp starts, and with which settings.
use trading_engine.Base.{
  ◌>>=◌, ℕ, ◌≡◌, ◌⊎◌, inl, inr, refl, sym, ◌∙◌, ap, Bool, true, false, not, List, [], Option, none,
  some, if◌then◌else◌,
}
use trading_engine.Core.Numbers.{Numbers}
use trading_engine.App.{AppConfig, Yaml, Flags, parse_args, default_app_config, is_empty_text}
use trading_engine.App.Load.{load_config}
use trading_engine.App.Laws.{HasCommandLine, load_config_keeps}
use trading_engine.Main.{Event, main}

-- The program has called nothing and returns 1.
abbrev pub IsRefused : {n : Numbers} → ℕ × List (Event n) → Type 0
IsRefused r = r ≡ (1, [])

some_injective : {A : Type 0} {a b : A} → some a ≡ some b → a ≡ b
some_injective {a = a} e = ap (λ o. elim o [ some x ↦ x | none ↦ a ]) e

module _ {n : Numbers} (y : Yaml n) (flags : Flags)
    (run_live run_file_replay : AppConfig n → Option (ℕ × List (Event n))) where
  -- The mode that the flags name ran, with the settings of the command line.
  abbrev pub RanMode : ℕ × List (Event n) → Type 0
  RanMode r =
      (cfg : AppConfig n) × (cfg.log_dir ≡ flags.replay)
      × (cfg.date ≡ flags.date)
      × (cfg.force_simulate ≡ flags.simulate)
      × ((if flags.live then run_live cfg else run_file_replay cfg) ≡ some r)

  abbrev given : AppConfig n
  given = (parse_args flags (default_app_config n)).1

  abbrev choose : Bool × AppConfig n → Option (ℕ × List (Event n))
  choose r =
      if not r.0
      then some (1, [])
      else if r.1.live_mode
      then run_live r.1
      else if is_empty_text r.1.log_dir
      then some (1, [])
      else run_file_replay r.1

  choose-RanMode :
      (ok : Bool) (cfg : AppConfig n) (live no_dir : Bool) {r : ℕ × List (Event n)}
      → HasCommandLine y given cfg
      → cfg.live_mode ≡ live
      → (if not ok
          then some (1, [])
          else if live
          then run_live cfg
          else if no_dir
          then some (1, [])
          else run_file_replay cfg)
        ≡ some r
      → IsRefused r ⊎ RanMode r
  choose-RanMode false cfg live no_dir h mode e = inl (some_injective (sym e))
  choose-RanMode true cfg true no_dir h mode e = inr (
    cfg,
    h.1,
    h.2,
    h.4,
    ap (λ b. if b then run_live cfg else run_file_replay cfg) (sym h.3 ∙ mode) ∙ e,
  )
  choose-RanMode true cfg false true h mode e = inl (some_injective (sym e))
  choose-RanMode true cfg false false h mode e = inr (
    cfg,
    h.1,
    h.2,
    h.4,
    ap (λ b. if b then run_live cfg else run_file_replay cfg) (sym h.3 ∙ mode) ∙ e,
  )

  loaded-RanMode :
      (o : Option (Bool × AppConfig n)) {r : ℕ × List (Event n)}
      → ((ok : Bool) (cfg : AppConfig n) → o ≡ some (ok, cfg) → HasCommandLine y given cfg)
      → (o >>= choose) ≡ some r
      → IsRefused r ⊎ RanMode r
  loaded-RanMode none keeps e = cc
  loaded-RanMode (some (ok, cfg)) keeps e =
      choose-RanMode ok cfg cfg.live_mode (is_empty_text cfg.log_dir) (keeps ok cfg refl) refl e

  by_args :
      (ok : Bool) {r : ℕ × List (Event n)}
      → (if not ok then some (1, []) else (load_config y given.config_path given >>= choose))
        ≡ some r
      → IsRefused r ⊎ RanMode r
  by_args false e = inl (some_injective (sym e))
  by_args true e =
      loaded-RanMode (load_config y given.config_path given)
        (λ ok cfg same. load_config_keeps y given.config_path given same) e

  -- If `main` returns, for whatever the two modes do, then it returns 1 without a call, or it
  -- returns what the mode that `--live` chooses returns for settings whose log directory, date and
  -- simulation switch are those of the command line.
  pub main_runs_mode :
      {r : ℕ × List (Event n)}
      → main n y flags run_live run_file_replay ≡ some r
      → IsRefused r ⊎ RanMode r
  main_runs_mode e = by_args (parse_args flags (default_app_config n)).0 e
