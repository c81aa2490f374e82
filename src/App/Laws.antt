-- ===== src/App/Laws.antt =====
-- Settings of the command line and settings of the file in src/app_config.hpp.
use Prim.Native.String.{String}
use trading_engine.Base.{
  ◌>>=◌, ◌≡◌, refl, sym, ◌∙◌, ap, Bool, true, false, Option, none, some, arith, ◌<◌,
}
use mathlib.Core.Path.{subst}
use trading_engine.Core.Numbers.{Numbers}
use trading_engine.App.{AppConfig, Yaml}
use trading_engine.App.Load.{
  load_engine, load_strategies, load_exchanges, load_risk, load_log, load_zmq, load_sections,
  load_config,
}

module _ {n : Numbers} (y : Yaml n) where
  open y use {Node, load_file, get, at, is_defined, is_sequence, items, size}

  -- A property of the settings, if no exception escapes.
  abbrev IfLoaded : (AppConfig n → Type 0) → Option (AppConfig n) → Type 0
  IfLoaded R none = Unit
  IfLoaded R (some cfg) = R cfg

  next :
      (R : AppConfig n → Type 0) (o : Option (AppConfig n)) (k : AppConfig n → Option (AppConfig n))
      → IfLoaded R o
      → ((c : AppConfig n) → R c → IfLoaded R (k c))
      → IfLoaded R (o >>= k)
  next R none k h more = tt
  next R (some c) k h more = more c h

  -- The settings that only the command line gives.
  abbrev pub HasCommandLine : AppConfig n → AppConfig n → Type 0
  HasCommandLine given cfg =
      (cfg.config_path ≡ given.config_path)
      × (cfg.log_dir ≡ given.log_dir)
      × (cfg.date ≡ given.date)
      × (cfg.live_mode ≡ given.live_mode)
      × (cfg.force_simulate ≡ given.force_simulate)

  module _ (given : AppConfig n) (root : Node) where
    abbrev R : AppConfig n → Type 0
    R = HasCommandLine given

    load_engine-R : (cfg : AppConfig n) → R cfg → IfLoaded R (load_engine y root cfg)
    load_engine-R cfg h = ground arith

    load_strategies-R : (cfg : AppConfig n) → R cfg → IfLoaded R (load_strategies y root cfg)
    load_strategies-R cfg h = ground arith

    load_exchanges-R : (cfg : AppConfig n) → R cfg → IfLoaded R (load_exchanges y root cfg)
    load_exchanges-R cfg h = ground arith

    load_risk-R : (cfg : AppConfig n) → R cfg → IfLoaded R (load_risk y root cfg)
    load_risk-R cfg h = ground arith

    load_log-R : (cfg : AppConfig n) → R cfg → IfLoaded R (load_log y root cfg)
    load_log-R cfg h = ground arith

    load_zmq-R : (cfg : AppConfig n) → R cfg → IfLoaded R (load_zmq y root cfg)
    load_zmq-R cfg h = ground arith

    load_sections-R : (cfg : AppConfig n) → R cfg → IfLoaded R (load_sections y root cfg)
    load_sections-R cfg h = next R (load_engine y root cfg) _ (load_engine-R cfg h) (λ a ha.
        next R (load_strategies y root a) _ (load_strategies-R a ha) (λ b hb.
          next R (load_exchanges y root b) _ (load_exchanges-R b hb) (λ c hc.
            next R (load_risk y root c) _ (load_risk-R c hc)
              (λ d hd. next R (load_log y root d) _ (load_log-R d hd) load_zmq-R))))

  abbrev returning : Option (AppConfig n) → Option (Bool × AppConfig n)
  returning o = o >>= λ loaded. some (true, loaded)

  -- `loadConfig` once the file is read or not.
  abbrev finished : AppConfig n → Option Node → Option (Bool × AppConfig n)
  finished cfg o = elim o [
    | none ↦ some (false, cfg)
    | some root ↦ returning (load_sections y root cfg)
  ]

  result_of :
      (R : AppConfig n → Type 0) (o : Option (AppConfig n)) {ok : Bool} {cfg' : AppConfig n}
      → IfLoaded R o
      → returning o ≡ some (ok, cfg')
      → R cfg'
  result_of P none h e = cc
  result_of P (some c) h e = subst P (ap (λ r. elim r [ some p ↦ p.1 | none ↦ c ]) e) h

  finished-HasCommandLine :
      (cfg : AppConfig n) (o : Option Node) {ok : Bool} {cfg' : AppConfig n}
      → finished cfg o ≡ some (ok, cfg')
      → HasCommandLine cfg cfg'
  finished-HasCommandLine cfg none e =
      subst (HasCommandLine cfg) (ap (λ r. elim r [ some p ↦ p.1 | none ↦ cfg ]) e)
        (refl, refl, refl, refl, refl)
  finished-HasCommandLine cfg (some root) e =
      result_of (HasCommandLine cfg) (load_sections y root cfg)
        (load_sections-R cfg root cfg (refl, refl, refl, refl, refl)) e

  -- If `loadConfig` returns, whatever the file holds and whether it can be read or not, it leaves
  -- the settings that only the command line gives as they were: the path of the file, the log
  -- directory, the date and the two switches.
  pub load_config_keeps :
      (path : String) (cfg : AppConfig n) {ok : Bool} {cfg' : AppConfig n}
      → load_config y path cfg ≡ some (ok, cfg')
      → HasCommandLine cfg cfg'
  load_config_keeps path cfg e = finished-HasCommandLine cfg (load_file path) e

  abbrev renamed : String → AppConfig n → AppConfig n
  renamed name cfg = record cfg { exchange_name = name }

  abbrev renamed_in : String → Option (AppConfig n) → Option (AppConfig n)
  renamed_in name o = o >>= λ cfg. some (renamed name cfg)

  engine_renamed :
      (root : Node) (name : String) (cfg : AppConfig n)
      → load_engine y root (renamed name cfg) ≡ renamed_in name (load_engine y root cfg)
  engine_renamed root name cfg = ground arith

  strategies_renamed :
      (root : Node) (name : String) (cfg : AppConfig n)
      → load_strategies y root (renamed name cfg) ≡ renamed_in name (load_strategies y root cfg)
  strategies_renamed root name cfg = ground arith

  -- The file lists an exchange.
  abbrev pub ListsExchange : Node → Type 0
  ListsExchange root =
      (nodes : Node) × (get root "exchanges" ≡ some nodes)
      × (is_defined nodes ≡ true)
      × (is_sequence nodes ≡ true)
      × (0 < size nodes)

  exchanges_renamed :
      (root : Node) (name : String) (cfg : AppConfig n)
      → ListsExchange root
      → load_exchanges y root (renamed name cfg) ≡ load_exchanges y root cfg
  exchanges_renamed root name cfg (nodes, e, d, s, lt) = ground (arith, e, d, s)

  bind_renamed :
      (name : String) (o : Option (AppConfig n)) (k : AppConfig n → Option (AppConfig n))
      → ((c : AppConfig n) → k (renamed name c) ≡ k c)
      → (renamed_in name o >>= k) ≡ (o >>= k)
  bind_renamed name none k same = refl
  bind_renamed name (some c) k same = same c

  -- The sections after the exchanges, and those from the strategies on.
  abbrev from_risk : Node → AppConfig n → Option (AppConfig n)
  from_risk root c = load_risk y root c >>= λ d. load_log y root d >>= load_zmq y root

  abbrev from_exchanges : Node → AppConfig n → Option (AppConfig n)
  from_exchanges root c = load_exchanges y root c >>= from_risk root

  abbrev from_strategies : Node → AppConfig n → Option (AppConfig n)
  from_strategies root c = load_strategies y root c >>= from_exchanges root

  sections_renamed :
      (root : Node) (name : String) (cfg : AppConfig n)
      → ListsExchange root
      → load_sections y root (renamed name cfg) ≡ load_sections y root cfg
  sections_renamed root name cfg lists =
      ap (λ o. o >>= from_strategies root) (engine_renamed root name cfg)
      ∙ bind_renamed name (load_engine y root cfg) (from_strategies root) (λ c.
        ap (λ o. o >>= from_exchanges root) (strategies_renamed root name c)
        ∙ bind_renamed name (load_strategies y root c) (from_exchanges root)
            (λ d. ap (λ o. o >>= from_risk root) (exchanges_renamed root name d lists)))

  -- If the file can be read and lists an exchange, then the name that `--exchange` gave makes no
  -- difference to what `loadConfig` ends with.
  pub load_config_forgets_exchange :
      (path : String) (root : Node) (name : String) (cfg : AppConfig n)
      → load_file path ≡ some root
      → ListsExchange root
      → load_config y path (record cfg { exchange_name = name }) ≡ load_config y path cfg
  load_config_forgets_exchange path root name cfg read lists =
      ap (finished (renamed name cfg)) read
      ∙ ap returning (sections_renamed root name cfg lists)
      ∙ sym (ap (finished cfg) read)
