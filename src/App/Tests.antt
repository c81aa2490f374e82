-- ===== src/App/Tests.antt =====
-- A file that lists one exchange without a name.
use text.Mathlib.Text.{◌==◌ as str_eq}
use trading_engine.Base.{ℕ, ◌≡◌, refl, not, ◌&&◌, [], ◌∷◌, none, some, ◌==◌, if◌then◌else◌, arith}
use trading_engine.Core.Whole.{whole}
use trading_engine.App.{AppConfig, Yaml, default_app_config}
use trading_engine.App.Load.{load_config, resolve_env}
use trading_engine.App.Laws.{load_config_forgets_exchange}

-- Node 1 is the root, 2 the list, 3 its entry; 0 is not defined.
abbrev pub small_file : Yaml whole
small_file = record {
  Node = ℕ;
  load_file = λ path. if str_eq path "a.yaml" then some 1 else none;
  get = λ node key. if node == 1 && str_eq key "exchanges" then some 2 else some 0;
  at = λ node i. if node == 2 then some 3 else some 0;
  is_defined = λ node. not (node == 0);
  is_sequence = λ node. node == 2;
  items = λ node. if node == 2 then 3 ∷ [] else [];
  size = λ node. if node == 2 then 1 else 0;
  as_double_or = λ node d. d;
  as_int_or = λ node i. i;
  as_uint_or = λ node i. i;
  as_bool_or = λ node b. b;
  as_string_or = λ node s. s;
  as_string = λ node. none;
  environment = λ name. if str_eq name "MY_KEY" then some "k1" else none;
}

abbrev from_flags : AppConfig whole
from_flags = record (default_app_config whole) {
  exchange_name = "okx";
  log_dir = "logs";
  config_path = "a.yaml";
}

abbrev loaded : AppConfig whole
loaded = record from_flags { exchange_name = "binance" }

load_config_forgets_exchange_example :
    load_config small_file "a.yaml" (record from_flags { exchange_name = "bybit" })
    ≡ load_config small_file "a.yaml" from_flags
load_config_forgets_exchange_example =
    load_config_forgets_exchange small_file "a.yaml" 1 "bybit" from_flags refl
      (2, refl, refl, refl, omega arith)

resolve_env_variable : resolve_env small_file "${MY_KEY}" ≡ "k1"
resolve_env_variable = refl

resolve_env_missing : resolve_env small_file "${OTHER}" ≡ ""
resolve_env_missing = refl

resolve_env_plain : resolve_env small_file "${}" ≡ "${}"
resolve_env_plain = refl
