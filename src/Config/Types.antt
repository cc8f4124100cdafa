-- ===== src/Config/Types.antt =====
-- The data of pkg/config/types.go and the state of the manager of pkg/config/manager.go. Timestamps, the
-- context and the log are left out.
use bindxdb.Prelude.{ℕ, String, Bool, Option, none, List, [], Dict, Result, ℤ, pos}
use bindxdb.Go.Value.{Value, Fields}
use bindxdb.Config.Schema.{ConfigSchema, Verdict}

-- A ConfigSource is an int; the six names are its first values.
abbrev pub source_default : ℤ
source_default = pos 0

abbrev pub source_file : ℤ
source_file = pos 1

abbrev pub source_environment : ℤ
source_environment = pos 2

abbrev pub source_dynamic : ℤ
source_dynamic = pos 4

pub record ConfigValue (F : Type 0) : Type 0 where
  pub value : Value F
  pub source : ℤ
  pub is_set : Bool
  pub is_default : Bool
  pub is_secret : Bool
  pub is_dynamic : Bool

pub record ConfigChange (F : Type 0) : Type 0 where
  pub key : String
  pub old_value : Value F
  pub new_value : Value F
  pub source : ℤ

pub data ConfigError : Type 0 where
  config_error : String → String → ConfigError

-- A source, with what its Load gives when it is called.
pub record Source (F : Type 0) : Type 0 where
  pub name : String
  pub priority : ℤ
  pub loaded : Result String (Fields F)

-- The SecretStore interface over a state; an error of SetSecret is only logged.
pub record SecretStore : Type 1 where
  pub Store : Type 0
  pub get_secret : Store → String → Result String String
  pub set_secret : Store → String → String → Store

abbrev pub Validator : Type 0 → Type 0
Validator F = String → Value F → Verdict String

-- `W` is the type of the watchers and `S` that of the secret store, which may be nil.
pub record ConfigManager (F S W : Type 0) : Type 0 where
  pub sources : List (Source F)
  pub values : Dict (ConfigValue F)
  pub defaults : Dict (Value F)
  pub validators : Dict (List (Validator F))
  pub watchers : Dict (List W)
  pub schema : Option (ConfigSchema F)
  pub on_change : List (ConfigChange F)
  pub secrets : Option S
  pub pending : List (ConfigChange F)
  pub called : List (W × ConfigChange F)

abbrev pub new_config_manager : {F S W : Type 0} → Option S → ConfigManager F S W
new_config_manager secrets = record {
  sources = [];
  values = [];
  defaults = [];
  validators = [];
  watchers = [];
  schema = none;
  on_change = [];
  secrets = secrets;
  pending = [];
  called = [];
}

-- The capacity of the channel of changes.
abbrev pub change_capacity : ℕ
change_capacity = 100
