-- ===== src/Config/App.antt =====
-- The application's configuration of pkg/config/config.go: the defaults, the validators, InitConfig and GetAppConfig. What
-- the two sources load is given (FileSource and EnvironmentSource call functions that the repository does not have), and
-- so are the validators' surroundings and the file system of the secret store. The logger is left out.
pub mod Types
pub mod Settings
pub mod Started
mod Tests
use bindxdb.Prelude.{
  ℕ, String, Bool, true, false, Option, none, some, List, [], ◌∷◌, Dict, ◌==◌, if◌then◌else◌,
  Result, ok, err, ℤ, pos,
}
use bindxdb.Go.Value.{Floats, Value, Fields, no_fields, bool, int, duration, string}
use bindxdb.Config.Types.{ConfigManager, Source, SecretStore, Validator, new_config_manager}
use bindxdb.Config.Schema.{panic, wrong}
use bindxdb.Config.Manager.{add_source, set_default, add_validator}
use bindxdb.Config.Manager.Checks.{CheckError, load}
use bindxdb.Config.Manager.Getters.{
  Conversions, GetError, get_string, get_bool, get_int, get_duration, get_string_slice,
}
use bindxdb.Config.Validators.{
  Regexes, Stat, FileValidator, required_validate, duration_validate, port_validate, file_validate,
  new_pattern_validator, pattern_validate,
}
use bindxdb.Config.Secrets.{
  Ciphers, Files, FileSecretStore, SecretError, new_aes_encryption, as_encryption,
  new_file_secret_store,
}
use bindxdb.Config.App.Types.{AppConfig}

-- The defaults of setDefault, in its order; a time is in nanoseconds.
abbrev pub app_defaults : {F : Type 0} → List (String × Value F)
app_defaults =
    ("database.host", string "localhost")
    ∷ ("database.port", int (pos 5432))
    ∷ ("database.max_connections", int (pos 10))
    ∷ ("database.idle_timeout", duration (pos 300000000000))
    ∷ ("database.ssl_mode", string "prefer")
    ∷ ("storage.engine", string "btree")
    ∷ ("storage.page_size", int (pos 8192))
    ∷ ("storage.cache_size", int (pos 1024))
    ∷ ("storage.sync_writes", bool true)
    ∷ ("logging.level", string "info")
    ∷ ("logging.format", string "json")
    ∷ ("logging.output", string "stdout")
    ∷ ("logging.max_backups", int (pos 10))
    ∷ ("logging.max_age", string "30d")
    ∷ ("metrics.enabled", bool true)
    ∷ ("metrics.prometheus.enabled", bool true)
    ∷ ("metrics.prometheus.path", string "/metrics")
    ∷ ("plugins.directory", string "/usr/lib/bindxdb/plugins")
    ∷ ("plugins.auto_load", bool true)
    ∷ []

module _ {F S W : Type 0} where
  set_each : List (String × Value F) → ConfigManager F S W → ConfigManager F S W
  set_each [] m = m
  set_each ((key, v) ∷ rest) m = set_each rest (set_default key v m)

  pub set_defaults : ConfigManager F S W → ConfigManager F S W
  unfolding set_each
  set_defaults m = set_each app_defaults m

-- What the validators reach: strconv.Atoi, os.Stat, regexp, and the conversions of json and time.
pub record Checks (F : Type 0) : Type 1 where
  pub atoi : String → Result String ℤ
  pub stat : String → Stat
  pub regexes : Regexes
  pub conversions : Conversions F

-- The validator that NewPatternValidator gives with an error, a nil pointer.
nil_pattern_validate : {F : Type 0} → Validator F
nil_pattern_validate key (string s) = panic
nil_pattern_validate key _ = wrong "expected string for pattern validation"

-- DurationValidator with Min of a second and no Max.
abbrev pub idle_timeout_check : (fl : Floats) → Checks fl.Float → Validator fl.Float
idle_timeout_check fl checks = duration_validate fl checks.conversions (pos 1000000000) (pos 0)

module _ (fl : Floats) (checks : Checks fl.Float) {S W : Type 0} where
  open fl use {Float}
  open checks use {atoi, stat, regexes, conversions}

  -- The validator of host names is added only where its pattern is in error.
  add_host_validator : ConfigManager Float S W → ConfigManager Float S W
  unfolding nil_pattern_validate
  add_host_validator m = elim (new_pattern_validator regexes "^[a-zA-Z0-9\\.\\-]+$") [
    | ok v ↦ m
    | err e ↦ add_validator "database.host" nil_pattern_validate m
  ]

  pub add_validators : ConfigManager Float S W → ConfigManager Float S W
  unfolding add_host_validator
  add_validators m =
      let port = port_validate fl atoi (pos 1) (pos 65535) in
      let dir =
        file_validate stat (record {
          must_exist = true;
          must_be_dir = true;
          must_be_file = false;
          permissions = 0;
        }) in
      add_host_validator (
        add_validator "database.idle_timeout" (idle_timeout_check fl checks) (
          add_validator "storage.data_dir" dir (
            add_validator "storage.data_dir" required_validate (
              add_validator "database.name" required_validate (
                add_validator "server.grpc.port" port (
                  add_validator "server.http.port" port (add_validator "database.port" port m)))))))

-- The two sources with their priorities, and what they load.
abbrev pub file_source : {F : Type 0} → Result String (Fields F) → Source F
file_source loaded = record { name = "file"; priority = pos 50; loaded = loaded }

abbrev pub environment_source : {F : Type 0} → Result String (Fields F) → Source F
environment_source loaded = record { name = "environment"; priority = pos 75; loaded = loaded }

-- globalManager and globalOnce.
pub record Globals (F S W : Type 0) : Type 0 where
  pub global_manager : Option (ConfigManager F S W)
  pub done : Bool

-- InitConfig panics, or returns its error.
pub data Initialized : Type 0 where
  panicked : Initialized
  returned : Option String → Initialized

-- createSecretStore, with os.Getenv.
pub create_secret_store :
    {B D : Type 0}
    → Ciphers B
    → Files B D
    → (String → String)
    → D
    → D × Result SecretError (FileSecretStore B)
create_secret_store ciphers files getenv disk =
    let encryption =
      as_encryption ciphers
        (new_aes_encryption ciphers (files.to_bytes (getenv "BINDXDB_ENCRYPTION_KEY"))) in
    let secret_dir =
      if getenv "BINDXDB_SECRET_DIR" == ""
      then "/etc/bindxdb/secrets"
      else getenv "BINDXDB_SECRET_DIR" in
    new_file_secret_store files secret_dir encryption disk

module _ (fl : Floats) (checks : Checks fl.Float) {S W : Type 0} where
  open fl use {Float}

  -- The manager that InitConfig loads.
  pub prepared : S → (from_file from_env : Result String (Fields Float)) → ConfigManager Float S W
  unfolding set_defaults add_validators
  prepared store from_file from_env = add_validators fl checks (
      set_defaults (
        add_source (environment_source from_env)
          (add_source (file_source from_file) (new_config_manager (some store)))))

  -- InitConfig once the secret store is created. The error that it returns is never assigned: the function that it runs once
  -- has errors of its own.
  pub start :
      S
      → (from_file from_env : Result String (Fields Float)) → Globals Float S W
      → Globals Float S W × Initialized
  unfolding prepared
  start store from_file from_env g =
      let (m, result) = load fl (prepared store from_file from_env) in
      elim result [
        | none ↦ (record g { done = true }, panicked)
        | some [] ↦ (record { global_manager = some m; done = true }, returned none)
        | some (e ∷ es) ↦ (record g { done = true }, returned none)
      ]

  pub init_config :
      {D E : Type 0}
      → (D → D × Result E S)
      → (from_file from_env : Result String (Fields Float)) → D
      → Globals Float S W
      → D × Globals Float S W × Initialized
  unfolding start
  init_config create from_file from_env disk g =
      if g.done
      then (disk, g, returned none)
      else let (disk', result) = create disk in
        elim result [
          | err e ↦ (disk', record g { done = true }, returned none)
          | ok store ↦ let (g', outcome) = start store from_file from_env g in (disk', g', outcome)
        ]

-- GetConfig
pub get_config : {F S W : Type 0} → Globals F S W → Option (ConfigManager F S W)
get_config g = g.global_manager
