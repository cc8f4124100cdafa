-- ===== src/Config/Manager.antt =====
-- The operations of the ConfigManager of pkg/config/manager.go. An operation
-- holds the mutex from start to end, so each is one step of the state; timestamps, the context and
-- the log are left out. A goroutine that notifyWatchers is started in waits in `pending` until
-- `notify` runs it. Formatted parts of messages are left out.
pub mod Getters
pub mod Sources
pub mod Values
pub mod Loading
pub mod Checks
mod Tests
use Prim.Native.String.{◌++◌ as append}
use bindxdb.Prelude.{
  ℕ, String, Bool, true, false, not, ◌&&◌, ◌||◌, Option, none, some, List, [], ◌∷◌, ◌++◌, map, ◌==◌,
  if◌then◌else◌, Dict, lookup, insert, has_key, Result, ok, err, ◌>>=◌, ℤ, pos, leb_ℤ, ltb, length,
}
use bindxdb.Go.Value.{Floats, Value, Fields, null, string, object, no_fields, field}
use bindxdb.Config.Types.{
  source_default, source_file, source_environment, source_dynamic, ConfigValue, ConfigChange,
  ConfigError, config_error, Source, SecretStore, Validator, ConfigManager, change_capacity,
}
use bindxdb.Config.Schema.{
  ConfigSchema, SchemaNode, Properties, NodeError, Verdict, valid, panic, wrong, ◌then_check◌, info,
  absent, no_more, property, is_secret_key, is_dynamic_key, validate_against_schema,
}

-- The slice of a key, nil where the map has none.
abbrev pub slice_at {ℓ} : {A : Type ℓ} → String → Dict (List A) → List A
slice_at k m = elim (lookup k m) [ none ↦ [] | some xs ↦ xs ]

-- prefix + "." + k, or k where there is no prefix.
abbrev pub sub_key : String → String → String
sub_key prefix k = if prefix == "" then k else append prefix (append "." k)

module _ {F : Type 0} where
  abbrev pub default_value : Value F → ConfigValue F
  default_value v = record {
    value = v;
    source = source_default;
    is_set = true;
    is_default = true;
    is_secret = false;
    is_dynamic = false;
  }

  -- The loop of AddSource: from the right, each source moves before a neighbour of lower priority.
  unfoldable pub bubble : List (Source F) → List (Source F)
  bubble [] = []
  bubble (x ∷ xs) = elim (bubble xs) [
    | [] ↦ x ∷ []
    | y ∷ ys ↦ if leb_ℤ y.priority x.priority then x ∷ y ∷ ys else y ∷ x ∷ ys
  ]

  -- The defaults of the properties at the top of a schema.
  pub schema_defaults : Properties F → Dict (Value F) → Dict (Value F)
  schema_defaults (property k n ps) defaults =
      schema_defaults ps
        (elim (info n).default [ null ↦ defaults | _ ↦ insert k (info n).default defaults ])
  schema_defaults _ defaults = defaults

module _ {F S W : Type 0} where
  unfoldable pub add_source : Source F → ConfigManager F S W → ConfigManager F S W
  unfolding bubble
  add_source s m = record m { sources = bubble (m.sources ++ s ∷ []) }

  pub add_default : String → Value F → ConfigManager F S W → ConfigManager F S W
  add_default key v m = record m {
    defaults = insert key v m.defaults;
    values = if has_key key m.values then m.values else insert key (default_value v) m.values;
  }

  unfoldable pub set_default : String → Value F → ConfigManager F S W → ConfigManager F S W
  set_default key v m = record m {
    defaults = insert key v m.defaults;
    values = if has_key key m.values then m.values else insert key (default_value v) m.values;
  }

  unfoldable pub add_validator : String → Validator F → ConfigManager F S W → ConfigManager F S W
  add_validator key v m = record m {
    validators = insert key (slice_at key m.validators ++ v ∷ []) m.validators;
  }

  pub add_watcher : String → W → ConfigManager F S W → ConfigManager F S W
  add_watcher key w m = record m {
    watchers = insert key (slice_at key m.watchers ++ w ∷ []) m.watchers;
  }

  pub set_schema : ConfigSchema F → ConfigManager F S W → ConfigManager F S W
  unfolding schema_defaults
  set_schema schema m = record m {
    schema = some schema;
    defaults = schema_defaults schema.properties m.defaults;
  }

  -- One pending goroutine runs notifyWatchers: the watchers of the key are started, and the change is
  -- sent on the channel unless that is full.
  pub notify : ConfigManager F S W → ConfigManager F S W
  notify m = elim m.pending [
    | [] ↦ m
    | change ∷ rest ↦ record m {
      pending = rest;
      called = m.called ++ map (λ w. (w, change)) (slice_at change.key m.watchers);
      on_change =
          if ltb (length m.on_change) change_capacity
          then m.on_change ++ change ∷ []
          else m.on_change;
    }
  ]

  -- The value that applyConfig stores at a key without a map.
  pub applied : ConfigManager F S W → ℤ → String → Value F → ConfigValue F
  applied m priority key v = record {
    value = v;
    source = priority;
    is_set = true;
    is_default = false;
    is_secret = is_secret_key m.schema key;
    is_dynamic = is_dynamic_key m.schema key;
  }

  pub put_leaf : ℤ → String → Value F → ConfigManager F S W → ConfigManager F S W
  unfolding applied
  put_leaf priority key v m = elim (lookup key m.values) [
    | none ↦ record m { values = insert key (applied m priority key v) m.values }
    | some existing ↦
        if leb_ℤ priority existing.source
        then m
        else record m { values = insert key (applied m priority key v) m.values }
  ]

  mutual
    unfolding put_leaf

    pub flatten : ℤ → String → Value F → ConfigManager F S W → ConfigManager F S W
    flatten priority prefix (object fs) m = flatten_fields priority prefix fs m
    flatten priority prefix v m = put_leaf priority prefix v m

    pub flatten_fields : ℤ → String → Fields F → ConfigManager F S W → ConfigManager F S W
    flatten_fields priority prefix no_fields m = m
    flatten_fields priority prefix (field k v fs) m =
        flatten_fields priority prefix fs (flatten priority (sub_key prefix k) v m)

  pub apply_config : Fields F → ℤ → ConfigManager F S W → ConfigManager F S W
  apply_config config priority m = flatten priority "" (object config) m

  -- The loops of Load, over the defaults and over the sources.
  unfoldable pub load_defaults : Dict (Value F) → ConfigManager F S W → ConfigManager F S W
  load_defaults [] m = m
  load_defaults ((key, v) ∷ rest) m =
      load_defaults rest (record m { values = insert key (default_value v) m.values })

  pub load_source : Source F → ConfigManager F S W → ConfigManager F S W
  unfolding apply_config
  load_source s m = elim s.loaded [ ok config ↦ apply_config config s.priority m | err e ↦ m ]

  pub load_sources : List (Source F) → ConfigManager F S W → ConfigManager F S W
  unfolding load_source
  load_sources [] m = m
  load_sources (s ∷ ss) m = load_sources ss (load_source s m)

  -- What Load makes of the values before it validates them.
  pub load_values : ConfigManager F S W → ConfigManager F S W
  unfolding load_defaults load_sources
  load_values m = load_sources m.sources (load_defaults m.defaults m)

abbrev pub old_value_of : {F : Type 0} → Option (ConfigValue F) → Value F
old_value_of none = null
old_value_of (some v) = v.value

-- The secret store after Set, which hands it a secret that is a string.
pub store_secret :
    (secret_store : SecretStore) {F : Type 0}
    → Option secret_store.Store
    → String
    → Value F
    → Option secret_store.Store
store_secret secret_store (some store) key (string s) = some (secret_store.set_secret store key s)
store_secret secret_store store key v = store

-- What Get gives for a value that it has found: a secret is read from the secret store, if that has it.
pub read_value :
    (secret_store : SecretStore) {F : Type 0}
    → Option secret_store.Store
    → String
    → ConfigValue F
    → Value F
read_value secret_store none key v = v.value
read_value secret_store (some store) key v =
    if v.is_secret
    then elim (secret_store.get_secret store key) [ ok secret ↦ string secret | err e ↦ v.value ]
    else v.value

module _ (secret_store : SecretStore) {F W : Type 0} where
  open secret_store use {Store, get_secret, set_secret}

  unfoldable pub get : ConfigManager F Store W → String → Result ConfigError (Value F)
  unfolding read_value
  get m key = elim (lookup key m.values) [
    | none ↦ err (config_error key "key not found")
    | some v ↦ ok (read_value secret_store m.secrets key v)
  ]

  unfoldable pub set : String → Value F → ℤ → ConfigManager F Store W → ConfigManager F Store W
  unfolding store_secret
  set key v source m = record m {
    secrets =
        if is_secret_key m.schema key then store_secret secret_store m.secrets key v else m.secrets;
    values =
        insert key
          (record {
            value = v;
            source = source;
            is_set = true;
            is_default = false;
            is_secret = is_secret_key m.schema key;
            is_dynamic = false;
          })
          m.values;
    pending =
        m.pending
        ++ (record {
          key = key;
          old_value = old_value_of (lookup key m.values);
          new_value = v;
          source = source;
        })
          ∷ [];
  }
