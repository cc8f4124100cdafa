-- ===== src/Config/Sources/Tests.antt =====
-- An environment with one variable for the program.
use bindxdb.Prelude.{ℕ, String, List, [], ◌∷◌, ◌≡◌, refl, ok, err, pos, go}
use bindxdb.Go.Value.{no_fields, field, string}
use bindxdb.Config.Sources.{Maps, EnvironmentSource, load_environment}
use bindxdb.Config.Sources.Environment.{skipping, load_environment-skipping}

-- A value is put in front, under its whole key.
abbrev maps : Maps ℕ
maps = record {
  merge_maps = λ a b. b;
  set_nested_value = λ fs key v. field key v fs;
  parse_env_value = λ s. string s;
  unmarshal = λ s. err "no JSON";
  unmarshal_any = λ s. err "no JSON";
  to_lower = λ s. s;
}

abbrev environ : List String
environ = "BINDXDB_database_idle_timeout=5m" ∷ "HOME=/" ∷ []

abbrev source : EnvironmentSource
source = record { prefix = "BINDXDB_"; priority = pos 75 }

load_environment-skipping_example :
    load_environment (skipping maps) environ source ≡ load_environment maps environ source
load_environment-skipping_example = load_environment-skipping maps environ source

-- The variable that is meant for database.idle_timeout sets another key.
loaded_key :
    (load_environment maps environ source).loaded
    ≡ ok (field "database.idle.timeout" (string "5m") no_fields)
unfolding go load_environment
loaded_key = refl
