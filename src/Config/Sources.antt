-- ===== src/Config/Sources.antt =====
-- The sources of pkg/config/source.go, by what their Load gives. mergeMaps, setNestedValue and parseEnvValue, which the
-- repository calls and does not have, are parameters, and so are the files, the environment, JSON and the backend. The Watch
-- methods, which only hand on what others notice, are left out.
pub mod Environment
mod Tests
use Prim.Native.Char.{Char, char, code}
use bindxdb.Prelude.{
  ℕ, String, Bool, true, false, not, ◌&&◌, Option, none, some, List, [], ◌∷◌, Dict, ◌==◌,
  if◌then◌else◌, nat_eq, has_prefix, Result, ok, err, ℤ,
}
use bindxdb.Go.Value.{Value, Fields, no_fields, string}
use bindxdb.Config.Types.{Source}

-- The functions on maps of values that the sources call, with json.Unmarshal to a map and to any value,
-- and strings.ToLower.
pub record Maps (F : Type 0) : Type 0 where
  pub merge_maps : Fields F → Fields F → Fields F
  pub set_nested_value : Fields F → String → Value F → Fields F
  pub parse_env_value : String → Value F
  pub unmarshal : String → Result String (Fields F)
  pub unmarshal_any : String → Result String (Value F)
  pub to_lower : String → String

-- What os.ReadFile gives.
pub data FileRead : Type 0 where
  not_exist : FileRead
  unreadable contents : String → FileRead

pub record FileSource : Type 0 where
  pub paths : List String
  pub priority : ℤ

pub record EnvironmentSource : Type 0 where
  pub prefix : String
  pub priority : ℤ

pub record FlagSource (F : Type 0) : Type 0 where
  pub args : Fields F
  pub priority : ℤ

-- The backend is what its List gives for "/config/".
pub record DynamicSource : Type 0 where
  pub list : Result String (Dict String)
  pub priority : ℤ

-- strings.SplitN(s, "=", 2), where it gives two parts.
pub split_pair : String → Option (String × String)
split_pair String.[] = none
split_pair (String.◌∷◌ c s) =
    let later = split_pair s in
    if nat_eq (code c) 61
    then some ("", s)
    else elim later [ none ↦ none | some (key, value) ↦ some (String.◌∷◌ c key, value) ]

strip : String → String → Option String
strip String.[] s = some s
strip (String.◌∷◌ d p) String.[] = none
strip (String.◌∷◌ d p) (String.◌∷◌ c s) =
    let rest = strip p s in if nat_eq (code c) (code d) then rest else none

-- strings.TrimPrefix(s, prefix)
trim_prefix : String → String → String
unfolding strip
trim_prefix s prefix = elim (strip prefix s) [ none ↦ s | some rest ↦ rest ]

abbrev dot : Char
dot = char 46 tt

-- strings.ReplaceAll(s, "_", ".")
pub underscores_to_dots : String → String
underscores_to_dots String.[] = ""
underscores_to_dots (String.◌∷◌ c s) =
    let rest = underscores_to_dots s in
    if nat_eq (code c) 95 then String.◌∷◌ dot rest else String.◌∷◌ c rest

module _ {F : Type 0} (maps : Maps F) where
  open maps use {merge_maps, set_nested_value, parse_env_value, unmarshal, unmarshal_any, to_lower}

  -- The loop of FileSource.Load over the paths.
  pub load_paths : (String → FileRead) → List String → Fields F → Result String (Fields F)
  load_paths read [] result = ok result
  load_paths read (path ∷ paths) result = elim (read path) [
    | not_exist ↦ load_paths read paths result
    | unreadable e ↦ err e
    | contents text ↦ elim (unmarshal text) [
      | err e ↦ err e
      | ok config ↦ load_paths read paths (merge_maps result config)
    ]
  ]

  pub load_file : (String → FileRead) → FileSource → Source F
  unfolding load_paths
  load_file read f = record {
    name = "file";
    priority = f.priority;
    loaded = load_paths read f.paths no_fields;
  }

  -- The key of a variable.
  pub env_key : String → String → String
  unfolding trim_prefix underscores_to_dots
  env_key prefix name = underscores_to_dots (to_lower (trim_prefix name prefix))

  -- One turn of the loop of EnironmentSource.Load.
  pub put_variable : String → String → Fields F → Fields F
  unfolding split_pair env_key
  put_variable prefix variable result = elim (split_pair variable) [
    | none ↦ result
    | some (name, value) ↦
        if not (prefix == "") && not (has_prefix name prefix)
        then result
        else set_nested_value result (env_key prefix name) (parse_env_value value)
  ]

  pub put_variables : String → List String → Fields F → Fields F
  unfolding put_variable
  put_variables prefix [] result = result
  put_variables prefix (variable ∷ rest) result =
      put_variables prefix rest (put_variable prefix variable result)

  pub load_environment : List String → EnvironmentSource → Source F
  unfolding put_variables
  load_environment environ e = record {
    name = "environment";
    priority = e.priority;
    loaded = ok (put_variables e.prefix environ no_fields);
  }

  pub load_flags : FlagSource F → Source F
  load_flags f = record { name = "flag"; priority = f.priority; loaded = ok f.args }

  -- The value of a pair of the backend: its JSON, or its text where it is none.
  pub parse_pair : String → Value F
  parse_pair text = elim (unmarshal_any text) [ ok v ↦ v | err e ↦ string text ]

  -- The loop of DynamicSource.Load.
  pub put_pairs : Dict String → Fields F → Fields F
  unfolding parse_pair trim_prefix
  put_pairs [] result = result
  put_pairs ((key, text) ∷ rest) result =
      put_pairs rest (set_nested_value result (trim_prefix key "/config/") (parse_pair text))

  pub load_dynamic : DynamicSource → Source F
  unfolding put_pairs
  load_dynamic d = record {
    name = "dynamic";
    priority = d.priority;
    loaded = elim d.list [ err e ↦ err e | ok pairs ↦ ok (put_pairs pairs no_fields) ];
  }
