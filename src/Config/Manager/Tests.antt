-- ===== src/Config/Manager/Tests.antt =====
-- A manager with two sources, and the theorems at it. The floats are natural numbers, and the secret
-- store is a Go map.
use bindxdb.Prelude.{
  ℕ, ◌≡◌, ◌≢◌, ◌↔◌, ◌⊎◌, refl, String, true, false, none, some, [], ◌∷◌, pos, go, ltb, nat_eq,
  pos_part, All, Any, Dict, lookup, insert, lookup-insert, Result, ok, err, ◌≤ℤ◌, arith, eq_iff,
  ◌==◌, eq_self, has_key,
}
use bindxdb.Go.Value.{Floats, null, int, string, object, field, no_fields}
use bindxdb.Config.Schema.{
  SchemaNode, node, no_more, absent, property, no_schema, is_secret_key, is_dynamic_key,
  find_property, secret_walk,
}
use bindxdb.Config.Types.{
  ConfigManager, ConfigValue, Source, SecretStore, new_config_manager, source_file,
  source_environment,
}
use bindxdb.Config.Manager.{
  add_source, set, get, load_values, load_sources, load_source, load_defaults, flatten, put_leaf,
  apply_config, applied, bubble,
}
use bindxdb.Config.Manager.Getters.{Conversions}
use bindxdb.Config.Manager.Sources.{Descending, place, add_source-place}
use bindxdb.Config.Manager.Values.{get-set_secret, get-set_ne}
use bindxdb.Config.Manager.Loading.{Covered}
use bindxdb.Config.Manager.Loading.Precedence.{
  Provides, Gives, load_values-Covered, load_values-origin, load_values-keeps,
}
use bindxdb.Config.Manager.Checks.{validate_all, Checked, validate_all_iff}

abbrev whole_floats : Floats
whole_floats = record { Float = ℕ; of_int = pos_part; to_int = pos; eq = nat_eq; lt = ltb }

abbrev conversions : Conversions ℕ
conversions = record {
  number_to_int64 = λ s. err "not a number";
  number_to_float64 = λ s. err "not a number";
  parse_duration = λ s. err "not a duration";
}

secret_in : Dict String → String → Result String String
secret_in m k = elim (lookup k m) [ none ↦ err "not found" | some s ↦ ok s ]

abbrev secrets : SecretStore
secrets = record { Store = Dict String; get_secret = secret_in; set_secret = λ m k s. insert k s m }

abbrev file : Source ℕ
file = record {
  name = "file";
  priority = source_file;
  loaded = ok (field "a" (object (field "b" (int (pos 1)) no_fields)) no_fields);
}

abbrev environment : Source ℕ
environment = record {
  name = "env";
  priority = source_environment;
  loaded = ok (field "a" (object (field "b" (int (pos 2)) no_fields)) no_fields);
}

abbrev empty : ConfigManager ℕ (Dict String) String
empty = new_config_manager (some [])

abbrev started : ConfigManager ℕ (Dict String) String
started = record empty { sources = environment ∷ file ∷ [] }

abbrev key_node : SchemaNode ℕ
key_node =
    node
      (record {
        type = "string";
        default = null;
        required = false;
        secret = true;
        dynamic = false;
        min = null;
        max = null;
        pattern = "";
        enum = [];
      })
      absent no_schema

abbrev guarded : ConfigManager ℕ (Dict String) String
guarded = record empty {
  schema =
      some (record { version = "1"; properties = property "key" key_node no_more; required = [] });
}

abbrev loaded_value : ConfigValue ℕ
loaded_value = record {
  value = int (pos 2);
  source = source_environment;
  is_set = true;
  is_default = false;
  is_secret = false;
  is_dynamic = false;
}

run : Unit {0}
unfolding go add_source bubble load_values load_sources load_source load_defaults apply_config
    flatten put_leaf applied is_secret_key is_dynamic_key secret_walk find_property
run = tt

load_run : lookup "a.b" (load_values started).values ≡ some loaded_value
unfolding run
load_run = refl

add_source-place_example :
    ((add_source environment (record empty { sources = file ∷ [] })).sources
      ≡ place environment (file ∷ []))
    × Descending (add_source environment (record empty { sources = file ∷ [] })).sources
add_source-place_example =
    add_source-place environment (record empty { sources = file ∷ [] }) (tt, tt)

not_secret : is_secret_key empty.schema "a" ≡ false
unfolding run
not_secret = refl

key_secret : is_secret_key guarded.schema "key" ≡ true
unfolding run
key_secret = refl

secret_in-insert : (m : Dict String) (k s : String) → secret_in (insert k s m) k ≡ ok s
unfolding secret_in
secret_in-insert m k s = rw (secret_in, lookup-insert k k s m, eq_self k) refl

secret_in-insert_ne :
    (m : Dict String) (k j s : String)
    → (k == j) ≡ false
    → secret_in (insert k s m) j ≡ secret_in m j
unfolding secret_in
secret_in-insert_ne m k j s ne = rw (secret_in, lookup-insert k j s m, ne) refl

-- A store that answers with a reference to what it was given.
abbrev vault : SecretStore
vault = record { Store = String; get_secret = λ st k. ok "vault:v1"; set_secret = λ st k s. s }

abbrev sealed : ConfigManager ℕ String String
sealed = record (new_config_manager (some "")) { schema = guarded.schema }

get-set_secret_example :
    get vault (set vault "key" (string "s3") source_file sealed) "key" ≡ ok (string "vault:v1")
get-set_secret_example = get-set_secret vault sealed "" "key" "s3" source_file key_secret refl

keys_differ : (("key" == "a") ≡ false)
unfolding go
keys_differ = refl

key-ne-a : ◌≢◌ {A = String} "key" "a"
key-ne-a = λ e. ground (arith, (eq_iff "key" "a").1 e, keys_differ)

get-set_ne_example :
    get secrets (set secrets "key" (string "s3") source_file guarded) "a" ≡ get secrets guarded "a"
get-set_ne_example =
    get-set_ne secrets guarded "key" "a" (string "s3") source_file key-ne-a
      (λ m s. secret_in-insert_ne m "key" "a" s keys_differ)

abbrev watched : ConfigManager ℕ (Dict String) String
watched = record empty { watchers = ("a", "w1" ∷ "w2" ∷ []) ∷ [] }

load_values-Covered_example :
    All
      (λ (s : Source ℕ). Provides "a.b" s → Covered (load_values started) "a.b" s.priority)
      started.sources
load_values-Covered_example = load_values-Covered started "a.b"

no_default : has_key "a.b" started.defaults ≡ false
unfolding go
no_default = refl

load_values-origin_example :
    (lookup "a.b" started.values ≡ some loaded_value)
    ⊎ Any (Gives "a.b" loaded_value) started.sources
load_values-origin_example = load_values-origin started "a.b" loaded_value no_default load_run

abbrev loaded : ConfigManager ℕ (Dict String) String
loaded = load_values started

still_no_default : has_key "a.b" loaded.defaults ≡ false
unfolding run
still_no_default = refl

sources_no_higher : All (λ (s : Source ℕ). s.priority ≤ℤ source_environment) loaded.sources
unfolding run
sources_no_higher = (omega arith, (omega arith, tt))

load_values-keeps_example :
    lookup "a.b" (load_values (load_values started)).values ≡ some loaded_value
load_values-keeps_example =
    load_values-keeps (load_values started) "a.b" loaded_value still_no_default load_run
      sources_no_higher

validate_all_iff_example :
    (validate_all whole_floats (load_values started) ≡ some [])
    ↔ All (Checked whole_floats (load_values started)) (load_values started).values
validate_all_iff_example = validate_all_iff whole_floats (load_values started)
