-- ===== src/Config/App/Tests.antt =====
-- InitConfig without a file. The floats are natural numbers.
use mathlib.Core.Path.{subst}
use bindxdb.Prelude.{
  go, arith, ℕ, String, true, false, none, List, [], ◌∷◌, ◌≡◌, ◌⊎◌, inl, inr, refl, Dict, Result,
  ok, err, pos, pos_part, nat_eq, ltb, Any, eq_iff, ◌==◌,
}
use bindxdb.Go.Value.{Floats, Value, Fields, no_fields, field, string, object}
use bindxdb.Config.Manager.Loading.{leaves}
use bindxdb.Config.Manager.Loading.Precedence.{Provides}
use bindxdb.Config.Validators.{not_there}
use bindxdb.Config.App.{
  Checks, Globals, panicked, returned, file_source, environment_source, init_config, get_config,
}
use bindxdb.Config.App.Started.{timeout_key, init_config-get_config}

abbrev whole_floats : Floats
whole_floats = record { Float = ℕ; of_int = pos_part; to_int = pos; eq = nat_eq; lt = ltb }

abbrev checks : Checks ℕ
checks = record {
  atoi = λ s. err "not a number";
  stat = λ path. not_there;
  regexes = record { Regex = String; compile = λ s. ok s; matches = λ r s. true };
  conversions = record {
    number_to_int64 = λ s. err "not a number";
    number_to_float64 = λ s. err "not a number";
    parse_duration = λ s. err "not a duration";
  };
}

abbrev nothing : Result String (Fields ℕ)
nothing = ok no_fields

abbrev create : Unit {0} → Unit {0} × Result String (Dict String)
create disk = (disk, ok [])

abbrev unset : Globals ℕ (Dict String) (Unit {0})
unset = record { global_manager = none; done = false }

empty-leaves : (config : Fields ℕ) → nothing ≡ ok config → leaves "" (object config) ≡ []
unfolding leaves
empty-leaves config e =
    let same : no_fields ≡ config = ground (arith, e) in
    subst (λ (c : Fields ℕ). leaves "" (object c) ≡ []) same refl

absent : ¬ Provides timeout_key (file_source nothing)
absent (config, e, h) =
    subst (λ (ls : List (String × Value ℕ)). Any (λ (l : String × Value ℕ). l.0 ≡ timeout_key) ls)
      (empty-leaves config e) h

-- The environment sets a key that no schema has.
abbrev from_environment : Result String (Fields ℕ)
from_environment = ok (field "other" (string "5m") no_fields)

environment-leaves :
    (config : Fields ℕ)
    → from_environment ≡ ok config
    → leaves "" (object config) ≡ ("other", string "5m") ∷ []
unfolding go leaves
environment-leaves config e =
    let same : field "other" (string "5m") no_fields ≡ config = ground (arith, e) in
    subst (λ (c : Fields ℕ). leaves "" (object c) ≡ ("other", string "5m") ∷ []) same refl

names_differ : ("other" == timeout_key) ≡ false
unfolding go
names_differ = refl

absent_in_environment : ¬ Provides timeout_key (environment_source from_environment)
absent_in_environment (config, e, h) =
    elim (subst
      (λ (ls : List (String × Value ℕ)). Any (λ (l : String × Value ℕ). l.0 ≡ timeout_key) ls)
      (environment-leaves config e) h) [
        | inl same ↦ absurd (ground (arith, (eq_iff "other" timeout_key).1 same, names_differ))
        | inr rest ↦ elim rest [ ]
      ]

none-Provides :
    ¬ Any (Provides timeout_key) (environment_source from_environment ∷ file_source nothing ∷ [])
none-Provides (inl given) = absent_in_environment given
none-Provides (inr (inl given)) = absent given
none-Provides (inr (inr h)) = elim h [ ]

init_config-get_config_example :
    (get_config (init_config whole_floats checks create nothing from_environment tt unset).1
      ≡ get_config unset)
    × ((init_config whole_floats checks create nothing from_environment tt unset).1.done ≡ true)
    × (((init_config whole_floats checks create nothing from_environment tt unset).2
          ≡ returned none)
        ⊎ ((init_config whole_floats checks create nothing from_environment tt unset).2 ≡ panicked))
init_config-get_config_example =
    init_config-get_config whole_floats checks create nothing from_environment tt unset
      none-Provides
