-- ===== src/Config/Sources/Environment.antt =====
-- The keys that the environment reaches.
use Prim.Native.Char.{code}
use bindxdb.Prelude.{
  ap, String, Bool, true, false, List, [], ◌∷◌, ◌≡◌, refl, ◌∙◌, if◌then◌else◌, nat_eq, Option-cases,
  Bool-cases, inl, inr, ok,
}
use bindxdb.Go.Value.{Fields, no_fields}
use bindxdb.Config.Sources.{
  Maps, EnvironmentSource, split_pair, env_key, underscores_to_dots, trim_prefix, put_variable,
  put_variables, load_environment,
}

unfoldable pub has_underscore : String → Bool
has_underscore String.[] = false
has_underscore (String.◌∷◌ c s) =
    let rest = has_underscore s in if nat_eq (code c) 95 then true else rest

has_underscore-underscores_to_dots : (s : String) → has_underscore (underscores_to_dots s) ≡ false
unfolding has_underscore underscores_to_dots
has_underscore-underscores_to_dots String.[] = refl
has_underscore-underscores_to_dots (String.◌∷◌ c s) = elim (Bool-cases (nat_eq (code c) 95)) [
  | inl t ↦ rw (underscores_to_dots, t) (has_underscore-underscores_to_dots s)
  | inr n ↦
      rw (underscores_to_dots, n) (rw (has_underscore, n) (has_underscore-underscores_to_dots s))
]

has_underscore-env_key :
    {F : Type 0} (maps : Maps F) (prefix name : String)
    → has_underscore (env_key maps prefix name) ≡ false
unfolding env_key
has_underscore-env_key maps prefix name =
    has_underscore-underscores_to_dots (maps.to_lower (trim_prefix name prefix))

-- The functions with a setNestedValue that leaves out the keys with an underscore.
abbrev pub skipping : {F : Type 0} → Maps F → Maps F
skipping maps = record maps {
  set_nested_value = λ fs key v. if has_underscore key then fs else maps.set_nested_value fs key v;
}

put_variable-skipping :
    {F : Type 0} (maps : Maps F) (prefix variable : String) (fs : Fields F)
    → put_variable (skipping maps) prefix variable fs ≡ put_variable maps prefix variable fs
unfolding put_variable env_key
put_variable-skipping maps prefix variable fs = elim (Option-cases (split_pair variable)) [
  | inl e ↦ rw (put_variable, e) refl
  | inr ((name, value), e) ↦
      rw (put_variable, e, env_key) (rw (has_underscore-env_key maps prefix name) refl)
]

put_variables-skipping :
    {F : Type 0} (maps : Maps F) (prefix : String) (variables : List String) (fs : Fields F)
    → put_variables (skipping maps) prefix variables fs ≡ put_variables maps prefix variables fs
unfolding put_variables
put_variables-skipping maps prefix [] fs = refl
put_variables-skipping maps prefix (v ∷ vs) fs =
    ap (put_variables (skipping maps) prefix vs) (put_variable-skipping maps prefix v fs)
    ∙ put_variables-skipping maps prefix vs (put_variable maps prefix v fs)

-- Whatever setNestedValue does, what EnironmentSource loads from any environment is what it would load with one that
-- left out every key with an underscore: it never sets a value at such a key.
pub load_environment-skipping :
    {F : Type 0} (maps : Maps F) (environ : List String) (e : EnvironmentSource)
    → load_environment (skipping maps) environ e ≡ load_environment maps environ e
unfolding load_environment
load_environment-skipping {F = F} maps environ e =
    ap (λ (fs : Fields F). record { name = "environment"; priority = e.priority; loaded = ok fs })
      (put_variables-skipping maps e.prefix environ no_fields)
