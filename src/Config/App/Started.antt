-- ===== src/Config/App/Started.antt =====
-- What InitConfig leaves behind.
use mathlib.Core.Path.{subst}
use bindxdb.Prelude.{
  Bool-cases, String, true, none, some, List, [], ◌∷◌, ◌≡◌, ◌≢◌, refl, ◌∙◌, ap, Dict, lookup,
  Result, pos, All, Any, arith, go, Option-cases, Result-cases, inl, inr, List-cases, ◌⊎◌, ◌==◌,
  eq_iff,
}
use bindxdb.Go.Value.{Floats, Value, Fields, duration}
use bindxdb.Config.Schema.{valid}
use bindxdb.Config.Types.{Source, Validator}
use bindxdb.Config.Manager.{
  slice_at, load_defaults, load_values, default_value, add_source, bubble, set_default,
  add_validator,
}
use bindxdb.Config.Manager.Checks.{CheckError, validate_all, load, Checked, validate_all_iff}
use bindxdb.Config.Manager.Loading.Precedence.{Provides}
use bindxdb.Config.Manager.Loading.Absent.{load_values-validators, load_values_absent}
use bindxdb.Config.Validators.{duration_validate, to_duration, new_pattern_validator}
use bindxdb.Config.App.{
  Checks, Globals, panicked, returned, file_source, environment_source, prepared, start,
  init_config, get_config, idle_timeout_check, set_defaults, add_validators, add_host_validator,
  set_each,
}

-- 5 * time.Minute
abbrev idle_timeout : {F : Type 0} → Value F
idle_timeout = duration (pos 300000000000)

-- The key whose default no validator accepts.
abbrev pub timeout_key : String
timeout_key = "database.idle_timeout"

module _ (fl : Floats) (checks : Checks fl.Float) {S : Type 0} (W : Type 0) where
  open fl use {Float}

  prepared_facts :
      (store : S) (from_file from_env : Result String (Fields Float))
      → ((prepared fl checks {W = W} store from_file from_env).sources
          ≡ environment_source from_env ∷ file_source from_file ∷ [])
        × (lookup timeout_key
              (load_defaults
                (prepared fl checks {W = W} store from_file from_env).defaults
                (prepared fl checks {W = W} store from_file from_env)).values
            ≡ some (default_value idle_timeout))
        × (slice_at timeout_key (prepared fl checks {W = W} store from_file from_env).validators
            ≡ idle_timeout_check fl checks ∷ [])
  unfolding go prepared add_validators add_host_validator set_defaults set_each add_source bubble
      set_default add_validator load_defaults
  prepared_facts store from_file from_env =
      elim (Result-cases (new_pattern_validator checks.regexes "^[a-zA-Z0-9\\.\\-]+$")) [
        | inl (v, e) ↦ rw (prepared, add_validators, add_host_validator, e) (refl, refl, refl)
        | inr (x, e) ↦ rw (prepared, add_validators, add_host_validator, e) (refl, refl, refl)
      ]

All-lookup :
    {V : Type 0} (P : String × V → Type 0) (key : String) (v : V) (m : Dict V)
    → All P m
    → lookup key m ≡ some v
    → P (key, v)
unfolding go
All-lookup P key v ((at, x) ∷ rest) (p, ps) e = elim (Bool-cases (at == key)) [
  | inl t ↦
      let same : x ≡ v = ground (arith, e, t) in
      subst (λ k. P (k, v)) ((eq_iff at key).0 t) (subst (λ y. P (at, y)) same p)
  | inr n ↦ All-lookup P key v rest ps (ground (arith, e, n))
]
All-lookup P key v [] ps e = absurd (ground (arith, e))

-- A time.Duration is no duration for the validator.
idle_timeout_refused :
    (fl : Floats) (checks : Checks fl.Float)
    → idle_timeout_check fl checks timeout_key idle_timeout ≢ valid
unfolding duration_validate to_duration
idle_timeout_refused fl checks = λ e. cc

module _ (fl : Floats) (checks : Checks fl.Float) {S : Type 0} (W : Type 0) where
  open fl use {Float}

  validate_all-prepared :
      (store : S) (from_file from_env : Result String (Fields Float))
      → ¬ Any (Provides timeout_key) (environment_source from_env ∷ file_source from_file ∷ [])
      → ¬ (
          validate_all fl (load_values (prepared fl checks {W = W} store from_file from_env))
          ≡ some [])
  validate_all-prepared store from_file from_env absent passed =
      let m = prepared fl checks {W = W} store from_file from_env in
      let (sources, default, validators) = prepared_facts fl checks W store from_file from_env in
      let there = load_values_absent timeout_key m (default_value idle_timeout) default (λ given.
        absent
          (subst (λ (ss : List (Source Float)). Any (Provides timeout_key) ss) sources given)) in
      let checked =
        All-lookup (Checked fl (load_values m)) timeout_key (default_value idle_timeout)
          (load_values m).values ((validate_all_iff fl (load_values m)).0 passed) there in
      let checks_of : slice_at timeout_key (load_values m).validators
          ≡ idle_timeout_check fl checks ∷ [] =
        ap (λ (vs : Dict (List (Validator Float))). slice_at timeout_key vs)
          (load_values-validators m)
        ∙ validators in
      idle_timeout_refused fl checks
        (subst
          (λ (cs : List (Validator Float)).
            All (λ (check : Validator Float). check timeout_key idle_timeout ≡ valid) cs)
          checks_of (checked refl).0).0

module _ (fl : Floats) (checks : Checks fl.Float) {S W : Type 0} where
  open fl use {Float}

  start_unchanged :
      (store : S) (from_file from_env : Result String (Fields Float)) (g : Globals Float S W)
      → ¬ Any (Provides timeout_key) (environment_source from_env ∷ file_source from_file ∷ [])
      → ((start fl checks store from_file from_env g).0.global_manager ≡ g.global_manager)
        × ((start fl checks store from_file from_env g).0.done ≡ true)
        × (((start fl checks store from_file from_env g).1 ≡ returned none)
            ⊎ ((start fl checks store from_file from_env g).1 ≡ panicked))
  unfolding start load
  start_unchanged store from_file from_env g absent =
      let m = prepared fl checks {W = W} store from_file from_env in
      elim (Option-cases (validate_all fl (load_values m))) [
        | inl e ↦
            (rw (start, load, e) refl, rw (start, load, e) refl, inr (rw (start, load, e) refl))
        | inr (es, e) ↦ elim (List-cases es) [
          | inl f ↦ absurd (
              validate_all-prepared fl checks W store from_file from_env absent
                (e ∙ ap (λ (l : List CheckError). some l) f))
          | inr (x, xs, f) ↦ (
            rw (start, load, e, f) refl,
            rw (start, load, e, f) refl,
            inl (rw (start, load, e, f) refl),
          )
        ]
      ]

  -- Where neither source provides database.idle_timeout, InitConfig never sets the manager that GetConfig gives, and yet
  -- returns no error, unless it panics, and it runs only once.
  pub init_config-get_config :
      {D E : Type 0} (create : D → D × Result E S)
      (from_file from_env : Result String (Fields Float)) (disk : D) (g : Globals Float S W)
      → ¬ Any (Provides timeout_key) (environment_source from_env ∷ file_source from_file ∷ [])
      → (get_config (init_config fl checks create from_file from_env disk g).1 ≡ get_config g)
        × ((init_config fl checks create from_file from_env disk g).1.done ≡ true)
        × (((init_config fl checks create from_file from_env disk g).2 ≡ returned none)
            ⊎ ((init_config fl checks create from_file from_env disk g).2 ≡ panicked))
  unfolding init_config get_config
  init_config-get_config create from_file from_env disk g absent = elim (Bool-cases g.done) [
    | inl t ↦ (rw (init_config, t) refl, rw (init_config, t) refl, inl (rw (init_config, t) refl))
    | inr n ↦ elim (Result-cases (create disk).1) [
      | inr (x, e) ↦ (
        rw (init_config, n, e) refl,
        rw (init_config, n, e) refl,
        inl (rw (init_config, n, e) refl),
      )
      | inl (store, e) ↦
          let (same, done, outcome) = start_unchanged store from_file from_env g absent in
          (rw (init_config, n, e) same, rw (init_config, n, e) done, rw (init_config, n, e) outcome)
    ]
  ]
