-- ===== src/Config/Manager/Checks.antt =====
-- ValidateAll and Load of pkg/config/manager.go, with the MultiError of types.go as the list of its
-- errors. `none` is a panic in a validator or in the schema check.
use bindxdb.Prelude.{
  String, true, Option, none, some, List, [], ◌∷◌, ◌≡◌, refl, ◌↔◌, All, arith, Dict, if◌then◌else◌,
  Bool-cases, inl, inr,
}
use bindxdb.Go.Value.{Floats, Value}
use bindxdb.Config.Schema.{
  ConfigSchema, NodeError, Verdict, valid, panic, wrong, validate_against_schema,
}
use bindxdb.Config.Types.{ConfigValue, ConfigManager, Validator}
use bindxdb.Config.Manager.{slice_at, load_values}

pub data CheckError : Type 0 where
  validator_failed : String → String → CheckError
  schema_failed : NodeError → CheckError

abbrev pub prepend : {E : Type 0} → E → Option (List E) → Option (List E)
prepend e none = none
prepend e (some es) = some (e ∷ es)

-- multiErr.Add for what one check gives, before the errors of the later checks.
abbrev pub collect : {A E : Type 0} → (A → E) → Verdict A → Option (List E) → Option (List E)
collect f valid rest = rest
collect f panic rest = none
collect f (wrong e) rest = prepend (f e) rest

module _ (fl : Floats) where
  open fl use {Float}

  -- The loop over the validators of a key, and what the later checks give.
  pub run_validators :
      String
      → Value Float
      → List (Validator Float)
      → Option (List CheckError)
      → Option (List CheckError)
  run_validators key v [] rest = rest
  run_validators key v (check ∷ checks) rest =
      collect (validator_failed key) (check key v) (run_validators key v checks rest)

  pub check_schema :
      Option (ConfigSchema Float)
      → String
      → Value Float
      → Option (List CheckError)
      → Option (List CheckError)
  check_schema none key v rest = rest
  check_schema (some schema) key v rest =
      collect schema_failed (validate_against_schema fl schema key v) rest

module _ (fl : Floats) {S W : Type 0} where
  open fl use {Float}

  -- The loop of ValidateAll over the values.
  pub check_values : ConfigManager Float S W → Dict (ConfigValue Float) → Option (List CheckError)
  unfolding run_validators check_schema
  check_values m [] = some []
  check_values m ((key, cv) ∷ rest) =
      let later = check_values m rest in
      if cv.is_set
      then run_validators fl key cv.value (slice_at key m.validators)
          (check_schema fl m.schema key cv.value later)
      else later

  pub validate_all : ConfigManager Float S W → Option (List CheckError)
  unfolding check_values
  validate_all m = check_values m m.values

  -- The state after Load, and the errors of its validation.
  unfoldable pub load : ConfigManager Float S W → ConfigManager Float S W × Option (List CheckError)
  load m = (load_values m, validate_all (load_values m))

  -- Every validator of the key accepts the value, and so does the schema, where there is one.
  abbrev pub Accepted : ConfigManager Float S W → String → Value Float → Type 0
  Accepted m key v =
      All (λ (check : Validator Float). check key v ≡ valid) (slice_at key m.validators)
      × ((schema : ConfigSchema Float)
          → m.schema ≡ some schema
          → validate_against_schema fl schema key v ≡ valid)

module _ (fl : Floats) where
  open fl use {Float}

  collect_nil :
      {A : Type 0} (f : A → CheckError) (v : Verdict A) (rest : Option (List CheckError))
      → (collect f v rest ≡ some []) ↔ ((v ≡ valid) × (rest ≡ some []))
  collect_nil f valid rest = ground arith
  collect_nil f panic rest = ground arith
  collect_nil f (wrong e) none = ground arith
  collect_nil f (wrong e) (some es) = ground arith

  run_validators_nil :
      (key : String) (v : Value Float) (checks : List (Validator Float))
      (rest : Option (List CheckError))
      → (run_validators fl key v checks rest ≡ some [])
        ↔ (All (λ (check : Validator Float). check key v ≡ valid) checks × (rest ≡ some []))
  unfolding run_validators
  run_validators_nil key v [] rest = ground arith
  run_validators_nil key v (check ∷ checks) rest = ground (
    arith,
    run_validators_nil key v checks rest,
    collect_nil (validator_failed key) (check key v) (run_validators fl key v checks rest),
  )

  check_schema_nil :
      (schema : Option (ConfigSchema Float)) (key : String) (v : Value Float)
      (rest : Option (List CheckError))
      → (check_schema fl schema key v rest ≡ some []) ↔ (
          ((s : ConfigSchema Float) → schema ≡ some s → validate_against_schema fl s key v ≡ valid)
          × (rest ≡ some []))
  unfolding check_schema
  check_schema_nil none key v rest = (λ h. ((λ s e. ground (arith, e)), h), λ (f, h). h)
  check_schema_nil (some s) key v rest =
      let back = collect_nil schema_failed (validate_against_schema fl s key v) rest in
      (λ h. (λ s' e. ground (arith, e, back.0 h), (back.0 h).1), λ (f, h). back.1 (f s refl, h))

module _ (fl : Floats) {S W : Type 0} (m : ConfigManager fl.Float S W) where
  open fl use {Float}

  -- A value that is set is accepted.
  abbrev pub Checked : String × ConfigValue Float → Type 0
  Checked (key, cv) = cv.is_set ≡ true → Accepted fl m key cv.value

  check_values_nil :
      (values : Dict (ConfigValue Float))
      → (check_values fl m values ≡ some []) ↔ All Checked values
  unfolding check_values
  check_values_nil [] = (λ h. tt, λ h. refl)
  check_values_nil ((key, cv) ∷ rest) =
      let later = check_values fl m rest in
      let run =
        run_validators_nil fl key cv.value (slice_at key m.validators)
          (check_schema fl m.schema key cv.value later) in
      let schema = check_schema_nil fl m.schema key cv.value later in
      let below = check_values_nil rest in
      elim (Bool-cases cv.is_set) [
        | inl t ↦ rw t (
          λ e. let (a, r) = run.0 e in let (b, c) = schema.0 r in ((λ _. (a, b)), below.0 c),
          λ (f, all). run.1 ((f refl).0, schema.1 ((f refl).1, below.1 all)),
        )
        | inr f ↦ rw f (λ e. ((λ t. ground (arith, t)), below.0 e), λ (_, all). below.1 all)
      ]

-- ValidateAll ends without a panic and without an error exactly when each value that is set is
-- accepted by every validator of its key and, where there is a schema, by the schema.
pub validate_all_iff :
    (fl : Floats) {S W : Type 0} (m : ConfigManager fl.Float S W)
    → (validate_all fl m ≡ some []) ↔ All (Checked fl m) m.values
unfolding validate_all
validate_all_iff fl m = check_values_nil fl m m.values
