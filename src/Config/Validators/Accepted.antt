-- ===== src/Config/Validators/Accepted.antt =====
-- What each validator accepts.
use bindxdb.Prelude.{
  String, true, false, some, List, [], ◌∷◌, ◌≡◌, refl, ◌↔◌, ◌⊎◌, inl, inr, Option-cases, Bool-cases,
  Result-cases, Result, ok, ℤ, pos, leb_ℤ_iff, ◌≤ℤ◌, arith, All, Any,
}
use mathlib.Core.Path.{subst}
use bindxdb.Go.Value.{Floats, Value, int, float32, string, deep_equal}
use bindxdb.Config.Schema.{valid}
use bindxdb.Config.Types.{Validator}
use bindxdb.Config.Manager.Getters.{Conversions}
use bindxdb.Config.Validators.{
  Stat, not_there, no_access, found, Addresses, FileValidator, check_stat, file_validate,
  composite_validate, enum_validate, to_duration, duration_validate, to_port, port_validate,
  IpValidator, check_ip, in_some, ip_validate,
}

-- A composite validator accepts a value exactly when each of its validators does.
pub composite_validate_iff :
    {F : Type 0} (checks : List (Validator F)) (key : String) (v : Value F)
    → (composite_validate checks key v ≡ valid)
      ↔ All (λ (check : Validator F). check key v ≡ valid) checks
unfolding composite_validate
composite_validate_iff [] key v = ground arith
composite_validate_iff (check ∷ checks) key v = ground (arith, composite_validate_iff checks key v)

module _ (fl : Floats) where
  open fl use {Float, to_int}

  -- An enum validator accepts a value exactly when an allowed value is deeply equal to it.
  pub enum_validate_iff :
      (allowed : List (Value Float)) (key : String) (v : Value Float)
      → (enum_validate fl allowed key v ≡ valid) ↔ Any (λ a. deep_equal fl a v ≡ true) allowed
  unfolding enum_validate
  enum_validate_iff [] key v = ground arith
  enum_validate_iff (a ∷ as') key v = ground (arith, enum_validate_iff as' key v)

  module _ (conversions : Conversions Float) where
    -- The duration that the validator reads from a value: a text, an int or a float32.
    abbrev pub IsDuration : Value Float → ℤ → Type 0
    IsDuration (string s) d = conversions.parse_duration s ≡ ok d
    IsDuration (int n) d = n ≡ d
    IsDuration (float32 x) d = to_int x ≡ d
    IsDuration v d = ⊥

    to_duration_iff :
        (v : Value Float) (d : ℤ) → (to_duration fl conversions v ≡ ok d) ↔ IsDuration v d
    unfolding to_duration
    to_duration_iff (string s) d = ground (arith, Result-cases (conversions.parse_duration s))
    to_duration_iff v d = ground arith

    -- A duration validator accepts exactly the values that it reads as a duration which is at least the
    -- minimum and, where the maximum is positive, at most that. A time.Duration is not read as one.
    pub duration_validate_iff :
        (min max : ℤ) (key : String) (v : Value Float)
        → (duration_validate fl conversions min max key v ≡ valid)
          ↔ ((d : ℤ) × IsDuration v d × (min ≤ℤ d) × ((max ≤ℤ pos 0) ⊎ (d ≤ℤ max)))
    unfolding duration_validate
    duration_validate_iff min max key v = elim (Result-cases (to_duration fl conversions v)) [
      | inr (x, e) ↦
          rw (duration_validate, e)
            (λ h. ground (arith, h), λ (d, i, b, c). ground (arith, (to_duration_iff v d).1 i, e))
      | inl (d, e) ↦
          rw (duration_validate, e)
            (
              λ h. (
                d,
                (to_duration_iff v d).0 e,
                ground (arith, h, leb_ℤ_iff min d),
                ground (arith, h, leb_ℤ_iff min d, leb_ℤ_iff max (pos 0), leb_ℤ_iff d max),
              ),
              λ (d', i, b, c).
                  let same : d' ≡ d = ground (arith, (to_duration_iff v d').1 i, e) in
                  let low : min ≤ℤ d = subst (λ (x : ℤ). min ≤ℤ x) same b in
                  let high : (max ≤ℤ pos 0) ⊎ (d ≤ℤ max) =
                    subst (λ (x : ℤ). (max ≤ℤ pos 0) ⊎ (x ≤ℤ max)) same c in
                  ground
                    (arith, low, high, leb_ℤ_iff min d, leb_ℤ_iff max (pos 0), leb_ℤ_iff d max),
            )
    ]

  -- A port validator accepts exactly the values that give a number between its bounds.
  pub port_validate_iff :
      (atoi : String → Result String ℤ) (min max : ℤ) (key : String) (v : Value Float)
      → (port_validate fl atoi min max key v ≡ valid)
        ↔ ((n : ℤ) × (to_port fl atoi v ≡ ok n) × (min ≤ℤ n) × (n ≤ℤ max))
  unfolding port_validate
  port_validate_iff atoi min max key v = elim (Result-cases (to_port fl atoi v)) [
    | inr (x, e) ↦ rw (port_validate, e) (λ h. ground (arith, h), λ (n, i, b, c). ground (arith, i))
    | inl (n, e) ↦
        rw (port_validate, e)
          (
            λ h. (
              n,
              refl,
              ground (arith, h, leb_ℤ_iff min n),
              ground (arith, h, leb_ℤ_iff min n, leb_ℤ_iff n max),
            ),
            λ (n', i, b, c).
                let same : n' ≡ n = ground (arith, i) in
                let low : min ≤ℤ n = subst (λ (x : ℤ). min ≤ℤ x) same b in
                let high : n ≤ℤ max = subst (λ (x : ℤ). x ≤ℤ max) same c in
                ground (arith, low, high, leb_ℤ_iff min n, leb_ℤ_iff n max),
          )
  ]

module _ (addresses : Addresses) where
  open addresses use {Ip, Net, parse_ip, is_v4, in_net}

  in_some_iff :
      (nets : List Net) (ip : Ip)
      → (in_some addresses nets ip ≡ true) ↔ Any (λ n. in_net n ip ≡ true) nets
  unfolding in_some
  in_some_iff [] ip = ground arith
  in_some_iff (n ∷ ns) ip = ground (arith, in_some_iff ns ip)

  -- The address is of an allowed family and, where networks are listed, in one of them.
  abbrev pub Allowed : IpValidator addresses → Ip → Type 0
  Allowed v ip =
      ((is_v4 ip ≡ true) → (v.allow_ipv4 ≡ true))
      × ((is_v4 ip ≡ false) → (v.allow_ipv6 ≡ true))
      × ((v.cidrs ≡ []) ⊎ Any (λ n. in_net n ip ≡ true) v.cidrs)

  check_ip_iff :
      (v : IpValidator addresses) (ip : Ip) → (check_ip addresses v ip ≡ valid) ↔ Allowed v ip
  unfolding check_ip
  check_ip_iff v ip = ground (arith, in_some_iff v.cidrs ip)

  -- An address validator accepts a text exactly when it parses as an address of an allowed family that, where
  -- networks are listed, lies in one of them.
  pub ip_validate_iff :
      (F : Type 0) (v : IpValidator addresses) (key s : String)
      → (ip_validate addresses {F = F} v key (string s) ≡ valid)
        ↔ ((ip : Ip) × (parse_ip s ≡ some ip) × Allowed v ip)
  unfolding ip_validate
  ip_validate_iff F v key s = elim (Option-cases (parse_ip s)) [
    | inl e ↦ rw (ip_validate, e) (λ h. ground (arith, h), λ (ip, i, a). ground (arith, i))
    | inr (ip, e) ↦
        rw (ip_validate, e)
          (
            λ h. (ip, refl, (check_ip_iff v ip).0 h),
            λ (ip', i, a).
                let same : ip' ≡ ip = ground (arith, i) in
                (check_ip_iff v ip).1 (subst (λ (x : Ip). Allowed v x) same a),
          )
  ]

-- What a file validator asks of a path.
abbrev pub FileFits : FileValidator → Stat → Type 0
FileFits v (found is_dir permissions) =
    ((v.must_be_file ≡ true) → (is_dir ≡ false))
    × ((v.permissions ≡ 0) ⊎ (permissions ≡ v.permissions))
FileFits v _ = ⊥

check_stat_iff : (v : FileValidator) (st : Stat) → (check_stat v st ≡ valid) ↔ FileFits v st
unfolding check_stat
check_stat_iff v not_there = ground arith
check_stat_iff v (no_access e) = ground arith
check_stat_iff v (found is_dir permissions) = ground arith

-- A file validator accepts a path exactly when it need not exist, or exists, is no directory where it must be
-- a file, and has the permissions where any are given. `must_be_dir` is not asked for.
pub file_validate_iff :
    (F : Type 0) (stat : String → Stat) (v : FileValidator) (key path : String)
    → (file_validate {F = F} stat v key (string path) ≡ valid)
      ↔ ((v.must_exist ≡ true) → FileFits v (stat path))
unfolding file_validate check_stat
file_validate_iff F stat v key path = elim (Bool-cases v.must_exist) [
  | inr f ↦ rw (file_validate, f) (λ h t. ground (arith, t), λ h. refl)
  | inl t ↦
      rw (file_validate, t)
        (λ h _. (check_stat_iff v (stat path)).0 h, λ h. (check_stat_iff v (stat path)).1 (h refl))
]
