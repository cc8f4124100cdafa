-- ===== src/Config/Validators.antt =====
-- The validators of pkg/config/validation.go. What they ask of regexp, os, net/url, net, strconv and
-- the clock's text format is a parameter; the formatted parts of messages are left out.
pub mod Accepted
mod Tests
use bindxdb.Prelude.{
  ℕ, String, Bool, true, false, not, ◌&&◌, ◌||◌, Option, none, some, List, [], ◌∷◌, ◌++◌, ◌==◌,
  if◌then◌else◌, Result, ok, err, ℤ, pos, leb_ℤ, nat_eq, contains,
}
use bindxdb.Go.Value.{
  Floats, Value, null, int, int64, float32, float64, number, string, Kind, kind, invalid, bool_kind,
  int_kind, int64_kind, float32_kind, float64_kind, string_kind, slice_kind, map_kind, deep_equal,
}
use bindxdb.Config.Schema.{Verdict, valid, panic, wrong, ◌then_check◌}
use bindxdb.Config.Types.{Validator}
use bindxdb.Config.Manager.Getters.{Conversions}

pub record Regexes : Type 1 where
  pub Regex : Type 0
  pub compile : String → Result String Regex
  pub matches : Regex → String → Bool

-- What os.Stat finds at a path.
pub data Stat : Type 0 where
  not_there : Stat
  no_access : String → Stat
  found : (is_dir : Bool) → (permissions : ℕ) → Stat

-- The addresses and networks of package net.
pub record Addresses : Type 1 where
  pub Ip : Type 0
  pub Net : Type 0
  pub parse_ip : String → Option Ip
  pub is_v4 : Ip → Bool
  pub parse_cidr : String → Result String Net
  pub in_net : Net → Ip → Bool

pub same_kind : Kind → Kind → Bool
same_kind invalid invalid = true
same_kind bool_kind bool_kind = true
same_kind int_kind int_kind = true
same_kind int64_kind int64_kind = true
same_kind float32_kind float32_kind = true
same_kind float64_kind float64_kind = true
same_kind string_kind string_kind = true
same_kind slice_kind slice_kind = true
same_kind map_kind map_kind = true
same_kind _ _ = false

module _ {F : Type 0} where
  pub required_validate : Validator F
  required_validate key null = wrong "is required"
  required_validate key (string s) = if s == "" then wrong "cannot be empty" else valid
  required_validate key v = valid

  pub type_validate : Kind → Validator F
  unfolding same_kind
  type_validate expected key null = wrong "value is nil"
  type_validate expected key v =
      if same_kind (kind v) expected then valid else wrong "expected type"

  -- The loop of CompositeValidator.Validate.
  pub composite_validate : List (Validator F) → Validator F
  composite_validate [] key v = valid
  composite_validate (check ∷ checks) key v = check key v then_check composite_validate checks key v

  pub conditional_validate : (String → Value F → Bool) → Validator F → Validator F
  conditional_validate condition check key v = if condition key v then check key v else valid

module _ (fl : Floats) where
  open fl use {Float, of_int, to_int, lt}

  -- The loop of EnumValidator.Validate.
  pub enum_validate : List (Value Float) → Validator Float
  enum_validate [] key v = wrong "not in allowed set"
  enum_validate (allowed ∷ rest) key v =
      if deep_equal fl allowed v then valid else enum_validate rest key v

  module _ (conversions : Conversions Float) where
    open conversions use {number_to_float64, parse_duration}

    -- The switch of RangeValidator.Validate.
    pub to_number : Value Float → Result String Float
    to_number (int n) = ok (of_int n)
    to_number (int64 n) = ok (of_int n)
    to_number (float64 x) = ok x
    to_number (number s) = elim (number_to_float64 s) [
      | ok x ↦ ok x
      | err e ↦ err "cannot convert to number"
    ]
    to_number _ = err "expected type int, int64, float64 or json.Number"

    pub range_validate : (min max : Float) → Validator Float
    unfolding to_number
    range_validate min max key v = elim (to_number v) [
      | err e ↦ wrong e
      | ok x ↦ if lt x min || lt max x then wrong "value out of range" else valid
    ]

    -- The switch of DurationValidator.Validate.
    unfoldable pub to_duration : Value Float → Result String ℤ
    to_duration (string s) = elim (parse_duration s) [
      | ok d ↦ ok d
      | err e ↦ err "invalid duration string"
    ]
    to_duration (int n) = ok n
    to_duration (float32 x) = ok (to_int x)
    to_duration _ = err "expected duration"

    unfoldable pub duration_validate : (min max : ℤ) → Validator Float
    unfolding to_duration
    duration_validate min max key v = elim (to_duration v) [
      | err e ↦ wrong e
      | ok d ↦
          if not (leb_ℤ min d) || (not (leb_ℤ max (pos 0)) && not (leb_ℤ d max))
          then wrong "duration out of range"
          else valid
    ]

  -- The switch of PortValidator.Validate, by strconv.Atoi.
  pub to_port : (String → Result String ℤ) → Value Float → Result String ℤ
  to_port atoi (int n) = ok n
  to_port atoi (float64 x) = ok (to_int x)
  to_port atoi (string s) = elim (atoi s) [ ok n ↦ ok n | err e ↦ err "invalid port number" ]
  to_port atoi _ = err "expected port number"

  pub port_validate : (String → Result String ℤ) → (min max : ℤ) → Validator Float
  unfolding to_port
  port_validate atoi min max key v = elim (to_port atoi v) [
    | err e ↦ wrong e
    | ok n ↦ if not (leb_ℤ min n) || not (leb_ℤ n max) then wrong "port out of range" else valid
  ]

pub record FileValidator : Type 0 where
  pub must_exist : Bool
  pub must_be_dir : Bool
  pub must_be_file : Bool
  pub permissions : ℕ

pub check_stat : FileValidator → Stat → Verdict String
check_stat v not_there = wrong "does not exist"
check_stat v (no_access e) = wrong "error accessing"
check_stat v (found is_dir permissions) =
    if v.must_be_file && is_dir
    then wrong "is not a file"
    else if not (nat_eq v.permissions 0) && not (nat_eq permissions v.permissions)
    then wrong "has other permissions"
    else valid

pub file_validate : {F : Type 0} → (String → Stat) → FileValidator → Validator F
unfolding check_stat
file_validate stat v key (string path) = if v.must_exist then check_stat v (stat path) else valid
file_validate stat v key _ = wrong "expected file path string"

-- `scheme_of` is url.Parse and the scheme of its result.
pub url_validate : {F : Type 0} → (String → Result String String) → List String → Validator F
url_validate scheme_of schemas key (string s) = elim (scheme_of s) [
  | err e ↦ wrong "invalid URL"
  | ok scheme ↦ elim schemas [
    | [] ↦ valid
    | first ∷ rest ↦
        if contains scheme (first ∷ rest) then valid else wrong "URL schema not allowed"
  ]
]
url_validate scheme_of schemas key _ = wrong "expected URL string"

module _ (regexes : Regexes) where
  open regexes use {Regex, compile, matches}

  pub record PatternValidator : Type 0 where
    pub pattern : String
    pub regex : Regex

  unfoldable pub new_pattern_validator : String → Result String PatternValidator
  new_pattern_validator pattern = elim (compile pattern) [
    | err e ↦ err "invalid pattern"
    | ok regex ↦ ok (record { pattern = pattern; regex = regex })
  ]

  pub pattern_validate : {F : Type 0} → PatternValidator → Validator F
  pattern_validate v key (string s) =
      if matches v.regex s then valid else wrong "value does not match pattern"
  pattern_validate v key _ = wrong "expected string for pattern validation"

module _ (addresses : Addresses) where
  open addresses use {Ip, Net, parse_ip, is_v4, parse_cidr, in_net}

  pub record IpValidator : Type 0 where
    pub allow_ipv4 : Bool
    pub allow_ipv6 : Bool
    pub cidrs : List Net

  pub new_ip_validator : IpValidator
  new_ip_validator = record { allow_ipv4 = true; allow_ipv6 = true; cidrs = [] }

  pub add_cidr : String → IpValidator → Result String IpValidator
  add_cidr cidr v = elim (parse_cidr cidr) [
    | err e ↦ err e
    | ok n ↦ ok (record v { cidrs = v.cidrs ++ n ∷ [] })
  ]

  -- The loop over the networks.
  pub in_some : List Net → Ip → Bool
  in_some [] ip = false
  in_some (n ∷ ns) ip = if in_net n ip then true else in_some ns ip

  pub check_ip : IpValidator → Ip → Verdict String
  unfolding in_some
  check_ip v ip =
      if is_v4 ip && not v.allow_ipv4
      then wrong "IPv4 addresses not allowed"
      else if not (is_v4 ip) && not v.allow_ipv6
      then wrong "IPv6 addresses not allowed"
      else elim v.cidrs [
        | [] ↦ valid
        | n ∷ ns ↦ if in_some (n ∷ ns) ip then valid else wrong "IP not in allowed CIDR ranges"
      ]

  pub ip_validate : {F : Type 0} → IpValidator → Validator F
  unfolding check_ip
  ip_validate v key (string s) = elim (parse_ip s) [
    | none ↦ wrong "invalid IP address"
    | some ip ↦ check_ip v ip
  ]
  ip_validate v key _ = wrong "expected IP address string"
