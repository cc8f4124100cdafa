-- ===== src/Config/Manager/Getters.antt =====
-- The typed getters of pkg/config/manager.go. The conversions of Go's json and time packages are
-- parameters.
use Prim.Native.Nat.{◌%◌, ◌^◌}
use native.Mathlib.Nat.{mod-eq_of_lt}
use bindxdb.Prelude.{
  ℕ, ◌-◌, String, Bool, false, List, [], ◌∷◌, ◌≡◌, ◌↔◌, ap, arith, Result, ok, err, ◌>>=◌, map_err,
  ℤ, pos, negsuc, scale_ℤ, ltb, if◌then◌else◌, Result-cases, inl, inr, ◌<◌, ◌*◌,
}
use bindxdb.Go.Value.{
  Floats, Value, Values, no_items, item, bool, int, float64, number, duration, string, list,
  strings,
}
use bindxdb.Config.Schema.{is_secret_key}
use bindxdb.Config.Manager.Values.{get-set}
use bindxdb.Config.Types.{ConfigError, config_error, ConfigManager, SecretStore}
use bindxdb.Config.Manager.{get, set}

-- json.Number.Int64, json.Number.Float64 and time.ParseDuration, which gives nanoseconds.
pub record Conversions (F : Type 0) : Type 0 where
  pub number_to_int64 : String → Result String ℤ
  pub number_to_float64 : String → Result String F
  pub parse_duration : String → Result String ℤ

-- What a getter returns: an error of its own, or one of a conversion.
pub data GetError : Type 0 where
  of_config : ConfigError → GetError
  of_conversion : String → GetError

-- The int64 that an integer wraps around to.
abbrev pub of_residue : ℕ → ℤ
of_residue r = if ltb r (2 ^ 63) then pos r else negsuc (2 ^ 64 - 1 - r)

abbrev pub wrap64 : ℤ → ℤ
wrap64 (pos n) = of_residue (n % 2 ^ 64)
wrap64 (negsuc n) = of_residue (2 ^ 64 - 1 - n % 2 ^ 64)

-- time.Duration(n) * time.Second
abbrev pub seconds : ℤ → ℤ
seconds n = wrap64 (scale_ℤ 1000000000 n)

refuse : {A : Type 0} → String → String → Result GetError A
refuse key message = err (of_config (config_error key message))

module _ {F : Type 0} where
  pub as_string : String → Value F → Result GetError String
  unfolding refuse
  as_string key (string s) = ok s
  as_string key _ = refuse key "value is not a string"

  pub as_bool : String → Value F → Result GetError Bool
  unfolding refuse
  as_bool key (bool b) = ok b
  as_bool key _ = refuse key "value is not a bool"

  -- The loop of GetStringSlice over the elements.
  pub items_as_strings : String → Values F → Result GetError (List String)
  unfolding refuse
  items_as_strings key no_items = ok []
  items_as_strings key (item (string s) vs) = items_as_strings key vs >>= λ ss. ok (s ∷ ss)
  items_as_strings key (item _ vs) = refuse key "slice contains non-string"

  pub as_string_slice : String → Value F → Result GetError (List String)
  unfolding items_as_strings refuse
  as_string_slice key (list vs) = items_as_strings key vs
  as_string_slice key (strings ss) = ok ss
  as_string_slice key _ = refuse key "value is not string slice"

module _ (fl : Floats) (conversions : Conversions fl.Float) where
  open fl use {Float, of_int, to_int}
  open conversions use {number_to_int64, number_to_float64, parse_duration}

  pub as_int : String → Value Float → Result GetError ℤ
  unfolding refuse
  as_int key (int n) = ok n
  as_int key (float64 x) = ok (to_int x)
  as_int key (number s) = elim (number_to_int64 s) [
    | ok n ↦ ok n
    | err e ↦ refuse key "cannot convert to int"
  ]
  as_int key _ = refuse key "value is not an int"

  pub as_duration : String → Value Float → Result GetError ℤ
  unfolding refuse
  as_duration key (duration d) = ok d
  as_duration key (string s) = map_err of_conversion (parse_duration s)
  as_duration key (int n) = ok (seconds n)
  as_duration key (float64 x) = ok (seconds (to_int x))
  as_duration key _ = refuse key "cannot convert to duration"

  pub as_float : String → Value Float → Result GetError Float
  unfolding refuse
  as_float key (float64 x) = ok x
  as_float key (int n) = ok (of_int n)
  as_float key (number s) = map_err of_conversion (number_to_float64 s)
  as_float key _ = refuse key "cannot convert to float"

module _ (secret_store : SecretStore) {F W : Type 0} where
  open secret_store use {Store}

  -- Get, then the conversion of the getter.
  pub get_as :
      {A : Type 0}
      → (String → Value F → Result GetError A)
      → ConfigManager F Store W
      → String
      → Result GetError A
  get_as convert m key = map_err of_config (get secret_store m key) >>= convert key

  pub get_string : ConfigManager F Store W → String → Result GetError String
  unfolding get_as
  get_string m key = get_as as_string m key

  pub get_bool : ConfigManager F Store W → String → Result GetError Bool
  unfolding get_as
  get_bool m key = get_as as_bool m key

  pub get_string_slice : ConfigManager F Store W → String → Result GetError (List String)
  unfolding get_as
  get_string_slice m key = get_as as_string_slice m key

module _ (secret_store : SecretStore) (fl : Floats) (conversions : Conversions fl.Float)
    {W : Type 0} where
  open fl use {Float}
  open secret_store use {Store}

  pub get_int : ConfigManager Float Store W → String → Result GetError ℤ
  unfolding get_as
  get_int m key = get_as secret_store (as_int fl conversions) m key

  pub get_duration : ConfigManager Float Store W → String → Result GetError ℤ
  unfolding get_as
  get_duration m key = get_as secret_store (as_duration fl conversions) m key

  pub get_float : ConfigManager Float Store W → String → Result GetError Float
  unfolding get_as
  get_float m key = get_as secret_store (as_float fl conversions) m key

-- The elements of a slice are these strings.
pub string_items : {F : Type 0} → List String → Values F
string_items [] = no_items
string_items (s ∷ ss) = item (string s) (string_items ss)

module _ {F : Type 0} where
  items_as_strings_iff :
      (key : String) (vs : Values F) (ss : List String)
      → (items_as_strings key vs ≡ ok ss) ↔ (vs ≡ string_items ss)
  unfolding items_as_strings refuse string_items
  items_as_strings_iff key no_items [] = ground arith
  items_as_strings_iff key no_items (s ∷ ss) = ground arith
  items_as_strings_iff key (item (string t) vs) [] = elim (Result-cases (items_as_strings key vs)) [
    | inl (ts, e) ↦ rw e (ground arith)
    | inr (x, e) ↦ rw e (ground arith)
  ]
  items_as_strings_iff key (item (string t) vs) (s ∷ ss) =
      ground (arith, items_as_strings_iff key vs ss, Result-cases (items_as_strings key vs))
  items_as_strings_iff key (item v vs) [] = ground arith
  items_as_strings_iff key (item v vs) (s ∷ ss) = ground arith

seconds_small : (n : ℕ) → n * 1000000000 < 2 ^ 63 → seconds (pos n) ≡ pos (n * 1000000000)
seconds_small n fits =
    rw (mod-eq_of_lt {n = n * 1000000000} {m = 2 ^ 64} (omega (arith, fits))) (ground (arith, fits))

module _ (secret_store : SecretStore) {W : Type 0} where
  open secret_store use {Store}

  -- After Set of a slice of values at a key that is not secret, GetStringSlice gives strings exactly
  -- when the elements are these strings; one element of another kind makes it an error.
  pub get_string_slice-set :
      {F : Type 0} (m : ConfigManager F Store W) (key : String) (vs : Values F) (source : ℤ)
      (ss : List String)
      → is_secret_key m.schema key ≡ false
      → (get_string_slice secret_store (set secret_store key (list vs) source m) key ≡ ok ss)
        ↔ (vs ≡ string_items ss)
  unfolding get_string_slice get_as as_string_slice
  get_string_slice-set m key vs source ss plain =
      rw (get-set secret_store m key (list vs) source plain) (items_as_strings_iff key vs ss)

  -- After Set of a natural number of seconds at a key that is not secret, GetDuration gives the
  -- nanoseconds, where they fit 63 bits.
  pub get_duration-set :
      (fl : Floats) (conversions : Conversions fl.Float) (m : ConfigManager fl.Float Store W)
      (key : String) (n : ℕ) (source : ℤ)
      → is_secret_key m.schema key ≡ false
      → n * 1000000000 < 2 ^ 63
      → get_duration secret_store fl conversions (set secret_store key (int (pos n)) source m) key
        ≡ ok (pos (n * 1000000000))
  unfolding get_duration get_as as_duration
  get_duration-set fl conversions m key n source plain fits =
      rw (get-set secret_store m key (int (pos n)) source plain) (ap ok (seconds_small n fits))
