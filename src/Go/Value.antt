-- ===== src/Go/Value.antt =====
-- Go's `interface{}` values of the kinds that the packages meet, over a type of floats. `list` is
-- []interface{}, `strings` is []string, `object` is map[string]interface{}, `number` is json.Number.
use bindxdb.Prelude.{
  ℕ, suc, String, Bool, true, false, ◌&&◌, Option, none, some, List, [], ◌∷◌, ◌==◌, ℤ, eq_ℤ, nat_eq,
  if◌then◌else◌,
}

-- float64 and the operations on it that the source uses; the language has them, antt has not.
pub record Floats : Type 1 where
  pub Float : Type 0
  pub of_int : ℤ → Float
  pub to_int : Float → ℤ
  pub eq : Float → Float → Bool
  pub lt : Float → Float → Bool

mutual
  pub data Value (F : Type 0) : Type 0 where
    null : Value F
    bool : Bool → Value F
    int : ℤ → Value F
    int64 : ℤ → Value F
    float32 : F → Value F
    float64 : F → Value F
    number : String → Value F
    duration : ℤ → Value F
    string : String → Value F
    list : Values F → Value F
    strings : List String → Value F
    object : Fields F → Value F

  pub data Values (F : Type 0) : Type 0 where
    no_items : Values F
    item : Value F → Values F → Values F

  pub data Fields (F : Type 0) : Type 0 where
    no_fields : Fields F
    field : String → Value F → Fields F → Fields F

module _ (fl : Floats) where
  open fl use {Float, eq}

  abbrev iff_same : Bool → Bool → Bool
  iff_same true b = b
  iff_same false true = false
  iff_same false false = true

  -- Go's `==` on interface values: `none` is the run-time panic on two slices or two maps.
  unfoldable pub iface_eq : Value Float → Value Float → Option Bool
  iface_eq null null = some true
  iface_eq (bool a) (bool b) = some (iff_same a b)
  iface_eq (int a) (int b) = some (eq_ℤ a b)
  iface_eq (int64 a) (int64 b) = some (eq_ℤ a b)
  iface_eq (float32 a) (float32 b) = some (eq a b)
  iface_eq (float64 a) (float64 b) = some (eq a b)
  iface_eq (number a) (number b) = some (a == b)
  iface_eq (duration a) (duration b) = some (eq_ℤ a b)
  iface_eq (string a) (string b) = some (a == b)
  iface_eq (list a) (list b) = none
  iface_eq (strings a) (strings b) = none
  iface_eq (object a) (object b) = none
  iface_eq _ _ = some false

-- m[k] for a map of values: the first field of the key.
pub get_field : {F : Type 0} → String → Fields F → Option (Value F)
get_field k no_fields = none
get_field k (field j v fs) = if j == k then some v else get_field k fs

pub count_fields : {F : Type 0} → Fields F → ℕ
count_fields no_fields = 0
count_fields (field k v fs) = suc (count_fields fs)

eq_strings : List String → List String → Bool
eq_strings [] [] = true
eq_strings (a ∷ as') (b ∷ bs) = a == b && eq_strings as' bs
eq_strings _ _ = false

-- reflect.DeepEqual; two maps are equal if they have as many keys and equal values at each.
module _ (fl : Floats) where
  open fl use {Float}

  mutual
    unfolding iface_eq eq_strings get_field count_fields

    pub deep_equal : Value Float → Value Float → Bool
    deep_equal (list a) w = elim w [ list b ↦ deep_equal_items a b | _ ↦ false ]
    deep_equal (strings a) w = elim w [ strings b ↦ eq_strings a b | _ ↦ false ]
    deep_equal (object a) w = elim w [
      | object b ↦ nat_eq (count_fields a) (count_fields b) && deep_equal_fields a b
      | _ ↦ false
    ]
    deep_equal v w = elim (iface_eq fl v w) [ some b ↦ b | none ↦ false ]

    pub deep_equal_items : Values Float → Values Float → Bool
    deep_equal_items no_items ws = elim ws [ no_items ↦ true | _ ↦ false ]
    deep_equal_items (item v vs) ws = elim ws [
      | item w ws' ↦ deep_equal v w && deep_equal_items vs ws'
      | _ ↦ false
    ]

    pub deep_equal_fields : Fields Float → Fields Float → Bool
    deep_equal_fields no_fields b = true
    deep_equal_fields (field k v fs) b = elim (get_field k b) [
      | some w ↦ deep_equal v w && deep_equal_fields fs b
      | none ↦ false
    ]

-- reflect.Kind of a value; `invalid` stands for the nil interface, which has no type.
pub data Kind : Type 0 where
  invalid bool_kind int_kind int64_kind float32_kind float64_kind string_kind slice_kind map_kind :
      Kind

unfoldable pub kind : {F : Type 0} → Value F → Kind
kind null = invalid
kind (bool _) = bool_kind
kind (int _) = int_kind
kind (int64 _) = int64_kind
kind (float32 _) = float32_kind
kind (float64 _) = float64_kind
kind (number _) = string_kind
kind (duration _) = int64_kind
kind (string _) = string_kind
kind (list _) = slice_kind
kind (strings _) = slice_kind
kind (object _) = map_kind
