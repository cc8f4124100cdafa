-- ===== src/Config/Schema.antt =====
-- The schema tree of pkg/config/types.go and the walks over it in pkg/config/manager.go
-- (isSecretKey, isDynamicKey, validateAgainstSchema, validateNode). A nil map of properties is
-- `absent`. AdditionalProperties and the descriptions, which nothing reads, are left out.
pub mod Paths
pub mod Nodes
mod Tests
use bindxdb.Prelude.{
  ℕ, suc, String, Bool, true, false, not, ◌&&◌, ◌||◌, Option, none, some, List, [], ◌∷◌, ◌==◌,
  if◌then◌else◌, split, pos,
}
use bindxdb.Go.Value.{
  Floats, Value, Values, float64, list, strings, null, string, no_items, item, Kind, kind, invalid,
  bool_kind, int_kind, float64_kind, string_kind, slice_kind, map_kind, deep_equal,
}

-- The fields of a node that are no nodes; a nil `Default`, `Min` or `Max` is `null`.
pub record NodeInfo (F : Type 0) : Type 0 where
  pub type : String
  pub default : Value F
  pub required : Bool
  pub secret : Bool
  pub dynamic : Bool
  pub min : Value F
  pub max : Value F
  pub pattern : String
  pub enum : List (Value F)

mutual
  pub data SchemaNode (F : Type 0) : Type 0 where
    node : NodeInfo F → Properties F → Items F → SchemaNode F

  pub data Properties (F : Type 0) : Type 0 where
    absent no_more : Properties F
    property : String → SchemaNode F → Properties F → Properties F

  pub data Items (F : Type 0) : Type 0 where
    no_schema : Items F
    each : SchemaNode F → Items F

pub record ConfigSchema (F : Type 0) : Type 0 where
  pub version : String
  pub properties : Properties F
  pub required : List String

module _ {F : Type 0} where
  abbrev pub info : SchemaNode F → NodeInfo F
  info (node i ps is) = i

  abbrev pub properties : SchemaNode F → Properties F
  properties (node i ps is) = ps

  -- currentNode[part]
  unfoldable pub find_property : String → Properties F → Option (SchemaNode F)
  find_property k absent = none
  find_property k no_more = none
  find_property k (property j n ps) = if j == k then some n else find_property k ps

  unfoldable pub is_absent : Properties F → Bool
  is_absent absent = true
  is_absent _ = false

  -- The loop of isSecretKey: `currentNode` is never moved down, so every part is looked up at the top.
  unfoldable pub secret_walk : Properties F → List String → Bool
  secret_walk current [] = false
  secret_walk current (part ∷ []) = elim (find_property part current) [
    | none ↦ false
    | some n ↦ (info n).secret
  ]
  secret_walk current (part ∷ next ∷ parts) =
      let rest = secret_walk current (next ∷ parts) in
      elim (find_property part current) [
        | none ↦ false
        | some n ↦ if is_absent (properties n) then false else rest
      ]

  -- The loop of isDynamicKey, which goes down to the properties of the node that it found.
  unfoldable pub dynamic_walk : Properties F → List String → Bool
  dynamic_walk current [] = false
  dynamic_walk current (part ∷ []) = elim (find_property part current) [
    | none ↦ false
    | some n ↦ (info n).dynamic
  ]
  dynamic_walk current (part ∷ next ∷ parts) = elim (find_property part current) [
    | none ↦ false
    | some n ↦
        if is_absent (properties n) then false else dynamic_walk (properties n) (next ∷ parts)
  ]

  unfoldable pub is_secret_key : Option (ConfigSchema F) → String → Bool
  unfolding secret_walk
  is_secret_key none key = false
  is_secret_key (some schema) key = secret_walk schema.properties (split b'.' key)

  unfoldable pub is_dynamic_key : Option (ConfigSchema F) → String → Bool
  unfolding dynamic_walk
  is_dynamic_key none key = false
  is_dynamic_key (some schema) key = dynamic_walk schema.properties (split b'.' key)

pub data NodeError : Type 0 where
  expected : String → Kind → NodeError
  below_min above_max not_in_enum schema_mismatch : NodeError
  at_item : ℕ → NodeError → NodeError

-- What a check gives: nil, an error, or the panic of a nil type or a failed type assertion.
pub data Verdict (E : Type 0) : Type 0 where
  valid panic : Verdict E
  wrong : E → Verdict E

infixr 30 ◌then_check◌
-- The next check, where this one has found nothing.
abbrev pub ◌then_check◌ : {E : Type 0} → Verdict E → Verdict E → Verdict E
valid then_check next = next
panic then_check next = panic
wrong e then_check next = wrong e

pub is_kind : Kind → Kind → Bool
is_kind bool_kind bool_kind = true
is_kind int_kind int_kind = true
is_kind float64_kind float64_kind = true
is_kind string_kind string_kind = true
is_kind slice_kind slice_kind = true
is_kind map_kind map_kind = true
is_kind _ _ = false

-- valueType.Kind() against two kinds; the nil type of a nil value panics.
pub expect : String → Kind → Kind → Kind → Verdict NodeError
unfolding is_kind
expect name a b invalid = panic
expect name a b actual =
    if is_kind actual a || is_kind actual b then valid else wrong (expected name actual)

module _ (fl : Floats) where
  open fl use {Float, of_int, lt}

  -- x, _ := v.(float64)
  float_or_zero : Value Float → Float
  float_or_zero (float64 x) = x
  float_or_zero _ = of_int (pos 0)

  pub is_nil : Value Float → Bool
  is_nil null = true
  is_nil _ = false

  -- The comparison with a limit, where there is one; value.(float64) panics on an int.
  pub check_limit :
      Value Float → Value Float → (Float → Float → Bool) → NodeError → Verdict NodeError
  unfolding float_or_zero is_nil
  check_limit limit (float64 x) bad e =
      if is_nil limit then valid else if bad x (float_or_zero limit) then wrong e else valid
  check_limit limit _ bad e = if is_nil limit then valid else panic

  pub check_enum : List (Value Float) → Value Float → Bool
  check_enum [] value = false
  check_enum (e ∷ es) value = deep_equal fl e value || check_enum es value

  -- The checks of a node on a value itself, by the type of the node.
  pub check_self : NodeInfo Float → Value Float → Verdict NodeError
  unfolding check_limit check_enum expect
  check_self i value =
      if i.type == "string"
      then expect "string" string_kind string_kind (kind value)
      else if i.type == "integer"
      then expect "integer" int_kind float64_kind (kind value)
        then_check check_limit i.min value lt below_min
        then_check check_limit i.max value (λ x m. lt m x) above_max
      else if i.type == "number"
      then expect "number" float64_kind int_kind (kind value)
      else if i.type == "array"
      then expect "array" slice_kind slice_kind (kind value)
      else if i.type == "boolean"
      then expect "boolean" bool_kind bool_kind (kind value)
      else if i.type == "object"
      then expect "object" map_kind map_kind (kind value) then_check (elim i.enum [
        | [] ↦ valid
        | e ∷ es ↦ if check_enum (e ∷ es) value then valid else wrong not_in_enum
      ])
      else valid

  pub at_index : ℕ → Verdict NodeError → Verdict NodeError
  at_index i (wrong e) = wrong (at_item i e)
  at_index i v = v

  -- The loop over the elements of a slice, from index `i`.
  pub check_list : (Value Float → Verdict NodeError) → ℕ → Values Float → Verdict NodeError
  unfolding at_index
  check_list check i no_items = valid
  check_list check i (item v vs) = at_index i (check v) then_check check_list check (suc i) vs

  pub check_strings : (Value Float → Verdict NodeError) → ℕ → List String → Verdict NodeError
  unfolding at_index
  check_strings check i [] = valid
  check_strings check i (s ∷ ss) =
      at_index i (check (string s)) then_check check_strings check (suc i) ss

  pub check_elements : (Value Float → Verdict NodeError) → Value Float → Verdict NodeError
  unfolding check_list check_strings
  check_elements check (list vs) = check_list check 0 vs
  check_elements check (strings ss) = check_strings check 0 ss
  check_elements check _ = valid

  mutual
    unfolding check_self check_elements

    pub validate_node : SchemaNode Float → Value Float → Verdict NodeError
    validate_node (node i ps items) value =
        check_self i value then_check (if i.type == "array" then check_items items value else valid)

    pub check_items : Items Float → Value Float → Verdict NodeError
    check_items no_schema value = valid
    check_items (each n) value = check_elements (λ v. validate_node n v) value

  pub schema_walk : Properties Float → List String → Value Float → Verdict NodeError
  schema_walk current [] value = valid
  schema_walk current (part ∷ []) value = elim (find_property part current) [
    | none ↦ valid
    | some n ↦ validate_node n value
  ]
  schema_walk current (part ∷ next ∷ parts) value = elim (find_property part current) [
    | none ↦ valid
    | some n ↦
        if is_absent (properties n)
        then wrong schema_mismatch
        else schema_walk (properties n) (next ∷ parts) value
  ]

  pub validate_against_schema : ConfigSchema Float → String → Value Float → Verdict NodeError
  unfolding schema_walk
  validate_against_schema schema key value = schema_walk schema.properties (split b'.' key) value
