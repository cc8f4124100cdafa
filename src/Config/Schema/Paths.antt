-- ===== src/Config/Schema/Paths.antt =====
-- The walks along the parts of a key: which keys are dynamic, which are secret, and by which node
-- a value is checked.
use bindxdb.Prelude.{
  String, true, false, some, List, [], ◌∷◌, ◌≡◌, ◌↔◌, All, arith, Option-cases, Bool-cases, split,
  inl, inr, ◌∙◌,
}
use bindxdb.Go.Value.{Floats, Value}
use bindxdb.Config.Schema.{
  SchemaNode, Properties, ConfigSchema, info, properties, find_property, is_absent, secret_walk,
  dynamic_walk, is_secret_key, is_dynamic_key, schema_walk, validate_node, validate_against_schema,
}

module _ {F : Type 0} where
  -- `m` is the node that the parts lead to, from properties to properties.
  abbrev pub NodeAt : Properties F → List String → SchemaNode F → Type 0
  NodeAt ps [] m = ⊥
  NodeAt ps (k ∷ []) m = find_property k ps ≡ some m
  NodeAt ps (k ∷ next ∷ parts) m =
      (n : SchemaNode F) × (find_property k ps ≡ some n)
      × (is_absent (properties n) ≡ false)
      × NodeAt (properties n) (next ∷ parts) m

  -- `k` names a property at the top of the schema.
  abbrev pub IsTop : Properties F → String → Type 0
  IsTop ps k = (n : SchemaNode F) × (find_property k ps ≡ some n)

  dynamic_walk_sound :
      (ps : Properties F) (parts : List String)
      → dynamic_walk ps parts ≡ true
      → (n : SchemaNode F) × NodeAt ps parts n × ((info n).dynamic ≡ true)
  unfolding dynamic_walk
  dynamic_walk_sound ps [] h = ground (arith, h)
  dynamic_walk_sound ps (k ∷ []) h = elim (Option-cases (find_property k ps)) [
    | inl e ↦ ground (arith, h, e)
    | inr (n, e) ↦ (n, e, ground (arith, h, e))
  ]
  dynamic_walk_sound ps (k ∷ next ∷ parts) h = elim (Option-cases (find_property k ps)) [
    | inl e ↦ ground (arith, h, e)
    | inr (n, e) ↦ elim (Bool-cases (is_absent (properties n))) [
      | inl a ↦ ground (arith, h, e, a)
      | inr a ↦
          let (m, at, d) =
            dynamic_walk_sound (properties n) (next ∷ parts) (ground (arith, h, e, a)) in
          (m, (n, e, a, at), d)
    ]
  ]

  dynamic_walk_complete :
      (ps : Properties F) (parts : List String) (m : SchemaNode F)
      → NodeAt ps parts m
      → dynamic_walk ps parts ≡ (info m).dynamic
  unfolding dynamic_walk
  dynamic_walk_complete ps [] m at = elim at [ ]
  dynamic_walk_complete ps (k ∷ []) m at = ground (arith, at)
  dynamic_walk_complete ps (k ∷ next ∷ parts) m (n, e, a, at) =
      ground (arith, e, a, dynamic_walk_complete (properties n) (next ∷ parts) m at)

  secret_walk-IsTop :
      (ps : Properties F) (parts : List String) → secret_walk ps parts ≡ true → All (IsTop ps) parts
  unfolding secret_walk
  secret_walk-IsTop ps [] h = tt
  secret_walk-IsTop ps (k ∷ []) h = elim (Option-cases (find_property k ps)) [
    | inl e ↦ ground (arith, h, e)
    | inr (n, e) ↦ ((n, e), tt)
  ]
  secret_walk-IsTop ps (k ∷ next ∷ parts) h = elim (Option-cases (find_property k ps)) [
    | inl e ↦ ground (arith, h, e)
    | inr (n, e) ↦ (
      (n, e),
      secret_walk-IsTop ps (next ∷ parts)
          (ground (arith, h, e, Bool-cases (is_absent (properties n)))),
    )
  ]

  -- With a schema, a key is dynamic exactly when its parts lead, level by level, to a node of the
  -- schema that is marked dynamic.
  pub is_dynamic_key_iff :
      (schema : ConfigSchema F) (key : String)
      → (is_dynamic_key (some schema) key ≡ true) ↔ (
          (n : SchemaNode F) × NodeAt schema.properties (split b'.' key) n
          × ((info n).dynamic ≡ true))
  unfolding is_dynamic_key
  is_dynamic_key_iff schema key = (
    λ h. dynamic_walk_sound schema.properties (split b'.' key) h,
    λ (n, at, d). dynamic_walk_complete schema.properties (split b'.' key) n at ∙ d,
  )

  -- With a schema, every part of a secret key names a property at the top of the schema: isSecretKey
  -- never goes down, so a secret of a lower level is missed unless its own name stands at the top.
  pub is_secret_key-IsTop :
      (schema : ConfigSchema F) (key : String)
      → is_secret_key (some schema) key ≡ true
      → All (IsTop schema.properties) (split b'.' key)
  unfolding is_secret_key
  is_secret_key-IsTop schema key h = secret_walk-IsTop schema.properties (split b'.' key) h

module _ (fl : Floats) where
  open fl use {Float}

  schema_walk-NodeAt :
      (ps : Properties Float) (parts : List String) (m : SchemaNode Float) (value : Value Float)
      → NodeAt ps parts m
      → schema_walk fl ps parts value ≡ validate_node fl m value
  unfolding schema_walk
  schema_walk-NodeAt ps [] m value at = elim at [ ]
  schema_walk-NodeAt ps (k ∷ []) m value at = ground (arith, at)
  schema_walk-NodeAt ps (k ∷ next ∷ parts) m value (n, e, a, at) =
      ground (arith, e, a, schema_walk-NodeAt (properties n) (next ∷ parts) m value at)

  -- Where the parts of the key lead to a node of the schema, the value is checked by that node.
  pub validate_against_schema-NodeAt :
      (schema : ConfigSchema Float) (key : String) (m : SchemaNode Float) (value : Value Float)
      → NodeAt schema.properties (split b'.' key) m
      → validate_against_schema fl schema key value ≡ validate_node fl m value
  unfolding validate_against_schema
  validate_against_schema-NodeAt schema key m value at =
      schema_walk-NodeAt schema.properties (split b'.' key) m value at
