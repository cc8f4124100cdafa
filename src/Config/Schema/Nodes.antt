-- ===== src/Config/Schema/Nodes.antt =====
-- What a node accepts, by its type.
use bindxdb.Prelude.{ℕ, true, List, [], ◌∷◌, ◌≡◌, ◌↔◌, ◌⊎◌, Any, arith, ◌==◌, suc}
use bindxdb.Go.Value.{Floats, Value, Values, no_items, item, list, deep_equal, kind, map_kind}
use bindxdb.Config.Schema.{
  NodeInfo, SchemaNode, Properties, Items, node, each, NodeError, Verdict, valid, check_enum,
  check_self, check_list, validate_node, check_items, check_elements, expect, is_kind, at_index,
}

-- Every element of a slice satisfies `P`.
abbrev pub AllItems : {F : Type 0} → (Value F → Type 0) → Values F → Type 0
AllItems P no_items = Unit
AllItems P (item v vs) = P v × AllItems P vs

module _ (fl : Floats) where
  open fl use {Float}

  check_enum_iff :
      (allowed : List (Value Float)) (value : Value Float)
      → (check_enum fl allowed value ≡ true) ↔ Any (λ e. deep_equal fl e value ≡ true) allowed
  unfolding check_enum
  check_enum_iff [] value = ground arith
  check_enum_iff (e ∷ es) value = ground (arith, check_enum_iff es value)

  at_index_lem : (i : ℕ) (v : Verdict NodeError) → (at_index fl i v ≡ valid) ↔ (v ≡ valid)
  unfolding at_index
  at_index_lem i v = ground arith

  check_list_iff :
      (check : Value Float → Verdict NodeError) (i : ℕ) (vs : Values Float)
      → (check_list fl check i vs ≡ valid) ↔ AllItems (λ v. check v ≡ valid) vs
  unfolding check_list
  check_list_iff check i no_items = ground arith
  check_list_iff check i (item v vs) =
      ground (arith, check_list_iff check (suc i) vs, at_index_lem i (check v))

  -- A node of type object accepts a value exactly when it is a map and, where the node
  -- lists values, equal to one of them: the properties of the node are not looked at.
  pub validate_node-object_iff :
      (i : NodeInfo Float) (ps : Properties Float) (items : Items Float) (value : Value Float)
      → i.type ≡ "object"
      → (validate_node fl (node i ps items) value ≡ valid) ↔ (
          (kind value ≡ map_kind)
          × ((i.enum ≡ []) ⊎ Any (λ e. deep_equal fl e value ≡ true) i.enum))
  unfolding validate_node check_self ◌==◌ expect is_kind kind
  validate_node-object_iff i ps items value t = rw t (ground (arith, check_enum_iff i.enum value))

  -- A node of type array whose items have a node accepts a slice of values exactly when the node of
  -- the items accepts every element.
  pub validate_node-list_iff :
      (i : NodeInfo Float) (ps : Properties Float) (n : SchemaNode Float) (vs : Values Float)
      → i.type ≡ "array"
      → (validate_node fl (node i ps (each n)) (list vs) ≡ valid)
        ↔ AllItems (λ v. validate_node fl n v ≡ valid) vs
  unfolding validate_node check_items check_self ◌==◌ expect is_kind kind check_elements
  validate_node-list_iff i ps n vs t = rw t (check_list_iff (λ v. validate_node fl n v) 0 vs)
