-- ===== src/Plugin/Filter.antt =====
-- The filters of pkg/plugin/extensions.go. `Evaluate` returns a Boolean or an error, or panics where
-- Go's `==` does; a Boolean beside an error is false and left out.
pub mod Logic
pub mod Columns
mod Tests
use Prim.Native.String.{◌++◌ as append}
use bindxdb.Prelude.{
  String, Bool, true, false, not, ◌&&◌, Option, none, some, List, [], ◌∷◌, ◌++◌, Dict, lookup,
  insert, has_key, if◌then◌else◌,
}
use bindxdb.Go.Value.{Floats, Value, iface_eq}

pub data FilterOperator : Type 0 where
  equals not_equal greater_then greater_then_or_equal less_then less_then_or_equal like in_list
        is_null is_not_null between :
      FilterOperator

pub operator_to_string : FilterOperator → String
operator_to_string equals = "="
operator_to_string not_equal = "!="
operator_to_string greater_then = ">"
operator_to_string greater_then_or_equal = ">="
operator_to_string less_then = "<"
operator_to_string less_then_or_equal = "<="
operator_to_string like = "LIKE"
operator_to_string in_list = "IN"
operator_to_string is_null = "IS NULL"
operator_to_string is_not_null = "IS NOT NULL"
operator_to_string between = "BETWEEN"

pub data Outcome : Type 0 where
  match : Bool → Outcome
  fail : String → Outcome
  panic : Outcome

-- `other` is any further implementation of the interface, by its three methods.
mutual
  pub data Filter (F : Type 0) : Type 0 where
    basic : String → Value F → FilterOperator → Filter F
    composite : Filters F → Bool → Filter F
    other : (Dict (Value F) → Outcome) → List String → String → Filter F

  pub data Filters (F : Type 0) : Type 0 where
    nil : Filters F
    cons : Filter F → Filters F → Filters F

abbrev pub new_basic_filter : {F : Type 0} → String → FilterOperator → Value F → Filter F
new_basic_filter column operator value = basic column value operator

abbrev pub new_composite_filter : {F : Type 0} → Filters F → Bool → Filter F
new_composite_filter filters and = composite filters and

of_comparison : Option Bool → Outcome
of_comparison none = panic
of_comparison (some b) = match b

negated : Outcome → Outcome
negated (match b) = match (not b)
negated o = o

module _ (fl : Floats) where
  open fl use {Float}

  compare_with : FilterOperator → Value Float → Value Float → Outcome
  unfolding of_comparison negated
  compare_with equals value wanted = of_comparison (iface_eq fl value wanted)
  compare_with not_equal value wanted = negated (of_comparison (iface_eq fl value wanted))
  compare_with _ value wanted = match false

  pub evaluate_basic : String → Value Float → FilterOperator → Dict (Value Float) → Outcome
  unfolding compare_with
  evaluate_basic column wanted operator rec = elim (lookup column rec) [
    | none ↦ match false
    | some value ↦ compare_with operator value wanted
  ]

  is_nil : Filters Float → Bool
  is_nil nil = true
  is_nil (cons _ _) = false

  -- One round of the loop of CompositeFilter.Evaluate, with what the later rounds give.
  combine : Bool → Outcome → Outcome → Outcome
  combine true (match true) rest = rest
  combine true (match false) rest = match false
  combine false (match true) rest = match true
  combine false (match false) rest = rest
  combine and (fail e) rest = fail e
  combine and panic rest = panic

  mutual
    unfolding combine is_nil

    pub evaluate : Filter Float → Dict (Value Float) → Outcome
    evaluate (basic column value operator) rec = evaluate_basic column value operator rec
    evaluate (composite filters and) rec =
        let rest = evaluate_all filters and rec in if is_nil filters then match true else rest
    evaluate (other run columns shown) rec = run rec

    pub evaluate_all : Filters Float → Bool → Dict (Value Float) → Outcome
    evaluate_all nil and rec = match and
    evaluate_all (cons f fs) and rec = combine and (evaluate f rec) (evaluate_all fs and rec)

-- The columns gathered so far, in order, and those seen.
pub record Gathered : Type 0 where
  pub columns : List String
  pub seen : Dict Bool

gather_one : Gathered → String → Gathered
gather_one g col =
    if has_key col g.seen
    then g
    else record { columns = g.columns ++ col ∷ []; seen = insert col true g.seen }

gather : Gathered → List String → Gathered
gather g [] = g
gather g (col ∷ cols) = gather (gather_one g col) cols

mutual
  unfolding gather gather_one

  pub get_used_columns : {F : Type 0} → Filter F → List String
  get_used_columns (basic column value operator) = column ∷ []
  get_used_columns (composite filters and) =
      (gather_all (record { columns = []; seen = [] }) filters).columns
  get_used_columns (other run columns shown) = columns

  pub gather_all : {F : Type 0} → Gathered → Filters F → Gathered
  gather_all g nil = g
  gather_all g (cons f fs) = gather_all (gather g (get_used_columns f)) fs

mutual
  pub to_string : {F : Type 0} → Filter F → String
  to_string (basic column value operator) = append column " = ?"
  to_string (composite filters and) = join filters and true
  to_string (other run columns shown) = shown

  -- `first` holds in the first round of the loop.
  pub join : {F : Type 0} → Filters F → Bool → Bool → String
  join nil and first = ""
  join (cons f fs) and first =
      append (if first then "" else if and then " AND " else " OR ")
        (append (to_string f) (join fs and false))
