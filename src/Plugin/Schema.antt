-- ===== src/Plugin/Schema.antt =====
-- ValidateColumnDef and ValidateTableSchema of pkg/plugin/utils.go.
pub mod Valid
mod Tests
use bindxdb.Prelude.{
  ℕ, suc, String, Bool, true, false, ◌&&◌, List, [], ◌∷◌, Dict, insert, has_key, ◌==◌,
  if◌then◌else◌, Result, ok, err, map_err, ◌>>=◌, ◌>>◌,
}
use bindxdb.Plugin.Types.{DataType, unknown, ColumnDef, IndexDef, TableSchema}

pub data ColumnError : Type 0 where
  column_name_empty column_type_unknown nullable_primary_key : ColumnError

pub data SchemaError : Type 0 where
  table_name_empty no_columns : SchemaError
  bad_column : ℕ → ColumnError → SchemaError
  duplicate_column : String → SchemaError
  missing_column : ℕ → ℕ → String → SchemaError

is_unknown : DataType → Bool
is_unknown unknown = true
is_unknown _ = false

pub validate_column_def : ColumnDef → Result ColumnError (Unit {0})
unfolding is_unknown
validate_column_def col =
    if col.name == ""
    then err column_name_empty
    else if is_unknown col.type
    then err column_type_unknown
    else if col.primary_key && col.nullable
    then err nullable_primary_key
    else ok tt

-- The loop over the columns, from index `i`. The map `names` holds only `true`, and the count of
-- primary keys, which is never read, is left out.
check_columns : ℕ → Dict Bool → List ColumnDef → Result SchemaError (Dict Bool)
check_columns i names [] = ok names
check_columns i names (col ∷ cols) = do
  map_err (bad_column i) (validate_column_def col)
  let rest = check_columns (suc i) (insert col.name true names) cols
  if has_key col.name names then err (duplicate_column col.name) else rest

-- The inner loop over the column names of index `i`, from position `j`.
check_index : Dict Bool → ℕ → ℕ → List String → Result SchemaError (Unit {0})
check_index names i j [] = ok tt
check_index names i j (col ∷ cols) =
    let rest = check_index names i (suc j) cols in
    if has_key col names then rest else err (missing_column i j col)

check_indexes : Dict Bool → ℕ → List IndexDef → Result SchemaError (Unit {0})
check_indexes names i [] = ok tt
check_indexes names i (idx ∷ idxs) = do
  check_index names i 0 idx.columns
  check_indexes names (suc i) idxs

check_body : TableSchema → Result SchemaError (Unit {0})
check_body schema = do
  names ← check_columns 0 [] schema.columns
  check_indexes names 0 schema.indexes

is_empty : List ColumnDef → Bool
is_empty [] = true
is_empty (_ ∷ _) = false

pub validate_table_schema : TableSchema → Result SchemaError (Unit {0})
unfolding is_empty
validate_table_schema schema =
    if schema.name == ""
    then err table_name_empty
    else if is_empty schema.columns
    then err no_columns
    else check_body schema
