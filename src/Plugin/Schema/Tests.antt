-- ===== src/Plugin/Schema/Tests.antt =====
-- Schemas that are accepted and refused, and the theorems at them.
use bindxdb.Prelude.{◌≡◌, ◌↔◌, refl, true, false, none, [], ◌∷◌, ok, err, go}
use bindxdb.Plugin.Types.{ColumnDef, integer, text, TableSchema, b_tree}
use bindxdb.Plugin.Names.{data_type_to_string, string_to_data_type, string_to_data_type_stable}
use bindxdb.Plugin.Schema.{
  duplicate_column, missing_column, bad_column, nullable_primary_key, validate_column_def,
  check_columns, check_index, check_indexes, check_body, validate_table_schema,
}
use bindxdb.Plugin.Schema.Valid.{
  ValidColumn, WellFormed, validate_column_def_iff, validate_table_schema_iff,
}

abbrev id_column : ColumnDef
id_column = record {
  name = "id";
  type = integer;
  nullable = false;
  auto_increment = true;
  primary_key = true;
  unique = true;
  foreign_key = none;
  check = none;
}

abbrev users : TableSchema
users = record {
  name = "users";
  columns = id_column ∷ record id_column { name = "mail"; type = text; primary_key = false } ∷ [];
  indexes =
      record {
        name = "by_mail";
        columns = "mail" ∷ [];
        unique = true;
        primary = false;
        type = b_tree;
      }
      ∷ [];
}

run : Unit {0}
unfolding go validate_table_schema check_body check_columns check_indexes check_index
    validate_column_def
run = tt

users_valid : validate_table_schema users ≡ ok tt
unfolding run
users_valid = refl

validate_table_schema_refused :
    (validate_table_schema (record users { columns = id_column ∷ id_column ∷ [] })
      ≡ err (duplicate_column "id"))
    × (validate_table_schema (record users { columns = id_column ∷ [] })
        ≡ err (missing_column 0 0 "mail"))
    × (validate_table_schema (record users { columns = record id_column { nullable = true } ∷ [] })
        ≡ err (bad_column 0 nullable_primary_key))
unfolding run
validate_table_schema_refused = (refl, refl, refl)

validate_table_schema_iff_example : (validate_table_schema users ≡ ok tt) ↔ WellFormed users
validate_table_schema_iff_example = validate_table_schema_iff users

validate_column_def_iff_example : (validate_column_def id_column ≡ ok tt) ↔ ValidColumn id_column
validate_column_def_iff_example = validate_column_def_iff id_column

string_to_data_type_stable_example :
    string_to_data_type (data_type_to_string (string_to_data_type "datetime"))
    ≡ string_to_data_type "datetime"
string_to_data_type_stable_example = string_to_data_type_stable "datetime"
