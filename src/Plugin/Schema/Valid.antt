-- ===== src/Plugin/Schema/Valid.antt =====
-- Which schemas ValidateTableSchema accepts.
use bindxdb.Prelude.{
  ℕ, suc, String, Bool, true, false, ◌≡◌, ◌≢◌, ◌↔◌, ◌⊎◌, inl, inr, refl, List, [], ◌∷◌, Dict,
  insert, has_key, has_key-insert, has_key-nil, eq_iff, ok, Result-cases, All, Any, Distinct, arith,
  All-map, All-map₂, for_each,
}
use bindxdb.Plugin.Types.{unknown, ColumnDef, IndexDef, TableSchema}
use bindxdb.Plugin.Schema.{
  validate_column_def, check_columns, check_index, check_indexes, check_body, validate_table_schema,
}

-- A named column of a known type that is not both primary key and nullable.
pub record ValidColumn (col : ColumnDef) : Type 0 where
  pub named : col.name ≢ ""
  pub typed : col.type ≢ unknown
  pub keyed : col.primary_key ≡ true → col.nullable ≡ false

abbrev pub column_names : List ColumnDef → List String
column_names [] = []
column_names (col ∷ cols) = col.name ∷ column_names cols

pub record WellFormed (schema : TableSchema) : Type 0 where
  pub named : schema.name ≢ ""
  pub inhabited : schema.columns ≢ []
  pub columns_valid : All ValidColumn schema.columns
  pub names_distinct : Distinct (column_names schema.columns)
  pub indexed :
      All
        (λ idx. All (λ c. Any (λ k. k ≡ c) (column_names schema.columns)) idx.columns)
        schema.indexes

-- ValidateColumnDef accepts exactly the valid columns.
pub validate_column_def_iff :
    (col : ColumnDef) → (validate_column_def col ≡ ok tt) ↔ ValidColumn col
unfolding validate_column_def
validate_column_def_iff col = (
  λ h. record {
    named = λ e. ground (arith, eq_iff col.name "");
    typed = λ e. ground arith;
    keyed = λ e. ground arith;
  },
  λ v. ground (arith, eq_iff col.name "", v.named, v.typed, v.keyed),
)

record ColumnsOk (names : Dict Bool) (cols : List ColumnDef) (out : Dict Bool) : Type 0 where
  valid : All ValidColumn cols
  fresh : All (λ k. has_key k names ≡ false) (column_names cols)
  distinct : Distinct (column_names cols)
  gathered :
      (k : String)
      → (has_key k out ≡ true) ↔ ((has_key k names ≡ true) ⊎ Any (λ c. c ≡ k) (column_names cols))

check_columns-ColumnsOk :
    (i : ℕ) (names : Dict Bool) (cols : List ColumnDef) (out : Dict Bool)
    → check_columns i names cols ≡ ok out
    → ColumnsOk names cols out
unfolding check_columns
check_columns-ColumnsOk i names [] out h = record {
  valid = tt;
  fresh = tt;
  distinct = tt;
  gathered = λ k. ground arith;
}
check_columns-ColumnsOk i names (col ∷ cols) out h =
    let head_ok : validate_column_def col ≡ ok tt = ground arith in
    let new : has_key col.name names ≡ false = ground arith in
    let ih = check_columns-ColumnsOk (suc i) (insert col.name true names) cols out (ground arith) in
    record {
      valid = ((validate_column_def_iff col).0 head_ok, ih.valid);
      fresh = (
        new,
        All-map (λ k e. ground (arith, has_key-insert col.name k true names)) (column_names cols)
            ih.fresh,
      );
      distinct = (
        All-map
            (λ k e same. ground (arith, has_key-insert col.name k true names, eq_iff col.name k))
            (column_names cols) ih.fresh,
        ih.distinct,
      );
      gathered = λ k.
          ground (arith, ih.gathered k, has_key-insert col.name k true names, eq_iff col.name k);
    }

check_columns_complete :
    (i : ℕ) (names : Dict Bool) (cols : List ColumnDef)
    → All ValidColumn cols
    → All (λ k. has_key k names ≡ false) (column_names cols)
    → Distinct (column_names cols)
    → (out : Dict Bool) × (check_columns i names cols ≡ ok out)
unfolding check_columns
check_columns_complete i names [] v f d = (names, refl)
check_columns_complete i names (col ∷ cols) v f d =
    let fresh' =
      All-map₂
        (λ k e other. ground (arith, has_key-insert col.name k true names, eq_iff col.name k))
        (column_names cols) f.1 d.0 in
    let (out, e) =
      check_columns_complete (suc i) (insert col.name true names) cols v.1 fresh' d.1 in
    (out, ground (arith, (validate_column_def_iff col).1 v.0))

check_index_iff :
    (names : Dict Bool) (i j : ℕ) (cols : List String)
    → (check_index names i j cols ≡ ok tt) ↔ All (λ c. has_key c names ≡ true) cols
unfolding check_index
check_index_iff names i j [] = (λ h. tt, λ h. refl)
check_index_iff names i j (c ∷ cols) = ground (arith, check_index_iff names i (suc j) cols)

check_indexes_iff :
    (names : Dict Bool) (i : ℕ) (idxs : List IndexDef)
    → (check_indexes names i idxs ≡ ok tt)
      ↔ All (λ idx. All (λ c. has_key c names ≡ true) idx.columns) idxs
unfolding check_indexes
check_indexes_iff names i [] = (λ h. tt, λ h. refl)
check_indexes_iff names i (idx ∷ idxs) =
    ground (arith, check_indexes_iff names (suc i) idxs, check_index_iff names i 0 idx.columns)

in_columns :
    {cols : List ColumnDef} {out : Dict Bool}
    → ColumnsOk [] cols out
    → (k : String) → has_key k out ≡ true
    → Any (λ c. c ≡ k) (column_names cols)
in_columns c k known = elim ((c.gathered k).0 known) [
  | inl old ↦ cc (has_key-nil Bool k)
  | inr m ↦ m
]

module _ (schema : TableSchema) where
  open schema use {columns, indexes}

  check_body-WellFormed :
      schema.name ≢ "" → columns ≢ [] → check_body schema ≡ ok tt → WellFormed schema
  unfolding check_body
  check_body-WellFormed named inhabited h = elim (Result-cases (check_columns 0 [] columns)) [
    | inr (e, bad) ↦ ground arith
    | inl (names, good) ↦
        let c = check_columns-ColumnsOk 0 [] columns names good in
        record {
          named = named;
          inhabited = inhabited;
          columns_valid = c.valid;
          names_distinct = c.distinct;
          indexed =
              All-map (λ idx. All-map (λ k known. in_columns c k known) idx.columns) indexes
                ((check_indexes_iff names 0 indexes).0 (ground arith));
        }
  ]

  check_body_of_WellFormed : WellFormed schema → check_body schema ≡ ok tt
  unfolding check_body
  check_body_of_WellFormed w =
      let (names, good) =
        check_columns_complete 0 [] columns w.columns_valid
          (for_each (has_key-nil Bool) (column_names columns)) w.names_distinct in
      let c = check_columns-ColumnsOk 0 [] columns names good in
      let found = (check_indexes_iff names 0 indexes).1 (
        All-map (λ idx. All-map (λ k m. (c.gathered k).1 (inr m)) idx.columns) indexes w.indexed) in
      ground arith

-- ValidateTableSchema accepts a schema exactly when the table and every column are named, there is a
-- column, the columns are valid with distinct names, and the indexes name columns of the table.
pub validate_table_schema_iff :
    (schema : TableSchema) → (validate_table_schema schema ≡ ok tt) ↔ WellFormed schema
unfolding validate_table_schema
validate_table_schema_iff schema = (
  λ h.
      check_body-WellFormed schema (λ e. ground (arith, eq_iff schema.name "")) (λ e. ground arith)
        (ground arith),
  λ w.
      ground
        (arith, eq_iff schema.name "", check_body_of_WellFormed schema w, w.named, w.inhabited),
)
