-- ===== src/Plugin/Types.antt =====
-- pkg/plugin/extensions.go: the data of table schemas. The `Default` of a column, an arbitrary value
-- that nothing of the package reads, is left out.
use bindxdb.Prelude.{String, Bool, List, Option}

pub data DataType : Type 0 where
  unknown integer big_int float double decimal boolean varchar text blob timestamp date time json
        uuid custom :
      DataType

pub data IndexType : Type 0 where
  b_tree hash r_tree full_text bitmap : IndexType

pub data ForeignKeyAction : Type 0 where
  no_action restrict cascade set_null set_default : ForeignKeyAction

pub record ForeignKeyDef : Type 0 where
  pub table : String
  pub columns : List String
  pub on_delete : ForeignKeyAction
  pub on_update : ForeignKeyAction

pub record CheckConstraint : Type 0 where
  pub expression : String

pub record ColumnDef : Type 0 where
  pub name : String
  pub type : DataType
  pub nullable : Bool
  pub auto_increment : Bool
  pub primary_key : Bool
  pub unique : Bool
  pub foreign_key : Option ForeignKeyDef
  pub check : Option CheckConstraint

pub record IndexDef : Type 0 where
  pub name : String
  pub columns : List String
  pub unique : Bool
  pub primary : Bool
  pub type : IndexType

pub record TableSchema : Type 0 where
  pub name : String
  pub columns : List ColumnDef
  pub indexes : List IndexDef
