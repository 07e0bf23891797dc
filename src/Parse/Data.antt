-- ===== src/Parse/Data.antt =====
-- What src/main/java/simpledb/parse makes of commands, with the expressions and terms of
-- src/main/java/simpledb/query.
use database_system_swe.Base.{List, String}
use database_system_swe.Query.Constant.{Constant}
use database_system_swe.Record.Layout.{Schema}

pub data Expression : Type 0 where
  field_name : String → Expression
  value : Constant → Expression

pub record Term : Type 0 where
  pub lhs : Expression
  pub rhs : Expression

-- A predicate is the conjunction of its terms.
abbrev pub Predicate : Type 0
Predicate = List Term

pub record QueryData : Type 0 where
  pub fields : List String
  pub tables : List String
  pub pred : Predicate

-- What `updateCmd` returns.
pub data UpdateData : Type 0 where
  insert_data : String → List String → List Constant → UpdateData
  delete_data : String → Predicate → UpdateData
  modify_data : String → String → Expression → Predicate → UpdateData
  create_table_data : String → Schema → UpdateData
  create_view_data : String → QueryData → UpdateData
  create_index_data : String → String → String → UpdateData
