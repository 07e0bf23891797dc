-- ===== src/Parse/Commands.antt =====
-- The update commands in src/main/java/simpledb/parse/Parser.java, with fuel as the queries. The length
-- of a string field is taken not to be negative.
use database_system_swe.Base.{
  string_eq, ℕ, zero, suc, ℤ, pos, negsuc, true, false, Option, none, some, List, String,
}
use database_system_swe.Log.Page.{◌>>=◌}
use database_system_swe.Record.Layout.{Schema, new_schema, add_int_field, add_string_field, add_all}
use database_system_swe.Parse.Data.{
  UpdateData, insert_data, delete_data, modify_data, create_table_data, create_view_data,
  create_index_data,
}
use database_system_swe.Parse.Lexer.{
  Token, match_delim, match_keyword, eat_delim, eat_int_constant, eat_keyword, eat_id,
}
use database_system_swe.Parse.Parser.{
  Parsed, comma, field, expression, where_clause, id_list, const_list, query,
}

unfoldable pub delete : ℕ → List Token → Parsed UpdateData
delete fuel ts = eat_keyword "delete" ts >>= λ ts1. eat_keyword "from" ts1 >>= λ ts2.
    eat_id ts2 >>= λ tbl.
    where_clause fuel tbl.1 >>= λ pred. some (delete_data tbl.0 pred.0, pred.1)

unfoldable pub insert : ℕ → List Token → Parsed UpdateData
insert fuel ts = eat_keyword "insert" ts >>= λ ts1. eat_keyword "into" ts1 >>= λ ts2.
    eat_id ts2 >>= λ tbl. eat_delim b'(' tbl.1 >>= λ ts3. id_list fuel ts3 >>= λ flds.
    eat_delim b')' flds.1 >>= λ ts4. eat_keyword "values" ts4 >>= λ ts5.
    eat_delim b'(' ts5 >>= λ ts6. const_list fuel ts6 >>= λ vals.
    eat_delim b')' vals.1 >>= λ ts7. some (insert_data tbl.0 flds.0 vals.0, ts7)

unfoldable pub modify : ℕ → List Token → Parsed UpdateData
modify fuel ts = eat_keyword "update" ts >>= λ ts1. eat_id ts1 >>= λ tbl.
    eat_keyword "set" tbl.1 >>= λ ts2. field ts2 >>= λ fld. eat_delim b'=' fld.1 >>= λ ts3.
    expression ts3 >>= λ newval.
    where_clause fuel newval.1 >>= λ pred. some (modify_data tbl.0 fld.0 newval.0 pred.0, pred.1)

-- A schema has lengths that are natural numbers here. A negative one, which the source passes on to
-- its schema, is outside of this model (`none`).
abbrev pub string_field : String → ℤ → Option Schema
string_field fldname (pos n) = some (add_string_field fldname n new_schema)
string_field fldname (negsuc n) = none

unfoldable pub field_type : String → List Token → Parsed Schema
field_type fldname ts = elim (match_keyword "int" ts) [
  | true ↦ eat_keyword "int" ts >>= λ ts1. some (add_int_field fldname new_schema, ts1)
  | false ↦ eat_keyword "varchar" ts >>= λ ts1. eat_delim b'(' ts1 >>= λ ts2.
      eat_int_constant ts2 >>= λ len.
      eat_delim b')' len.1 >>= λ ts3. string_field fldname len.0 >>= λ sch. some (sch, ts3)
]

unfoldable pub field_def : List Token → Parsed Schema
field_def ts = field ts >>= λ f. field_type f.0 f.1

unfoldable pub field_defs : ℕ → List Token → Parsed Schema
field_defs zero ts = none
field_defs (suc fuel) ts = field_def ts >>= λ schema. elim (match_delim comma schema.1) [
  | true ↦ eat_delim comma schema.1 >>= λ ts1. field_defs fuel ts1 >>= λ schema2.
      add_all schema2.0 schema.0 >>= λ both. some (both, schema2.1)
  | false ↦ some schema
]

unfoldable pub create_table : ℕ → List Token → Parsed UpdateData
create_table fuel ts = eat_keyword "table" ts >>= λ ts1. eat_id ts1 >>= λ tbl.
    eat_delim b'(' tbl.1 >>= λ ts2. field_defs fuel ts2 >>= λ sch.
    eat_delim b')' sch.1 >>= λ ts3. some (create_table_data tbl.0 sch.0, ts3)

unfoldable pub create_view : ℕ → List Token → Parsed UpdateData
create_view fuel ts = eat_keyword "view" ts >>= λ ts1. eat_id ts1 >>= λ view.
    eat_keyword "as" view.1 >>= λ ts2.
    query fuel ts2 >>= λ qd. some (create_view_data view.0 qd.0, qd.1)

unfoldable pub create_index : List Token → Parsed UpdateData
create_index ts = eat_keyword "index" ts >>= λ ts1. eat_id ts1 >>= λ idx.
    eat_keyword "on" idx.1 >>= λ ts2. eat_id ts2 >>= λ tbl. eat_delim b'(' tbl.1 >>= λ ts3.
    field ts3 >>= λ fld.
    eat_delim b')' fld.1 >>= λ ts4. some (create_index_data idx.0 tbl.0 fld.0, ts4)

unfoldable pub create : ℕ → List Token → Parsed UpdateData
create fuel ts = eat_keyword "create" ts >>= λ ts1. elim (match_keyword "table" ts1) [
  | true ↦ create_table fuel ts1
  | false ↦ elim (match_keyword "view" ts1) [
    | true ↦ create_view fuel ts1
    | false ↦ create_index ts1
  ]
]

unfoldable pub update_cmd : ℕ → List Token → Parsed UpdateData
update_cmd fuel ts = elim (match_keyword "insert" ts) [
  | true ↦ insert fuel ts
  | false ↦ elim (match_keyword "delete" ts) [
    | true ↦ delete fuel ts
    | false ↦ elim (match_keyword "update" ts) [ true ↦ modify fuel ts | false ↦ create fuel ts ]
  ]
]
