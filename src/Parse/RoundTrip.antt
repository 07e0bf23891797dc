-- ===== src/Parse/RoundTrip.antt =====
-- How src/main/java/simpledb/parse/Parser.java reads queries and commands as a whole.
use database_system_swe.Base.{
  string_eq, ℕ, ◌≤◌, some, List, [], ◌∷◌, String, ◌≡◌, refl, arith, All, length,
}
use database_system_swe.Query.Constant.{Constant}
use database_system_swe.Record.Layout.{FieldInfo, new_schema}
use database_system_swe.Record.Offsets.{add_columns}
use database_system_swe.Parse.Data.{
  Expression, Predicate, QueryData, UpdateData, insert_data, delete_data, modify_data,
  create_table_data, create_view_data, create_index_data,
}
use database_system_swe.Parse.Lexer.{Token, word, delim}
use database_system_swe.Parse.Parser.{query}
use database_system_swe.Parse.Commands.{
  insert, delete, modify, create_table, create_view, create_index, create, update_cmd,
}
use database_system_swe.Parse.Grammar.{
  IsId, expression_tokens, IsExpression, IsTerm, where_tokens, id_tokens, const_tokens,
  columns_tokens, IsColumn, IsDistinct, IsSome, IsIds, query_tokens, IsQuery, IsCommand,
  insert_command, delete_command, modify_command, table_command, view_command, index_command,
}
use database_system_swe.Parse.Pieces.{
  IsEnd, eat_id-word, expression-expression_tokens, where_clause-where_tokens, id_list-id_tokens,
  const_list-const_tokens, query-query_tokens,
}
use database_system_swe.Parse.Columns.{field_defs-columns_tokens}
use database_system_swe.Parse.Lengths.{
  length-where_tokens, length-id_tokens, length-const_tokens, length-columns_tokens,
  length-expression_tokens,
}

no_more : IsEnd []
no_more = record { no_comma = refl; no_and = refl; no_where = refl }

-- The fuel that the length of the tokens gives is enough for a query.
query_fuel :
    (fuel : ℕ) (qd : QueryData)
    → length (query_tokens qd []) ≤ fuel
    → IsQuery qd
    → query fuel (query_tokens qd []) ≡ some (qd, [])
query_fuel fuel qd le h =
    let fields =
      length-id_tokens qd.fields (word "from" ∷ id_tokens qd.tables (where_tokens qd.pred [])) in
    let tables = length-id_tokens qd.tables (where_tokens qd.pred []) in
    let terms = length-where_tokens qd.pred [] in
    query-query_tokens fuel qd [] (omega (arith, le, fields)) (omega (arith, le, fields, tables))
      (omega (arith, le, fields, tables, terms)) h no_more

-- Every query whose names are no keywords, with fields and tables, is read back from its tokens to
-- the end.
pub parse_query :
    (qd : QueryData)
    → IsQuery qd
    → query (length (query_tokens qd [])) (query_tokens qd []) ≡ some (qd, [])
parse_query qd h = query_fuel (length (query_tokens qd [])) qd (omega arith) h

insert_lem :
    (fuel : ℕ) (tbl : String) (flds : List String) (vals : List Constant)
    → IsId tbl
    → IsIds flds
    → IsSome vals
    → length flds ≤ fuel
    → length vals ≤ fuel
    → insert fuel (
        word "insert"
        ∷ word "into"
        ∷ word tbl
        ∷ delim b'('
        ∷ id_tokens flds
            (delim b')' ∷ word "values" ∷ delim b'(' ∷ const_tokens vals (delim b')' ∷ [])))
      ≡ some (insert_data tbl flds vals, [])
unfolding insert
insert_lem fuel tbl flds vals h hf hv lf lv =
    let behind : List Token =
      delim b')' ∷ word "values" ∷ delim b'(' ∷ const_tokens vals (delim b')' ∷ []) in
    rw (eat_id-word tbl (delim b'(' ∷ id_tokens flds behind) h) (
      rw (id_list-id_tokens fuel flds behind lf hf refl)
        (rw (const_list-const_tokens fuel vals (delim b')' ∷ []) lv hv refl) refl))

delete_lem :
    (fuel : ℕ) (tbl : String) (pred : Predicate)
    → IsId tbl
    → All IsTerm pred
    → length pred ≤ fuel
    → delete fuel (word "delete" ∷ word "from" ∷ word tbl ∷ where_tokens pred [])
      ≡ some (delete_data tbl pred, [])
unfolding delete
delete_lem fuel tbl pred h hp le =
    rw (eat_id-word tbl (where_tokens pred []) h)
      (rw (where_clause-where_tokens fuel pred [] le hp no_more) refl)

modify_lem :
    (fuel : ℕ) (tbl fld : String) (newval : Expression) (pred : Predicate)
    → IsId tbl
    → IsId fld
    → IsExpression newval
    → All IsTerm pred
    → length pred ≤ fuel
    → modify fuel (
        word "update"
        ∷ word tbl
        ∷ word "set"
        ∷ word fld
        ∷ delim b'='
        ∷ expression_tokens newval (where_tokens pred []))
      ≡ some (modify_data tbl fld newval pred, [])
unfolding modify
modify_lem fuel tbl fld newval pred h hf he hp le =
    let behind : List Token = expression_tokens newval (where_tokens pred []) in
    rw (eat_id-word tbl (word "set" ∷ word fld ∷ delim b'=' ∷ behind) h) (
      rw (eat_id-word fld (delim b'=' ∷ behind) hf) (
        rw (expression-expression_tokens newval (where_tokens pred []) he)
          (rw (where_clause-where_tokens fuel pred [] le hp no_more) refl)))

create_table_lem :
    (fuel : ℕ) (tbl : String) (cols : List (String × FieldInfo))
    → IsId tbl
    → IsSome cols
    → All IsColumn cols
    → IsDistinct cols
    → length cols ≤ fuel
    → create fuel (
        word "create"
        ∷ word "table"
        ∷ word tbl
        ∷ delim b'('
        ∷ columns_tokens cols (delim b')' ∷ []))
      ≡ some (create_table_data tbl (add_columns cols new_schema), [])
unfolding create create_table
create_table_lem fuel tbl cols h hs hc d le =
    rw (eat_id-word tbl (delim b'(' ∷ columns_tokens cols (delim b')' ∷ [])) h)
      (rw (field_defs-columns_tokens fuel cols (delim b')' ∷ []) le hs hc d refl) refl)

create_view_lem :
    (fuel : ℕ) (view : String) (qd : QueryData)
    → IsId view
    → IsQuery qd
    → length (query_tokens qd []) ≤ fuel
    → create fuel (word "create" ∷ word "view" ∷ word view ∷ word "as" ∷ query_tokens qd [])
      ≡ some (create_view_data view qd, [])
unfolding create create_view
create_view_lem fuel view qd h hq le =
    rw (eat_id-word view (word "as" ∷ query_tokens qd []) h) (rw (query_fuel fuel qd le hq) refl)

create_index_lem :
    (fuel : ℕ) (idx tbl fld : String)
    → IsId idx
    → IsId tbl
    → IsId fld
    → create fuel (
        word "create"
        ∷ word "index"
        ∷ word idx
        ∷ word "on"
        ∷ word tbl
        ∷ delim b'('
        ∷ word fld
        ∷ delim b')'
        ∷ [])
      ≡ some (create_index_data idx tbl fld, [])
unfolding create create_index
create_index_lem fuel idx tbl fld hi ht hf =
    rw (eat_id-word idx (word "on" ∷ word tbl ∷ delim b'(' ∷ word fld ∷ delim b')' ∷ []) hi) (
      rw (eat_id-word tbl (delim b'(' ∷ word fld ∷ delim b')' ∷ []) ht)
        (rw (eat_id-word fld (delim b')' ∷ []) hf) refl))

-- Every insert, delete, update, create table, create view and create index command whose names are
-- no keywords, and whose columns have different names, is read back from its tokens to the end.
pub parse_update :
    (c : UpdateData) (ts : List Token) → IsCommand c ts → update_cmd (length ts) ts ≡ some (c, [])
unfolding update_cmd
parse_update c ts (insert_command tbl flds vals h hf hv) =
    let behind : List Token =
      delim b')' ∷ word "values" ∷ delim b'(' ∷ const_tokens vals (delim b')' ∷ []) in
    let fields = length-id_tokens flds behind in
    let values = length-const_tokens vals (delim b')' ∷ []) in
    insert_lem (length ts) tbl flds vals h hf hv (omega (arith, fields))
      (omega (arith, fields, values))
parse_update c ts (delete_command tbl pred h hp) =
    delete_lem (length ts) tbl pred h hp (omega (arith, length-where_tokens pred []))
parse_update c ts (modify_command tbl fld newval pred h hf he hp) =
    modify_lem (length ts) tbl fld newval pred h hf he hp (
      omega (
        arith,
        length-expression_tokens newval (where_tokens pred []),
        length-where_tokens pred [],
      ))
parse_update c ts (table_command tbl cols h hs hc d) =
    create_table_lem (length ts) tbl cols h hs hc d
      (omega (arith, length-columns_tokens cols (delim b')' ∷ [])))
parse_update c ts (view_command view qd h hq) =
    create_view_lem (length ts) view qd h hq (omega arith)
parse_update c ts (index_command idx tbl fld hi ht hf) =
    create_index_lem (length ts) idx tbl fld hi ht hf
