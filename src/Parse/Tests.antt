-- ===== src/Parse/Tests.antt =====
-- Runs of src/main/java/simpledb/parse/Parser.java.
use database_system_swe.Base.{string_eq, pos, none, some, List, [], ◌∷◌, String, ◌≡◌, refl, length}
use database_system_swe.Query.Constant.{int_constant, string_constant}
use database_system_swe.Record.Layout.{FieldInfo, integer, varchar, new_schema}
use database_system_swe.Record.Offsets.{add_columns}
use database_system_swe.Parse.Data.{field_name, value, QueryData, create_table_data}
use database_system_swe.Parse.Lexer.{Token, word, number, quoted, delim, is_keyword}
use database_system_swe.Parse.Parser.{
  query, id_list, where_clause, predicate, term, expression, constant,
}
use database_system_swe.Parse.Commands.{update_cmd}
use database_system_swe.Parse.Grammar.{
  query_tokens, IsQuery, IsCommand, table_command, columns_tokens,
}
use database_system_swe.Parse.RoundTrip.{parse_query, parse_update}

-- select a, b from t where a = 'x' and b = 3
abbrev a_query : QueryData
a_query = record {
  fields = "a" ∷ "b" ∷ [];
  tables = "t" ∷ [];
  pred =
      record { lhs = field_name "a"; rhs = value (string_constant (120 ∷ [])) }
      ∷ record { lhs = field_name "b"; rhs = value (int_constant (pos 3)) }
      ∷ [];
}

abbrev its_tokens : List Token
its_tokens =
    word "select"
    ∷ word "a"
    ∷ delim b','
    ∷ word "b"
    ∷ word "from"
    ∷ word "t"
    ∷ word "where"
    ∷ word "a"
    ∷ delim b'='
    ∷ quoted (120 ∷ [])
    ∷ word "and"
    ∷ word "b"
    ∷ delim b'='
    ∷ number (pos 3)
    ∷ []

writes_query : query_tokens a_query [] ≡ its_tokens
writes_query = refl

reads_query : query 14 its_tokens ≡ some (a_query, [])
unfolding query id_list where_clause predicate term expression constant is_keyword
reads_query = refl

-- A keyword is no name.
rejects_keyword : query 4 (word "select" ∷ word "from" ∷ word "from" ∷ word "t" ∷ []) ≡ none
unfolding query id_list is_keyword
rejects_keyword = refl

-- What is behind a query is not looked at.
leaves_the_rest :
    query 6 (word "select" ∷ word "a" ∷ word "from" ∷ word "t" ∷ word "group" ∷ word "b" ∷ [])
    ≡ some
        (record { fields = "a" ∷ []; tables = "t" ∷ []; pred = [] }, word "group" ∷ word "b" ∷ [])
unfolding query id_list where_clause is_keyword
leaves_the_rest = refl

a_query-IsQuery : IsQuery a_query
unfolding is_keyword
a_query-IsQuery = ((tt, (refl, (refl, tt))), (tt, (refl, tt)), ((refl, tt), ((refl, tt), tt)))

parse_query_example :
    query (length (query_tokens a_query [])) (query_tokens a_query []) ≡ some (a_query, [])
parse_query_example = parse_query a_query a_query-IsQuery

abbrev two_columns : List (String × FieldInfo)
two_columns =
    ("a", record { type = integer; length = 0 }) ∷ ("b", record { type = varchar; length = 9 }) ∷ []

-- create table t (a int, b varchar(9))
abbrev table_tokens : List Token
table_tokens =
    word "create"
    ∷ word "table"
    ∷ word "t"
    ∷ delim b'('
    ∷ columns_tokens two_columns (delim b')' ∷ [])

table-IsCommand :
    IsCommand (create_table_data "t" (add_columns two_columns new_schema)) table_tokens
unfolding is_keyword
table-IsCommand =
    table_command "t" two_columns refl tt ((refl, refl), ((refl, tt), tt)) ((refl, tt), (tt, tt))

parse_update_example :
    update_cmd (length table_tokens) table_tokens
    ≡ some (create_table_data "t" (add_columns two_columns new_schema), [])
parse_update_example =
    parse_update (create_table_data "t" (add_columns two_columns new_schema)) table_tokens
      table-IsCommand
