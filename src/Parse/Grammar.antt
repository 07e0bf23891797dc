-- ===== src/Parse/Grammar.antt =====
-- The SQL of src/main/java/simpledb/parse, as tokens.
use database_system_swe.Base.{string_eq, ◌==◌, pos, ℕ, false, List, [], ◌∷◌, String, ◌≡◌, All}
use database_system_swe.Query.Constant.{Constant, int_constant, string_constant}
use database_system_swe.Parse.Data.{
  Expression, field_name, value, Term, Predicate, QueryData, UpdateData, insert_data, delete_data,
  modify_data, create_table_data, create_view_data, create_index_data,
}
use database_system_swe.Record.Layout.{FieldInfo, FieldType, integer, varchar, new_schema}
use database_system_swe.Record.Offsets.{add_columns}
use database_system_swe.Parse.Lexer.{Token, word, number, quoted, delim, is_keyword}

-- Whether a word can name a field, a table, a view or an index.
abbrev pub IsId : String → Type 0
IsId w = is_keyword w ≡ false

abbrev pub constant_tokens : Constant → List Token → List Token
constant_tokens (int_constant n) ts = number n ∷ ts
constant_tokens (string_constant s) ts = quoted s ∷ ts

abbrev pub expression_tokens : Expression → List Token → List Token
expression_tokens (field_name f) ts = word f ∷ ts
expression_tokens (value c) ts = constant_tokens c ts

abbrev pub IsExpression : Expression → Type 0
IsExpression (field_name f) = IsId f
IsExpression (value c) = Unit {0}

abbrev pub term_tokens : Term → List Token → List Token
term_tokens t ts = expression_tokens t.lhs (delim b'=' ∷ expression_tokens t.rhs ts)

abbrev pub IsTerm : Term → Type 0
IsTerm t = IsExpression t.lhs × IsExpression t.rhs

abbrev pub predicate_tokens : Predicate → List Token → List Token
predicate_tokens [] ts = ts
predicate_tokens (t ∷ []) ts = term_tokens t ts
predicate_tokens (t ∷ t' ∷ terms) ts = term_tokens t (word "and" ∷ predicate_tokens (t' ∷ terms) ts)

abbrev pub where_tokens : Predicate → List Token → List Token
where_tokens [] ts = ts
where_tokens (t ∷ terms) ts = word "where" ∷ predicate_tokens (t ∷ terms) ts

abbrev pub id_tokens : List String → List Token → List Token
id_tokens [] ts = ts
id_tokens (f ∷ []) ts = word f ∷ ts
id_tokens (f ∷ f' ∷ ids) ts = word f ∷ delim b',' ∷ id_tokens (f' ∷ ids) ts

abbrev pub const_tokens : List Constant → List Token → List Token
const_tokens [] ts = ts
const_tokens (c ∷ []) ts = constant_tokens c ts
const_tokens (c ∷ c' ∷ vals) ts = constant_tokens c (delim b',' ∷ const_tokens (c' ∷ vals) ts)

-- A list that is not empty.
abbrev pub IsSome {ℓ} : {A : Type ℓ} → List A → Type 0
IsSome [] = ⊥
IsSome (a ∷ l) = Unit {0}

abbrev pub IsIds : List String → Type 0
IsIds ids = IsSome ids × All IsId ids

abbrev pub query_tokens : QueryData → List Token → List Token
query_tokens qd ts =
    word "select"
    ∷ id_tokens qd.fields (word "from" ∷ id_tokens qd.tables (where_tokens qd.pred ts))

abbrev pub IsQuery : QueryData → Type 0
IsQuery qd = IsIds qd.fields × IsIds qd.tables × All IsTerm qd.pred

abbrev pub column_tokens : String × FieldInfo → List Token → List Token
column_tokens (f, i) ts = elim i.type [
  | integer ↦ word f ∷ word "int" ∷ ts
  | varchar ↦ word f ∷ word "varchar" ∷ delim b'(' ∷ number (pos i.length) ∷ delim b')' ∷ ts
]

-- The length of an int is 0.
abbrev pub HasLength : FieldType → ℕ → Type 0
HasLength integer n = n ≡ 0
HasLength varchar n = Unit {0}

abbrev pub IsColumn : String × FieldInfo → Type 0
IsColumn (f, i) = IsId f × HasLength i.type i.length

abbrev pub columns_tokens : List (String × FieldInfo) → List Token → List Token
columns_tokens [] ts = ts
columns_tokens (c ∷ []) ts = column_tokens c ts
columns_tokens (c ∷ c' ∷ cols) ts = column_tokens c (delim b',' ∷ columns_tokens (c' ∷ cols) ts)

-- No column has the name.
abbrev pub IsNew : String → List (String × FieldInfo) → Type 0
IsNew f cols = All (λ c. (c.0 == f) ≡ false) cols

abbrev pub IsDistinct : List (String × FieldInfo) → Type 0
IsDistinct [] = Unit {0}
IsDistinct (c ∷ cols) = IsNew c.0 cols × IsDistinct cols

-- The commands, and how they are written.
pub data IsCommand : UpdateData → List Token → Type 0 where
  insert_command :
      (tbl : String) (flds : List String) (vals : List Constant)
      → IsId tbl
      → IsIds flds
      → IsSome vals
      → IsCommand (insert_data tbl flds vals) (
          word "insert"
          ∷ word "into"
          ∷ word tbl
          ∷ delim b'('
          ∷ id_tokens flds
              (delim b')' ∷ word "values" ∷ delim b'(' ∷ const_tokens vals (delim b')' ∷ [])))
  delete_command :
      (tbl : String) (pred : Predicate)
      → IsId tbl
      → All IsTerm pred
      → IsCommand
          (delete_data tbl pred)
          (word "delete" ∷ word "from" ∷ word tbl ∷ where_tokens pred [])
  modify_command :
      (tbl fld : String) (newval : Expression) (pred : Predicate)
      → IsId tbl
      → IsId fld
      → IsExpression newval
      → All IsTerm pred
      → IsCommand (modify_data tbl fld newval pred) (
          word "update"
          ∷ word tbl
          ∷ word "set"
          ∷ word fld
          ∷ delim b'='
          ∷ expression_tokens newval (where_tokens pred []))
  table_command :
      (tbl : String) (cols : List (String × FieldInfo))
      → IsId tbl
      → IsSome cols
      → All IsColumn cols
      → IsDistinct cols
      → IsCommand (create_table_data tbl (add_columns cols new_schema)) (
          word "create"
          ∷ word "table"
          ∷ word tbl
          ∷ delim b'('
          ∷ columns_tokens cols (delim b')' ∷ []))
  view_command :
      (view : String) (qd : QueryData)
      → IsId view
      → IsQuery qd
      → IsCommand
          (create_view_data view qd)
          (word "create" ∷ word "view" ∷ word view ∷ word "as" ∷ query_tokens qd [])
  index_command :
      (idx tbl fld : String)
      → IsId idx
      → IsId tbl
      → IsId fld
      → IsCommand (create_index_data idx tbl fld) (
          word "create"
          ∷ word "index"
          ∷ word idx
          ∷ word "on"
          ∷ word tbl
          ∷ delim b'('
          ∷ word fld
          ∷ delim b')'
          ∷ [])
