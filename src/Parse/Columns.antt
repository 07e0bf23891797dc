-- ===== src/Parse/Columns.antt =====
-- The columns of a `create table` in src/main/java/simpledb/parse/Parser.java, whose schemas
-- src/main/java/simpledb/record/Schema.java puts together.
use database_system_swe.Base.{
  string_eq, ℕ, zero, suc, ◌≤◌, pos, false, some, List, [], ◌∷◌, ◌++◌, String, ◌≡◌, refl, sym, ap,
  ◌∙◌, arith, All, length,
}
use mathlib.Core.List.{append_assoc, append-nil}
use database_system_swe.Base.Assoc.{lookup, lookup-insert}
use database_system_swe.Log.Page.{◌>>=◌}
use database_system_swe.Record.Layout.{
  FieldInfo, FieldType, integer, varchar, Schema, new_schema, add_field, add, add_names, add_all,
}
use database_system_swe.Record.Offsets.{add_columns}
use database_system_swe.Parse.Lexer.{Token, word, number, delim, match_delim}
use database_system_swe.Parse.Parser.{comma}
use database_system_swe.Parse.Pieces.{eat_id-word}
use database_system_swe.Parse.Commands.{field_type, field_def, field_defs}
use database_system_swe.Parse.Grammar.{
  IsId, HasLength, column_tokens, IsColumn, columns_tokens, IsNew, IsDistinct, IsSome,
}

abbrev names_of : List (String × FieldInfo) → List String
names_of [] = []
names_of (c ∷ cols) = c.0 ∷ names_of cols

-- Adding columns adds their names.
fields-add_columns :
    (cols : List (String × FieldInfo)) (sch : Schema)
    → (add_columns cols sch).fields ≡ sch.fields ++ names_of cols
unfolding add_field
fields-add_columns [] sch = sym (append-nil sch.fields)
fields-add_columns (c ∷ cols) sch =
    fields-add_columns cols (add_field c.0 c.1 sch)
    ∙ append_assoc sch.fields (c.0 ∷ []) (names_of cols)

-- A name that no column has keeps its row.
lookup-add_columns :
    (f : String) (cols : List (String × FieldInfo)) (sch : Schema)
    → IsNew f cols
    → lookup f (add_columns cols sch).info ≡ lookup f sch.info
unfolding add_field
lookup-add_columns f [] sch h = refl
lookup-add_columns f (c ∷ cols) sch (h, hs) =
    lookup-add_columns f cols (add_field c.0 c.1 sch) hs
    ∙ lookup-insert c.0 f c.1 sch.info
    ∙ ground (arith, h)

-- The columns have their types in a schema.
abbrev IsTyped : Schema → List (String × FieldInfo) → Type 0
IsTyped sch cols = All (λ c. lookup c.0 sch.info ≡ some c.1) cols

lookup_here :
    (c : String × FieldInfo) (sch : Schema) → lookup c.0 (add_field c.0 c.1 sch).info ≡ some c.1
unfolding add_field
lookup_here c sch = lookup-insert c.0 c.0 c.1 sch.info ∙ ground (arith, string_eq.same_iff c.0 c.0)

add_columns-IsTyped :
    (cols : List (String × FieldInfo)) (sch : Schema)
    → IsDistinct cols
    → IsTyped (add_columns cols sch) cols
add_columns-IsTyped [] sch d = tt
add_columns-IsTyped (c ∷ cols) sch (new, d) = (
  lookup-add_columns c.0 cols (add_field c.0 c.1 sch) new ∙ lookup_here c sch,
  add_columns-IsTyped cols (add_field c.0 c.1 sch) d,
)

add_names-add_columns :
    (cols : List (String × FieldInfo)) (from sch : Schema)
    → IsTyped from cols
    → add_names (names_of cols) from sch ≡ some (add_columns cols sch)
unfolding add_names add
add_names-add_columns [] from sch h = refl
add_names-add_columns (c ∷ cols) from sch (h, hs) =
    rw h (add_names-add_columns cols from (add_field c.0 c.1 sch) hs)

-- `addAll` adds the columns that a schema was made of.
pub add_all-add_columns :
    (cols : List (String × FieldInfo)) (sch : Schema)
    → IsDistinct cols
    → add_all (add_columns cols new_schema) sch ≡ some (add_columns cols sch)
add_all-add_columns cols sch d =
    ap (λ names. add_names names (add_columns cols new_schema) sch)
      (fields-add_columns cols new_schema)
    ∙ add_names-add_columns cols (add_columns cols new_schema) sch
        (add_columns-IsTyped cols new_schema d)

column_lem :
    (f : String) (n : ℕ) (t : FieldType) (ts : List Token)
    → IsId f
    → HasLength t n
    → field_def (column_tokens (f, record { type = t; length = n }) ts)
      ≡ some (add_field f (record { type = t; length = n }) new_schema, ts)
unfolding field_def field_type
column_lem f n integer ts h hl =
    let len : 0 ≡ n = sym hl in
    ap (λ o. o >>= λ r. field_type r.0 r.1) (eat_id-word f (word "int" ∷ ts) h)
    ∙ ap (λ (k : ℕ). some (add_field f (record { type = integer; length = k }) new_schema, ts)) len
column_lem f n varchar ts h hl =
    ap (λ o. o >>= λ r. field_type r.0 r.1)
      (eat_id-word f (word "varchar" ∷ delim b'(' ∷ number (pos n) ∷ delim b')' ∷ ts) h)

field_def-column_tokens :
    (c : String × FieldInfo) (ts : List Token)
    → IsColumn c
    → field_def (column_tokens c ts) ≡ some (add_field c.0 c.1 new_schema, ts)
field_def-column_tokens (f, i) ts (h, hl) = column_lem f i.length i.type ts h hl

field_defs_last :
    (fuel : ℕ) (c : String × FieldInfo) (ts : List Token)
    → IsColumn c
    → match_delim comma ts ≡ false
    → field_defs (suc fuel) (column_tokens c ts) ≡ some (add_field c.0 c.1 new_schema, ts)
unfolding field_defs
field_defs_last fuel c ts h e = ground (arith, e, field_def-column_tokens c ts h)

field_defs_more :
    (fuel : ℕ) (c : String × FieldInfo) (cols : List (String × FieldInfo)) (ts ts' : List Token)
    → IsColumn c
    → IsDistinct cols
    → field_defs fuel ts ≡ some (add_columns cols new_schema, ts')
    → field_defs (suc fuel) (column_tokens c (delim comma ∷ ts))
      ≡ some (add_columns (c ∷ cols) new_schema, ts')
unfolding field_defs
field_defs_more fuel c cols ts ts' h d e =
    rw (field_def-column_tokens c (delim comma ∷ ts) h)
      (rw e (rw (add_all-add_columns cols (add_field c.0 c.1 new_schema) d) refl))

-- Columns of different names are read back as the schema that they make.
pub field_defs-columns_tokens :
    (fuel : ℕ) (cols : List (String × FieldInfo)) (ts : List Token)
    → length cols ≤ fuel
    → IsSome cols
    → All IsColumn cols
    → IsDistinct cols
    → match_delim comma ts ≡ false
    → field_defs fuel (columns_tokens cols ts) ≡ some (add_columns cols new_schema, ts)
field_defs-columns_tokens fuel [] ts le h hs d e = absurd h
field_defs-columns_tokens zero (c ∷ cols) ts le h hs d e = absurd (omega arith)
field_defs-columns_tokens (suc fuel) (c ∷ []) ts le h (hc, hs) d e = field_defs_last fuel c ts hc e
field_defs-columns_tokens (suc fuel) (c ∷ c' ∷ cols) ts le h (hc, hs) (new, d) e =
    field_defs_more fuel c (c' ∷ cols) (columns_tokens (c' ∷ cols) ts) ts hc d
      (field_defs-columns_tokens fuel (c' ∷ cols) ts (omega arith) tt hs d e)
