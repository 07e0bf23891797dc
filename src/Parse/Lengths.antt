-- ===== src/Parse/Lengths.antt =====
-- How many tokens the pieces of a command in src/main/java/simpledb/parse have.
use database_system_swe.Base.{
  string_eq, ℕ, suc, ◌+◌, ◌≤◌, List, [], ◌∷◌, String, ◌≡◌, refl, arith, length,
}
use database_system_swe.Query.Constant.{Constant, int_constant, string_constant}
use database_system_swe.Record.Layout.{FieldInfo, FieldType, integer, varchar}
use database_system_swe.Parse.Data.{Expression, field_name, value, Term, Predicate}
use database_system_swe.Parse.Lexer.{Token, word, delim}
use database_system_swe.Parse.Grammar.{
  constant_tokens, expression_tokens, term_tokens, predicate_tokens, where_tokens, id_tokens,
  const_tokens, column_tokens, columns_tokens,
}

length-constant_tokens :
    (c : Constant) (ts : List Token) → length (constant_tokens c ts) ≡ suc (length ts)
length-constant_tokens (int_constant n) ts = refl
length-constant_tokens (string_constant s) ts = refl

pub length-expression_tokens :
    (e : Expression) (ts : List Token) → length (expression_tokens e ts) ≡ suc (length ts)
length-expression_tokens (field_name f) ts = refl
length-expression_tokens (value c) ts = length-constant_tokens c ts

length-term_tokens : (t : Term) (ts : List Token) → length (term_tokens t ts) ≡ length ts + 3
length-term_tokens t ts = omega (
  arith,
  length-expression_tokens t.lhs (delim b'=' ∷ expression_tokens t.rhs ts),
  length-expression_tokens t.rhs ts,
)

length-predicate_tokens :
    (pred : Predicate) (ts : List Token)
    → length pred + length ts ≤ length (predicate_tokens pred ts)
length-predicate_tokens [] ts = omega arith
length-predicate_tokens (t ∷ []) ts = omega (arith, length-term_tokens t ts)
length-predicate_tokens (t ∷ t' ∷ terms) ts = omega (
  arith,
  length-term_tokens t (word "and" ∷ predicate_tokens (t' ∷ terms) ts),
  length-predicate_tokens (t' ∷ terms) ts,
)

pub length-where_tokens :
    (pred : Predicate) (ts : List Token) → length pred + length ts ≤ length (where_tokens pred ts)
length-where_tokens [] ts = omega arith
length-where_tokens (t ∷ terms) ts = omega (arith, length-predicate_tokens (t ∷ terms) ts)

pub length-id_tokens :
    (ids : List String) (ts : List Token) → length ids + length ts ≤ length (id_tokens ids ts)
length-id_tokens [] ts = omega arith
length-id_tokens (f ∷ []) ts = omega arith
length-id_tokens (f ∷ f' ∷ ids) ts = omega (arith, length-id_tokens (f' ∷ ids) ts)

pub length-const_tokens :
    (vals : List Constant) (ts : List Token)
    → length vals + length ts ≤ length (const_tokens vals ts)
length-const_tokens [] ts = omega arith
length-const_tokens (c ∷ []) ts = omega (arith, length-constant_tokens c ts)
length-const_tokens (c ∷ c' ∷ vals) ts = omega (
  arith,
  length-constant_tokens c (delim b',' ∷ const_tokens (c' ∷ vals) ts),
  length-const_tokens (c' ∷ vals) ts,
)

length-column_tokens :
    (c : String × FieldInfo) (ts : List Token) → suc (length ts) ≤ length (column_tokens c ts)
length-column_tokens (f, i) ts = by_type i.length i.type
  where
    by_type :
        (n : ℕ) (t : FieldType)
        → suc (length ts) ≤ length (column_tokens (f, record { type = t; length = n }) ts)
    by_type n integer = omega arith
    by_type n varchar = omega arith

pub length-columns_tokens :
    (cols : List (String × FieldInfo)) (ts : List Token)
    → length cols + length ts ≤ length (columns_tokens cols ts)
length-columns_tokens [] ts = omega arith
length-columns_tokens (c ∷ []) ts = omega (arith, length-column_tokens c ts)
length-columns_tokens (c ∷ c' ∷ cols) ts = omega (
  arith,
  length-column_tokens c (delim b',' ∷ columns_tokens (c' ∷ cols) ts),
  length-columns_tokens (c' ∷ cols) ts,
)
