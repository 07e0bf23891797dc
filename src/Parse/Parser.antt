-- ===== src/Parse/Parser.antt =====
-- Constants, predicates and queries in src/main/java/simpledb/parse/Parser.java. A method takes the
-- tokens and returns what it parsed with those behind it. A method that calls itself takes fuel, and
-- gives `none` where it runs out.
use database_system_swe.Base.{
  string_eq, ℕ, zero, suc, true, false, Option, none, some, List, [], ◌∷◌, String,
}
use database_system_swe.Log.Page.{◌>>=◌}
use database_system_swe.Query.Constant.{Constant, int_constant, string_constant}
use database_system_swe.Parse.Data.{Expression, field_name, value, Term, Predicate, QueryData}
use database_system_swe.Parse.Lexer.{
  Token, match_delim, match_string_constant, match_keyword, match_id, eat_delim, eat_int_constant,
  eat_string_constant, eat_keyword, eat_id,
}

-- What is parsed, and the tokens behind it.
abbrev pub Parsed : Type 0 → Type 0
Parsed R = Option (R × List Token)

abbrev pub comma : ℕ
comma = b','

abbrev pub field : List Token → Parsed String
field ts = eat_id ts

unfoldable pub constant : List Token → Parsed Constant
constant ts = elim (match_string_constant ts) [
  | true ↦ eat_string_constant ts >>= λ r. some (string_constant r.0, r.1)
  | false ↦ eat_int_constant ts >>= λ r. some (int_constant r.0, r.1)
]

unfoldable pub expression : List Token → Parsed Expression
expression ts = elim (match_id ts) [
  | true ↦ field ts >>= λ r. some (field_name r.0, r.1)
  | false ↦ constant ts >>= λ r. some (value r.0, r.1)
]

unfoldable pub term : List Token → Parsed Term
term ts = expression ts >>= λ l. eat_delim b'=' l.1 >>= λ ts1.
    expression ts1 >>= λ r. some (record { lhs = l.0; rhs = r.0 }, r.1)

unfoldable pub predicate : ℕ → List Token → Parsed Predicate
predicate zero ts = none
predicate (suc fuel) ts = term ts >>= λ t. elim (match_keyword "and" t.1) [
  | true ↦ eat_keyword "and" t.1 >>= λ ts1. predicate fuel ts1 >>= λ r. some (t.0 ∷ r.0, r.1)
  | false ↦ some (t.0 ∷ [], t.1)
]

-- The end of queries and of some commands: `where` and a predicate, or none.
unfoldable pub where_clause : ℕ → List Token → Parsed Predicate
where_clause fuel ts = elim (match_keyword "where" ts) [
  | true ↦ eat_keyword "where" ts >>= λ ts1. predicate fuel ts1
  | false ↦ some ([], ts)
]

-- `selectList`, `tableList` and `fieldList`.
unfoldable pub id_list : ℕ → List Token → Parsed (List String)
id_list zero ts = none
id_list (suc fuel) ts = eat_id ts >>= λ f. elim (match_delim comma f.1) [
  | true ↦ eat_delim comma f.1 >>= λ ts1. id_list fuel ts1 >>= λ r. some (f.0 ∷ r.0, r.1)
  | false ↦ some (f.0 ∷ [], f.1)
]

unfoldable pub const_list : ℕ → List Token → Parsed (List Constant)
const_list zero ts = none
const_list (suc fuel) ts = constant ts >>= λ c. elim (match_delim comma c.1) [
  | true ↦ eat_delim comma c.1 >>= λ ts1. const_list fuel ts1 >>= λ r. some (c.0 ∷ r.0, r.1)
  | false ↦ some (c.0 ∷ [], c.1)
]

unfoldable pub query : ℕ → List Token → Parsed QueryData
query fuel ts = eat_keyword "select" ts >>= λ ts1. id_list fuel ts1 >>= λ fields.
    eat_keyword "from" fields.1 >>= λ ts2. id_list fuel ts2 >>= λ tables.
    where_clause fuel tables.1 >>= λ pred.
    some (record { fields = fields.0; tables = tables.0; pred = pred.0 }, pred.1)
