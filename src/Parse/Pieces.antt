-- ===== src/Parse/Pieces.antt =====
-- How src/main/java/simpledb/parse/Parser.java reads the pieces of a command.
use database_system_swe.Base.{
  string_eq, ℕ, zero, suc, ◌≤◌, false, some, List, [], ◌∷◌, String, ◌≡◌, refl, arith, All, length,
}
use database_system_swe.Query.Constant.{Constant, int_constant, string_constant}
use database_system_swe.Parse.Data.{Expression, field_name, value, Term, Predicate, QueryData}
use database_system_swe.Parse.Lexer.{Token, word, delim, match_delim, match_keyword, eat_id}
use database_system_swe.Parse.Parser.{
  comma, constant, expression, term, predicate, where_clause, id_list, const_list, query,
}
use database_system_swe.Parse.Grammar.{
  IsId, constant_tokens, expression_tokens, IsExpression, term_tokens, IsTerm, predicate_tokens,
  where_tokens, id_tokens, const_tokens, IsSome, IsIds, query_tokens, IsQuery,
}

-- Tokens that no list and no predicate goes on with.
pub record IsEnd (ts : List Token) : Type 0 where
  pub no_comma : match_delim comma ts ≡ false
  pub no_and : match_keyword "and" ts ≡ false
  pub no_where : match_keyword "where" ts ≡ false

pub eat_id-word : (f : String) (ts : List Token) → IsId f → eat_id (word f ∷ ts) ≡ some (f, ts)
eat_id-word f ts h = rw h refl

pub constant-constant_tokens :
    (c : Constant) (ts : List Token) → constant (constant_tokens c ts) ≡ some (c, ts)
unfolding constant
constant-constant_tokens (int_constant n) ts = refl
constant-constant_tokens (string_constant s) ts = refl

pub expression-expression_tokens :
    (e : Expression) (ts : List Token)
    → IsExpression e
    → expression (expression_tokens e ts) ≡ some (e, ts)
unfolding expression constant
expression-expression_tokens (field_name f) ts h = ground (arith, h)
expression-expression_tokens (value (int_constant n)) ts h = refl
expression-expression_tokens (value (string_constant s)) ts h = refl

pub term-term_tokens :
    (t : Term) (ts : List Token) → IsTerm t → term (term_tokens t ts) ≡ some (t, ts)
unfolding term
term-term_tokens t ts (hl, hr) =
    rw (expression-expression_tokens t.lhs (delim b'=' ∷ expression_tokens t.rhs ts) hl)
      (rw (expression-expression_tokens t.rhs ts hr) refl)

predicate_last :
    (fuel : ℕ) (t : Term) (ts : List Token)
    → IsTerm t
    → match_keyword "and" ts ≡ false
    → predicate (suc fuel) (term_tokens t ts) ≡ some (t ∷ [], ts)
unfolding predicate
predicate_last fuel t ts h e = ground (arith, e, term-term_tokens t ts h)

predicate_more :
    (fuel : ℕ) (t : Term) (terms : Predicate) (ts ts' : List Token)
    → IsTerm t
    → predicate fuel ts ≡ some (terms, ts')
    → predicate (suc fuel) (term_tokens t (word "and" ∷ ts)) ≡ some (t ∷ terms, ts')
unfolding predicate
predicate_more fuel t terms ts ts' h e = rw (term-term_tokens t (word "and" ∷ ts) h) (rw e refl)

pub predicate-predicate_tokens :
    (fuel : ℕ) (t : Term) (terms : Predicate) (ts : List Token)
    → length (t ∷ terms) ≤ fuel
    → All IsTerm (t ∷ terms)
    → match_keyword "and" ts ≡ false
    → predicate fuel (predicate_tokens (t ∷ terms) ts) ≡ some (t ∷ terms, ts)
predicate-predicate_tokens zero t terms ts le h e = absurd (omega arith)
predicate-predicate_tokens (suc fuel) t [] ts le (h, hs) e = predicate_last fuel t ts h e
predicate-predicate_tokens (suc fuel) t (t' ∷ terms) ts le (h, hs) e =
    predicate_more fuel t (t' ∷ terms) (predicate_tokens (t' ∷ terms) ts) ts h
      (predicate-predicate_tokens fuel t' terms ts (omega arith) hs e)

pub where_clause-where_tokens :
    (fuel : ℕ) (pred : Predicate) (ts : List Token)
    → length pred ≤ fuel
    → All IsTerm pred
    → IsEnd ts
    → where_clause fuel (where_tokens pred ts) ≡ some (pred, ts)
unfolding where_clause
where_clause-where_tokens fuel [] ts le h e = ground (arith, e.no_where)
where_clause-where_tokens fuel (t ∷ terms) ts le h e =
    predicate-predicate_tokens fuel t terms ts le h e.no_and

-- After `where` or the end a list of names ends.
pub where_no_comma :
    (pred : Predicate) (ts : List Token)
    → IsEnd ts
    → match_delim comma (where_tokens pred ts) ≡ false
where_no_comma [] ts e = e.no_comma
where_no_comma (t ∷ terms) ts e = refl

id_list_last :
    (fuel : ℕ) (f : String) (ts : List Token)
    → IsId f
    → match_delim comma ts ≡ false
    → id_list (suc fuel) (word f ∷ ts) ≡ some (f ∷ [], ts)
unfolding id_list
id_list_last fuel f ts h e = ground (arith, h, e)

id_list_more :
    (fuel : ℕ) (f : String) (ids : List String) (ts ts' : List Token)
    → IsId f
    → id_list fuel ts ≡ some (ids, ts')
    → id_list (suc fuel) (word f ∷ delim comma ∷ ts) ≡ some (f ∷ ids, ts')
unfolding id_list
id_list_more fuel f ids ts ts' h e = rw (eat_id-word f (delim comma ∷ ts) h) (rw e refl)

pub id_list-id_tokens :
    (fuel : ℕ) (ids : List String) (ts : List Token)
    → length ids ≤ fuel
    → IsIds ids
    → match_delim comma ts ≡ false
    → id_list fuel (id_tokens ids ts) ≡ some (ids, ts)
id_list-id_tokens fuel [] ts le (h, hs) e = absurd h
id_list-id_tokens zero (f ∷ ids) ts le h e = absurd (omega arith)
id_list-id_tokens (suc fuel) (f ∷ []) ts le (h, (hf, hs)) e = id_list_last fuel f ts hf e
id_list-id_tokens (suc fuel) (f ∷ f' ∷ ids) ts le (h, (hf, hs)) e =
    id_list_more fuel f (f' ∷ ids) (id_tokens (f' ∷ ids) ts) ts hf
      (id_list-id_tokens fuel (f' ∷ ids) ts (omega arith) (tt, hs) e)

const_list_last :
    (fuel : ℕ) (c : Constant) (ts : List Token)
    → match_delim comma ts ≡ false
    → const_list (suc fuel) (constant_tokens c ts) ≡ some (c ∷ [], ts)
unfolding const_list
const_list_last fuel c ts e = ground (arith, e, constant-constant_tokens c ts)

const_list_more :
    (fuel : ℕ) (c : Constant) (vals : List Constant) (ts ts' : List Token)
    → const_list fuel ts ≡ some (vals, ts')
    → const_list (suc fuel) (constant_tokens c (delim comma ∷ ts)) ≡ some (c ∷ vals, ts')
unfolding const_list
const_list_more fuel c vals ts ts' e =
    rw (constant-constant_tokens c (delim comma ∷ ts)) (rw e refl)

pub const_list-const_tokens :
    (fuel : ℕ) (vals : List Constant) (ts : List Token)
    → length vals ≤ fuel
    → IsSome vals
    → match_delim comma ts ≡ false
    → const_list fuel (const_tokens vals ts) ≡ some (vals, ts)
const_list-const_tokens fuel [] ts le h e = absurd h
const_list-const_tokens zero (c ∷ vals) ts le h e = absurd (omega arith)
const_list-const_tokens (suc fuel) (c ∷ []) ts le h e = const_list_last fuel c ts e
const_list-const_tokens (suc fuel) (c ∷ c' ∷ vals) ts le h e =
    const_list_more fuel c (c' ∷ vals) (const_tokens (c' ∷ vals) ts) ts
      (const_list-const_tokens fuel (c' ∷ vals) ts (omega arith) tt e)

-- A query that ends is read back.
pub query-query_tokens :
    (fuel : ℕ) (qd : QueryData) (ts : List Token)
    → length qd.fields ≤ fuel
    → length qd.tables ≤ fuel
    → length qd.pred ≤ fuel
    → IsQuery qd
    → IsEnd ts
    → query fuel (query_tokens qd ts) ≡ some (qd, ts)
unfolding query
query-query_tokens fuel qd ts lf lt lp (hf, ht, hp) e =
    rw
      (id_list-id_tokens fuel qd.fields
        (word "from" ∷ id_tokens qd.tables (where_tokens qd.pred ts)) lf hf refl)
      (rw
        (id_list-id_tokens fuel qd.tables (where_tokens qd.pred ts) lt ht
          (where_no_comma qd.pred ts e))
        (rw (where_clause-where_tokens fuel qd.pred ts lp hp e) refl))
