-- ===== src/Query/Predicate.antt =====
-- The evaluation of src/main/java/simpledb/query/Expression.java, Term.java and Predicate.java on
-- the current record of a scan. The record is given by what `getVal` answers for each field name;
-- an exception is `none`.
use database_system_swe.Base.{
  ℕ, nat_beq, int_beq, Bool, true, false, ◌&&◌, Option, some, List, [], ◌∷◌, String,
}
use database_system_swe.Log.Page.{◌>>=◌}
use database_system_swe.Query.Constant.{Constant, int_constant, string_constant}
use database_system_swe.Parse.Data.{Expression, field_name, value, Term, Predicate}

-- The answers of `getVal`.
abbrev pub Values : Type 0
Values = String → Option Constant

-- Whether two strings have the same units.
abbrev pub units_equal : List ℕ → List ℕ → Bool
units_equal [] [] = true
units_equal [] (y ∷ t) = false
units_equal (x ∷ s) [] = false
units_equal (x ∷ s) (y ∷ t) = nat_beq x y && units_equal s t

abbrev pub equals : Constant → Constant → Bool
equals (int_constant a) (int_constant b) = int_beq a b
equals (int_constant a) (string_constant t) = false
equals (string_constant s) (int_constant b) = false
equals (string_constant s) (string_constant t) = units_equal s t

abbrev pub evaluate : Expression → Values → Option Constant
evaluate (value c) get_val = some c
evaluate (field_name f) get_val = get_val f

abbrev pub is_true : Term → Values → Option Bool
is_true t get_val = evaluate t.lhs get_val >>= λ lhsval.
    evaluate t.rhs get_val >>= λ rhsval. some (equals rhsval lhsval)

-- `isSatisfied`, which stops at the first term that is false.
abbrev pub is_satisfied : Predicate → Values → Option Bool
is_satisfied [] get_val = some true
is_satisfied (t ∷ terms) get_val =
    let rest = is_satisfied terms get_val in
    is_true t get_val >>= λ b. elim b [ true ↦ rest | false ↦ some false ]
