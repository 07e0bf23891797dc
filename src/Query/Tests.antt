-- ===== src/Query/Tests.antt =====
-- Predicates of src/main/java/simpledb/query/Predicate.java on a record of students and departments.
use database_system_swe.Base.{
  string_eq, pos, Bool, true, false, some, List, [], ◌∷◌, String, ◌≡◌, refl, subst, arith, ◌==◌,
}
use database_system_swe.Base.Assoc.{lookup}
use database_system_swe.Query.Constant.{Constant, int_constant, string_constant}
use database_system_swe.Query.Predicate.{Values, is_satisfied}
use database_system_swe.Query.SubPred.{planned, TableRow}
use database_system_swe.Query.Joined.{all_joined}
use database_system_swe.Query.Split.{planned-is_satisfied}
use database_system_swe.Parse.Data.{field_name, value, Predicate}
use database_system_swe.Parse.Lexer.{contains_word}

abbrev fields_of : List String → String → Bool
fields_of fields f = contains_word f fields

abbrev row_of : List (String × Constant) → Values
row_of row f = lookup f row

abbrev student : TableRow
student = record {
  has = fields_of ("majorid" ∷ []);
  row = row_of (("majorid", int_constant (pos 2)) ∷ []);
}

abbrev dept : TableRow
dept = record {
  has = fields_of ("did" ∷ "dname" ∷ []);
  row = row_of (("did", int_constant (pos 2)) ∷ ("dname", string_constant (120 ∷ [])) ∷ []);
}

-- majorid = did and dname = 'x'
abbrev in_x : Predicate
in_x =
    record { lhs = field_name "majorid"; rhs = field_name "did" }
    ∷ record { lhs = field_name "dname"; rhs = value (string_constant (120 ∷ [])) }
    ∷ []

passes_both : planned in_x student (dept ∷ []) ≡ some true
unfolding lookup
passes_both = refl

-- A name is not one of the other table.
apart : (f : String) → student.has f ≡ true → dept.has f ≡ false
apart f known =
    let named : ("majorid" == f) ≡ true = ground (arith, known) in
    subst (λ (g : String). dept.has g ≡ false) ((string_eq.same_iff "majorid" f).0 named) refl

planned-is_satisfied_example :
    planned in_x student (dept ∷ []) ≡ is_satisfied in_x (all_joined student (dept ∷ [])).row
unfolding lookup
planned-is_satisfied_example =
    planned-is_satisfied in_x student (dept ∷ []) (apart, tt) (refl, (refl, tt)) (refl, (refl, tt))

-- A term with a field that no table has is left out.
passes_unknown :
    planned
      (record { lhs = field_name "year"; rhs = value (int_constant (pos 1)) } ∷ [])
      student
      (dept ∷ [])
    ≡ some true
passes_unknown = refl

-- A field of the same name in both tables: the record of each table is selected by its own.
passes_own :
    planned
      (record { lhs = field_name "a"; rhs = value (int_constant (pos 1)) } ∷ [])
      (record { has = fields_of ("a" ∷ []); row = row_of (("a", int_constant (pos 1)) ∷ []) })
      (record { has = fields_of ("a" ∷ []); row = row_of (("a", int_constant (pos 2)) ∷ []) } ∷ [])
    ≡ some false
unfolding lookup
passes_own = refl
