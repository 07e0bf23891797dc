-- ===== src/Query/Algebra.antt =====
-- Tables as lists of records with the names of their fields, and the operators of relational algebra
-- on them: an independent account of what the scans of simpledb/query read.
use database_system_swe.Base.{
  Bool, none, some, List, [], ◌∷◌, ◌++◌, map, ◌≡◌, String, ◌||◌, if◌then◌else◌,
}
use database_system_swe.Parse.Data.{Predicate}
use database_system_swe.Parse.Lexer.{contains_word}
use database_system_swe.Query.Predicate.{Values, is_satisfied}
use database_system_swe.Materialize.RecordComparator.{answered}

pub record Table : Type 0 where
  pub has : String → Bool
  pub rows : List Values

-- Every record of the list satisfies the predicate or does not, without an exception.
abbrev pub Evaluates : Predicate → List Values → Type 0
Evaluates pred [] = Unit {0}
Evaluates pred (row ∷ l) =
    (is_satisfied pred row ≡ some (answered (is_satisfied pred row))) × Evaluates pred l

abbrev pub filter_rows : Predicate → List Values → List Values
filter_rows pred [] = []
filter_rows pred (row ∷ l) =
    let others = filter_rows pred l in
    if answered (is_satisfied pred row) then row ∷ others else others

abbrev pub join : (String → Bool) → Values → Values → Values
join has row1 row2 f = if has f then row1 f else row2 f

abbrev pub cross_rows : (String → Bool) → List Values → List Values → List Values
cross_rows has [] l2 = []
cross_rows has (row ∷ l1) l2 = map (join has row) l2 ++ cross_rows has l1 l2

abbrev pub restrict : List String → Values → Values
restrict fields row f = if contains_word f fields then row f else none

abbrev pub cross : Table → Table → Table
cross t1 t2 = record { has = λ f. t1.has f || t2.has f; rows = cross_rows t1.has t1.rows t2.rows }

abbrev pub cross_all : Table → List Table → Table
cross_all t [] = t
cross_all t (t2 ∷ ts) = cross_all (cross t t2) ts
