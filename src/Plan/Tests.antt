-- ===== src/Plan/Tests.antt =====
-- Runs of src/main/java/simpledb/plan/BasicQueryPlanner.java over tables that are lists.
use database_system_swe.Base.{
  string_eq, ℕ, pos, Bool, true, false, Option, none, some, List, [], ◌∷◌, String, ◌≡◌, refl, map,
  arith, if◌then◌else◌,
}
use database_system_swe.Base.Assoc.{lookup}
use database_system_swe.Log.Page.{◌>>=◌}
use database_system_swe.Query.Constant.{Constant, int_constant, string_constant}
use database_system_swe.Query.Predicate.{Values}
use database_system_swe.Query.Scan.{Scan, next_pair}
use database_system_swe.Query.Reads.{Gives, at_end, at_record, Reads}
use database_system_swe.Query.Algebra.{Table}
use database_system_swe.Parse.Data.{field_name, value, QueryData}
use database_system_swe.Parse.Lexer.{contains_word}
use database_system_swe.Materialize.RecordComparator.{Row}
use database_system_swe.Plan.BasicQueryPlanner.{OpenScan, open_product, open_query}
use database_system_swe.Plan.Refinement.{IsTable, answer, open_query-Reads}

-- A scan of a list: its current record, and those behind it.
abbrev Cursor : Type 0
Cursor = Option Values × List Values

abbrev next_of : Cursor → Option (Bool × Cursor)
next_of (c, []) = some (false, (none, []))
next_of (c, row ∷ l) = some (true, (some row, l))

abbrev list_scan : Table → Scan Cursor
list_scan t = record {
  before_first = λ c. some (none, t.rows);
  next = next_of;
  get_val = λ c f. c.0 >>= λ row. row f;
  has_field = t.has;
}

list-Gives : (t : Table) (c : Option Values) (l : List Values) → Gives (list_scan t) (c, l) l
list-Gives t c [] = at_end (c, []) (none, []) refl
list-Gives t c (row ∷ l) =
    at_record (c, row ∷ l) (some row, l) row l refl refl (list-Gives t (some row) l)

abbrev opened : Table → OpenScan
opened t = record { Position = Cursor; scan = list_scan t; position = (none, t.rows) }

opened-IsTable : (t : Table) → IsTable (opened t) t
opened-IsTable t =
    (refl, λ p. ((none, t.rows), refl, list-Gives t none t.rows), list-Gives t none t.rows)

abbrev table : List String → List Row → Table
table fields rows = record {
  has = λ f. contains_word f fields;
  rows = map (λ row f. lookup f row) rows;
}

abbrev student : ℕ → List ℕ → Row
student major name = ("majorid", int_constant (pos major)) ∷ ("sname", string_constant name) ∷ []

abbrev dept : ℕ → List ℕ → Row
dept did name = ("did", int_constant (pos did)) ∷ ("dname", string_constant name) ∷ []

abbrev students : Table
students =
    table ("majorid" ∷ "sname" ∷ [])
      (student 1 (97 ∷ []) ∷ student 2 (98 ∷ []) ∷ student 1 (99 ∷ []) ∷ [])

abbrev depts : Table
depts = table ("did" ∷ "dname" ∷ []) (dept 1 (120 ∷ []) ∷ dept 2 (121 ∷ []) ∷ [])

abbrev contents : String → Table
contents n =
    if contains_word n ("student" ∷ [])
    then students
    else if contains_word n ("dept" ∷ [])
    then depts
    else table [] []

-- select sname, dname from student, dept where majorid = did and dname = 'x'
abbrev in_x : QueryData
in_x = record {
  fields = "sname" ∷ "dname" ∷ [];
  tables = "student" ∷ "dept" ∷ [];
  pred =
      record { lhs = field_name "majorid"; rhs = field_name "did" }
      ∷ record { lhs = field_name "dname"; rhs = value (string_constant (120 ∷ [])) }
      ∷ [];
}

two_in_x :
    map (λ row. row "sname") (answer contents in_x)
    ≡ some (string_constant (97 ∷ [])) ∷ some (string_constant (99 ∷ [])) ∷ []
unfolding lookup
two_in_x = refl

open_query-Reads_example :
    (o : OpenScan) × (open_query 7 (λ n. opened (contents n)) in_x ≡ some o)
    × Gives o.scan o.position (answer contents in_x)
    × Reads o.scan (answer contents in_x)
unfolding lookup
open_query-Reads_example =
    open_query-Reads 7 (λ n. opened (contents n)) contents in_x
      (opened-IsTable students, (opened-IsTable depts, tt)) tt (tt, tt) refl
      (refl, (refl, (refl, (refl, (refl, (refl, tt)))))) (omega arith)

-- A product whose first table has no record still gives one, without the fields of that table.
abbrev nobody : Table
nobody = table ("majorid" ∷ "sname" ∷ []) []

abbrev first_pair_of : OpenScan → Option (Bool × (Option Constant × Option Constant))
first_pair_of o = o.scan.next o.position >>= λ r.
    some (r.0, (o.scan.get_val r.1 "sname", o.scan.get_val r.1 "did"))

pairs_nobody :
    (open_product (opened nobody) (opened depts) >>= first_pair_of)
    ≡ some (true, (none, some (int_constant (pos 1))))
unfolding open_product next_pair lookup
pairs_nobody = refl
