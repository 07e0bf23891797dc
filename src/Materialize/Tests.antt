-- ===== src/Materialize/Tests.antt =====
-- Runs of src/main/java/simpledb/materialize.
use mathlib.Core.List.{Perm}
use database_system_swe.Base.{
  string_eq, ℕ, pos, Option, none, some, List, All, [], ◌∷◌, String, ltb, ◌≡◌, refl, arith, Bool,
}
use database_system_swe.Base.Assoc.{lookup}
use database_system_swe.Log.Page.{◌>>=◌}
use database_system_swe.Record.Layout.{FieldType, integer, varchar}
use database_system_swe.Query.Constant.{int_constant, string_constant}
use database_system_swe.Materialize.SortPlan.{
  split_from, merge_into, merge_two_runs, do_a_merge_iteration, merge_runs, sorted_runs, open_sort,
}
use database_system_swe.Materialize.SortScan.{next, get, save_position, restore_position, read_scan}
use database_system_swe.Materialize.Order.{IsSorted}
use database_system_swe.Materialize.RecordComparator.{
  Row, compare_rows, less_by, HasColumns, names, answered,
}
use database_system_swe.Materialize.Sort.{open_sort_gives_rows}

-- A student: the year, then the name.
abbrev student : ℕ → List ℕ → Row
student year name = ("year", int_constant (pos year)) ∷ ("name", string_constant name) ∷ []

abbrev by_year : List (String × FieldType)
by_year = ("year", integer) ∷ ("name", varchar) ∷ []

abbrev students : List Row
students =
    student 3 (98 ∷ [])
    ∷ student 1 (99 ∷ [])
    ∷ student 3 (97 ∷ [])
    ∷ student 2 []
    ∷ student 1 []
    ∷ []

abbrev sorted_students : List Row
sorted_students =
    student 1 []
    ∷ student 1 (99 ∷ [])
    ∷ student 2 []
    ∷ student 3 (97 ∷ [])
    ∷ student 3 (98 ∷ [])
    ∷ []

sorts_students :
    (open_sort (less_by ("year" ∷ "name" ∷ [])) students >>= λ sc.
    read_scan (less_by ("year" ∷ "name" ∷ [])) 6 sc)
    ≡ some sorted_students
unfolding open_sort sorted_runs split_from merge_runs do_a_merge_iteration merge_two_runs merge_into
    read_scan next compare_rows lookup
sorts_students = refl

have_columns : All (HasColumns by_year) students
unfolding lookup
have_columns = (
  ((int_constant (pos 3), refl, tt), ((string_constant (98 ∷ []), refl, tt), tt)),
  (
    ((int_constant (pos 1), refl, tt), ((string_constant (99 ∷ []), refl, tt), tt)),
    (
      ((int_constant (pos 3), refl, tt), ((string_constant (97 ∷ []), refl, tt), tt)),
      (
        ((int_constant (pos 2), refl, tt), ((string_constant ([]), refl, tt), tt)),
        (((int_constant (pos 1), refl, tt), ((string_constant ([]), refl, tt), tt)), tt),
      ),
    ),
  ),
)

open_sort_gives_rows_example :
    (dest : List Row) × ((open_sort (less_by (names by_year)) students >>= λ sc.
    read_scan (less_by (names by_year)) 6 sc)
      ≡ some dest)
    × Perm dest students
    × IsSorted (λ r r'. answered (less_by (names by_year) r r')) dest
open_sort_gives_rows_example =
    open_sort_gives_rows by_year (student 3 (98 ∷ []))
      (student 1 (99 ∷ []) ∷ student 3 (97 ∷ []) ∷ student 2 [] ∷ student 1 [] ∷ []) 6 have_columns
      (omega arith)

abbrev less : ℕ → ℕ → Option Bool
less a b = some (ltb a b)

-- An empty source has no runs, and the constructor of the scan throws.
sorts_nothing : open_sort less [] ≡ none
unfolding open_sort sorted_runs merge_runs
sorts_nothing = refl

-- The position is saved at 1, and restored at 2: the scan then reads 2 and not 1.
restores_another_record :
    (open_sort less (1 ∷ 3 ∷ 2 ∷ []) >>= λ sc. next less sc >>= λ r.
    next less (save_position r.1) >>= λ r'. restore_position r'.1 >>= λ sc'. get sc')
    ≡ some 2
unfolding open_sort sorted_runs split_from merge_runs do_a_merge_iteration next
restores_another_record = refl
