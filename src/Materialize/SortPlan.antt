-- ===== src/Materialize/SortPlan.antt =====
-- src/main/java/simpledb/materialize/SortPlan.java over any type of records. A temporary table is
-- the list of its records, to which `copy` adds one, and a scan the list of those from its current
-- record on. `less` is whether the comparator answers a negative number; an exception is `none`.
use database_system_swe.Base.{
  ℕ, zero, suc, ltb, Bool, true, false, Option, none, some, List, [], ◌∷◌, length,
}
use database_system_swe.Log.Page.{◌>>=◌}
use database_system_swe.Materialize.SortScan.{SortScan, new_scan}

module _ {A : Type 0} (less : A → A → Option Bool) where
  -- Puts a record before those of the first run.
  abbrev pub copy_first : A → List (List A) → List (List A)
  copy_first a [] = (a ∷ []) ∷ []
  copy_first a (run ∷ runs) = (a ∷ run) ∷ runs

  -- The loop of `splitIntoRuns`, from a record that is copied on: the runs that it makes, the one it
  -- is copied to first.
  unfoldable pub split_from : A → List A → Option (List (List A))
  split_from a [] = some ((a ∷ []) ∷ [])
  split_from a (b ∷ src) = less b a >>= λ new_run. split_from b src >>= λ runs.
      some (elim new_run [ true ↦ (a ∷ []) ∷ runs | false ↦ copy_first a runs ])

  -- `splitIntoRuns`
  abbrev pub split_into_runs : List A → Option (List (List A))
  split_into_runs [] = some []
  split_into_runs (a ∷ src) = split_from a src

  -- The loop of `mergeTwoRuns` at the record `a` of the first table; `rest` goes on behind it.
  unfoldable pub merge_into : A → List A → (List A → Option (List A)) → List A → Option (List A)
  merge_into a src1 rest [] = some (a ∷ src1)
  merge_into a src1 rest (b ∷ src2) = less a b >>= λ first. elim first [
    | true ↦ rest (b ∷ src2) >>= λ dest. some (a ∷ dest)
    | false ↦ merge_into a src1 rest src2 >>= λ dest. some (b ∷ dest)
  ]

  -- `mergeTwoRuns`; where a table ends, the other is copied to its end.
  unfoldable pub merge_two_runs : List A → List A → Option (List A)
  merge_two_runs [] src2 = some src2
  merge_two_runs (a ∷ src1) src2 = merge_into a src1 (λ l. merge_two_runs src1 l) src2

  -- `doAMergeIteration`
  unfoldable pub do_a_merge_iteration : List (List A) → Option (List (List A))
  do_a_merge_iteration [] = some []
  do_a_merge_iteration (p ∷ []) = some (p ∷ [])
  do_a_merge_iteration (p1 ∷ p2 ∷ runs) = merge_two_runs p1 p2 >>= λ merged.
      do_a_merge_iteration runs >>= λ result. some (merged ∷ result)

  -- The loop of `open`; `none` also where the fuel runs out.
  unfoldable pub merge_runs : ℕ → List (List A) → Option (List (List A))
  merge_runs zero runs = none
  merge_runs (suc fuel) runs = elim (ltb 2 (length runs)) [
    | true ↦ do_a_merge_iteration runs >>= λ runs'. merge_runs fuel runs'
    | false ↦ some runs
  ]

  -- The runs that `open` gives to SortScan.
  unfoldable pub sorted_runs : List A → Option (List (List A))
  sorted_runs src = split_into_runs src >>= λ runs. merge_runs (suc (length runs)) runs

  -- `open`
  unfoldable pub open_sort : List A → Option (SortScan A)
  open_sort src = sorted_runs src >>= λ runs. new_scan runs
