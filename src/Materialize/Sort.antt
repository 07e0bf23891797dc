-- ===== src/Materialize/Sort.antt =====
-- A source that src/main/java/simpledb/materialize/SortPlan.java sorts, from `open` to its last record.
use mathlib.Core.List.{Perm, append-nil, foldr}
use mathlib.Core.List.Perm
use native.Mathlib.Nat.{ℕ_set}
use database_system_swe.Base.{
  ℕ, suc, ◌<◌, ◌≤◌, Bool, false, Option, none, some, String, List, All, [], ◌∷◌, ◌++◌, ◌≡◌, refl,
  sym, ap, subst, ◌∙◌, arith, length, length-append,
}
use database_system_swe.Log.Page.{◌>>=◌}
use database_system_swe.Materialize.SortPlan.{sorted_runs, open_sort}
use database_system_swe.Materialize.SortScan.{SortScan, nowhere, more, new_scan, read_scan}
use database_system_swe.Materialize.Order.{IsOrder, IsSorted, concat}
use database_system_swe.Record.Layout.{FieldType}
use database_system_swe.Materialize.RecordComparator.{Row, less_by, names, HasColumns, answered}
use database_system_swe.Materialize.RowOrder.{row_order}
use database_system_swe.Materialize.Merge.{Merged}
use database_system_swe.Materialize.Runs.{IsRun, Left, sorted_runs-Left}
use database_system_swe.Materialize.Scan.{read_scan-Merged}

length-foldr : {A : Type 0} (l : List A) → length l ≡ foldr (λ a n. suc n) 0 l
length-foldr [] = refl
length-foldr (a ∷ l) = ap suc (length-foldr l)

length-Perm : {A : Type 0} (l l' : List A) → Perm l l' → length l ≡ length l'
length-Perm l l' p =
    length-foldr l ∙ Perm.foldr-eq ℕ_set (λ a n. suc n) (λ a b n. refl) p 0 ∙ sym (length-foldr l')

module _ {A : Type 0} (less : A → A → Option Bool) (P : A → Type 0) (o : IsOrder less P) where
  -- What reading a scan of runs with these records gives.
  Read : ℕ → List (List A) → Type 0
  Read fuel runs =
      (dest : List A) × ((new_scan runs >>= λ sc. read_scan less fuel sc) ≡ some dest)
      × Perm dest (concat runs)
      × IsSorted o.before dest

  merged_by_scan :
      (fuel : ℕ) (runs : List (List A))
      → All (IsRun less P o) runs
      → length runs ≤ 2
      → 0 < length runs
      → length (concat runs) < fuel
      → Read fuel runs
  unfolding Read
  merged_by_scan fuel [] h few lt enough = absurd (omega arith)
  merged_by_scan fuel (run ∷ []) ((p, s), h) few lt enough =
      let sc : SortScan A = record {
        run1 = run;
        run2 = [];
        s1 = run;
        s2 = [];
        hasmore1 = more run;
        hasmore2 = false;
        current = nowhere;
        savedposition = none;
      } in
      let m : Merged less P o run [] (read_scan less fuel sc) =
        read_scan-Merged less P o fuel sc run [] refl (omega (arith, enough, length-append run []))
          p tt s tt in
      (m.dest, m.merges, m.perm, m.sorted)
  merged_by_scan fuel (run ∷ run' ∷ []) ((p, s), ((p', s'), h)) few lt enough =
      let sc : SortScan A = record {
        run1 = run;
        run2 = run';
        s1 = run;
        s2 = run';
        hasmore1 = more run;
        hasmore2 = more run';
        current = nowhere;
        savedposition = none;
      } in
      let m : Merged less P o run run' (read_scan less fuel sc) =
        read_scan-Merged less P o fuel sc run run' refl
          (omega (arith, enough, length-append run (run' ++ []), length-append run' [])) p p' s
          s' in
      (
        m.dest,
        m.merges,
        subst (λ l. Perm m.dest (run ++ l)) (sym (append-nil run')) m.perm,
        m.sorted,
      )
  merged_by_scan fuel (run ∷ run' ∷ run'' ∷ runs) h few lt enough = absurd (omega arith)

  -- If a source has a record, and all its records are compared by an order without an exception, then
  -- `open` and the scan that it gives end without one, after as many records as the source has, which
  -- are those of the source in order.
  pub read_scan-open_sort :
      (a : A) (src : List A) (fuel : ℕ)
      → All P (a ∷ src)
      → length (a ∷ src) < fuel
      → (dest : List A) × ((open_sort less (a ∷ src) >>= λ sc. read_scan less fuel sc) ≡ some dest)
        × Perm dest (a ∷ src)
        × IsSorted o.before dest
  unfolding open_sort Read
  read_scan-open_sort a src fuel p lt =
      let left : Left less P o ((a ∷ src) ∷ []) (sorted_runs less (a ∷ src)) =
        sorted_runs-Left less P o a src p in
      let same : Perm (concat left.result) (a ∷ src) =
        subst (Perm (concat left.result)) (append-nil (a ∷ src)) left.perm in
      let (dest, reads, perm, sorted) =
        merged_by_scan fuel left.result left.are_runs left.few (left.some_left (omega arith))
          (omega (arith, lt, length-Perm (concat left.result) (a ∷ src) same)) in
      (
        dest,
        ap (λ x. (x >>= λ runs. new_scan runs) >>= λ sc. read_scan less fuel sc) left.merges
            ∙ reads,
        Perm.trans perm same,
        sorted,
      )

-- If a source has a record, and all its records have values of one type in each sort field, then
-- sorting by these fields and reading the scan to its end throws no exception, ends after as many
-- records as the source has, and gives its records so that none is before an earlier one.
pub open_sort_gives_rows :
    (cols : List (String × FieldType)) (row : Row) (src : List Row) (fuel : ℕ)
    → All (HasColumns cols) (row ∷ src)
    → length (row ∷ src) < fuel
    → (dest : List Row) × ((open_sort (less_by (names cols)) (row ∷ src) >>= λ sc.
          read_scan (less_by (names cols)) fuel sc)
        ≡ some dest)
      × Perm dest (row ∷ src)
      × IsSorted (λ r r'. answered (less_by (names cols) r r')) dest
open_sort_gives_rows cols row src fuel h lt =
    read_scan-open_sort (less_by (names cols)) (HasColumns cols) (row_order cols) row src fuel h lt
