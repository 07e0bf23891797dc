-- ===== src/Materialize/SortScan.antt =====
-- src/main/java/simpledb/materialize/SortScan.java over any type of records. `run1` and `run2` are the
-- tables that are scanned, the second one empty where `s2` is null; `s1` and `s2` are their records
-- from the current one on.
use database_system_swe.Base.{
  ℕ, zero, suc, Bool, true, false, not, ◌&&◌, Option, none, some, List, [], ◌∷◌, if◌then◌else◌,
}
use database_system_swe.Log.Page.{◌>>=◌}

pub data Current : Type 0 where
  nowhere : Current
  at_s1 : Current
  at_s2 : Current

abbrev pub more {ℓ} : {A : Type ℓ} → List A → Bool
more [] = false
more (a ∷ l) = true

-- `next` of a table's scan, behind the current record.
abbrev pub rest {ℓ} : {A : Type ℓ} → List A → List A
rest [] = []
rest (a ∷ l) = l

abbrev pub first {ℓ} : {A : Type ℓ} → List A → Option A
first [] = none
first (a ∷ l) = some a

pub record SortScan (A : Type 0) : Type 0 where
  pub run1 : List A
  pub run2 : List A
  pub s1 : List A
  pub s2 : List A
  pub hasmore1 : Bool
  pub hasmore2 : Bool
  pub current : Current
  pub savedposition : Option (List A × List A)

module _ {A : Type 0} where
  -- The constructor, which takes the first two runs; without a run it throws.
  abbrev pub new_scan : List (List A) → Option (SortScan A)
  new_scan [] = none
  new_scan (run ∷ []) = some (record {
    run1 = run;
    run2 = [];
    s1 = run;
    s2 = [];
    hasmore1 = more run;
    hasmore2 = false;
    current = nowhere;
    savedposition = none;
  })
  new_scan (run ∷ run' ∷ runs) = some (record {
    run1 = run;
    run2 = run';
    s1 = run;
    s2 = run';
    hasmore1 = more run;
    hasmore2 = more run';
    current = nowhere;
    savedposition = none;
  })

  abbrev pub before_first : SortScan A → SortScan A
  before_first sc = record sc {
    current = nowhere;
    s1 = sc.run1;
    hasmore1 = more sc.run1;
    s2 = sc.run2;
    hasmore2 = more sc.run2;
  }

  -- The start of `next`.
  abbrev pub move_on : SortScan A → SortScan A
  move_on sc = elim sc.current [
    | nowhere ↦ sc
    | at_s1 ↦ record sc { s1 = rest sc.s1; hasmore1 = more (rest sc.s1) }
    | at_s2 ↦ record sc { s2 = rest sc.s2; hasmore2 = more (rest sc.s2) }
  ]

  -- Compares the current records; a scan without one throws.
  abbrev pub compare_firsts : (A → A → Option Bool) → List A → List A → Option Bool
  compare_firsts less s1 s2 = first s1 >>= λ a. first s2 >>= λ b. less a b

  abbrev pub choose : (A → A → Option Bool) → SortScan A → Option (Bool × SortScan A)
  choose less sc =
      if not sc.hasmore1 && not sc.hasmore2
      then some (false, sc)
      else if sc.hasmore1 && sc.hasmore2
      then (compare_firsts less sc.s1 sc.s2 >>= λ before.
          some (true, record sc { current = if before then at_s1 else at_s2 }))
      else some (true, record sc { current = if sc.hasmore1 then at_s1 else at_s2 })

  unfoldable pub next : (A → A → Option Bool) → SortScan A → Option (Bool × SortScan A)
  next less sc = choose less (move_on sc)

  -- The record that `getVal` and the like read.
  abbrev pub get : SortScan A → Option A
  get sc = elim sc.current [ nowhere ↦ none | at_s1 ↦ first sc.s1 | at_s2 ↦ first sc.s2 ]

  abbrev pub save_position : SortScan A → SortScan A
  save_position sc = record sc { savedposition = some (sc.s1, sc.s2) }

  abbrev pub restore_position : SortScan A → Option (SortScan A)
  restore_position sc =
      sc.savedposition >>= λ saved. some (record sc { s1 = saved.0; s2 = saved.1 })

  -- A loop over a scan; `none` also where the fuel runs out.
  unfoldable pub read_scan : (A → A → Option Bool) → ℕ → SortScan A → Option (List A)
  read_scan less zero sc = none
  read_scan less (suc fuel) sc = next less sc >>= λ r. elim r.0 [
    | true ↦ get r.1 >>= λ a. read_scan less fuel r.1 >>= λ l. some (a ∷ l)
    | false ↦ some []
  ]
