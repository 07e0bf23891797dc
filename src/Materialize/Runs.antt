-- ===== src/Materialize/Runs.antt =====
-- The runs of src/main/java/simpledb/materialize/SortPlan.java, from the source to the last two.
use mathlib.Core.List.{Perm, append-nil, append_assoc}
use mathlib.Core.List.Perm
use database_system_swe.Base.{
  ℕ, zero, suc, ◌+◌, ◌<◌, ◌≤◌, ltb, Bool, true, false, Bool-cases, Option, some, List, All, [], ◌∷◌,
  ◌++◌, ◌≡◌, inl, inr, refl, sym, ap, subst, ◌∙◌, arith, length,
}
use database_system_swe.Log.Page.{◌>>=◌}
use database_system_swe.Materialize.SortPlan.{
  copy_first, split_from, merge_two_runs, do_a_merge_iteration, merge_runs, sorted_runs,
}
use database_system_swe.Materialize.Order.{IsOrder, IsSorted, concat}
use database_system_swe.Materialize.Merge.{Merged, merge_two_runs-Merged, below_each}

module _ {A : Type 0} (less : A → A → Option Bool) (P : A → Type 0) (o : IsOrder less P) where
  -- Runs: sorted, of records that can be compared.
  abbrev pub IsRun : List A → Type 0
  IsRun run = All P run × IsSorted o.before run

  -- The source split, with a first run that begins with the record `a`.
  record Split (a : A) (src : List A) (r : Option (List (List A))) : Type 0 where
    run : List A
    runs : List (List A)
    splits : r ≡ some ((a ∷ run) ∷ runs)
    order : run ++ concat runs ≡ src
    is_run : IsRun (a ∷ run)
    are_runs : All IsRun runs

  split_new :
      (a b : A) (src : List A)
      → less b a ≡ some true
      → split_from less a (b ∷ src) ≡ (split_from less b src >>= λ runs. some ((a ∷ []) ∷ runs))
  unfolding split_from
  split_new a b src e = rw e refl

  split_same :
      (a b : A) (src : List A)
      → less b a ≡ some false
      → split_from less a (b ∷ src)
        ≡ (split_from less b src >>= λ runs. some (copy_first less a runs))
  unfolding split_from
  split_same a b src e = rw e refl

  split_from-Split : (a : A) (src : List A) → P a → All P src → Split a src (split_from less a src)
  unfolding split_from
  split_from-Split a [] pa p = record {
    run = [];
    runs = [];
    splits = refl;
    order = refl;
    is_run = ((pa, tt), (tt, tt));
    are_runs = tt;
  }
  split_from-Split a (b ∷ src) pa (pb, p) =
      let later : Split b src (split_from less b src) = split_from-Split b src pb p in
      elim (Bool-cases (o.before b a)) [
        | inl lt ↦ record {
          run = [];
          runs = (b ∷ later.run) ∷ later.runs;
          splits =
              split_new a b src (o.compares b a pb pa ∙ ap (λ c. some c) lt)
              ∙ ap (λ x. x >>= λ runs. some ((a ∷ []) ∷ runs)) later.splits;
          order = ap (λ l. b ∷ l) later.order;
          is_run = ((pa, tt), (tt, tt));
          are_runs = (later.is_run, later.are_runs);
        }
        | inr ge ↦ record {
          run = b ∷ later.run;
          runs = later.runs;
          splits =
              split_same a b src (o.compares b a pb pa ∙ ap (λ c. some c) ge)
              ∙ ap (λ x. x >>= λ runs. some (copy_first less a runs)) later.splits;
          order = ap (λ l. b ∷ l) later.order;
          is_run = (
            (pa, later.is_run.0),
            (
              (
                ge,
                below_each less P o a b later.run pa pb (later.is_run.0.1) ge (later.is_run.1.0),
              ),
              later.is_run.1,
            ),
          );
          are_runs = later.are_runs;
        }
      ]

  -- Some runs made of others, at most half of them, rounded up.
  record Iterated (runs : List (List A)) (r : Option (List (List A))) : Type 0 where
    result : List (List A)
    iterates : r ≡ some result
    perm : Perm (concat result) (concat runs)
    are_runs : All IsRun result
    fewer : length result + length result ≤ suc (length runs)
    some_left : 0 < length runs → 0 < length result

  Perm-append : (l l' m m' : List A) → Perm l l' → Perm m m' → Perm (l ++ m) (l' ++ m')
  Perm-append l l' m m' p q = Perm.append p q

  do_a_merge_iteration-Iterated :
      (runs : List (List A)) → All IsRun runs → Iterated runs (do_a_merge_iteration less runs)
  unfolding do_a_merge_iteration
  do_a_merge_iteration-Iterated [] h = record {
    result = [];
    iterates = refl;
    perm = Perm.refl [];
    are_runs = tt;
    fewer = omega arith;
    some_left = λ lt. lt;
  }
  do_a_merge_iteration-Iterated (p ∷ []) h = record {
    result = p ∷ [];
    iterates = refl;
    perm = Perm.refl (p ++ []);
    are_runs = h;
    fewer = omega arith;
    some_left = λ lt. lt;
  }
  do_a_merge_iteration-Iterated (p1 ∷ p2 ∷ runs) ((t1, s1), ((t2, s2), h)) =
      let m : Merged less P o p1 p2 (merge_two_runs less p1 p2) =
        merge_two_runs-Merged less P o p1 p2 t1 t2 s1 s2 in
      let it : Iterated runs (do_a_merge_iteration less runs) =
        do_a_merge_iteration-Iterated runs h in
      record {
        result = m.dest ∷ it.result;
        iterates =
            ap
              (λ x.
                x >>= λ merged. do_a_merge_iteration less runs >>= λ result. some (merged ∷ result))
              m.merges
            ∙ ap (λ x. x >>= λ result. some (m.dest ∷ result)) it.iterates;
        perm =
            subst (Perm (m.dest ++ concat it.result)) (append_assoc p1 p2 (concat runs))
              (Perm-append m.dest (p1 ++ p2) (concat it.result) (concat runs) m.perm it.perm);
        are_runs = ((m.keeps P t1 t2, m.sorted), it.are_runs);
        fewer = omega (arith, it.fewer);
        some_left = λ lt. omega arith;
      }

  -- The runs that are left: at most two.
  pub record Left (runs : List (List A)) (r : Option (List (List A))) : Type 0 where
    pub result : List (List A)
    pub merges : r ≡ some result
    pub perm : Perm (concat result) (concat runs)
    pub are_runs : All IsRun result
    pub few : length result ≤ 2
    pub some_left : 0 < length runs → 0 < length result

  merge_more :
      (fuel : ℕ) (runs result : List (List A))
      → 2 < length runs
      → do_a_merge_iteration less runs ≡ some result
      → merge_runs less (suc fuel) runs ≡ merge_runs less fuel result
  unfolding merge_runs
  merge_more fuel runs result lt e = ground (arith, lt, e)

  merge_end :
      (fuel : ℕ) (runs : List (List A))
      → length runs ≤ 2
      → merge_runs less (suc fuel) runs ≡ some runs
  unfolding merge_runs
  merge_end fuel runs le = ground (arith, le)

  merge_runs-Left :
      (fuel : ℕ) (runs : List (List A))
      → length runs < fuel
      → All IsRun runs
      → Left runs (merge_runs less fuel runs)
  merge_runs-Left zero runs lt h = absurd (omega arith)
  merge_runs-Left (suc fuel) runs lt h = elim (Bool-cases (ltb 2 (length runs))) [
    | inl many ↦
        let it : Iterated runs (do_a_merge_iteration less runs) =
          do_a_merge_iteration-Iterated runs h in
        let left : Left it.result (merge_runs less fuel it.result) =
          merge_runs-Left fuel it.result (ground (arith, many, it.fewer)) it.are_runs in
        record {
          result = left.result;
          merges = merge_more fuel runs it.result (ground (arith, many)) it.iterates ∙ left.merges;
          perm = Perm.trans left.perm it.perm;
          are_runs = left.are_runs;
          few = left.few;
          some_left = λ lt'. left.some_left (it.some_left lt');
        }
    | inr few ↦ record {
      result = runs;
      merges = merge_end fuel runs (ground (arith, few));
      perm = Perm.refl (concat runs);
      are_runs = h;
      few = ground (arith, few);
      some_left = λ lt'. lt';
    }
  ]

  -- If the records of a source that is not empty are compared by an order, `open` gives one or two
  -- sorted runs of the same records to SortScan.
  pub sorted_runs-Left :
      (a : A) (src : List A) → All P (a ∷ src) → Left ((a ∷ src) ∷ []) (sorted_runs less (a ∷ src))
  unfolding sorted_runs
  sorted_runs-Left a src (pa, p) =
      let s : Split a src (split_from less a src) = split_from-Split a src pa p in
      let runs : List (List A) = (a ∷ s.run) ∷ s.runs in
      let left : Left runs (merge_runs less (suc (length runs)) runs) =
        merge_runs-Left (suc (length runs)) runs (omega arith) (s.is_run, s.are_runs) in
      record {
        result = left.result;
        merges = ap (λ x. x >>= λ rs. merge_runs less (suc (length rs)) rs) s.splits ∙ left.merges;
        perm =
            subst (Perm (concat left.result)) (ap (λ l. a ∷ l) (s.order ∙ sym (append-nil src)))
              left.perm;
        are_runs = left.are_runs;
        few = left.few;
        some_left = λ lt. left.some_left (omega arith);
      }
