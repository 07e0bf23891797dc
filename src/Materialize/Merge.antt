-- ===== src/Materialize/Merge.antt =====
-- `mergeTwoRuns` of src/main/java/simpledb/materialize/SortPlan.java on sorted runs.
use mathlib.Core.List.{Perm, perm_middle, append-nil}
use mathlib.Core.List.Perm
use database_system_swe.Base.{
  Bool, true, false, Bool-cases, Option, some, List, All, [], ◌∷◌, ◌++◌, ◌≡◌, inl, inr, refl, sym,
  ap, subst, ◌∙◌,
}
use database_system_swe.Log.Page.{◌>>=◌}
use database_system_swe.Materialize.SortPlan.{merge_into, merge_two_runs}
use database_system_swe.Materialize.Order.{IsOrder, IsLeast, IsSorted}

module _ {A : Type 0} (less : A → A → Option Bool) (P : A → Type 0) (o : IsOrder less P) where
  -- Two runs merged: one run of the same records.
  pub record Merged (l l' : List A) (r : Option (List A)) : Type 1 where
    pub dest : List A
    pub merges : r ≡ some dest
    pub perm : Perm dest (l ++ l')
    pub keeps : (Q : A → Type 0) → All Q l → All Q l' → All Q dest
    pub sorted : IsSorted o.before dest

  -- What no record is before, is before none that it is not after.
  pub below_each :
      (a b : A) (l : List A)
      → P a
      → P b
      → All P l
      → o.before b a ≡ false
      → IsLeast o.before b l
      → IsLeast o.before a l
  below_each a b [] pa pb pl e h = tt
  below_each a b (x ∷ l) pa pb (px, pl) e (h, hs) =
      (o.trans x b a px pb pa h e, below_each a b l pa pb pl e hs)

  merge_into_first :
      (a b : A) (src1 src2 : List A) (rest : List A → Option (List A))
      → less a b ≡ some true
      → merge_into less a src1 rest (b ∷ src2) ≡ (rest (b ∷ src2) >>= λ dest. some (a ∷ dest))
  unfolding merge_into
  merge_into_first a b src1 src2 rest e = rw e refl

  merge_into_second :
      (a b : A) (src1 src2 : List A) (rest : List A → Option (List A))
      → less a b ≡ some false
      → merge_into less a src1 rest (b ∷ src2)
        ≡ (merge_into less a src1 rest src2 >>= λ dest. some (b ∷ dest))
  unfolding merge_into
  merge_into_second a b src1 src2 rest e = rw e refl

  pub take_first :
      (a b : A) (src1 src2 : List A) (r r' : Option (List A))
      → P a
      → P b
      → All P src2
      → IsSorted o.before (a ∷ src1)
      → IsSorted o.before (b ∷ src2)
      → o.before a b ≡ true
      → r ≡ (r' >>= λ dest. some (a ∷ dest))
      → Merged src1 (b ∷ src2) r'
      → Merged (a ∷ src1) (b ∷ src2) r
  take_first a b src1 src2 r r' pa pb p2 (least1, s1) (least2, s2) lt e m =
      let after : o.before b a ≡ false = o.asym a b pa pb lt in
      record {
        dest = a ∷ m.dest;
        merges = e ∙ ap (λ x. x >>= λ dest. some (a ∷ dest)) m.merges;
        perm = Perm.cons a m.perm;
        keeps = λ Q (q, h) h'. (q, m.keeps Q h h');
        sorted = (
          m.keeps (λ z. o.before z a ≡ false) least1
              (after, below_each a b src2 pa pb p2 after least2),
          m.sorted,
        );
      }

  pub take_second :
      (a b : A) (src1 src2 : List A) (r r' : Option (List A))
      → P a
      → P b
      → All P src1
      → IsSorted o.before (a ∷ src1)
      → IsSorted o.before (b ∷ src2)
      → o.before a b ≡ false
      → r ≡ (r' >>= λ dest. some (b ∷ dest))
      → Merged (a ∷ src1) src2 r'
      → Merged (a ∷ src1) (b ∷ src2) r
  take_second a b src1 src2 r r' pa pb p1 (least1, s1) (least2, s2) ge e m = record {
    dest = b ∷ m.dest;
    merges = e ∙ ap (λ x. x >>= λ dest. some (b ∷ dest)) m.merges;
    perm = Perm.trans (Perm.cons b m.perm) (Perm.symm (perm_middle (a ∷ src1) src2));
    keeps = λ Q h (q, h'). (q, m.keeps Q h h');
    sorted = (
      m.keeps (λ z. o.before z b ≡ false) (ge, below_each b a src1 pb pa p1 ge least1) least2,
      m.sorted,
    );
  }

  merge_into-Merged :
      (a : A) (src1 : List A) (rest : List A → Option (List A)) (src2 : List A)
      → ((l : List A) → All P l → IsSorted o.before l → Merged src1 l (rest l))
      → All P (a ∷ src1)
      → All P src2
      → IsSorted o.before (a ∷ src1)
      → IsSorted o.before src2
      → Merged (a ∷ src1) src2 (merge_into less a src1 rest src2)
  unfolding merge_into
  merge_into-Merged a src1 rest [] h p1 p2 s1 s2 = record {
    dest = a ∷ src1;
    merges = refl;
    perm = subst (Perm (a ∷ src1)) (sym (append-nil (a ∷ src1))) (Perm.refl (a ∷ src1));
    keeps = λ Q q q'. q;
    sorted = s1;
  }
  merge_into-Merged a src1 rest (b ∷ src2) h (pa, p1) (pb, p2) s1 s2 =
      elim (Bool-cases (o.before a b)) [
        | inl lt ↦
            take_first a b src1 src2 (merge_into less a src1 rest (b ∷ src2)) (rest (b ∷ src2)) pa
              pb p2 s1 s2 lt
              (merge_into_first a b src1 src2 rest (o.compares a b pa pb ∙ ap (λ c. some c) lt))
              (h (b ∷ src2) (pb, p2) s2)
        | inr ge ↦
            take_second a b src1 src2 (merge_into less a src1 rest (b ∷ src2))
              (merge_into less a src1 rest src2) pa pb p1 s1 s2 ge
              (merge_into_second a b src1 src2 rest (o.compares a b pa pb ∙ ap (λ c. some c) ge))
              (merge_into-Merged a src1 rest src2 h (pa, p1) p2 s1 (s2.1))
      ]

  -- If the records are compared by an order, two sorted runs are merged to a sorted run of the same
  -- records.
  pub merge_two_runs-Merged :
      (src1 src2 : List A)
      → All P src1
      → All P src2
      → IsSorted o.before src1
      → IsSorted o.before src2
      → Merged src1 src2 (merge_two_runs less src1 src2)
  unfolding merge_two_runs
  merge_two_runs-Merged [] src2 p1 p2 s1 s2 = record {
    dest = src2;
    merges = refl;
    perm = Perm.refl src2;
    keeps = λ Q q q'. q';
    sorted = s2;
  }
  merge_two_runs-Merged (a ∷ src1) src2 p1 p2 s1 s2 =
      merge_into-Merged a src1 (λ l. merge_two_runs less src1 l) src2
        (λ l p s. merge_two_runs-Merged src1 l (p1.1) p (s1.1) s) p1 p2 s1 s2
