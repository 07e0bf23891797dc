-- ===== src/Materialize/Scan.antt =====
-- The loop over a scan of src/main/java/simpledb/materialize/SortScan.java.
use mathlib.Core.List.Perm
use database_system_swe.Base.{
  ℕ, zero, suc, ◌+◌, ◌<◌, Bool, true, false, Bool-cases, Option, some, List, All, [], ◌∷◌, ◌≡◌, inl,
  inr, refl, ap, ◌∙◌, arith, length,
}
use database_system_swe.Log.Page.{◌>>=◌}
use database_system_swe.Materialize.SortScan.{
  SortScan, at_s1, at_s2, more, move_on, next, get, read_scan,
}
use database_system_swe.Materialize.Order.{IsOrder, IsSorted}
use database_system_swe.Materialize.Merge.{Merged, take_first, take_second}

-- The scan with these records from the current ones on.
abbrev pub ready : {A : Type 0} → SortScan A → List A → List A → SortScan A
ready sc l l' = record sc { s1 = l; s2 = l'; hasmore1 = more l; hasmore2 = more l' }

-- The scan is before its first record, or on one, and these are the records behind it.
abbrev pub IsAt : {A : Type 0} → List A → List A → SortScan A → Type 0
IsAt l l' sc = move_on sc ≡ ready sc l l'

module _ {A : Type 0} (less : A → A → Option Bool) (P : A → Type 0) (o : IsOrder less P) where
  -- The scan on the first record of a run.
  abbrev on1 : SortScan A → List A → List A → SortScan A
  on1 sc l l' = record (ready sc l l') { current = at_s1 }

  abbrev on2 : SortScan A → List A → List A → SortScan A
  on2 sc l l' = record (ready sc l l') { current = at_s2 }

  next_end : (sc : SortScan A) → IsAt [] [] sc → next less sc ≡ some (false, ready sc [] [])
  unfolding next
  next_end sc e = rw e refl

  next_only1 :
      (sc : SortScan A) (a : A) (l : List A)
      → IsAt (a ∷ l) [] sc
      → next less sc ≡ some (true, on1 sc (a ∷ l) [])
  unfolding next
  next_only1 sc a l e = rw e refl

  next_only2 :
      (sc : SortScan A) (b : A) (l' : List A)
      → IsAt [] (b ∷ l') sc
      → next less sc ≡ some (true, on2 sc [] (b ∷ l'))
  unfolding next
  next_only2 sc b l' e = rw e refl

  next_first :
      (sc : SortScan A) (a b : A) (l l' : List A)
      → IsAt (a ∷ l) (b ∷ l') sc
      → less a b ≡ some true
      → next less sc ≡ some (true, on1 sc (a ∷ l) (b ∷ l'))
  unfolding next
  next_first sc a b l l' e lt = rw e (rw lt refl)

  next_second :
      (sc : SortScan A) (a b : A) (l l' : List A)
      → IsAt (a ∷ l) (b ∷ l') sc
      → less a b ≡ some false
      → next less sc ≡ some (true, on2 sc (a ∷ l) (b ∷ l'))
  unfolding next
  next_second sc a b l l' e ge = rw e (rw ge refl)

  read_end :
      (fuel : ℕ) (sc sc' : SortScan A)
      → next less sc ≡ some (false, sc')
      → read_scan less (suc fuel) sc ≡ some []
  unfolding read_scan
  read_end fuel sc sc' e = rw e refl

  read_more :
      (fuel : ℕ) (sc sc' : SortScan A) (a : A)
      → next less sc ≡ some (true, sc')
      → get sc' ≡ some a
      → read_scan less (suc fuel) sc ≡ (read_scan less fuel sc' >>= λ l. some (a ∷ l))
  unfolding read_scan
  read_more fuel sc sc' a e g = rw e (rw g refl)

  only_first :
      (a : A) (l : List A) (r r' : Option (List A))
      → IsSorted o.before (a ∷ l)
      → r ≡ (r' >>= λ dest. some (a ∷ dest))
      → Merged less P o l [] r'
      → Merged less P o (a ∷ l) [] r
  only_first a l r r' (least, s) e m = record {
    dest = a ∷ m.dest;
    merges = e ∙ ap (λ x. x >>= λ dest. some (a ∷ dest)) m.merges;
    perm = Perm.cons a m.perm;
    keeps = λ Q (q, h) h'. (q, m.keeps Q h h');
    sorted = (m.keeps (λ z. o.before z a ≡ false) least tt, m.sorted);
  }

  only_second :
      (b : A) (l' : List A) (r r' : Option (List A))
      → IsSorted o.before (b ∷ l')
      → r ≡ (r' >>= λ dest. some (b ∷ dest))
      → Merged less P o [] l' r'
      → Merged less P o [] (b ∷ l') r
  only_second b l' r r' (least, s) e m = record {
    dest = b ∷ m.dest;
    merges = e ∙ ap (λ x. x >>= λ dest. some (b ∷ dest)) m.merges;
    perm = Perm.cons b m.perm;
    keeps = λ Q h (q, h'). (q, m.keeps Q h h');
    sorted = (m.keeps (λ z. o.before z b ≡ false) tt least, m.sorted);
  }

  -- If the records are compared by an order, iterating two sorted runs gives a sorted list of their
  -- records.
  pub read_scan-Merged :
      (fuel : ℕ) (sc : SortScan A) (l l' : List A)
      → IsAt l l' sc
      → length l + length l' < fuel
      → All P l
      → All P l'
      → IsSorted o.before l
      → IsSorted o.before l'
      → Merged less P o l l' (read_scan less fuel sc)
  read_scan-Merged zero sc l l' e lt p p' s s' = absurd (omega arith)
  read_scan-Merged (suc fuel) sc [] [] e lt p p' s s' = record {
    dest = [];
    merges = read_end fuel sc (ready sc [] []) (next_end sc e);
    perm = Perm.refl [];
    keeps = λ Q q q'. tt;
    sorted = tt;
  }
  read_scan-Merged (suc fuel) sc (a ∷ l) [] e lt (pa, p) p' s s' =
      only_first a l (read_scan less (suc fuel) sc) (read_scan less fuel (on1 sc (a ∷ l) [])) s
        (read_more fuel sc (on1 sc (a ∷ l) []) a (next_only1 sc a l e) refl)
        (read_scan-Merged fuel (on1 sc (a ∷ l) []) l [] refl (omega arith) p tt (s.1) tt)
  read_scan-Merged (suc fuel) sc [] (b ∷ l') e lt p (pb, p') s s' =
      only_second b l' (read_scan less (suc fuel) sc) (read_scan less fuel (on2 sc [] (b ∷ l'))) s'
        (read_more fuel sc (on2 sc [] (b ∷ l')) b (next_only2 sc b l' e) refl)
        (read_scan-Merged fuel (on2 sc [] (b ∷ l')) [] l' refl (omega arith) tt p' tt (s'.1))
  read_scan-Merged (suc fuel) sc (a ∷ l) (b ∷ l') e lt (pa, p) (pb, p') s s' =
      elim (Bool-cases (o.before a b)) [
        | inl before ↦
            let sc' : SortScan A = on1 sc (a ∷ l) (b ∷ l') in
            take_first less P o a b l l' (read_scan less (suc fuel) sc) (read_scan less fuel sc') pa
              pb p' s s' before
              (read_more fuel sc sc' a
                (next_first sc a b l l' e (o.compares a b pa pb ∙ ap (λ c. some c) before)) refl)
              (read_scan-Merged fuel sc' l (b ∷ l') refl (omega arith) p (pb, p') (s.1) s')
        | inr not_before ↦
            let sc' : SortScan A = on2 sc (a ∷ l) (b ∷ l') in
            take_second less P o a b l l' (read_scan less (suc fuel) sc) (read_scan less fuel sc')
              pa pb p s s' not_before
              (read_more fuel sc sc' b
                (next_second sc a b l l' e (o.compares a b pa pb ∙ ap (λ c. some c) not_before))
                refl)
              (read_scan-Merged fuel sc' (a ∷ l) l' refl (omega arith) (pa, p) p' s (s'.1))
      ]
