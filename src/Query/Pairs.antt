-- ===== src/Query/Pairs.antt =====
-- What src/main/java/simpledb/query/ProductScan.java reads of two scans.
use database_system_swe.Base.{
  Bool, true, false, some, ap, ◌∙◌, List, [], ◌∷◌, ◌++◌, map, ◌≡◌, refl, String,
}
use database_system_swe.Query.Predicate.{Values}
use database_system_swe.Query.Scan.{Scan, first_pair, next_pair, product_scan}
use database_system_swe.Query.Reads.{Gives, at_end, at_record, Reads}
use database_system_swe.Query.Algebra.{join, cross_rows}

module _ {S1 S2 : Type 0} (s1 : Scan S1) (s2 : Scan S2) where
  -- `next` of the product within the second scan.
  next_within :
      (p1 : S1) (p2 p2' : S2)
      → s2.next p2 ≡ some (true, p2')
      → next_pair s1 s2 (p1, p2) ≡ some (true, (p1, p2'))
  unfolding next_pair
  next_within p1 p2 p2' e = rw e refl

  -- `next` at the end of the second scan, which starts again if the first has a record left.
  next_round :
      (p1 p1' : S1) (p2 p2' p3 p3' : S2) (b : Bool)
      → s2.next p2 ≡ some (false, p2')
      → s2.before_first p2' ≡ some p3
      → s2.next p3 ≡ some (true, p3')
      → s1.next p1 ≡ some (b, p1')
      → next_pair s1 s2 (p1, p2) ≡ some (b, (p1', p3'))
  unfolding next_pair
  next_round p1 p1' p2 p2' p3 p3' b e2 e3 e4 e1 = rw e2 (rw e3 (rw e4 (rw e1 refl)))

  next_no_round :
      (p1 : S1) (p2 p2' p3 p3' : S2)
      → s2.next p2 ≡ some (false, p2')
      → s2.before_first p2' ≡ some p3
      → s2.next p3 ≡ some (false, p3')
      → next_pair s1 s2 (p1, p2) ≡ some (false, (p1, p3'))
  unfolding next_pair
  next_no_round p1 p2 p2' p3 p3' e2 e3 e4 = rw e2 (rw e3 (rw e4 refl))

  cross_nothing : (has : String → Bool) (l1 : List Values) → cross_rows has l1 [] ≡ []
  cross_nothing has [] = refl
  cross_nothing has (row ∷ l1) = cross_nothing has l1

  get_val-join :
      (p1 : S1) (p2 : S2) (row1 row2 : Values)
      → s1.get_val p1 ≡ row1
      → s2.get_val p2 ≡ row2
      → (product_scan s1 s2).get_val (p1, p2) ≡ join s1.has_field row1 row2
  get_val-join p1 p2 row1 row2 e1 e2 =
      ap (λ row. join s1.has_field row (s2.get_val p2)) e1 ∙ ap (join s1.has_field row1) e2

  last_round :
      (p1 p1' : S1) (p2 p2' p3 : S2) (l2 : List Values)
      → s1.next p1 ≡ some (false, p1')
      → s2.next p2 ≡ some (false, p2')
      → s2.before_first p2' ≡ some p3
      → Gives s2 p3 l2
      → Gives (product_scan s1 s2) (p1, p2) []
  last_round p1 p1' p2 p2' p3 l2 e1 e2 e3 (at_end p p3' e4) =
      at_end (p1, p2) (p1, p3') (next_no_round p1 p2 p2' p3 p3' e2 e3 e4)
  last_round p1 p1' p2 p2' p3 l2 e1 e2 e3 (at_record p p3' row2 l e4 row_e g) =
      at_end (p1, p2) (p1', p3') (next_round p1 p1' p2 p2' p3 p3' false e2 e3 e4 e1)

  -- The records of the second scan beside one of the first, and then what the product gives from
  -- the end of the second scan on.
  row-Gives :
      (l others : List Values) (p1 : S1) (p2 : S2) (row : Values)
      → ((p p' : S2) → s2.next p ≡ some (false, p') → Gives (product_scan s1 s2) (p1, p) others)
      → s1.get_val p1 ≡ row
      → Gives s2 p2 l
      → Gives (product_scan s1 s2) (p1, p2) (map (join s1.has_field row) l ++ others)
  row-Gives l others p1 p2 row go_on row_e (at_end p p' e) = go_on p p' e
  row-Gives l others p1 p2 row go_on row_e (at_record p p' row2 l' e row2_e g) =
      at_record (p1, p2) (p1, p') (join s1.has_field row row2)
        (map (join s1.has_field row) l' ++ others) (next_within p1 p2 p' e)
        (get_val-join p1 p' row row2 row_e row2_e) (row-Gives l' others p1 p' row go_on row_e g)

  one_round :
      (p1 p1' : S1) (p2 p2' p3 : S2) (row : Values) (l1 l : List Values)
      → s1.next p1 ≡ some (true, p1')
      → s1.get_val p1' ≡ row
      → s2.next p2 ≡ some (false, p2')
      → s2.before_first p2' ≡ some p3
      → ((p p' : S2)
          → s2.next p ≡ some (false, p')
          → Gives (product_scan s1 s2) (p1', p) (cross_rows s1.has_field l1 l))
      → Gives s2 p3 l
      → Gives (product_scan s1 s2) (p1, p2) (cross_rows s1.has_field (row ∷ l1) l)
  one_round p1 p1' p2 p2' p3 row l1 l e1 row_e e2 e3 go_on (at_end p p3' e4) =
      rw (cross_nothing s1.has_field l1)
        (at_end (p1, p2) (p1, p3') (next_no_round p1 p2 p2' p3 p3' e2 e3 e4))
  one_round p1 p1' p2 p2' p3 row l1 l e1 row_e e2 e3 go_on (at_record p p3' row2 l' e4 row2_e g) =
      at_record (p1, p2) (p1', p3') (join s1.has_field row row2)
        (map (join s1.has_field row) l' ++ cross_rows s1.has_field l1 l)
        (next_round p1 p1' p2 p2' p3 p3' true e2 e3 e4 e1)
        (get_val-join p1' p3' row row2 row_e row2_e)
        (row-Gives l' (cross_rows s1.has_field l1 l) p1' p3' row go_on row_e g)

  module _ (l2 : List Values) (reads : Reads s2 l2) where
    -- At the end of the second scan, with `l1` left in the first one.
    rounds-Gives :
        (l1 : List Values) (p1 : S1) (p p' : S2)
        → Gives s1 p1 l1
        → s2.next p ≡ some (false, p')
        → Gives (product_scan s1 s2) (p1, p) (cross_rows s1.has_field l1 l2)
    rounds-Gives l1 p1 p p' (at_end p0 p1' e1) e =
        let (p3, e3, g3) = reads p' in last_round p1 p1' p p' p3 l2 e1 e e3 g3
    rounds-Gives l1 p1 p p' (at_record p0 p1' row l1' e1 row_e g1) e =
        let (p3, e3, g3) = reads p' in
        one_round p1 p1' p p' p3 row l1' l2 e1 row_e e e3
          (λ p4 p4' e4. rounds-Gives l1' p1' p4 p4' g1 e4) g3

  first_round :
      (p1 p1' : S1) (p2 p2' : S2) (row : Values) (l1 l2 : List Values)
      → s1.before_first p1 ≡ some p1'
      → s2.before_first p2 ≡ some p2'
      → Reads s2 l2
      → Gives s1 p1' (row ∷ l1)
      → Gives s2 p2' l2
      → (p : S1 × S2) × (first_pair s1 s2 (p1, p2) ≡ some p)
        × Gives (product_scan s1 s2) p (cross_rows s1.has_field (row ∷ l1) l2)
  first_round p1 p1' p2 p2' row l1 l2 e1 e2 reads (at_record p p3 row0 l0 e row_e g1) g2 = (
    (p3, p2'),
    rw e1 (rw e (rw e2 refl)),
    row-Gives l2 (cross_rows s1.has_field l1 l2) p3 p2' row
        (λ p4 p4' e4. rounds-Gives l2 reads l1 p3 p4 p4' g1 e4) row_e g2,
  )

  pub product-Reads :
      (row : Values) (l1 l2 : List Values)
      → Reads s1 (row ∷ l1)
      → Reads s2 l2
      → Reads (product_scan s1 s2) (cross_rows s1.has_field (row ∷ l1) l2)
  product-Reads row l1 l2 reads1 reads2 (p1, p2) =
      let (p1', e1, g1) = reads1 p1 in
      let (p2', e2, g2) = reads2 p2 in first_round p1 p1' p2 p2' row l1 l2 e1 e2 reads2 g1 g2
