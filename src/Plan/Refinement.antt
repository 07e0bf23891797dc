-- ===== src/Plan/Refinement.antt =====
-- What the opened plan of src/main/java/simpledb/plan/BasicQueryPlanner.java reads.
use database_system_swe.Base.{
  ℕ, ◌<◌, Bool, true, false, some, List, All, [], ◌∷◌, map, ◌≡◌, refl, sym, ap, subst, ◌∙◌, ◌||◌,
  length, String,
}
use database_system_swe.Parse.Data.{Predicate, QueryData}
use database_system_swe.Parse.Grammar.{IsSome}
use database_system_swe.Query.Predicate.{Values}
use database_system_swe.Query.Scan.{Scan, select_scan, project_scan, product_scan}
use database_system_swe.Query.Reads.{Gives, Reads}
use database_system_swe.Query.Algebra.{
  Table, Evaluates, filter_rows, restrict, cross_rows, cross, cross_all,
}
use database_system_swe.Query.Reading.{project-Gives, project-Reads, select-Gives, select-Reads}
use database_system_swe.Query.Pairs.{product-Reads}
use database_system_swe.Plan.BasicQueryPlanner.{
  OpenScan, open_product, open_products, has_all, open_fields, open_query,
}

-- What is opened has the fields of the table, is in front of its records, and reads them again from
-- anywhere.
abbrev pub IsTable : OpenScan → Table → Type 0
IsTable o t = (o.scan.has_field ≡ t.has) × Reads o.scan t.rows × Gives o.scan o.position t.rows

-- Each table but the last one has a record.
abbrev pub AllButLast : List Table → Type 0
AllButLast [] = Unit {0}
AllButLast (t ∷ []) = Unit {0}
AllButLast (t ∷ t2 ∷ ts) = IsSome t.rows × AllButLast (t2 ∷ ts)

abbrev pub AreTables : List OpenScan → List Table → Type 0
AreTables [] [] = Unit {0}
AreTables [] (t ∷ ts) = ⊥
AreTables (o ∷ os) [] = ⊥
AreTables (o ∷ os) (t ∷ ts) = IsTable o t × AreTables os ts

-- The product of the tables with these names.
abbrev pub product_of : (String → Table) → List String → Table
product_of contents [] = record { has = λ f. false; rows = [] }
product_of contents (n ∷ ns) = cross_all (contents n) (map contents ns)

-- The answer of a query.
abbrev pub answer : (String → Table) → QueryData → List Values
answer contents qd =
    map (restrict qd.fields) (filter_rows qd.pred (product_of contents qd.tables).rows)

pairs-Reads :
    {S1 S2 : Type 0} (s1 : Scan S1) (s2 : Scan S2) (l1 l2 : List Values)
    → IsSome l1
    → Reads s1 l1
    → Reads s2 l2
    → Reads (product_scan s1 s2) (cross_rows s1.has_field l1 l2)
pairs-Reads s1 s2 [] l2 full reads1 reads2 = absurd full
pairs-Reads s1 s2 (row ∷ l1) l2 full reads1 reads2 = product-Reads s1 s2 row l1 l2 reads1 reads2

open_product-IsTable :
    (o1 o2 : OpenScan) (t1 t2 : Table)
    → IsTable o1 t1
    → IsTable o2 t2
    → IsSome t1.rows
    → (o : OpenScan) × (open_product o1 o2 ≡ some o) × IsTable o (cross t1 t2)
unfolding open_product
open_product-IsTable o1 o2 t1 t2 (has1, reads1, gives1) (has2, reads2, gives2) full =
    let both = pairs-Reads o1.scan o2.scan t1.rows t2.rows full reads1 reads2 in
    let (p, e, g) = both (o1.position, o2.position) in
    (
      record {
        Position = o1.Position × o2.Position;
        scan = product_scan o1.scan o2.scan;
        position = p;
      },
      rw e refl,
      (
        ap (λ has f. has f || o2.scan.has_field f) has1 ∙ ap (λ has f. t1.has f || has f) has2,
        subst (λ has. Reads (product_scan o1.scan o2.scan) (cross_rows has t1.rows t2.rows)) has1
            both,
        subst (λ has. Gives (product_scan o1.scan o2.scan) p (cross_rows has t1.rows t2.rows)) has1
            g,
      ),
    )

cross_rows-IsSome :
    (has : String → Bool) (l1 l2 : List Values)
    → IsSome l1
    → IsSome l2
    → IsSome (cross_rows has l1 l2)
cross_rows-IsSome has [] l2 full1 full2 = absurd full1
cross_rows-IsSome has (row ∷ l1) [] full1 full2 = absurd full2
cross_rows-IsSome has (row ∷ l1) (row2 ∷ l2) full1 full2 = tt

both_full :
    (t t2 : Table) (ts : List Table) → AllButLast (t ∷ t2 ∷ ts) → AllButLast (cross t t2 ∷ ts)
both_full t t2 [] full = tt
both_full t t2 (t3 ∷ ts) full = (cross_rows-IsSome t.has t.rows t2.rows full.0 full.1.0, full.1.1)

open_products-IsTable :
    (o : OpenScan) (os : List OpenScan) (t : Table) (ts : List Table)
    → IsTable o t
    → AreTables os ts
    → AllButLast (t ∷ ts)
    → (o' : OpenScan) × (open_products o os ≡ some o') × IsTable o' (cross_all t ts)
unfolding open_products
open_products-IsTable o [] t [] is_table are full = (o, refl, is_table)
open_products-IsTable o [] t (t2 ∷ ts) is_table are full = absurd are
open_products-IsTable o (o2 ∷ os) t [] is_table are full = absurd are
open_products-IsTable o (o2 ∷ os) t (t2 ∷ ts) is_table are full =
    let (both, e, is_both) = open_product-IsTable o o2 t t2 is_table are.0 full.0 in
    let (o', e', is_all) =
      open_products-IsTable both os (cross t t2) ts is_both are.1 (both_full t t2 ts full) in
    (o', rw e e', is_all)

-- A plan gives exactly the rows.
open_fields-Reads :
    (fuel : ℕ) (fields : List String) (pred : Predicate) (o : OpenScan) (t : Table)
    → IsTable o t
    → has_all t.has fields ≡ true
    → Evaluates pred t.rows
    → length t.rows < fuel
    → (o' : OpenScan) × (open_fields fuel fields pred o ≡ some o')
      × Gives o'.scan o'.position (map (restrict fields) (filter_rows pred t.rows))
      × Reads o'.scan (map (restrict fields) (filter_rows pred t.rows))
unfolding open_fields
open_fields-Reads fuel fields pred o t (has_e, reads, gives) known ev lt = (
  record {
    Position = o.Position;
    scan = project_scan (select_scan o.scan pred fuel) fields;
    position = o.position;
  },
  rw (open_fields, subst (λ has. has_all has fields ≡ true) (sym has_e) known) refl,
  project-Gives (select_scan o.scan pred fuel) fields o.position (filter_rows pred t.rows)
      (select-Gives o.scan pred fuel t.rows o.position gives ev lt),
  project-Reads (select_scan o.scan pred fuel) fields (filter_rows pred t.rows)
      (select-Reads o.scan pred fuel t.rows reads ev lt),
)

opened-AreTables :
    (open_table : String → OpenScan) (contents : String → Table)
    → (ns : List String) → All (λ n. IsTable (open_table n) (contents n)) ns
    → AreTables (map open_table ns) (map contents ns)
opened-AreTables open_table contents [] tables = tt
opened-AreTables open_table contents (n ∷ ns) (table, tables) =
    (table, opened-AreTables open_table contents ns tables)

module _ (fuel : ℕ) (open_table : String → OpenScan) (contents : String → Table) where
  open_names-Reads :
      (qd : QueryData) (ns : List String)
      → qd.tables ≡ ns
      → All (λ n. IsTable (open_table n) (contents n)) ns
      → IsSome ns
      → AllButLast (map contents ns)
      → has_all (product_of contents ns).has qd.fields ≡ true
      → Evaluates qd.pred (product_of contents ns).rows
      → length (product_of contents ns).rows < fuel
      → (o : OpenScan) × (open_query fuel open_table qd ≡ some o)
        × Gives o.scan o.position
            (map (restrict qd.fields) (filter_rows qd.pred (product_of contents ns).rows))
        × Reads o.scan
            (map (restrict qd.fields) (filter_rows qd.pred (product_of contents ns).rows))
  unfolding open_query
  open_names-Reads qd [] names tables full but_last known ev lt = absurd full
  open_names-Reads qd (n ∷ ns) names tables full but_last known ev lt =
      let (o, e, is_table) =
        open_products-IsTable (open_table n) (map open_table ns) (contents n) (map contents ns)
          tables.0 (opened-AreTables open_table contents ns tables.1) but_last in
      let (o', e', gives, reads) =
        open_fields-Reads fuel qd.fields qd.pred o (cross_all (contents n) (map contents ns))
          is_table known ev lt in
      (o', rw names (rw e e'), gives, reads)

  -- Where what is opened for each table of the query is in front of the table's contents, and reads
  -- them again after `beforeFirst`, the tables of the query but the last one have a record, they have
  -- the fields that are selected, and the predicate evaluates on their product without an exception,
  -- the opened plan of the query gives its answer from its first `next` on, and again after any
  -- `beforeFirst`: the records of the product that satisfy the predicate, in their order, with the
  -- fields that are selected. The fuel is more than the records of the product.
  pub open_query-Reads :
      (qd : QueryData)
      → All (λ n. IsTable (open_table n) (contents n)) qd.tables
      → IsSome qd.tables
      → AllButLast (map contents qd.tables)
      → has_all (product_of contents qd.tables).has qd.fields ≡ true
      → Evaluates qd.pred (product_of contents qd.tables).rows
      → length (product_of contents qd.tables).rows < fuel
      → (o : OpenScan) × (open_query fuel open_table qd ≡ some o)
        × Gives o.scan o.position (answer contents qd)
        × Reads o.scan (answer contents qd)
  open_query-Reads qd tables full but_last known ev lt =
      open_names-Reads qd qd.tables refl tables full but_last known ev lt
