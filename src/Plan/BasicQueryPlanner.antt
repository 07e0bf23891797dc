-- ===== src/Plan/BasicQueryPlanner.antt =====
-- src/main/java/simpledb/plan/BasicQueryPlanner.java with the `open` of the plans it makes. What is
-- opened for the name of a table or of a view is an argument. An exception is `none`.
use database_system_swe.Base.{
  ℕ, Bool, true, false, ◌&&◌, Option, none, some, List, [], ◌∷◌, map, String,
}
use database_system_swe.Log.Page.{◌>>=◌}
use database_system_swe.Parse.Data.{Predicate, QueryData}
use database_system_swe.Query.Scan.{Scan, first_pair, select_scan, project_scan, product_scan}

-- A scan with its position.
pub record OpenScan : Type 1 where
  pub Position : Type 0
  pub scan : Scan Position
  pub position : Position

-- `ProductPlan.open`; the constructor of ProductScan calls `beforeFirst`.
unfoldable pub open_product : OpenScan → OpenScan → Option OpenScan
open_product o1 o2 = first_pair o1.scan o2.scan (o1.position, o2.position) >>= λ p. some (record {
  Position = o1.Position × o2.Position;
  scan = product_scan o1.scan o2.scan;
  position = p;
})

unfoldable pub open_products : OpenScan → List OpenScan → Option OpenScan
open_products o [] = some o
open_products o (next_o ∷ os) = open_product o next_o >>= λ both. open_products both os

abbrev pub has_all : (String → Bool) → List String → Bool
has_all has [] = true
has_all has (f ∷ fields) = has f && has_all has fields

-- `SelectPlan.open` below `ProjectPlan.open`; a field that the plan has not is an exception in the
-- constructor of ProjectPlan.
unfoldable pub open_fields : ℕ → List String → Predicate → OpenScan → Option OpenScan
open_fields fuel fields pred o = elim (has_all o.scan.has_field fields) [
  | true ↦ some (record {
    Position = o.Position;
    scan = project_scan (select_scan o.scan pred fuel) fields;
    position = o.position;
  })
  | false ↦ none
]

-- `createPlan`, opened.
unfoldable pub open_query : ℕ → (String → OpenScan) → QueryData → Option OpenScan
open_query fuel open_table qd = elim qd.tables [
  | [] ↦ none
  | tblname ∷ others ↦ open_products (open_table tblname) (map open_table others) >>= λ o.
      open_fields fuel qd.fields qd.pred o
]
