-- ===== src/Materialize/RecordComparator.antt =====
-- src/main/java/simpledb/materialize/RecordComparator.java: an order on records by some of their
-- fields. The record of a scan is the list of its fields with their values; a missing one is an
-- exception.
use database_system_swe.Base.{
  string_eq, ℤ, pos, int_ltb, int_beq, Bool, false, Option, none, some, List, [], ◌∷◌, String,
  if◌then◌else◌, ◌≡◌,
}
use database_system_swe.Base.Assoc.{lookup}
use database_system_swe.Log.Page.{◌>>=◌}
use database_system_swe.Record.Layout.{FieldType, integer, varchar}
use database_system_swe.Query.Constant.{Constant, int_constant, string_constant, compare_to}

abbrev pub Row : Type 0
Row = List (String × Constant)

-- `compare`
unfoldable pub compare_rows : List String → Row → Row → Option ℤ
compare_rows [] r1 r2 = some (pos 0)
compare_rows (f ∷ fields) r1 r2 =
    let next_field = compare_rows fields r1 r2 in
    lookup f r1 >>= λ val1. lookup f r2 >>= λ val2.
    compare_to val1 val2 >>= λ result. if int_beq result (pos 0) then next_field else some result

-- `comp.compare(s1, s2) < 0`
abbrev pub less_by : List String → Row → Row → Option Bool
less_by fields r1 r2 = compare_rows fields r1 r2 >>= λ c. some (int_ltb c (pos 0))

abbrev pub HasType : FieldType → Constant → Type 0
HasType integer (int_constant n) = Unit {0}
HasType integer (string_constant s) = ⊥
HasType varchar (int_constant n) = ⊥
HasType varchar (string_constant s) = Unit {0}

-- A row has these fields, with values of their types.
abbrev pub HasColumns : List (String × FieldType) → Row → Type 0
HasColumns [] r = Unit {0}
HasColumns ((f, t) ∷ cols) r =
    ((v : Constant) × (lookup f r ≡ some v) × HasType t v) × HasColumns cols r

abbrev pub names : List (String × FieldType) → List String
names [] = []
names (col ∷ cols) = col.0 ∷ names cols

-- The answer, where there is one.
abbrev pub answered : Option Bool → Bool
answered none = false
answered (some b) = b
