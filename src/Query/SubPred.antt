-- ===== src/Query/SubPred.antt =====
-- The parts of a predicate that src/main/java/simpledb/query/Predicate.java gives to the plans of
-- tables, and the selections that src/main/java/simpledb/opt/TablePlanner.java makes of them. A schema
-- is given by `hasField`; `none` is null.
use database_system_swe.Base.{
  Bool, true, false, not, ◌&&◌, ◌||◌, Option, none, some, List, [], ◌∷◌, String, if◌then◌else◌,
}
use database_system_swe.Log.Page.{◌>>=◌}
use database_system_swe.Parse.Data.{Expression, field_name, value, Term, Predicate}
use database_system_swe.Query.Predicate.{Values, is_satisfied}

-- `appliesTo` of an expression.
abbrev pub names_field_of : (String → Bool) → Expression → Bool
names_field_of has (value c) = true
names_field_of has (field_name f) = has f

-- `appliesTo` of a term.
abbrev pub applies_to : (String → Bool) → Term → Bool
applies_to has t = names_field_of has t.lhs && names_field_of has t.rhs

abbrev pub terms_where : (Term → Bool) → Predicate → Predicate
terms_where which [] = []
terms_where which (t ∷ terms) =
    let others = terms_where which terms in if which t then t ∷ others else others

abbrev pub not_empty : Predicate → Option Predicate
not_empty [] = none
not_empty (t ∷ terms) = some (t ∷ terms)

abbrev pub select_sub_pred : (String → Bool) → Predicate → Option Predicate
select_sub_pred has pred = not_empty (terms_where (applies_to has) pred)

-- The fields of both schemas, `newsch`.
abbrev pub either : (String → Bool) → (String → Bool) → String → Bool
either has1 has2 f = has1 f || has2 f

abbrev pub is_join_term : (String → Bool) → (String → Bool) → Term → Bool
is_join_term has1 has2 t =
    not (applies_to has1 t) && (not (applies_to has2 t) && applies_to (either has1 has2) t)

abbrev pub join_sub_pred : (String → Bool) → (String → Bool) → Predicate → Option Predicate
join_sub_pred has1 has2 pred = not_empty (terms_where (is_join_term has1 has2) pred)

-- Whether a record passes the SelectPlan that `addSelectPred` and `addJoinPred` make, or make not.
abbrev pub passes : Option Predicate → Values → Option Bool
passes none row = some true
passes (some pred) row = is_satisfied pred row

-- Whether a record passes both selections, of which the second one sees what passes the first one.
abbrev pub both : Option Bool → Option Bool → Option Bool
both first_test second_test = first_test >>= λ b. elim b [ true ↦ second_test | false ↦ some false ]

-- A record of a table, or of joined tables, with the fields that it has.
pub record TableRow : Type 0 where
  pub has : String → Bool
  pub row : Values

-- The record of a product: a field of both is read from the first.
abbrev pub join_rows : TableRow → TableRow → TableRow
join_rows t1 t2 = record {
  has = either t1.has t2.has;
  row = λ f. if t1.has f then t1.row f else t2.row f;
}

-- The selections that HeuristicQueryPlanner puts on one record of each table, in the order in which it
-- joins them: `makeProductJoin`, or `makeProductPlan` without a join predicate. The selection of a
-- table reads the record of the table, and that of a join the joined record.
abbrev pub planned_on : Predicate → TableRow → List TableRow → Option Bool
planned_on pred current [] = some true
planned_on pred current (t ∷ others) =
    let later = planned_on pred (join_rows current t) others in
    both (passes (select_sub_pred t.has pred) t.row)
      (both (passes (join_sub_pred current.has t.has pred) (join_rows current t).row) later)

abbrev pub planned : Predicate → TableRow → List TableRow → Option Bool
planned pred t others = both (passes (select_sub_pred t.has pred) t.row) (planned_on pred t others)
