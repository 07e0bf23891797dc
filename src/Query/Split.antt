-- ===== src/Query/Split.antt =====
-- The selections that src/main/java/simpledb/opt makes of a predicate, taken together.
use database_system_swe.Base.{
  Bool, true, false, Bool-cases, not, ◌&&◌, ◌||◌, Option, some, List, All, [], ◌∷◌, ◌≡◌, refl, sym,
  ap, ◌∙◌, String, arith, inl, inr,
}
use database_system_swe.Materialize.RecordComparator.{answered}
use database_system_swe.Parse.Data.{Expression, field_name, value, Term, Predicate}
use database_system_swe.Query.Predicate.{Values, evaluate, equals, is_true, is_satisfied}
use database_system_swe.Query.SubPred.{
  names_field_of, applies_to, terms_where, not_empty, either, is_join_term, passes, both,
  planned_on, planned, TableRow, join_rows,
}
use database_system_swe.Query.Joined.{
  all_joined, AreDisjoint, either-second, join_rows-second, all_joined-row,
}
use database_system_swe.Log.Page.{◌>>=◌}

passes-not_empty :
    (row : Values) (pred : Predicate) → passes (not_empty pred) row ≡ is_satisfied pred row
passes-not_empty row [] = refl
passes-not_empty row (t ∷ terms) = refl

module _ (row : Values) where
  abbrev holds : Term → Bool
  holds t = answered (is_true t row)

  -- The term is true or false of the record, without an exception.
  abbrev pub IsClear : Term → Type 0
  IsClear t = is_true t row ≡ some (holds t)

  -- All terms of this kind hold.
  abbrev every : (Term → Bool) → Predicate → Bool
  every which [] = true
  every which (t ∷ terms) = (not (which t) || holds t) && every which terms

  terms_where-every :
      (which : Term → Bool) (pred : Predicate)
      → All IsClear pred
      → is_satisfied (terms_where which pred) row ≡ some (every which pred)
  terms_where-every which [] clear = refl
  terms_where-every which (t ∷ terms) (c, clear) =
      let others = terms_where-every which terms clear in
      elim (Bool-cases (which t)) [
        | inl picked ↦ rw picked (elim (Bool-cases (holds t)) [
          | inl good ↦ rw (c ∙ ap some good) others
          | inr bad ↦ rw (c ∙ ap some bad) refl
        ])
        | inr passed ↦ rw passed others
      ]

  both-some : (a b : Bool) → both (some a) (some b) ≡ some (a && b)
  both-some true b = refl
  both-some false b = refl

  both-answers :
      {x y : Option Bool} (a b : Bool) → x ≡ some a → y ≡ some b → both x y ≡ some (a && b)
  both-answers {y} a b e1 e2 = ap (λ x. both x y) e1 ∙ ap (both (some a)) e2 ∙ both-some a b

  merge_tests :
      (a1 a2 a12 x : Bool)
      → (a1 ≡ true → a12 ≡ true)
      → (a2 ≡ true → a12 ≡ true)
      → (not a1 || x) && ((not a2 || x) && (not (not a1 && (not a2 && a12)) || x)) ≡ (not a12 || x)
  merge_tests a1 a2 a12 true up1 up2 = ground arith
  merge_tests a1 a2 a12 false up1 up2 = ground arith

  all_tests :
      (x1 x2 x3 y1 y2 y3 z w : Bool)
      → x1 && (x2 && x3) ≡ z
      → y1 && (y2 && y3) ≡ w
      → (x1 && y1) && ((x2 && y2) && (x3 && y3)) ≡ (z && w)
  all_tests x1 x2 x3 y1 y2 y3 z w ez ew = grind arith

  expression_left :
      (has1 has2 : String → Bool) (e : Expression)
      → names_field_of has1 e ≡ true
      → names_field_of (either has1 has2) e ≡ true
  expression_left has1 has2 (value c) known = refl
  expression_left has1 has2 (field_name f) known = rw known refl

  expression_right :
      (has1 has2 : String → Bool) (e : Expression)
      → names_field_of has2 e ≡ true
      → names_field_of (either has1 has2) e ≡ true
  expression_right has1 has2 (value c) known = refl
  expression_right has1 has2 (field_name f) known = ground arith

  and_both : (a b : Bool) → a && b ≡ true → (a ≡ true) × (b ≡ true)
  and_both a b e = ground arith

  applies_left :
      (has1 has2 : String → Bool) (t : Term)
      → applies_to has1 t ≡ true
      → applies_to (either has1 has2) t ≡ true
  applies_left has1 has2 t known =
      let (l, r) = and_both (names_field_of has1 t.lhs) (names_field_of has1 t.rhs) known in
      rw (expression_left has1 has2 t.lhs l) (expression_left has1 has2 t.rhs r)

  applies_right :
      (has1 has2 : String → Bool) (t : Term)
      → applies_to has2 t ≡ true
      → applies_to (either has1 has2) t ≡ true
  applies_right has1 has2 t known =
      let (l, r) = and_both (names_field_of has2 t.lhs) (names_field_of has2 t.rhs) known in
      rw (expression_right has1 has2 t.lhs l) (expression_right has1 has2 t.rhs r)

  every-merge :
      (has1 has2 : String → Bool) (pred : Predicate)
      → every (applies_to has1) pred
          && (every (applies_to has2) pred && every (is_join_term has1 has2) pred)
        ≡ every (applies_to (either has1 has2)) pred
  every-merge has1 has2 [] = refl
  every-merge has1 has2 (t ∷ terms) =
      all_tests (not (applies_to has1 t) || holds t) (not (applies_to has2 t) || holds t)
        (not (is_join_term has1 has2 t) || holds t) (every (applies_to has1) terms)
        (every (applies_to has2) terms) (every (is_join_term has1 has2) terms)
        (not (applies_to (either has1 has2) t) || holds t)
        (every (applies_to (either has1 has2)) terms)
        (merge_tests (applies_to has1 t) (applies_to has2 t) (applies_to (either has1 has2) t)
          (holds t) (applies_left has1 has2 t) (applies_right has1 has2 t))
        (every-merge has1 has2 terms)

  and_true : (a : Bool) → (a && true) ≡ a
  and_true true = refl
  and_true false = refl

  and_shift : (a b c d : Bool) → a && (b && (c && d)) ≡ (a && (b && c)) && d
  and_shift true b c d = ground arith
  and_shift false b c d = refl

  -- The record has the values of this row.
  abbrev Agrees : TableRow → Type 0
  Agrees t = (f : String) → t.has f ≡ true → t.row f ≡ row f

  evaluate-Agrees :
      (t : TableRow) (e : Expression)
      → Agrees t
      → names_field_of t.has e ≡ true
      → evaluate e t.row ≡ evaluate e row
  evaluate-Agrees t (value c) same known = refl
  evaluate-Agrees t (field_name f) same known = same f known

  is_true-Agrees :
      (t : TableRow) (term : Term)
      → Agrees t
      → applies_to t.has term ≡ true
      → is_true term t.row ≡ is_true term row
  is_true-Agrees t term same known =
      let (l, r) = and_both (names_field_of t.has term.lhs) (names_field_of t.has term.rhs) known in
      ap (λ x. x >>= λ a. evaluate term.rhs t.row >>= λ b. some (equals b a))
        (evaluate-Agrees t term.lhs same l)
      ∙ ap (λ x. evaluate term.lhs row >>= λ a. x >>= λ b. some (equals b a))
          (evaluate-Agrees t term.rhs same r)

  is_satisfied-Agrees :
      (t : TableRow) (which : Term → Bool) (pred : Predicate)
      → Agrees t
      → ((term : Term) → which term ≡ true → applies_to t.has term ≡ true)
      → is_satisfied (terms_where which pred) t.row ≡ is_satisfied (terms_where which pred) row
  is_satisfied-Agrees t which [] same known = refl
  is_satisfied-Agrees t which (term ∷ terms) same known =
      let others = is_satisfied-Agrees t which terms same known in
      elim (Bool-cases (which term)) [
        | inl picked ↦ rw picked (
            ap
              (λ x. x >>= λ b. elim b [
                | true ↦ is_satisfied (terms_where which terms) t.row
                | false ↦ some false
              ])
              (is_true-Agrees t term same (known term picked))
            ∙ ap (λ x. is_true term row >>= λ b. elim b [ true ↦ x | false ↦ some false ]) others)
        | inr passed ↦ rw passed others
      ]

  -- A selection that reads the record of a table, or a joined record.
  passes-Agrees :
      (t : TableRow) (which : Term → Bool) (pred : Predicate)
      → Agrees t
      → ((term : Term) → which term ≡ true → applies_to t.has term ≡ true)
      → All IsClear pred
      → passes (not_empty (terms_where which pred)) t.row ≡ some (every which pred)
  passes-Agrees t which pred same known clear =
      passes-not_empty t.row (terms_where which pred)
      ∙ is_satisfied-Agrees t which pred same known
      ∙ terms_where-every which pred clear

  -- The selections behind those of the tables that are joined already.
  planned_on-every :
      (pred : Predicate) (t : TableRow) (others : List TableRow)
      → (all_joined t others).row ≡ row
      → AreDisjoint t others
      → All IsClear pred
      → (b : Bool) × (planned_on pred t others ≡ some b)
        × (every (applies_to t.has) pred && b ≡ every (applies_to (all_joined t others).has) pred)
  planned_on-every pred t [] joined apart clear =
      (true, refl, and_true (every (applies_to t.has) pred))
  planned_on-every pred t (t2 ∷ others) joined apart clear =
      let (b, e, e') = planned_on-every pred (join_rows t t2) others joined apart.1 clear in
      let both_same : Agrees (join_rows t t2) =
        λ f known. all_joined-row (join_rows t t2) others f known ∙ ap (λ r. r f) joined in
      (
        every (applies_to t2.has) pred && (every (is_join_term t.has t2.has) pred && b),
        both-answers (every (applies_to t2.has) pred) (every (is_join_term t.has t2.has) pred && b)
            (passes-Agrees t2 (applies_to t2.has) pred
              (λ f known.
                join_rows-second t t2 f apart.0 known
                ∙ both_same f (either-second (t.has f) (t2.has f) known))
              (λ term known. known) clear)
            (both-answers (every (is_join_term t.has t2.has) pred) b
              (passes-Agrees (join_rows t t2) (is_join_term t.has t2.has) pred both_same
                (λ term known.
                  (and_both (not (applies_to t2.has term)) (applies_to (either t.has t2.has) term)
                    (and_both (not (applies_to t.has term))
                      (not (applies_to t2.has term) && applies_to (either t.has t2.has) term)
                      known).1).1)
                clear)
              e),
        and_shift (every (applies_to t.has) pred) (every (applies_to t2.has) pred)
              (every (is_join_term t.has t2.has) pred) b
            ∙ ap (λ x. x && b) (every-merge t.has t2.has pred)
            ∙ e',
      )

  terms_where-applied :
      (which : Term → Bool) (pred : Predicate)
      → All (λ t. which t ≡ true) pred
      → terms_where which pred ≡ pred
  terms_where-applied which [] applied = refl
  terms_where-applied which (t ∷ terms) (known, applied) =
      rw known (ap (λ l. t ∷ l) (terms_where-applied which terms applied))

-- Where no two tables have a field of the same name, all terms of the predicate name only fields of
-- the tables, and are true or false of the joined record, the records of the tables pass the
-- selections that are put on the tables and on their joins, in any order of the tables, exactly where
-- the joined record satisfies the predicate.
pub planned-is_satisfied :
    (pred : Predicate) (t : TableRow) (others : List TableRow)
    → AreDisjoint t others
    → All (λ term. applies_to (all_joined t others).has term ≡ true) pred
    → All (IsClear (all_joined t others).row) pred
    → planned pred t others ≡ is_satisfied pred (all_joined t others).row
planned-is_satisfied pred t others apart applied clear =
    let all = all_joined t others in
    let (b, e, e') = planned_on-every all.row pred t others refl apart clear in
    both-answers all.row (every all.row (applies_to t.has) pred) b
      (passes-Agrees all.row t (applies_to t.has) pred (λ f known. all_joined-row t others f known)
        (λ term known. known) clear)
      e
    ∙ ap some e'
    ∙ sym (terms_where-every all.row (applies_to all.has) pred clear)
    ∙ ap (λ p. is_satisfied p all.row)
        (terms_where-applied all.row (applies_to all.has) pred applied)
