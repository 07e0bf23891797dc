-- ===== src/Materialize/RowOrder.antt =====
-- The comparison of rows with the same columns in src/main/java/simpledb/materialize.
use database_system_swe.Base.{
  string_eq, ℤ, pos, negsuc, int_ltb, int_beq, Bool, true, false, ◌&&◌, Option, some, List, [], ◌∷◌,
  String, if◌then◌else◌, ◌≡◌, refl, sym, ap, subst, ◌∙◌, arith, Bool-cases, inl, inr,
}
use database_system_swe.Base.Assoc.{lookup}
use database_system_swe.Log.Page.{◌>>=◌}
use database_system_swe.Record.Layout.{FieldType, integer, varchar}
use database_system_swe.Query.Constant.{
  Constant, int_constant, string_constant, compare_to, IsOpposite, IsChain, int_compare-IsOpposite,
  int_compare-IsChain, string_compare-IsOpposite, string_compare-IsChain, int_compare,
  string_compare,
}
use database_system_swe.Materialize.Order.{IsOrder}
use database_system_swe.Materialize.RecordComparator.{
  Row, compare_rows, less_by, HasType, HasColumns, names, answered,
}

-- The results of the comparisons of three values or rows, and that they are those of an order.
pub record Results (o12 o21 o23 o13 : Option ℤ) : Type 0 where
  pub r12 : ℤ
  pub r21 : ℤ
  pub r23 : ℤ
  pub r13 : ℤ
  pub is12 : o12 ≡ some r12
  pub is21 : o21 ≡ some r21
  pub is23 : o23 ≡ some r23
  pub is13 : o13 ≡ some r13
  pub opposite : IsOpposite r12 r21
  pub chain : IsChain r12 r23 r13

compare_to-Results :
    (t : FieldType) (a b c : Constant)
    → HasType t a
    → HasType t b
    → HasType t c
    → Results (compare_to a b) (compare_to b a) (compare_to b c) (compare_to a c)
compare_to-Results integer (int_constant a) (int_constant b) (int_constant c) ta tb tc = record {
  r12 = int_compare a b;
  r21 = int_compare b a;
  r23 = int_compare b c;
  r13 = int_compare a c;
  is12 = refl;
  is21 = refl;
  is23 = refl;
  is13 = refl;
  opposite = int_compare-IsOpposite a b;
  chain = int_compare-IsChain a b c;
}
compare_to-Results integer (string_constant a) b c ta tb tc = absurd ta
compare_to-Results integer (int_constant a) (string_constant b) c ta tb tc = absurd tb
compare_to-Results integer (int_constant a) (int_constant b) (string_constant c) ta tb tc =
    absurd tc
compare_to-Results varchar (string_constant a) (string_constant b) (string_constant c) ta tb tc =
    record {
      r12 = string_compare a b;
      r21 = string_compare b a;
      r23 = string_compare b c;
      r13 = string_compare a c;
      is12 = refl;
      is21 = refl;
      is23 = refl;
      is13 = refl;
      opposite = string_compare-IsOpposite a b;
      chain = string_compare-IsChain a b c;
    }
compare_to-Results varchar (int_constant a) b c ta tb tc = absurd ta
compare_to-Results varchar (string_constant a) (int_constant b) c ta tb tc = absurd tb
compare_to-Results varchar (string_constant a) (string_constant b) (int_constant c) ta tb tc =
    absurd tc

-- The result of a field, or of the later ones.
abbrev first_of : ℤ → ℤ → ℤ
first_of r later = if int_beq r (pos 0) then later else r

first_of-IsOpposite :
    (x y x' y' : ℤ) → IsOpposite x y → IsOpposite x' y' → IsOpposite (first_of x x') (first_of y y')
first_of-IsOpposite x y x' y' here later = elim (Bool-cases (int_beq x (pos 0))) [
  | inl zero ↦ rw (here.same_zero ∙ zero) (rw zero later)
  | inr differ ↦ rw (here.same_zero ∙ differ) (rw differ here)
]

and_false : (b : Bool) → (b && false) ≡ false
and_false true = refl
and_false false = refl

zero_not_less : (x : ℤ) → int_beq x (pos 0) ≡ true → int_ltb x (pos 0) ≡ false
zero_not_less (pos n) e = ground (arith, e)
zero_not_less (negsuc n) e = absurd (ground (arith, e))

first_of_zero : (x x' : ℤ) → int_beq x (pos 0) ≡ true → first_of x x' ≡ x'
first_of_zero x x' e = rw e refl

first_of_differs : (x x' : ℤ) → int_beq x (pos 0) ≡ false → first_of x x' ≡ x
first_of_differs x x' e = rw e refl

first_not_less : (x x' : ℤ) → int_ltb (first_of x x') (pos 0) ≡ false → int_ltb x (pos 0) ≡ false
first_not_less x x' h = elim (Bool-cases (int_beq x (pos 0))) [
  | inl zero ↦ zero_not_less x zero
  | inr differ ↦ ap (λ (r : ℤ). int_ltb r (pos 0)) (sym (first_of_differs x x' differ)) ∙ h
]

-- A field that is not the same decides.
decided :
    (z z' : ℤ) (b : Bool)
    → int_ltb z (pos 0) ≡ false
    → int_beq z (pos 0) ≡ false
    → b ≡ false
    → (int_ltb (first_of z z') (pos 0) ≡ false) × (int_beq (first_of z z') (pos 0) ≡ b)
decided z z' b h e eb =
    subst (λ (r : ℤ). (int_ltb r (pos 0) ≡ false) × (int_beq r (pos 0) ≡ b))
      (sym (first_of_differs z z' e)) (h, e ∙ sym eb)

first_of-IsChain :
    (x y z x' y' z' : ℤ)
    → IsChain x y z
    → IsChain x' y' z'
    → IsChain (first_of x x') (first_of y y') (first_of z z')
first_of-IsChain x y z x' y' z' here later h h' =
    let (not_less, zero_z) = here (first_not_less x x' h) (first_not_less y y' h') in
    elim (Bool-cases (int_beq x (pos 0))) [
      | inl zero_x ↦ elim (Bool-cases (int_beq y (pos 0))) [
        | inl zero_y ↦
            let same_x = first_of_zero x x' zero_x in
            let same_y = first_of_zero y y' zero_y in
            let same_z = first_of_zero z z' (ground (arith, zero_z, zero_x, zero_y)) in
            subst (λ (r : ℤ). IsChain r (first_of y y') (first_of z z')) (sym same_x)
              (subst (λ (r : ℤ). IsChain x' r (first_of z z')) (sym same_y)
                (subst (λ (r : ℤ). IsChain x' y' r) (sym same_z) later))
              h h'
        | inr differ_y ↦
            decided z z' (int_beq (first_of x x') (pos 0) && int_beq (first_of y y') (pos 0))
              not_less (ground (arith, zero_z, zero_x, differ_y))
              (ap (λ (r : ℤ). int_beq (first_of x x') (pos 0) && int_beq r (pos 0))
                  (first_of_differs y y' differ_y)
                ∙ ap (λ b. int_beq (first_of x x') (pos 0) && b) differ_y
                ∙ and_false (int_beq (first_of x x') (pos 0)))
      ]
      | inr differ_x ↦
          decided z z' (int_beq (first_of x x') (pos 0) && int_beq (first_of y y') (pos 0)) not_less
            (ground (arith, zero_z, differ_x))
            (ap (λ (r : ℤ). int_beq r (pos 0) && int_beq (first_of y y') (pos 0))
                (first_of_differs x x' differ_x)
              ∙ ap (λ b. b && int_beq (first_of y y') (pos 0)) differ_x)
    ]

compare_rows_lem :
    (f : String) (fields : List String) (r1 r2 : Row) (v1 v2 : Constant) (r later : ℤ)
    → lookup f r1 ≡ some v1
    → lookup f r2 ≡ some v2
    → compare_to v1 v2 ≡ some r
    → compare_rows fields r1 r2 ≡ some later
    → compare_rows (f ∷ fields) r1 r2 ≡ some (first_of r later)
unfolding compare_rows
compare_rows_lem f fields r1 r2 v1 v2 r later e1 e2 c e = rw e1 (rw e2 (rw c (ground (arith, e))))

pub compare_rows-Results :
    (cols : List (String × FieldType)) (a b c : Row)
    → HasColumns cols a
    → HasColumns cols b
    → HasColumns cols c
    → Results
        (compare_rows (names cols) a b)
        (compare_rows (names cols) b a)
        (compare_rows (names cols) b c)
        (compare_rows (names cols) a c)
unfolding compare_rows
compare_rows-Results [] a b c ha hb hc = record {
  r12 = pos 0;
  r21 = pos 0;
  r23 = pos 0;
  r13 = pos 0;
  is12 = refl;
  is21 = refl;
  is23 = refl;
  is13 = refl;
  opposite = record { same_zero = refl; not_both = ground arith };
  chain = ground arith;
}
compare_rows-Results ((f, t) ∷ cols) a b c ((va, ea, ta), ha) ((vb, eb, tb), hb)
      ((vc, ec, tc), hc) =
    let here = compare_to-Results t va vb vc ta tb tc in
    let later = compare_rows-Results cols a b c ha hb hc in
    record {
      r12 = first_of here.r12 later.r12;
      r21 = first_of here.r21 later.r21;
      r23 = first_of here.r23 later.r23;
      r13 = first_of here.r13 later.r13;
      is12 =
          compare_rows_lem f (names cols) a b va vb here.r12 later.r12 ea eb here.is12 later.is12;
      is21 =
          compare_rows_lem f (names cols) b a vb va here.r21 later.r21 eb ea here.is21 later.is21;
      is23 =
          compare_rows_lem f (names cols) b c vb vc here.r23 later.r23 eb ec here.is23 later.is23;
      is13 =
          compare_rows_lem f (names cols) a c va vc here.r13 later.r13 ea ec here.is13 later.is13;
      opposite =
          first_of-IsOpposite here.r12 here.r21 later.r12 later.r21 here.opposite later.opposite;
      chain =
          first_of-IsChain here.r12 here.r23 here.r13 later.r12 later.r23 later.r13 here.chain
            later.chain;
    }

pub less_by_lem :
    (fields : List String) (a b : Row) (r : ℤ)
    → compare_rows fields a b ≡ some r
    → less_by fields a b ≡ some (int_ltb r (pos 0))
less_by_lem fields a b r e = ap (λ o. o >>= λ c. some (int_ltb c (pos 0))) e

pub answered_lem :
    (fields : List String) (a b : Row) (r : ℤ)
    → compare_rows fields a b ≡ some r
    → answered (less_by fields a b) ≡ int_ltb r (pos 0)
answered_lem fields a b r e = ap answered (less_by_lem fields a b r e)

-- The order of the rows that have the columns.
abbrev pub row_order :
    (cols : List (String × FieldType)) → IsOrder (less_by (names cols)) (HasColumns cols)
row_order cols = record {
  before = λ a b. answered (less_by (names cols) a b);
  compares = λ a b ha hb.
      let r = compare_rows-Results cols a b b ha hb hb in
      less_by_lem (names cols) a b r.r12 r.is12
      ∙ ap (λ x. some x) (sym (answered_lem (names cols) a b r.r12 r.is12));
  asym = λ a b ha hb lt.
      let r = compare_rows-Results cols a b b ha hb hb in
      answered_lem (names cols) b a r.r21 r.is21
      ∙ r.opposite.not_both (sym (answered_lem (names cols) a b r.r12 r.is12) ∙ lt);
  trans = λ a b c ha hb hc e e'.
      let r = compare_rows-Results cols a b c ha hb hc in
      answered_lem (names cols) a c r.r13 r.is13
      ∙ (r.chain (sym (answered_lem (names cols) a b r.r12 r.is12) ∙ e)
          (sym (answered_lem (names cols) b c r.r23 r.is23) ∙ e')).0;
}
