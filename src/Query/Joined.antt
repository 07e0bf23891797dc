-- ===== src/Query/Joined.antt =====
-- The joined records of tables without common field names, for src/main/java/simpledb/opt.
use database_system_swe.Base.{
  Bool, true, false, Bool-cases, ◌||◌, List, [], ◌∷◌, ◌≡◌, refl, ◌∙◌, String, arith, inl, inr,
}
use database_system_swe.Query.SubPred.{TableRow, join_rows}

-- The records of all the tables, joined.
abbrev pub all_joined : TableRow → List TableRow → TableRow
all_joined t [] = t
all_joined t (t2 ∷ others) = all_joined (join_rows t t2) others

-- No two tables have a field of the same name.
abbrev pub AreDisjoint : TableRow → List TableRow → Type 0
AreDisjoint t [] = Unit {0}
AreDisjoint t (t2 ∷ others) =
    ((f : String) → t.has f ≡ true → t2.has f ≡ false) × AreDisjoint (join_rows t t2) others

pub either-first : (a b : Bool) → a ≡ true → (a || b) ≡ true
either-first a b e = rw e refl

pub either-second : (a b : Bool) → b ≡ true → (a || b) ≡ true
either-second a b e = ground arith

pub join_rows-first :
    (t t2 : TableRow) (f : String) → t.has f ≡ true → t.row f ≡ (join_rows t t2).row f
join_rows-first t t2 f known = rw known refl

pub join_rows-second :
    (t t2 : TableRow) (f : String)
    → ((g : String) → t.has g ≡ true → t2.has g ≡ false)
    → t2.has f ≡ true
    → t2.row f ≡ (join_rows t t2).row f
join_rows-second t t2 f apart known = elim (Bool-cases (t.has f)) [
  | inl here ↦ absurd (ground (arith, apart f here, known))
  | inr missing ↦ rw missing refl
]

pub all_joined-row :
    (t : TableRow) (others : List TableRow) (f : String)
    → t.has f ≡ true
    → t.row f ≡ (all_joined t others).row f
all_joined-row t [] f known = refl
all_joined-row t (t2 ∷ others) f known =
    join_rows-first t t2 f known
    ∙ all_joined-row (join_rows t t2) others f (either-first (t.has f) (t2.has f) known)
