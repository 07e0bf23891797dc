-- ===== src/Query/Constant.antt =====
-- src/main/java/simpledb/query/Constant.java: the values of fields. A string is the list of its UTF-16
-- code units. A call of a method of null is an exception, `none`.
use database_system_swe.Base.{
  ℕ, ℤ, pos, negsuc, minus, int_ltb, int_beq, true, false, ◌&&◌, Option, none, some, List, [], ◌∷◌,
  length, nat_beq, if◌then◌else◌, ◌≡◌, arith,
}

pub data Constant : Type 0 where
  int_constant : ℤ → Constant
  string_constant : List ℕ → Constant

-- `Integer.compareTo`
abbrev pub int_compare : ℤ → ℤ → ℤ
int_compare a b = if int_ltb a b then negsuc 0 else if int_beq a b then pos 0 else pos 1

-- `String.compareTo`: the difference of the first units that differ, or else of the lengths.
abbrev pub string_compare : List ℕ → List ℕ → ℤ
string_compare [] t = minus 0 (length t)
string_compare (x ∷ s) [] = pos (length (x ∷ s))
string_compare (x ∷ s) (y ∷ t) =
    let rest = string_compare s t in if nat_beq x y then rest else minus x y

-- `compareTo`; where only one of the two is a string, the other's is null.
abbrev pub compare_to : Constant → Constant → Option ℤ
compare_to (int_constant a) (int_constant b) = some (int_compare a b)
compare_to (int_constant a) (string_constant t) = none
compare_to (string_constant s) (int_constant b) = none
compare_to (string_constant s) (string_constant t) = some (string_compare s t)

-- The results of comparing `a` with `b`, and `b` with `a`.
pub record IsOpposite (x y : ℤ) : Type 0 where
  pub same_zero : int_beq y (pos 0) ≡ int_beq x (pos 0)
  pub not_both : int_ltb x (pos 0) ≡ true → int_ltb y (pos 0) ≡ false

-- The results of comparing `a` with `b`, `b` with `c`, and `a` with `c`.
abbrev pub IsChain : ℤ → ℤ → ℤ → Type 0
IsChain x y z =
    int_ltb x (pos 0) ≡ false
    → int_ltb y (pos 0) ≡ false
    → (int_ltb z (pos 0) ≡ false) × (int_beq z (pos 0) ≡ (int_beq x (pos 0) && int_beq y (pos 0)))

pub int_compare-IsOpposite : (a b : ℤ) → IsOpposite (int_compare a b) (int_compare b a)
int_compare-IsOpposite (pos a) (pos b) = record {
  same_zero = ground arith;
  not_both = ground arith;
}
int_compare-IsOpposite (pos a) (negsuc b) = record {
  same_zero = ground arith;
  not_both = ground arith;
}
int_compare-IsOpposite (negsuc a) (pos b) = record {
  same_zero = ground arith;
  not_both = ground arith;
}
int_compare-IsOpposite (negsuc a) (negsuc b) = record {
  same_zero = ground arith;
  not_both = ground arith;
}

pub int_compare-IsChain :
    (a b c : ℤ) → IsChain (int_compare a b) (int_compare b c) (int_compare a c)
int_compare-IsChain (pos a) (pos b) (pos c) = ground arith
int_compare-IsChain (pos a) (pos b) (negsuc c) = ground arith
int_compare-IsChain (pos a) (negsuc b) (pos c) = ground arith
int_compare-IsChain (pos a) (negsuc b) (negsuc c) = ground arith
int_compare-IsChain (negsuc a) (pos b) (pos c) = ground arith
int_compare-IsChain (negsuc a) (pos b) (negsuc c) = ground arith
int_compare-IsChain (negsuc a) (negsuc b) (pos c) = ground arith
int_compare-IsChain (negsuc a) (negsuc b) (negsuc c) = ground arith

pub string_compare-IsOpposite :
    (s t : List ℕ) → IsOpposite (string_compare s t) (string_compare t s)
string_compare-IsOpposite [] [] = record { same_zero = ground arith; not_both = ground arith }
string_compare-IsOpposite [] (y ∷ t) = record { same_zero = ground arith; not_both = ground arith }
string_compare-IsOpposite (x ∷ s) [] = record { same_zero = ground arith; not_both = ground arith }
string_compare-IsOpposite (x ∷ s) (y ∷ t) =
    let ih = string_compare-IsOpposite s t in
    record { same_zero = ground (arith, ih.same_zero); not_both = ground (arith, ih.not_both) }

pub string_compare-IsChain :
    (s t u : List ℕ) → IsChain (string_compare s t) (string_compare t u) (string_compare s u)
string_compare-IsChain [] [] [] = ground arith
string_compare-IsChain [] [] (z ∷ u) = ground arith
string_compare-IsChain [] (y ∷ t) [] = ground arith
string_compare-IsChain [] (y ∷ t) (z ∷ u) = ground arith
string_compare-IsChain (x ∷ s) [] [] = ground arith
string_compare-IsChain (x ∷ s) [] (z ∷ u) = ground arith
string_compare-IsChain (x ∷ s) (y ∷ t) [] = ground arith
string_compare-IsChain (x ∷ s) (y ∷ t) (z ∷ u) = ground (arith, string_compare-IsChain s t u)
