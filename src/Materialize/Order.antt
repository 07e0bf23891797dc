-- ===== src/Materialize/Order.antt =====
-- Sorted lists, for the comparators of src/main/java/simpledb/materialize.
use database_system_swe.Base.{Bool, true, false, Option, some, List, All, [], ◌∷◌, ◌++◌, ◌≡◌}

-- The records that have the property are compared without an exception, by an order.
pub record IsOrder {A : Type 0} (less : A → A → Option Bool) (P : A → Type 0) : Type 0 where
  pub before : A → A → Bool
  pub compares : (a b : A) → P a → P b → less a b ≡ some (before a b)
  pub asym : (a b : A) → P a → P b → before a b ≡ true → before b a ≡ false
  pub trans :
      (a b c : A) → P a → P b → P c → before a b ≡ false → before b c ≡ false → before a c ≡ false

module _ {A : Type 0} (before : A → A → Bool) where
  -- No record is before `a`.
  abbrev pub IsLeast : A → List A → Type 0
  IsLeast a l = All (λ b. before b a ≡ false) l

  abbrev pub IsSorted : List A → Type 0
  IsSorted [] = Unit {0}
  IsSorted (a ∷ l) = IsLeast a l × IsSorted l

pub All-append :
    {A : Type 0} (P : A → Type 0) (l l' : List A) → All P l → All P l' → All P (l ++ l')
All-append P [] l' h h' = h'
All-append P (a ∷ l) l' (x, h) h' = (x, All-append P l l' h h')

abbrev pub concat {ℓ} : {A : Type ℓ} → List (List A) → List A
concat [] = []
concat (l ∷ ls) = l ++ concat ls
