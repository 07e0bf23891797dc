-- ===== src/Base/Assoc.antt =====
-- `java.util.HashMap` as a list of rows: `get`, `put`, `remove`, and their laws. The order of the
-- rows is not that of the hash table, and only loops over a whole map read it.
use mathlib.Core.List.{List, [], ◌∷◌}
use mathlib.Core.Option.{Option, none, some}
use mathlib.Core.Path.{◌≡◌}
use native.Mathlib.Omega.{arith}
use database_system_swe.Base.Equality.{Key, ◌==◌}
use database_system_swe.Base.Tests.{if◌then◌else◌}

module _ {ℓ κ} {K : Type ℓ} {V : Type κ} ⦃key : Key K⦄ where
  unfoldable pub lookup : K → List (K × V) → Option V
  lookup wanted [] = none
  lookup wanted (row ∷ rows) = if row.0 == wanted then some row.1 else lookup wanted rows

  unfoldable pub remove : K → List (K × V) → List (K × V)
  remove gone [] = []
  remove gone (row ∷ rows) =
      let rows' = remove gone rows in if row.0 == gone then rows' else row ∷ rows'

  unfoldable pub insert : K → V → List (K × V) → List (K × V)
  insert new v [] = (new, v) ∷ []
  insert new v (row ∷ rows) =
      let rows' = insert new v rows in if row.0 == new then (new, v) ∷ rows else row ∷ rows'

  pub lookup-remove :
      (gone wanted : K) (rows : List (K × V))
      → lookup wanted (remove gone rows) ≡ (if gone == wanted then none else lookup wanted rows)
  unfolding lookup remove
  lookup-remove gone wanted [] = ground arith
  lookup-remove gone wanted (row ∷ rows) =
      let ih = lookup-remove gone wanted rows in
      ground
        (arith, ih, key.same_iff row.0 gone, key.same_iff row.0 wanted, key.same_iff gone wanted)

  pub lookup-insert :
      (new wanted : K) (v : V) (rows : List (K × V))
      → lookup wanted (insert new v rows) ≡ (if new == wanted then some v else lookup wanted rows)
  unfolding lookup insert
  lookup-insert new wanted v [] = ground arith
  lookup-insert new wanted v (row ∷ rows) =
      let ih = lookup-insert new wanted v rows in
      ground (arith, ih, key.same_iff row.0 new, key.same_iff row.0 wanted, key.same_iff new wanted)
