-- ===== src/Tx/WaitDie.antt =====
-- Wait-die: a transaction waits for a younger one only, and dies for an older one only. So the
-- transactions of src/main/java/simpledb/tx/concurrency cannot wait for one another in a cycle.
mod Shared
mod Upgrade
use database_system_swe.Base.{
  ℕ, zero, suc, max, ◌≤◌, ◌<◌, ℤ, pos, negsuc, nat_abs, List, [], ◌∷◌, Option, none, some, ◌≡◌,
  refl, ◌≢◌, sym, ap, ◌∙◌, nat_eq, ◌==◌, arith, inl, inr, ◌⊎◌, Option-cases, Bool-cases, All,
}
use database_system_swe.Base.Assoc.{lookup, insert, lookup-insert}
use database_system_swe.Tx.Block.{BlockId, block_eq, equals, equals_iff}
use database_system_swe.Tx.LockTable
use database_system_swe.Tx.LockTable.{
  LockTable, Check, go, wait, die, attempt, Attempt, check_s_entries, check_x_entries,
  check_for_s_lock, check_for_x_lock, add_s_entry, add_x_entry,
}
use database_system_swe.Tx.ConcurrencyMgr
use database_system_swe.Tx.ConcurrencyMgr.{
  ConcurrencyMgr, LockType, Outcome, Reply, s, x, held, blocked, failed, settle, upgrade, is_x,
}
use database_system_swe.Tx.Counts.{
  count, entries, check_s_wait, check_s_die, check_x_wait, check_x_die, check_for_s_lock_lem,
  check_for_x_lock_lem,
}
use database_system_swe.Tx.Locking.{System, mgr, commit, request, holding, Reach}
use database_system_swe.Tx.Books.{Inv}
use database_system_swe.Tx.Requests.{s_lock-Keeps, mgr-commit}
use database_system_swe.Tx.Exclusion.{Reach-Inv}
use Shared.{s_blocked, s_failed}
pub use Shared.{HeldByYounger, HeldByOlder}
use Upgrade.{stage_blocked, stage_failed}

module _ (σ : System) (n : ℕ) (blk : BlockId) where
  stages_blocked :
      (r : Reply) (table : LockTable) (c : ConcurrencyMgr)
      → Inv (commit σ (suc n) table c)
      → c.txnum ≡ suc n
      → (r ≡ held → lookup blk c.locks ≡ some s)
      → (r ≡ blocked → HeldByYounger σ n blk)
      → (upgrade r table c blk).reply ≡ blocked
      → HeldByYounger σ n blk
  stages_blocked held table c v e own first h = stage_blocked σ n blk table c v e (own refl) h
  stages_blocked blocked table c v e own first h = first refl
  stages_blocked failed table c v e own first h = cc

  stages_failed :
      (r : Reply) (table : LockTable) (c : ConcurrencyMgr)
      → Inv (commit σ (suc n) table c)
      → c.txnum ≡ suc n
      → (r ≡ held → lookup blk c.locks ≡ some s)
      → (r ≡ failed → HeldByOlder σ n blk)
      → (upgrade r table c blk).reply ≡ failed
      → HeldByOlder σ n blk
  stages_failed held table c v e own first h = stage_failed σ n blk table c v e (own refl) h
  stages_failed blocked table c v e own first h = cc
  stages_failed failed table c v e own first h = first refl

  request_blocked :
      (ty : LockType) → Inv σ → (request σ (suc n) blk ty).reply ≡ blocked → HeldByYounger σ n blk
  unfolding ConcurrencyMgr.x_lock
  request_blocked s v h = s_blocked σ v n blk h
  request_blocked x v h = elim (Bool-cases (is_x (lookup blk (σ.local (suc n))))) [
    | inl e ↦ absurd (not_blocked (rw (e, ConcurrencyMgr.x_lock) at h))
    | inr e ↦
        let k = s_lock-Keeps σ v n blk in
        stages_blocked _ _ _ k.keeps_inv k.keeps_number (λ g. k.keeps_share g e)
          (s_blocked σ v n blk) (rw (e, ConcurrencyMgr.x_lock) at h)
  ]
    where
      not_blocked : held ≢ blocked
      not_blocked p = cc

  request_failed :
      (ty : LockType) → Inv σ → (request σ (suc n) blk ty).reply ≡ failed → HeldByOlder σ n blk
  unfolding ConcurrencyMgr.x_lock
  request_failed s v h = s_failed σ v n blk h
  request_failed x v h = elim (Bool-cases (is_x (lookup blk (σ.local (suc n))))) [
    | inl e ↦ absurd (not_failed (rw (e, ConcurrencyMgr.x_lock) at h))
    | inr e ↦
        let k = s_lock-Keeps σ v n blk in
        stages_failed _ _ _ k.keeps_inv k.keeps_number (λ g. k.keeps_share g e) (s_failed σ v n blk)
          (rw (e, ConcurrencyMgr.x_lock) at h)
  ]
    where
      not_failed : held ≢ failed
      not_failed p = cc

-- In every history of requests and releases, a request that waits, shared or exclusive, waits
-- while a transaction with a greater number has a lock on the block.
pub waits_for_younger :
    {σ : System} (n : ℕ) (blk : BlockId) (ty : LockType)
    → Reach σ
    → (request σ (suc n) blk ty).reply ≡ blocked
    → HeldByYounger σ n blk
waits_for_younger {σ} n blk ty r h = request_blocked σ n blk ty (Reach-Inv r) h

-- In every such history, a request that throws without an interrupt, shared or exclusive, does so
-- while a transaction with a smaller number has a lock on the block.
pub dies_for_older :
    {σ : System} (n : ℕ) (blk : BlockId) (ty : LockType)
    → Reach σ
    → (request σ (suc n) blk ty).reply ≡ failed
    → HeldByOlder σ n blk
dies_for_older {σ} n blk ty r h = request_failed σ n blk ty (Reach-Inv r) h

largest : ℕ → List ℕ → ℕ
largest n [] = n
largest n (m ∷ ms) = largest (max n m) ms

largest-ge : (n : ℕ) (ms : List ℕ) → n ≤ largest n ms
unfolding largest
largest-ge n [] = omega arith
largest-ge n (m ∷ ms) = omega (arith, largest-ge (max n m) ms)

-- Among the members of a list.
abbrev pub OneOf : ℕ → List ℕ → Type 0
OneOf k [] = ⊥
OneOf k (n ∷ ns) = (k ≡ n) ⊎ OneOf k ns

largest-OneOf : (n : ℕ) (ms : List ℕ) → OneOf (largest n ms) (n ∷ ms)
unfolding largest
largest-OneOf n [] = inl refl
largest-OneOf n (m ∷ ms) = ground (arith, largest-OneOf (max n m) ms)

OneOf-le : (k n : ℕ) (ms : List ℕ) → OneOf k (n ∷ ms) → k ≤ largest n ms
unfolding largest
OneOf-le k n [] h = ground arith
OneOf-le k n (m ∷ ms) h = ground (arith, OneOf-le k (max n m) ms, largest-ge (max n m) ms)

-- No deadlock: in every history, take any transactions of which each wants some lock, among them
-- all that have a lock on any block. The request of at least one of them does not wait.
pub no_deadlock :
    {σ : System} (n : ℕ) (ns : List ℕ) (wants : ℕ → BlockId × LockType)
    → Reach σ
    → ((m : ℕ) (b : BlockId) → holding σ (suc m) b ≢ none → OneOf m (n ∷ ns))
    → (k : ℕ) × OneOf k (n ∷ ns) × ((request σ (suc k) (wants k).0 (wants k).1).reply ≢ blocked)
no_deadlock {σ} n ns wants r owners =
    let k = largest n ns in
    (
      k,
      largest-OneOf n ns,
      λ h.
          let (m, lt, owner) = waits_for_younger k (wants k).0 (wants k).1 r h in
          absurd (omega (arith, OneOf-le m n ns (owners m (wants k).0 owner))),
    )
