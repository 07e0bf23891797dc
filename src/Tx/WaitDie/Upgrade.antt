-- ===== src/Tx/WaitDie/Upgrade.antt =====
-- Who an upgrade to an exclusive lock waits for, and who it dies for (`CheckForXLock` of
-- src/main/java/simpledb/tx/concurrency/LockTable.java).
use database_system_swe.Base.{ℕ, suc, some, ◌≡◌, refl, sym, ap, ◌∙◌, nat_eq, arith}
use database_system_swe.Base.Assoc.{lookup}
use database_system_swe.Tx.Block.{BlockId, block_eq}
use database_system_swe.Tx.LockTable
use database_system_swe.Tx.LockTable.{
  LockTable, Check, go, wait, die, attempt, Attempt, check_s_entries, check_x_entries,
  check_for_s_lock, check_for_x_lock, add_s_entry, add_x_entry,
}
use database_system_swe.Tx.ConcurrencyMgr.{
  ConcurrencyMgr, s, x, held, blocked, failed, settle, upgrade,
}
use database_system_swe.Tx.Counts.{check_x_wait, check_x_die, check_for_x_lock_lem}
use database_system_swe.Tx.Locking.{System, mgr, commit, holding}
use database_system_swe.Tx.Books.{Inv}
use database_system_swe.Tx.Requests.{mgr-commit}
use database_system_swe.Tx.WaitDie.Shared.{
  HeldByYounger, HeldByOlder, younger_of_entry, older_of_entry,
}

-- The upgrade of a shared lock.
module _ (σ : System) (v : Inv σ) (n : ℕ) (blk : BlockId)
    (own : holding σ (suc n) blk ≡ some s) where
  settle_x_younger :
      (k : Check) (locks : LockTable)
      → check_for_x_lock σ.table blk (suc n) ≡ k
      → (settle (attempt k locks) σ.table (mgr σ (suc n)) blk x).reply ≡ blocked
      → HeldByYounger σ n blk
  settle_x_younger go locks e h = cc
  settle_x_younger wait locks e h =
      let (y, c, d, le) = check_x_wait _ _ (sym (check_for_x_lock_lem σ.table blk (suc n)) ∙ e) in
      younger_of_entry σ v n blk y own c d le
  settle_x_younger die locks e h = cc

  settle_x_older :
      (k : Check) (locks : LockTable)
      → check_for_x_lock σ.table blk (suc n) ≡ k
      → (settle (attempt k locks) σ.table (mgr σ (suc n)) blk x).reply ≡ failed
      → HeldByOlder σ n blk
  settle_x_older go locks e h = cc
  settle_x_older wait locks e h = cc
  settle_x_older die locks e h =
      let (y, c, d, le) = check_x_die _ _ (sym (check_for_x_lock_lem σ.table blk (suc n)) ∙ e) in
      older_of_entry σ v n blk y c le

  upgrade_blocked :
      (upgrade held σ.table (mgr σ (suc n)) blk).reply ≡ blocked → HeldByYounger σ n blk
  unfolding LockTable.x_lock
  upgrade_blocked = settle_x_younger _ _ refl

  upgrade_failed : (upgrade held σ.table (mgr σ (suc n)) blk).reply ≡ failed → HeldByOlder σ n blk
  unfolding LockTable.x_lock
  upgrade_failed = settle_x_older _ _ refl

module _ (σ : System) (n : ℕ) (blk : BlockId) (table : LockTable) (c : ConcurrencyMgr) where
  younger_before : HeldByYounger (commit σ (suc n) table c) n blk → HeldByYounger σ n blk
  younger_before (m, lt, h) = (m, lt, λ e. h (ground arith))

  older_before : HeldByOlder (commit σ (suc n) table c) n blk → HeldByOlder σ n blk
  older_before (m, lt, h) = (m, lt, λ e. h (ground arith))

  module _ (v : Inv (commit σ (suc n) table c)) (number : c.txnum ≡ suc n)
      (own : lookup blk c.locks ≡ some s) where
    owned : holding (commit σ (suc n) table c) (suc n) blk ≡ some s
    owned =
        ap (λ (d : ConcurrencyMgr). lookup blk d.locks) (mgr-commit σ (suc n) table c number) ∙ own

    pub stage_blocked : (upgrade held table c blk).reply ≡ blocked → HeldByYounger σ n blk
    stage_blocked h = younger_before (
        upgrade_blocked (commit σ (suc n) table c) v n blk owned
          (ap (λ d. (upgrade held table d blk).reply) (mgr-commit σ (suc n) table c number) ∙ h))

    pub stage_failed : (upgrade held table c blk).reply ≡ failed → HeldByOlder σ n blk
    stage_failed h = older_before (
        upgrade_failed (commit σ (suc n) table c) v n blk owned
          (ap (λ d. (upgrade held table d blk).reply) (mgr-commit σ (suc n) table c number) ∙ h))
