-- ===== src/Tx/WaitDie/Shared.antt =====
-- Who a request for a shared lock waits for, and who it dies for (`CheckForSLock` of
-- src/main/java/simpledb/tx/concurrency/LockTable.java).
use database_system_swe.Base.{
  ℕ, zero, suc, ◌≤◌, ◌<◌, ℤ, pos, negsuc, nat_abs, none, some, ◌≡◌, refl, ◌≢◌, sym, ◌∙◌, nat_eq,
  arith, inl, inr, ◌⊎◌, Option-cases,
}
use database_system_swe.Base.Assoc.{lookup}
use database_system_swe.Tx.Block.{BlockId, block_eq}
use database_system_swe.Tx.LockTable
use database_system_swe.Tx.LockTable.{
  LockTable, Check, go, wait, die, attempt, Attempt, check_s_entries, check_x_entries,
  check_for_s_lock, check_for_x_lock, add_s_entry, add_x_entry,
}
use database_system_swe.Tx.ConcurrencyMgr
use database_system_swe.Tx.ConcurrencyMgr.{
  ConcurrencyMgr, LockType, Outcome, Reply, s, x, held, blocked, failed, settle, upgrade, is_x,
}
use database_system_swe.Tx.Counts.{count, entries, check_s_wait, check_s_die, check_for_s_lock_lem}
use database_system_swe.Tx.Locking.{System, mgr, request, holding}
use database_system_swe.Tx.Books.{Inv}

-- A transaction other than `suc n` that has a lock on the block, and how its number compares.
abbrev pub HeldByYounger : System → ℕ → BlockId → Type 0
HeldByYounger σ n blk = (m : ℕ) × (n < m) × (holding σ (suc m) blk ≢ none)

abbrev pub HeldByOlder : System → ℕ → BlockId → Type 0
HeldByOlder σ n blk = (m : ℕ) × (m < n) × (holding σ (suc m) blk ≢ none)

module _ (σ : System) (v : Inv σ) (n : ℕ) (blk : BlockId) where
  -- An entry of the block is that of a transaction with a lock there.
  held_of_entry :
      (m : ℕ)
      → (0 < count (pos (suc m)) (entries σ.table blk))
        ⊎ (0 < count (negsuc m) (entries σ.table blk))
      → holding σ (suc m) blk ≢ none
  held_of_entry m c e = ground (arith, v.agrees m blk)

  s_wait_younger :
      holding σ (suc n) blk ≡ none
      → check_for_s_lock σ.table blk (suc n) ≡ wait
      → HeldByYounger σ n blk
  s_wait_younger vacant e =
      let (m, c, le) = check_s_wait _ _ (sym (check_for_s_lock_lem σ.table blk (suc n)) ∙ e) in
      (m, ground (arith, v.agrees n blk), held_of_entry m (inr c))

  s_die_older :
      holding σ (suc n) blk ≡ none
      → check_for_s_lock σ.table blk (suc n) ≡ die
      → HeldByOlder σ n blk
  s_die_older vacant e =
      let (m, c, le) = check_s_die _ _ (sym (check_for_s_lock_lem σ.table blk (suc n)) ∙ e) in
      (m, omega arith, held_of_entry m (inr c))

  pub younger_of_entry :
      (y : ℤ)
      → holding σ (suc n) blk ≡ some s
      → 0 < count y (entries σ.table blk)
      → y ≢ pos (suc n)
      → suc n ≤ nat_abs y
      → HeldByYounger σ n blk
  younger_of_entry (pos zero) own c d le = absurd (omega arith)
  younger_of_entry (pos (suc m)) own c d le = (m, ground arith, held_of_entry m (inl c))
  younger_of_entry (negsuc m) own c d le =
      (m, ground (arith, v.agrees n blk), held_of_entry m (inr c))

  pub older_of_entry :
      (y : ℤ) → 0 < count y (entries σ.table blk) → nat_abs y < suc n → HeldByOlder σ n blk
  older_of_entry (pos zero) c le = absurd (omega (arith, v.positive blk))
  older_of_entry (pos (suc m)) c le = (m, omega arith, held_of_entry m (inl c))
  older_of_entry (negsuc m) c le = (m, omega arith, held_of_entry m (inr c))

  settle_s_younger :
      (k : Check) (locks : LockTable)
      → check_for_s_lock σ.table blk (suc n) ≡ k
      → holding σ (suc n) blk ≡ none
      → (settle (attempt k locks) σ.table (mgr σ (suc n)) blk s).reply ≡ blocked
      → HeldByYounger σ n blk
  settle_s_younger go locks e vacant h = cc
  settle_s_younger wait locks e vacant h = s_wait_younger vacant e
  settle_s_younger die locks e vacant h = cc

  settle_s_older :
      (k : Check) (locks : LockTable)
      → check_for_s_lock σ.table blk (suc n) ≡ k
      → holding σ (suc n) blk ≡ none
      → (settle (attempt k locks) σ.table (mgr σ (suc n)) blk s).reply ≡ failed
      → HeldByOlder σ n blk
  settle_s_older go locks e vacant h = cc
  settle_s_older wait locks e vacant h = cc
  settle_s_older die locks e vacant h = s_die_older vacant e

  pub s_blocked : (request σ (suc n) blk s).reply ≡ blocked → HeldByYounger σ n blk
  unfolding ConcurrencyMgr.s_lock LockTable.s_lock
  s_blocked h = elim (Option-cases (lookup blk (σ.local (suc n)))) [
    | inl vacant ↦ settle_s_younger _ _ refl vacant (rw (vacant, ConcurrencyMgr.s_lock) at h)
    | inr (ty, e) ↦ absurd (held_not_blocked (rw (e, ConcurrencyMgr.s_lock) at h))
  ]
    where
      held_not_blocked : held ≢ blocked
      held_not_blocked p = cc

  pub s_failed : (request σ (suc n) blk s).reply ≡ failed → HeldByOlder σ n blk
  unfolding ConcurrencyMgr.s_lock LockTable.s_lock
  s_failed h = elim (Option-cases (lookup blk (σ.local (suc n)))) [
    | inl vacant ↦ settle_s_older _ _ refl vacant (rw (vacant, ConcurrencyMgr.s_lock) at h)
    | inr (ty, e) ↦ absurd (held_not_failed (rw (e, ConcurrencyMgr.s_lock) at h))
  ]
    where
      held_not_failed : held ≢ failed
      held_not_failed p = cc
