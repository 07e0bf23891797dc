-- ===== src/Tx/Books.antt =====
-- The books of the concurrency managers against the lock table: the invariant, and that a lock
-- granted by src/main/java/simpledb/tx/concurrency/LockTable.java keeps it.
use database_system_swe.Base.{
  ℕ, suc, ℤ, pos, negsuc, List, Option, none, some, ◌≡◌, ◌≢◌, nat_eq, int_eq, arith,
}
use database_system_swe.Base.Assoc.{lookup-insert}
use database_system_swe.Tx.Block.{BlockId, block_eq, equals_iff}
use database_system_swe.Tx.LockTable.{
  go, check_for_s_lock, check_for_x_lock, add_s_entry, add_x_entry,
}
use database_system_swe.Tx.ConcurrencyMgr
use database_system_swe.Tx.ConcurrencyMgr.{
  ConcurrencyMgr, LockType, Outcome, s, x, Reply, held, blocked, failed, settle, upgrade,
  unlock_all, is_x,
}
use database_system_swe.Tx.Counts.{
  count, entries, count-append_one, count-check_s_go, count-check_x_go, check_for_s_lock_lem,
  check_for_x_lock_lem, entries-add_s, entries-add_x,
}
use database_system_swe.Tx.Locking.{System, mgr, commit, holding}

-- What the entries of a block say of a transaction (its number is `suc n`), beside its own books:
-- one entry for a shared lock, two for an exclusive one.
abbrev pub Agrees : ℕ → List ℤ → Option LockType → Type 0
Agrees n txs none = (count (pos (suc n)) txs ≡ 0) × (count (negsuc n) txs ≡ 0)
Agrees n txs (some s) = (count (pos (suc n)) txs ≡ 1) × (count (negsuc n) txs ≡ 0)
Agrees n txs (some x) = (count (pos (suc n)) txs ≡ 1) × (count (negsuc n) txs ≡ 1)

pub record Inv (σ : System) : Type 0 where
  pub positive : (b : BlockId) → count (pos 0) (entries σ.table b) ≡ 0
  pub agrees : (n : ℕ) (b : BlockId) → Agrees n (entries σ.table b) (holding σ (suc n) b)
  pub alone :
      (n m : ℕ) (b : BlockId) → holding σ (suc n) b ≡ some x → n ≢ m → holding σ (suc m) b ≡ none

-- The table gains a shared lock of `suc n` on `blk`.
abbrev pub with_s : System → ℕ → BlockId → System
with_s σ n blk =
    commit σ (suc n) (add_s_entry σ.table blk (suc n)) (ConcurrencyMgr.note (mgr σ (suc n)) blk s)

abbrev pub with_x : System → ℕ → BlockId → System
with_x σ n blk =
    commit σ (suc n) (add_x_entry σ.table blk (suc n)) (ConcurrencyMgr.note (mgr σ (suc n)) blk x)

module _ (σ : System) (v : Inv σ) (n : ℕ) (blk : BlockId) where
  with_s-agrees :
      holding σ (suc n) blk ≡ none
      → (m : ℕ) (b : BlockId)
      → Agrees m (entries (with_s σ n blk).table b) (holding (with_s σ n blk) (suc m) b)
  with_s-agrees vacant m b = ground (
    arith,
    v.agrees m b,
    v.agrees m blk,
    equals_iff blk b,
    lookup-insert blk b s (σ.local (suc n)),
    entries-add_s σ.table blk b (suc n),
    count-append_one (pos (suc m)) (pos (suc n)) (entries σ.table blk),
    count-append_one (negsuc m) (pos (suc n)) (entries σ.table blk),
  )

  with_s-alone :
      holding σ (suc n) blk ≡ none
      → check_for_s_lock σ.table blk (suc n) ≡ go
      → (k m : ℕ) (b : BlockId) → holding (with_s σ n blk) (suc k) b ≡ some x
      → k ≢ m
      → holding (with_s σ n blk) (suc m) b ≡ none
  with_s-alone vacant admitted k m b h d = ground (
    arith,
    v.alone k m b,
    v.agrees k blk,
    equals_iff blk b,
    lookup-insert blk b s (σ.local (suc n)),
    check_for_s_lock_lem σ.table blk (suc n),
    count-check_s_go (entries σ.table blk) (suc n) k,
  )

  with_x-agrees :
      holding σ (suc n) blk ≡ some s
      → (m : ℕ) (b : BlockId)
      → Agrees m (entries (with_x σ n blk).table b) (holding (with_x σ n blk) (suc m) b)
  with_x-agrees shared m b = ground (
    arith,
    v.agrees m b,
    v.agrees m blk,
    v.agrees n blk,
    equals_iff blk b,
    lookup-insert blk b x (σ.local (suc n)),
    entries-add_x σ.table blk b (suc n),
    count-append_one (pos (suc m)) (negsuc n) (entries σ.table blk),
    count-append_one (negsuc m) (negsuc n) (entries σ.table blk),
  )

  with_x-alone :
      holding σ (suc n) blk ≡ some s
      → check_for_x_lock σ.table blk (suc n) ≡ go
      → (k m : ℕ) (b : BlockId) → holding (with_x σ n blk) (suc k) b ≡ some x
      → k ≢ m
      → holding (with_x σ n blk) (suc m) b ≡ none
  with_x-alone shared admitted k m b h d = ground (
    arith,
    v.alone k m b,
    v.agrees k blk,
    v.agrees m blk,
    equals_iff blk b,
    lookup-insert blk b x (σ.local (suc n)),
    check_for_x_lock_lem σ.table blk (suc n),
    count-check_x_go (entries σ.table blk) (suc n) (pos (suc k)),
    count-check_x_go (entries σ.table blk) (suc n) (pos (suc m)),
    count-check_x_go (entries σ.table blk) (suc n) (negsuc k),
  )

  pub with_s-Inv :
      holding σ (suc n) blk ≡ none
      → check_for_s_lock σ.table blk (suc n) ≡ go
      → Inv (with_s σ n blk)
  with_s-Inv vacant admitted = record {
    positive = λ b. ground (
      arith,
      v.positive b,
      v.positive blk,
      entries-add_s σ.table blk b (suc n),
      count-append_one (pos 0) (pos (suc n)) (entries σ.table blk),
    );
    agrees = with_s-agrees vacant;
    alone = with_s-alone vacant admitted;
  }

  pub with_x-Inv :
      holding σ (suc n) blk ≡ some s
      → check_for_x_lock σ.table blk (suc n) ≡ go
      → Inv (with_x σ n blk)
  with_x-Inv shared admitted = record {
    positive = λ b. ground (
      arith,
      v.positive b,
      v.positive blk,
      v.agrees n blk,
      entries-add_x σ.table blk b (suc n),
      count-append_one (pos 0) (negsuc n) (entries σ.table blk),
    );
    agrees = with_x-agrees shared;
    alone = with_x-alone shared admitted;
  }
