-- ===== src/Tx/Exclusion.antt =====
-- Mutual exclusion and two-phase release over every history of requests and releases, for
-- src/main/java/simpledb/tx/concurrency.
use database_system_swe.Base.{
  ℕ, suc, pos, negsuc, none, some, ◌≡◌, refl, ◌≢◌, nat_eq, int_eq, arith, inl, inr,
}
use database_system_swe.Base.Assoc.{lookup}
use database_system_swe.Tx.Block.{BlockId, block_eq}
use database_system_swe.Tx.ConcurrencyMgr
use database_system_swe.Tx.ConcurrencyMgr.{
  ConcurrencyMgr, LockType, Outcome, s, x, Reply, held, blocked, failed, settle, upgrade,
  unlock_all, is_x,
}
use database_system_swe.Tx.Counts.{count, entries}
use database_system_swe.Tx.Locking.{
  System, after_release, holding, Step, Reach, start, ask, ask_interrupted, finish, init, next,
}
use database_system_swe.Tx.Books.{Inv}
use database_system_swe.Tx.Requests.{request-Inv}
use database_system_swe.Tx.Releases.{release-Inv, release_own, release_other}

start-Inv : Inv start
unfolding entries lookup count
start-Inv = record { positive = λ b. refl; agrees = λ n b. omega arith; alone = λ n m b h d. refl }

Step-Inv : {σ τ : System} → Step σ τ → Inv σ → Inv τ
Step-Inv (ask σ n blk ty) v = request-Inv σ n blk ty v
Step-Inv (ask_interrupted σ n blk ty) v = request-Inv σ n blk ty v
Step-Inv (finish σ n) v = release-Inv σ v n

pub Reach-Inv : {σ : System} → Reach σ → Inv σ
Reach-Inv init = start-Inv
Reach-Inv (next r st) = Step-Inv st (Reach-Inv r)

-- In every history of lock requests, also interrupted ones, and releases by transactions that are
-- numbered from 1, while one transaction has an exclusive lock on a block by its own books, no other transaction has a
-- lock on it, and the lock table has no entry of another for the block.
pub exclusive_excludes :
    {σ : System} (n m : ℕ) (b : BlockId)
    → Reach σ
    → holding σ (suc n) b ≡ some x
    → n ≢ m
    → (holding σ (suc m) b ≡ none)
      × (count (pos (suc m)) (entries σ.table b) ≡ 0)
      × (count (negsuc m) (entries σ.table b) ≡ 0)
exclusive_excludes n m b r h d =
    let v = Reach-Inv r in
    let free = v.alone n m b h d in
    (free, ground (arith, free, v.agrees m b), ground (arith, free, v.agrees m b))

-- In every such history, a release empties the books of the transaction and leaves no entry of it
-- on any block of the lock table; the number of each entry of any other transaction is kept.
pub release_gives_back :
    {σ : System} (n m : ℕ) (b : BlockId)
    → Reach σ
    → m ≢ n
    → (holding (after_release σ (suc n)) (suc n) b ≡ none)
      × (count (pos (suc n)) (entries (after_release σ (suc n)).table b) ≡ 0)
      × (count (negsuc n) (entries (after_release σ (suc n)).table b) ≡ 0)
      × (count (pos (suc m)) (entries (after_release σ (suc n)).table b)
          ≡ count (pos (suc m)) (entries σ.table b))
      × (count (negsuc m) (entries (after_release σ (suc n)).table b)
          ≡ count (negsuc m) (entries σ.table b))
unfolding ConcurrencyMgr.release lookup
release_gives_back {σ} n m b r d =
    let v = Reach-Inv r in
    (
      ground arith,
      release_own σ v n b (pos (suc n)) (inl refl),
      release_own σ v n b (negsuc n) (inr refl),
      release_other σ v n b (pos (suc m)) (λ e. ground arith) (λ e. ground arith),
      release_other σ v n b (negsuc m) (λ e. ground arith) (λ e. ground arith),
    )
