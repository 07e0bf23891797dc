-- ===== src/Tx/Releases.antt =====
-- `release` of src/main/java/simpledb/tx/concurrency/ConcurrencyMgr.java gives back every lock of its
-- transaction, and no other.
use database_system_swe.Base.{
  ℕ, suc, ◌-◌, ◌≤◌, ℤ, pos, negsuc, List, [], ◌∷◌, none, ◌≡◌, refl, ◌≢◌, ◌∙◌, ◌⊎◌, nat_eq, int_eq,
  int_beq_iff, if◌then◌else◌, arith, inl, inr,
}
use database_system_swe.Base.Assoc.{lookup}
use database_system_swe.Tx.Block.{BlockId, block_eq, equals}
use database_system_swe.Tx.LockTable.{LockTable, unlock}
use database_system_swe.Tx.ConcurrencyMgr
use database_system_swe.Tx.ConcurrencyMgr.{
  ConcurrencyMgr, LockType, Outcome, s, x, Reply, held, blocked, failed, settle, upgrade,
  unlock_all, is_x,
}
use database_system_swe.Tx.Counts.{count, entries, count-unlock, count-drop_entries}
use database_system_swe.Tx.Locking.{System, after_release, holding}
use database_system_swe.Tx.Books.{Agrees, Inv}

-- Unlocking every block of the books leaves no entry of the transaction, and every other entry.
module _ (n : ℕ) (y : ℤ) where
  count-unlock_own :
      (table : LockTable) (blk b : BlockId)
      → (y ≡ pos (suc n)) ⊎ (y ≡ negsuc n)
      → count y (entries (unlock table blk (suc n)).0 b)
        ≡ (if equals blk b then count y (entries table b) - 1 else count y (entries table b))
  count-unlock_own table blk b own =
      ground (arith, count-unlock table blk b n y, count-drop_entries n y (entries table b))

  count-unlock_other :
      (table : LockTable) (blk b : BlockId)
      → y ≢ pos (suc n)
      → y ≢ negsuc n
      → count y (entries (unlock table blk (suc n)).0 b) ≡ count y (entries table b)
  count-unlock_other table blk b d d' = ground (
    arith,
    count-unlock table blk b n y,
    count-drop_entries n y (entries table b),
    int_beq_iff (pos (suc n)) y,
    int_beq_iff (negsuc n) y,
  )

  pub count-unlock_all_other :
      (books : List (BlockId × LockType)) (table : LockTable) (b : BlockId)
      → y ≢ pos (suc n)
      → y ≢ negsuc n
      → count y (entries (unlock_all table books (suc n)) b) ≡ count y (entries table b)
  unfolding unlock_all
  count-unlock_all_other [] table b d d' = refl
  count-unlock_all_other ((blk, ty) ∷ books) table b d d' =
      count-unlock_all_other books (unlock table blk (suc n)).0 b d d'
      ∙ count-unlock_other table blk b d d'

  count-unlock_all_le :
      (books : List (BlockId × LockType)) (table : LockTable) (b : BlockId)
      → (y ≡ pos (suc n)) ⊎ (y ≡ negsuc n)
      → count y (entries (unlock_all table books (suc n)) b) ≤ count y (entries table b)
  unfolding unlock_all
  count-unlock_all_le [] table b own = omega arith
  count-unlock_all_le ((blk, ty) ∷ books) table b own = ground (
    arith,
    count-unlock_own table blk b own,
    count-unlock_all_le books (unlock table blk (suc n)).0 b own,
  )

  pub count-unlock_all_zero :
      (books : List (BlockId × LockType)) (table : LockTable) (b : BlockId)
      → (y ≡ pos (suc n)) ⊎ (y ≡ negsuc n)
      → count y (entries table b) ≤ 1
      → (lookup b books ≡ none → count y (entries table b) ≡ 0)
      → count y (entries (unlock_all table books (suc n)) b) ≡ 0
  unfolding unlock_all lookup
  count-unlock_all_zero [] table b own le h = h refl
  count-unlock_all_zero ((blk, ty) ∷ books) table b own le h = ground (
    arith,
    count-unlock_own table blk b own,
    count-unlock_all_le books (unlock table blk (suc n)).0 b own,
    count-unlock_all_zero books (unlock table blk (suc n)).0 b own,
  )

module _ (σ : System) (v : Inv σ) (n : ℕ) where
  -- The table after `release`, for the transaction and for every other one.
  pub release_own :
      (b : BlockId) (y : ℤ)
      → (y ≡ pos (suc n)) ⊎ (y ≡ negsuc n)
      → count y (entries (after_release σ (suc n)).table b) ≡ 0
  unfolding ConcurrencyMgr.release
  release_own b y own =
      count-unlock_all_zero n y (σ.local (suc n)) σ.table b own (ground (arith, v.agrees n b))
        (λ e. ground (arith, v.agrees n b))

  pub release_other :
      (b : BlockId) (y : ℤ)
      → y ≢ pos (suc n)
      → y ≢ negsuc n
      → count y (entries (after_release σ (suc n)).table b) ≡ count y (entries σ.table b)
  unfolding ConcurrencyMgr.release
  release_other b y d d' = count-unlock_all_other n y (σ.local (suc n)) σ.table b d d'

  after_release-agrees :
      (m : ℕ) (b : BlockId)
      → Agrees m
          (entries (after_release σ (suc n)).table b)
          (holding (after_release σ (suc n)) (suc m) b)
  unfolding ConcurrencyMgr.release lookup
  after_release-agrees m b = ground (
    arith,
    v.agrees m b,
    release_own b (pos (suc n)) (inl refl),
    release_own b (negsuc n) (inr refl),
    release_other b (pos (suc m)),
    release_other b (negsuc m),
  )

  pub release-Inv : Inv (after_release σ (suc n))
  unfolding ConcurrencyMgr.release lookup
  release-Inv = record {
    positive = λ b. ground (arith, v.positive b, release_other b (pos 0));
    agrees = after_release-agrees;
    alone = λ k m b h d. ground (arith, v.alone k m b);
  }
