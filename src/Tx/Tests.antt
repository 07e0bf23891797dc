-- ===== src/Tx/Tests.antt =====
-- Tests and examples for the locking modules: src/test_code/TestDeadlock.java's kind of run.
use database_system_swe.Base.{ℕ, suc, pos, negsuc, [], ◌∷◌, none, ◌≡◌, refl, ◌≢◌, arith}
use database_system_swe.Base.Assoc.{lookup, insert, remove}
use database_system_swe.Tx.Block.{BlockId, block_eq}
use database_system_swe.Tx.LockTable.{
  check_s_entries, check_x_entries, check_for_s_lock, check_for_x_lock, add_s_entry, add_x_entry,
  s_lock, x_lock, remove_first, unlock,
}
use database_system_swe.Tx.ConcurrencyMgr
use database_system_swe.Tx.ConcurrencyMgr.{LockType, s, x, held, blocked, failed, unlock_all}
use database_system_swe.Tx.Counts.{count, entries}
use database_system_swe.Tx.Locking.{
  System, start, request, after_request, after_release, holding, Reach, init, next, ask,
}
use database_system_swe.Tx.Exclusion.{exclusive_excludes, release_gives_back}
use database_system_swe.Tx.WaitDie.{
  HeldByYounger, HeldByOlder, OneOf, waits_for_younger, dies_for_older, no_deadlock,
}

program : Unit {0}
unfolding lookup insert remove check_s_entries check_x_entries check_for_s_lock check_for_x_lock
    add_s_entry add_x_entry s_lock x_lock remove_first unlock unlock_all ConcurrencyMgr.s_lock
    ConcurrencyMgr.x_lock ConcurrencyMgr.release count entries
program = tt

abbrev block : ℕ → BlockId
block n = record { filename = "testfile"; blknum = pos n }

-- Transaction 2 has the exclusive lock of block 1, and transaction 1 the shared lock of block 2.
abbrev two_active : System
two_active = after_request (after_request start 2 (block 1) x) 1 (block 2) s

two_active-Reach : Reach two_active
two_active-Reach = next (next init (ask _ 1 (block 1) x)) (ask _ 0 (block 2) s)

older_waits : (request two_active 1 (block 1) s).reply ≡ blocked
unfolding program
older_waits = refl

younger_dies : (request two_active 2 (block 2) x).reply ≡ failed
unfolding program
younger_dies = refl

-- After the younger transaction ends, the older one gets its lock.
older_gets : (request (after_release two_active 2) 1 (block 1) x).reply ≡ held
unfolding program
older_gets = refl

exclusive_excludes_example :
    (holding two_active 1 (block 1) ≡ none)
    × (count (pos 1) (entries two_active.table (block 1)) ≡ 0)
    × (count (negsuc 0) (entries two_active.table (block 1)) ≡ 0)
unfolding program
exclusive_excludes_example =
    exclusive_excludes 1 0 (block 1) two_active-Reach refl (λ e. omega arith)

release_gives_back_example :
    (holding (after_release two_active 2) 2 (block 1) ≡ none)
    × (count (pos 2) (entries (after_release two_active 2).table (block 1)) ≡ 0)
    × (count (negsuc 1) (entries (after_release two_active 2).table (block 1)) ≡ 0)
    × (count (pos 1) (entries (after_release two_active 2).table (block 1))
        ≡ count (pos 1) (entries two_active.table (block 1)))
    × (count (negsuc 0) (entries (after_release two_active 2).table (block 1))
        ≡ count (negsuc 0) (entries two_active.table (block 1)))
release_gives_back_example = release_gives_back 1 0 (block 1) two_active-Reach (λ e. omega arith)

waits_for_younger_example : HeldByYounger two_active 0 (block 1)
unfolding program
waits_for_younger_example = waits_for_younger 0 (block 1) s two_active-Reach refl

dies_at_block_two : HeldByOlder two_active 1 (block 2)
unfolding program
dies_at_block_two = dies_for_older 1 (block 2) x two_active-Reach refl

abbrev wants : ℕ → BlockId × LockType
wants n = (block (suc n), x)

owners : (m : ℕ) (b : BlockId) → holding two_active (suc m) b ≢ none → OneOf m (0 ∷ 1 ∷ [])
unfolding program
owners m b h = ground arith

no_deadlock_example :
    (k : ℕ) × OneOf k (0 ∷ 1 ∷ [])
    × ((request two_active (suc k) (wants k).0 (wants k).1).reply ≢ blocked)
no_deadlock_example = no_deadlock 0 (1 ∷ []) wants two_active-Reach owners
