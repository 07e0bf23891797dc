-- ===== src/Tx/LockTable.antt =====
-- src/main/java/simpledb/tx/concurrency/LockTable.java: the lock table under wait-die. The table
-- maps a block to the transactions that hold it, a shared lock of transaction `t` as the entry `t`
-- and an exclusive one as `-t`. Every public method is synchronized, and `wait` gives the monitor
-- up: a pass through the loop of `sLock` or `xLock` up to its `wait`, its end or its exception is
-- one atomic attempt, and a transaction that waits makes the same attempt again.
use database_system_swe.Base.{
  ℕ, ℤ, pos, neg, int_ltb, Bool, true, false, none, some, List, [], ◌∷◌, ◌++◌, ◌==◌, int_eq,
  if◌then◌else◌,
}
use database_system_swe.Base.Assoc.{lookup, insert, remove}
use database_system_swe.Tx.Block.{BlockId, block_eq}

abbrev pub LockTable : Type 0
LockTable = List (BlockId × List ℤ)

-- What a check answers: go on, wait, or `LockAbortException`.
pub data Check : Type 0 where
  go wait die : Check

-- The loop of `CheckForSLock`.
unfoldable pub check_s_entries : List ℤ → ℕ → Check
check_s_entries [] txnum = go
check_s_entries (tx ∷ txs) txnum =
    if int_ltb tx (pos 0)
    then if int_ltb (neg tx) (pos txnum) then die else wait
    else check_s_entries txs txnum

unfoldable pub check_for_s_lock : LockTable → BlockId → ℕ → Check
check_for_s_lock locks blk txnum = elim (lookup blk locks) [
  | none ↦ go
  | some txs ↦ check_s_entries txs txnum
]

-- The loop of `CheckForXLock`.
unfoldable pub check_x_entries : List ℤ → ℕ → Check
check_x_entries [] txnum = go
check_x_entries (tx ∷ txs) txnum =
    if tx == pos txnum
    then check_x_entries txs txnum
    else if int_ltb (pos 0) tx
    then if int_ltb tx (pos txnum) then die else wait
    else if int_ltb (neg tx) (pos txnum)
    then die
    else wait

unfoldable pub check_for_x_lock : LockTable → BlockId → ℕ → Check
check_for_x_lock locks blk txnum = elim (lookup blk locks) [
  | none ↦ go
  | some txs ↦ check_x_entries txs txnum
]

-- An attempt grants the lock in a new table, waits, or throws.
pub data Attempt : Type 0 where
  granted : LockTable → Attempt
  waiting : Attempt
  aborted : Attempt

abbrev pub attempt : Check → LockTable → Attempt
attempt go locks = granted locks
attempt wait locks = waiting
attempt die locks = aborted

-- What `sLock` does after its loop.
unfoldable pub add_s_entry : LockTable → BlockId → ℕ → LockTable
add_s_entry locks blk txnum = elim (lookup blk locks) [
  | none ↦ insert blk (pos txnum ∷ []) locks
  | some txs ↦ insert blk (txs ++ pos txnum ∷ []) locks
]

-- What `xLock` does after its loop. On a block with no entry it adds `txnum`, as `sLock` does.
unfoldable pub add_x_entry : LockTable → BlockId → ℕ → LockTable
add_x_entry locks blk txnum = elim (lookup blk locks) [
  | none ↦ insert blk (pos txnum ∷ []) locks
  | some txs ↦ insert blk (txs ++ neg (pos txnum) ∷ []) locks
]

unfoldable pub s_lock : LockTable → BlockId → ℕ → Attempt
s_lock locks blk txnum = attempt (check_for_s_lock locks blk txnum) (add_s_entry locks blk txnum)

unfoldable pub x_lock : LockTable → BlockId → ℕ → Attempt
x_lock locks blk txnum = attempt (check_for_x_lock locks blk txnum) (add_x_entry locks blk txnum)

-- A transaction that waits may be interrupted: `wait` throws InterruptedException, which the methods
-- catch to throw LockAbortException.
abbrev pub interrupt : Attempt → Attempt
interrupt (granted locks) = granted locks
interrupt waiting = aborted
interrupt aborted = aborted

-- `List.remove(Object)`: drops the first occurrence.
unfoldable pub remove_first : ℤ → List ℤ → List ℤ
remove_first x [] = []
remove_first x (y ∷ ys) = if y == x then ys else y ∷ remove_first x ys

abbrev pub is_empty : List ℤ → Bool
is_empty [] = true
is_empty (x ∷ xs) = false

-- The entries of a block without those of a transaction.
abbrev pub drop_entries : ℕ → List ℤ → List ℤ
drop_entries txnum txs = remove_first (neg (pos txnum)) (remove_first (pos txnum) txs)

-- The new table, and whether the waiting threads are notified.
unfoldable pub unlock : LockTable → BlockId → ℕ → LockTable × Bool
unlock locks blk txnum = elim (lookup blk locks) [
  | none ↦ (locks, false)
  | some txs ↦
      if is_empty (drop_entries txnum txs)
      then (remove blk locks, true)
      else (insert blk (drop_entries txnum txs) locks, false)
]
