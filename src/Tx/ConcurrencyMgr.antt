-- ===== src/Tx/ConcurrencyMgr.antt =====
-- src/main/java/simpledb/tx/concurrency/ConcurrencyMgr.java: the locks of one transaction. The
-- lock table, a static field, is passed along.
use database_system_swe.Base.{ℕ, Bool, true, false, Option, none, some, List, [], ◌∷◌}
use database_system_swe.Base.Assoc.{lookup, insert}
use database_system_swe.Tx.Block.{BlockId, block_eq}
use database_system_swe.Tx.LockTable
use database_system_swe.Tx.LockTable.{LockTable, Attempt, granted, waiting, aborted}

-- The strings "S" and "X".
pub data LockType : Type 0 where
  s x : LockType

pub record ConcurrencyMgr : Type 0 where
  pub locks : List (BlockId × LockType)
  pub txnum : ℕ

-- What the calling thread is left with: the lock, a wait, or an exception.
pub data Reply : Type 0 where
  held blocked failed : Reply

pub record Outcome : Type 0 where
  pub reply : Reply
  pub table : LockTable
  pub mgr : ConcurrencyMgr

abbrev pub note : ConcurrencyMgr → BlockId → LockType → ConcurrencyMgr
note c blk ty = record c { locks = insert blk ty c.locks }

-- What a method does with the answer of the lock table.
abbrev pub settle : Attempt → LockTable → ConcurrencyMgr → BlockId → LockType → Outcome
settle (granted table') table c blk ty = record {
  reply = held;
  table = table';
  mgr = note c blk ty;
}
settle waiting table c blk ty = record { reply = blocked; table = table; mgr = c }
settle aborted table c blk ty = record { reply = failed; table = table; mgr = c }

unfoldable pub s_lock : LockTable → ConcurrencyMgr → BlockId → Outcome
s_lock table c blk = elim (lookup blk c.locks) [
  | none ↦ settle (LockTable.s_lock table blk c.txnum) table c blk s
  | some ty ↦ record { reply = held; table = table; mgr = c }
]

abbrev pub is_x : Option LockType → Bool
is_x (some x) = true
is_x (some s) = false
is_x none = false

abbrev pub has_x_lock : ConcurrencyMgr → BlockId → Bool
has_x_lock c blk = is_x (lookup blk c.locks)

-- The second half of `xLock`: the upgrade, if the shared lock was had.
abbrev pub upgrade : Reply → LockTable → ConcurrencyMgr → BlockId → Outcome
upgrade held table c blk = settle (LockTable.x_lock table blk c.txnum) table c blk x
upgrade blocked table c blk = record { reply = blocked; table = table; mgr = c }
upgrade failed table c blk = record { reply = failed; table = table; mgr = c }

unfoldable pub x_lock : LockTable → ConcurrencyMgr → BlockId → Outcome
unfolding s_lock
x_lock table c blk = elim (has_x_lock c blk) [
  | true ↦ record { reply = held; table = table; mgr = c }
  | false ↦ let o = s_lock table c blk in upgrade o.reply o.table o.mgr blk
]

-- The loop of `release` over the blocks of the transaction.
unfoldable pub unlock_all : LockTable → List (BlockId × LockType) → ℕ → LockTable
unlock_all table [] txnum = table
unlock_all table ((blk, ty) ∷ held_locks) txnum =
    unlock_all (LockTable.unlock table blk txnum).0 held_locks txnum

unfoldable pub release : LockTable → ConcurrencyMgr → LockTable × ConcurrencyMgr
release table c = (unlock_all table c.locks c.txnum, record c { locks = [] })
