-- ===== src/Tx/Locking.antt =====
-- The transactions of a database together: one lock table (a static field of
-- src/main/java/simpledb/tx/concurrency/ConcurrencyMgr.java) and the concurrency manager of each.
use database_system_swe.Base.{ℕ, suc, List, [], Option, ◌==◌, nat_eq, if◌then◌else◌}
use database_system_swe.Base.Assoc.{lookup}
use database_system_swe.Tx.Block.{BlockId, block_eq}
use database_system_swe.Tx.LockTable.{LockTable}
use database_system_swe.Tx.ConcurrencyMgr
use database_system_swe.Tx.ConcurrencyMgr.{
  ConcurrencyMgr, LockType, Outcome, Reply, held, blocked, failed,
}

pub record System : Type 0 where
  pub table : LockTable
  pub local : ℕ → List (BlockId × LockType)

abbrev pub start : System
start = record { table = []; local = λ t. [] }

abbrev pub mgr : System → ℕ → ConcurrencyMgr
mgr σ t = record { locks = σ.local t; txnum = t }

-- The system when transaction `t` has the locks of `c`.
abbrev pub commit : System → ℕ → LockTable → ConcurrencyMgr → System
commit σ t table c = record { table = table; local = λ u. if u == t then c.locks else σ.local u }

abbrev pub request : System → ℕ → BlockId → LockType → Outcome
request σ t blk LockType.s = ConcurrencyMgr.s_lock σ.table (mgr σ t) blk
request σ t blk LockType.x = ConcurrencyMgr.x_lock σ.table (mgr σ t) blk

-- Transaction `t` asks for a lock; the answer may be any of the three.
abbrev pub after_request : System → ℕ → BlockId → LockType → System
after_request σ t blk ty = let o = request σ t blk ty in commit σ t o.table o.mgr

abbrev pub after_release : System → ℕ → System
after_release σ t = let r = ConcurrencyMgr.release σ.table (mgr σ t) in commit σ t r.0 r.1

-- The lock that a transaction holds on a block, by its own books.
abbrev pub holding : System → ℕ → BlockId → Option LockType
holding σ t blk = lookup blk (σ.local t)

-- The same request of a thread that is interrupted where it waits: it fails, and changes nothing.
abbrev pub interrupt_reply : Reply → Reply
interrupt_reply held = held
interrupt_reply blocked = failed
interrupt_reply failed = failed

abbrev pub interrupted : System → ℕ → BlockId → LockType → Outcome
interrupted σ t blk ty = let o = request σ t blk ty in record o { reply = interrupt_reply o.reply }

-- Transactions take turns: numbers start at 1, and any transaction may move at any time.
pub data Step : System → System → Type 0 where
  ask :
      (σ : System) (n : ℕ) (blk : BlockId) (ty : LockType) → Step σ (after_request σ (suc n) blk ty)
  ask_interrupted :
      (σ : System) (n : ℕ) (blk : BlockId) (ty : LockType)
      → Step σ
          (commit σ (suc n) (interrupted σ (suc n) blk ty).table (interrupted σ (suc n) blk ty).mgr)
  finish : (σ : System) (n : ℕ) → Step σ (after_release σ (suc n))

pub data Reach : System → Type 0 where
  init : Reach start
  next : {σ τ : System} → Reach σ → Step σ τ → Reach τ
