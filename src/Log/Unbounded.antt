-- ===== src/Log/Unbounded.antt =====
-- The log of src/main/java/simpledb/log over a file without a limit, where a block is found by its
-- number: what LogMgr and LogIterator do as long as no position of a block reaches 2^31.
pub use database_system_swe.Log.LogMgr.{LogFile, LogMgr}
unfoldable pub use database_system_swe.Log.LogMgr.{next_lsn, offset_of, append_at}
pub use database_system_swe.Log.LogIterator.{LogIterator}
unfoldable pub use database_system_swe.Log.LogIterator.{has_next, read_record}
use database_system_swe.Base.{
  ℕ, zero, suc, ◌+◌, ◌-◌, ℤ, pos, ◌-ℤ◌, int_ltb, Option, none, some, List, [], ◌∷◌, length, nat_beq,
  true, false, if◌then◌else◌,
}
use database_system_swe.Log.Page.{Page, ◌>>=◌, new_page, get_int, set_int}

-- `FileMgr.write`
unfoldable pub write_block : ℕ → Page → LogFile → LogFile
write_block blknum p file = record file {
  block = λ i. if nat_beq i blknum then p else file.block i;
}

-- `FileMgr.append`: a block of zeros.
unfoldable pub append_block : LogFile → ℕ × LogFile
append_block file = (
  file.block_count,
  record file {
    block_count = suc file.block_count;
    block = λ i. if nat_beq i file.block_count then new_page file.block_size else file.block i;
  },
)

-- The private `flush`.
unfoldable pub flush : LogMgr → LogMgr
flush m = record m {
  file = write_block m.currentblk m.logpage m.file;
  last_saved_lsn = m.latest_lsn;
}

unfoldable pub flush_to : ℤ → LogMgr → LogMgr
flush_to lsn m = if int_ltb lsn m.last_saved_lsn then m else flush m

-- `appendNewBlock`; the page keeps its bytes but for the boundary.
unfoldable pub append_new_block : LogMgr → Option LogMgr
append_new_block m =
    let grown = append_block m.file in
    set_int 0 (pos m.file.block_size) m.logpage >>= λ p.
    some (record m { file = write_block grown.0 p grown.1; logpage = p; currentblk = grown.0 })

-- The constructor.
unfoldable pub open_log : LogFile → Option LogMgr
open_log file =
    let m : LogMgr = record {
      file = file;
      logpage = new_page file.block_size;
      currentblk = 0;
      latest_lsn = pos 0;
      last_saved_lsn = pos 0;
    } in
    if nat_beq file.block_count 0
    then append_new_block m
    else some (record m {
      logpage = file.block (file.block_count - 1);
      currentblk = file.block_count - 1;
    })

-- The record does not fit: moves to a new block first.
unfoldable pub append_next : List ℕ → LogMgr → Option (ℤ × LogMgr)
append_next logrec m = append_new_block (flush m) >>= λ m'.
    get_int 0 m'.logpage >>= λ boundary. append_at boundary logrec m'

-- `append`, with the number of the record.
unfoldable pub append : List ℕ → LogMgr → Option (ℤ × LogMgr)
append logrec m = get_int 0 m.logpage >>= λ boundary.
    (if int_ltb (boundary -ℤ pos (length logrec + 4)) (pos 4)
      then append_next logrec m
      else append_at boundary logrec m)

-- `moveToBlock`
unfoldable pub move_to_block : LogFile → ℕ → Option LogIterator
move_to_block file blk = get_int 0 (file.block blk) >>= λ boundary.
    offset_of boundary >>= λ currentpos.
    some (record { file = file; blk = blk; page = file.block blk; currentpos = currentpos })

-- The block before the current one; there is none before block 0.
abbrev pub previous_block : LogFile → ℕ → Option LogIterator
previous_block file zero = none
previous_block file (suc blk) = move_to_block file blk

unfoldable pub next : LogIterator → Option (List ℕ × LogIterator)
next it =
    if nat_beq it.currentpos it.file.block_size
    then previous_block it.file it.blk >>= read_record
    else read_record it

-- `LogMgr.iterator`
unfoldable pub iterator : LogMgr → Option LogIterator
iterator m = move_to_block (flush m).file m.currentblk

-- A loop over an iterator; `none` also where the fuel runs out.
unfoldable pub read_all : ℕ → LogIterator → Option (List (List ℕ))
read_all zero it = none
read_all (suc fuel) it = elim (has_next it) [
  | false ↦ some []
  | true ↦ next it >>= λ r. read_all fuel r.1 >>= λ recs. some (r.0 ∷ recs)
]
