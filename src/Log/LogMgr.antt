-- ===== src/Log/LogMgr.antt =====
-- src/main/java/simpledb/log/LogMgr.java over one log file, with what it calls of
-- src/main/java/simpledb/file/FileMgr.java. The file's blocks are numbered from 0; an I/O error is
-- left out.
use database_system_swe.Base.{
  ℕ, zero, suc, ◌+◌, ◌-◌, ◌*◌, ◌/◌, ◌%◌, ◌^◌, max, ltb, ℤ, pos, negsuc, ◌-ℤ◌, int_ltb, Option, none,
  some, List, length, nat_beq, if◌then◌else◌,
}
use database_system_swe.Log.Page.{Page, ◌>>=◌, new_page, get_int, set_int, set_bytes}

-- A file: the number of its blocks, and what they hold.
pub record LogFile : Type 0 where
  pub block_size : ℕ
  pub block_count : ℕ
  pub block : ℕ → Page

-- `f.seek(blk.number() * blocksize)`, whose product is one of 32 bits: the block that is there. A
-- negative position is an exception, also in FileMgr, which makes it a RuntimeException. From 2^32 on,
-- a position that is inside a block, as the block size does not divide 2^32, stands for this block.
unfoldable pub seek : ℕ → LogFile → Option ℕ
seek blknum file =
    if ltb (blknum * file.block_size) (2 ^ 31)
    then some blknum
    else if ltb (blknum * file.block_size % 2 ^ 32) (2 ^ 31)
    then some (blknum * file.block_size % 2 ^ 32 / file.block_size)
    else none

-- `FileMgr.read`
unfoldable pub read_block : ℕ → LogFile → Option Page
read_block blknum file = seek blknum file >>= λ k. some (file.block k)

-- `FileMgr.write`, to a block of the file.
unfoldable pub write_block : ℕ → Page → LogFile → Option LogFile
write_block blknum p file = seek blknum file >>= λ k.
    some (record file { block = λ i. if nat_beq i k then p else file.block i })

-- `FileMgr.append`: a block of zeros.
unfoldable pub append_block : LogFile → Option (ℕ × LogFile)
append_block file = seek file.block_count file >>= λ k. some (
  file.block_count,
  record file {
    block_count = max file.block_count (suc k);
    block = λ i. if nat_beq i k then new_page file.block_size else file.block i;
  },
)

pub record LogMgr : Type 0 where
  pub file : LogFile
  pub logpage : Page
  pub currentblk : ℕ
  pub latest_lsn : ℤ
  pub last_saved_lsn : ℤ

-- `latestLSN += 1` in 32 bits.
unfoldable pub next_lsn : ℤ → ℤ
next_lsn (pos n) = if nat_beq n (2 ^ 31 - 1) then negsuc (2 ^ 31 - 1) else pos (suc n)
next_lsn (negsuc zero) = pos 0
next_lsn (negsuc (suc n)) = negsuc n

-- The private `flush`.
unfoldable pub flush : LogMgr → Option LogMgr
flush m = write_block m.currentblk m.logpage m.file >>= λ file.
    some (record m { file = file; last_saved_lsn = m.latest_lsn })

unfoldable pub flush_to : ℤ → LogMgr → Option LogMgr
flush_to lsn m = if int_ltb lsn m.last_saved_lsn then some m else flush m

-- `appendNewBlock`; the page keeps its bytes but for the boundary.
unfoldable pub append_new_block : LogMgr → Option LogMgr
append_new_block m = append_block m.file >>= λ grown.
    set_int 0 (pos m.file.block_size) m.logpage >>= λ p. write_block grown.0 p grown.1 >>= λ file.
    some (record m { file = file; logpage = p; currentblk = grown.0 })

-- The constructor.
unfoldable pub open_log : LogFile → Option LogMgr
open_log file =
    let m : LogMgr = record {
      file = file;
      logpage = new_page file.block_size;
      currentblk = 0;
      latest_lsn = pos 0;
      last_saved_lsn = pos 0;
    } in
    if nat_beq file.block_count 0
    then append_new_block m
    else (read_block (file.block_count - 1) file >>= λ p.
        some (record m { logpage = p; currentblk = file.block_count - 1 }))

-- An offset that is negative is an exception.
abbrev pub offset_of : ℤ → Option ℕ
offset_of (pos n) = some n
offset_of (negsuc n) = none

-- The end of `append`, at a boundary that leaves the space.
unfoldable pub append_at : ℤ → List ℕ → LogMgr → Option (ℤ × LogMgr)
append_at boundary logrec m = offset_of (boundary -ℤ pos (length logrec + 4)) >>= λ recpos.
    set_bytes recpos logrec m.logpage >>= λ p. set_int 0 (pos recpos) p >>= λ p'.
    some (next_lsn m.latest_lsn, record m { logpage = p'; latest_lsn = next_lsn m.latest_lsn })

-- The record does not fit: moves to a new block first.
unfoldable pub append_next : List ℕ → LogMgr → Option (ℤ × LogMgr)
append_next logrec m = flush m >>= λ saved. append_new_block saved >>= λ m'.
    get_int 0 m'.logpage >>= λ boundary. append_at boundary logrec m'

-- `append`, with the number of the record.
unfoldable pub append : List ℕ → LogMgr → Option (ℤ × LogMgr)
append logrec m = get_int 0 m.logpage >>= λ boundary.
    (if int_ltb (boundary -ℤ pos (length logrec + 4)) (pos 4)
      then append_next logrec m
      else append_at boundary logrec m)
