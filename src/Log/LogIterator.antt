-- ===== src/Log/LogIterator.antt =====
-- src/main/java/simpledb/log/LogIterator.java: the records of a log file from the last to the first.
use database_system_swe.Base.{
  ℕ, zero, suc, ◌+◌, Bool, true, false, ◌||◌, Option, none, some, List, [], ◌∷◌, length, nat_beq,
  ltb, if◌then◌else◌,
}
use database_system_swe.Log.Page.{Page, ◌>>=◌, get_int, get_bytes}
use database_system_swe.Log.LogMgr.{LogFile, LogMgr, read_block, flush, offset_of}

-- The field `boundary` is read only where `moveToBlock` sets it, and is left out.
pub record LogIterator : Type 0 where
  pub file : LogFile
  pub blk : ℕ
  pub page : Page
  pub currentpos : ℕ

-- `moveToBlock`
unfoldable pub move_to_block : LogFile → ℕ → Option LogIterator
move_to_block file blk = read_block blk file >>= λ p. get_int 0 p >>= λ boundary.
    offset_of boundary >>= λ currentpos.
    some (record { file = file; blk = blk; page = p; currentpos = currentpos })

abbrev pub has_next : LogIterator → Bool
has_next it = ltb it.currentpos it.file.block_size || ltb 0 it.blk

-- The end of `next`: the record at the position.
unfoldable pub read_record : LogIterator → Option (List ℕ × LogIterator)
read_record it = get_bytes it.currentpos it.page >>= λ rec.
    some (rec, record it { currentpos = it.currentpos + (4 + length rec) })

-- The block before the current one; there is none before block 0.
abbrev pub previous_block : LogFile → ℕ → Option LogIterator
previous_block file zero = none
previous_block file (suc blk) = move_to_block file blk

unfoldable pub next : LogIterator → Option (List ℕ × LogIterator)
next it =
    if nat_beq it.currentpos it.file.block_size
    then previous_block it.file it.blk >>= read_record
    else read_record it

-- `LogMgr.iterator`
unfoldable pub iterator : LogMgr → Option LogIterator
iterator m = flush m >>= λ saved. move_to_block saved.file m.currentblk

-- A loop over an iterator; `none` also where the fuel runs out.
unfoldable pub read_all : ℕ → LogIterator → Option (List (List ℕ))
read_all zero it = none
read_all (suc fuel) it = elim (has_next it) [
  | false ↦ some []
  | true ↦ next it >>= λ r. read_all fuel r.1 >>= λ recs. some (r.0 ∷ recs)
]
