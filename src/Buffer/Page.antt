-- ===== src/Buffer/Page.antt =====
-- src/main/java/simpledb/buffer/Buffer.java: one buffer, over any type of page contents. The file
-- manager is the disk, a function from blocks, with the order of its calls and of the log's.
use database_system_swe.Base.{
  ℤ, pos, negsuc, ◌+ℤ◌, ◌-ℤ◌, int_ltb, Bool, not, Option, none, some, List, ◌∷◌, ◌==◌,
  if◌then◌else◌,
}
use database_system_swe.Tx.Block.{BlockId, block_eq}

-- A call of the log manager's `flush` or of the file manager's `write`.
pub data Event : Type 0 where
  log_flush : ℤ → Event
  page_write : BlockId → Event

-- The latest call comes first.
pub record World (C : Type 0) : Type 0 where
  pub disk : BlockId → C
  pub calls : List Event

-- `txnum` is the modifying transaction, -1 for none, and `blk` is null at first.
pub record Buffer (C : Type 0) : Type 0 where
  pub contents : C
  pub blk : Option BlockId
  pub pins : ℤ
  pub txnum : ℤ
  pub lsn : ℤ

module _ {C : Type 0} where
  abbrev pub is_pinned : Buffer C → Bool
  is_pinned buff = int_ltb (pos 0) buff.pins

  abbrev pub is_dirty : Buffer C → Bool
  is_dirty buff = not (int_ltb buff.txnum (pos 0))

  -- `setModified`
  abbrev pub set_modified : ℤ → ℤ → Buffer C → Buffer C
  set_modified txnum lsn buff = record buff {
    txnum = txnum;
    lsn = if int_ltb lsn (pos 0) then buff.lsn else lsn;
  }

  abbrev pub write : BlockId → C → World C → World C
  write blk contents w = record {
    disk = λ b. if b == blk then contents else w.disk b;
    calls = page_write blk ∷ w.calls;
  }

  abbrev pub flush_log : ℤ → World C → World C
  flush_log lsn w = record w { calls = log_flush lsn ∷ w.calls }

  -- The write of `flush`; a dirty buffer has a block.
  abbrev pub write_back : Option BlockId → Buffer C → World C → World C
  write_back none buff w = w
  write_back (some blk) buff w = write blk buff.contents w

  -- `flush`
  unfoldable pub flush : Buffer C → World C → Buffer C × World C
  flush buff w =
      if is_dirty buff
      then (record buff { txnum = negsuc 0 }, write_back buff.blk buff (flush_log buff.lsn w))
      else (buff, w)

  -- `assignToBlock`
  unfoldable pub assign_to_block : BlockId → Buffer C → World C → Buffer C × World C
  unfolding flush
  assign_to_block b buff w =
      let done = flush buff w in
      (record (done.0) { blk = some b; contents = done.1.disk b; pins = pos 0 }, done.1)

  abbrev pub pin_once : Buffer C → Buffer C
  pin_once buff = record buff { pins = buff.pins +ℤ pos 1 }

  abbrev pub unpin_once : Buffer C → Buffer C
  unpin_once buff = record buff { pins = buff.pins -ℤ pos 1 }
