-- ===== src/Buffer/BufferMgr.antt =====
-- src/main/java/simpledb/buffer/BufferMgr.java: the pool, with the unpinned buffers in order of
-- their last use. Every public method is synchronized: it is one step. A buffer is known by its
-- number below `size`.
use database_system_swe.Base.{
  ℕ, zero, suc, ℤ, pos, negsuc, ◌+ℤ◌, ◌-ℤ◌, Bool, false, not, ◌||◌, Option, none, some, List, [],
  ◌∷◌, ◌++◌, ◌==◌, nat_beq, int_eq, if◌then◌else◌,
}
use database_system_swe.Base.Assoc.{lookup, insert, remove}
use database_system_swe.Tx.Block.{BlockId, block_eq}
use database_system_swe.Buffer.Page.{
  World, Buffer, is_pinned, set_modified, flush, assign_to_block, pin_once, unpin_once,
}

pub record BufferMgr (C : Type 0) : Type 0 where
  pub size : ℕ
  pub buffers : ℕ → Buffer C
  pub bufferpool : List (BlockId × ℕ)
  pub unpinned : List ℕ
  pub num_available : ℤ
  pub world : World C

-- The numbers from `i` on, `n` of them.
unfoldable pub count_up : ℕ → ℕ → List ℕ
count_up i zero = []
count_up i (suc n) = i ∷ count_up (suc i) n

-- `LinkedList.contains` and `LinkedList.remove`.
unfoldable pub contains : ℕ → List ℕ → Bool
contains i [] = false
contains i (j ∷ js) = nat_beq j i || contains i js

unfoldable pub remove_buffer : ℕ → List ℕ → List ℕ
remove_buffer i [] = []
remove_buffer i (j ∷ js) = if nat_beq j i then js else j ∷ remove_buffer i js

-- `if (buff.block() != null) bufferpool.remove(buff.block())`
abbrev pub drop_block : Option BlockId → List (BlockId × ℕ) → List (BlockId × ℕ)
drop_block none pool = pool
drop_block (some blk) pool = remove blk pool

module _ {C : Type 0} where
  -- The constructor: `numbuffs` buffers with the contents of an empty page and no block.
  abbrev pub new_mgr : C → World C → ℕ → BufferMgr C
  new_mgr empty_page w numbuffs = record {
    size = numbuffs;
    buffers = λ i. record {
      contents = empty_page;
      blk = none;
      pins = pos 0;
      txnum = negsuc 0;
      lsn = negsuc 0;
    };
    bufferpool = [];
    unpinned = count_up 0 numbuffs;
    num_available = pos numbuffs;
    world = w;
  }

  abbrev pub set_buffer : ℕ → Buffer C → BufferMgr C → BufferMgr C
  set_buffer i buff m = record m { buffers = λ j. if nat_beq j i then buff else m.buffers j }

  -- Gives buffer `i`, the first of the unpinned, to the block.
  abbrev pub reassign : BlockId → ℕ → List ℕ → BufferMgr C → BufferMgr C
  reassign blk i rest m =
      let done = assign_to_block blk (m.buffers i) m.world in
      set_buffer i done.0 (record m {
        unpinned = rest;
        bufferpool = insert blk i (drop_block (m.buffers i).blk m.bufferpool);
        world = done.1;
      })

  -- The end of `tryToPin`: takes the buffer off the unpinned ones and pins it.
  abbrev pub pin_buffer : ℕ → BufferMgr C → BufferMgr C
  pin_buffer i m = set_buffer i (pin_once (m.buffers i)) (
      if is_pinned (m.buffers i) then m else record m {
        unpinned = remove_buffer i m.unpinned;
        num_available = m.num_available -ℤ pos 1;
      })

  -- `chooseUnpinnedBuffer`, and what follows a choice.
  abbrev pub pin_unpinned : BlockId → List ℕ → BufferMgr C → Option (ℕ × BufferMgr C)
  pin_unpinned blk [] m = none
  pin_unpinned blk (i ∷ rest) m = some (i, pin_buffer i (reassign blk i rest m))

  -- `tryToPin`: the buffer, or nothing where none is available.
  unfoldable pub try_to_pin : BlockId → BufferMgr C → Option (ℕ × BufferMgr C)
  try_to_pin blk m = elim (lookup blk m.bufferpool) [
    | some i ↦ some (i, pin_buffer i m)
    | none ↦ pin_unpinned blk m.unpinned m
  ]

  -- `unpin`
  unfoldable pub unpin : ℕ → BufferMgr C → BufferMgr C
  unpin i m =
      let buff = unpin_once (m.buffers i) in
      if not (is_pinned buff)
      then set_buffer i buff (record m {
        num_available = m.num_available +ℤ pos 1;
        unpinned = if not (contains i m.unpinned) then m.unpinned ++ i ∷ [] else m.unpinned;
      })
      else set_buffer i buff m

  -- Flushes buffer `i` if the transaction modified it.
  abbrev pub flush_one : ℤ → ℕ → BufferMgr C → BufferMgr C
  flush_one txnum i m =
      let done = flush (m.buffers i) m.world in
      let flushed = set_buffer i done.0 (record m { world = done.1 }) in
      if (m.buffers i).txnum == txnum then flushed else m

  -- The loop of `flushAll` over the values of the pool.
  unfoldable pub flush_each : ℤ → List (BlockId × ℕ) → BufferMgr C → BufferMgr C
  flush_each txnum [] m = m
  flush_each txnum (row ∷ rows) m = flush_each txnum rows (flush_one txnum row.1 m)

  unfoldable pub flush_all : ℤ → BufferMgr C → BufferMgr C
  flush_all txnum m = flush_each txnum m.bufferpool m

  -- A client writes the page of a buffer and marks it as modified.
  unfoldable pub modify : ℕ → C → ℤ → ℤ → BufferMgr C → BufferMgr C
  modify i contents txnum lsn m =
      set_buffer i (set_modified txnum lsn (record (m.buffers i) { contents = contents })) m
