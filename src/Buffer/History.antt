-- ===== src/Buffer/History.antt =====
-- Every state that the pool of src/main/java/simpledb/buffer/BufferMgr.java comes to, and what its
-- clients read in it.
use database_system_swe.Base.{
  ℕ, ◌<◌, ℤ, pos, true, false, some, ◌≡◌, ◌∙◌, sym, arith, if◌then◌else◌, int_eq,
}
use database_system_swe.Tx.Block.{BlockId, block_eq, equals}
use database_system_swe.Buffer.Page.{World, is_pinned, is_dirty}
use database_system_swe.Buffer.BufferMgr.{
  BufferMgr, new_mgr, unpin, modify, flush_all, flush_each, try_to_pin,
}
use database_system_swe.Buffer.Valid.{IsValid, view}
use database_system_swe.Buffer.Steps.{
  new_mgr-IsValid, unpin-IsValid, view-unpin, modify-IsValid, view-modify,
}
use database_system_swe.Buffer.Flush.{
  Same, flush_each-Same, flush_each-flushed, flush_each-IsValid, view-flush_each,
}
use database_system_swe.Buffer.Pool.{try_to_pin-IsPin}

module _ {C : Type 0} where
  -- Where the calls of the pool's clients lead, from a pool of any size: pins that succeed, unpins
  -- of pinned buffers, changes of a buffer that has a block, and flushes.
  pub data Reachable (empty_page : C) (w : World C) : BufferMgr C → Type 0 where
    start : (n : ℕ) → Reachable empty_page w (new_mgr empty_page w n)
    pin :
        (m : BufferMgr C) (blk : BlockId) (i : ℕ) (m' : BufferMgr C)
        → Reachable empty_page w m
        → try_to_pin blk m ≡ some (i, m')
        → Reachable empty_page w m'
    unpin_one :
        (m : BufferMgr C) (i : ℕ)
        → Reachable empty_page w m
        → i < m.size
        → is_pinned (m.buffers i) ≡ true
        → Reachable empty_page w (unpin i m)
    change :
        (m : BufferMgr C) (i : ℕ) (blk : BlockId) (contents : C) (t : ℕ) (lsn : ℤ)
        → Reachable empty_page w m
        → i < m.size
        → (m.buffers i).blk ≡ some blk
        → Reachable empty_page w (modify i contents (pos t) lsn m)
    flush_changes :
        (m : BufferMgr C) (t : ℕ)
        → Reachable empty_page w m
        → Reachable empty_page w (flush_all (pos t) m)

  -- Every pool that the calls of its clients lead to is in order: its map and the blocks of its
  -- buffers agree, the unpinned list holds each unpinned buffer once and no other and is counted,
  -- no pin count is negative, and a buffer that is not dirty holds what the disk holds.
  pub reachable-IsValid :
      (empty_page : C) (w : World C) (m : BufferMgr C) → Reachable empty_page w m → IsValid m
  unfolding flush_all
  reachable-IsValid empty_page w m (start n) = new_mgr-IsValid empty_page w n
  reachable-IsValid empty_page w m (pin before blk i m' r e) =
      (try_to_pin-IsPin blk before i m' (reachable-IsValid empty_page w before r) e).valid
  reachable-IsValid empty_page w m (unpin_one before i r lt p) =
      unpin-IsValid before (reachable-IsValid empty_page w before r) i lt p
  reachable-IsValid empty_page w m (change before i blk contents t lsn r lt o) =
      modify-IsValid before (reachable-IsValid empty_page w before r) i lt blk contents t lsn o
  reachable-IsValid empty_page w m (flush_changes before t r) =
      let v : IsValid before = reachable-IsValid empty_page w before r in
      flush_each-IsValid (pos t) before.bufferpool before v v.rows_known

  -- In a pool in order, flushAll for a transaction leaves every buffer that the transaction
  -- modified clean, and puts its page on the disk.
  pub flush_all_saves :
      (m : BufferMgr C) (t i : ℕ) (blk : BlockId)
      → IsValid m
      → i < m.size
      → (m.buffers i).blk ≡ some blk
      → (m.buffers i).txnum ≡ pos t
      → (is_dirty ((flush_all (pos t) m).buffers i) ≡ false)
        × ((flush_all (pos t) m).world.disk blk ≡ (m.buffers i).contents)
  unfolding flush_all
  flush_all_saves m t i blk v lt o owned =
      let same : Same m (flush_each (pos t) m.bufferpool m) =
        flush_each-Same (pos t) m.bufferpool m in
      let after : IsValid (flush_each (pos t) m.bufferpool m) =
        flush_each-IsValid (pos t) m.bufferpool m v v.rows_known in
      let clean = flush_each-flushed t m.bufferpool m blk i (v.has_row blk i lt o) owned in
      (
        clean,
        sym (after.clean i blk (ground (arith, same.size)) (same.blk i ∙ o) clean)
            ∙ same.contents i,
      )

  -- In a pool in order, unpinning a buffer and flushing change what is read at no block, and
  -- a change of a buffer that has a block changes what is read there to the new page, and at no
  -- other block.
  pub view_changes :
      (m : BufferMgr C) (i t : ℕ) (blk : BlockId) (contents : C) (lsn : ℤ) (b : BlockId)
      → IsValid m
      → i < m.size
      → (m.buffers i).blk ≡ some blk
      → (view (unpin i m) b ≡ view m b)
        × (view (flush_all (pos t) m) b ≡ view m b)
        × (view (modify i contents (pos t) lsn m) b ≡ (if equals blk b then contents else view m b))
  unfolding flush_all
  view_changes m i t blk contents lsn b v lt o = (
    view-unpin m v i lt b,
    view-flush_each (pos t) m.bufferpool m v v.rows_known b,
    view-modify m v i lt blk contents t lsn o b,
  )
