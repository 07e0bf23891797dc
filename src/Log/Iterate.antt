-- ===== src/Log/Iterate.antt =====
-- src/main/java/simpledb/log/LogIterator.java gives the records of a log, the last one first.
use database_system_swe.Base.{
  ℕ, zero, suc, ◌+◌, ◌<◌, true, false, some, List, [], ◌∷◌, ◌++◌, ◌≡◌, refl, sym, ap, subst, ◌∙◌,
  arith, length,
}
use database_system_swe.Log.Page.{Page, get_bytes}
use database_system_swe.Log.Unbounded.{LogFile, LogMgr, flush}
use database_system_swe.Log.Unbounded.{
  LogIterator, move_to_block, has_next, read_record, next, iterator, read_all,
}
use database_system_swe.Log.Blocks.{flush_size, flushed_block, flush-Earlier}
use database_system_swe.Log.Records.{Record, Holds, IsBlock, Earlier, concat, IsLog, Contains}

-- The iterator at a position of a block.
abbrev it_at : LogFile → ℕ → Page → ℕ → LogIterator
it_at file blk p i = record { file = file; blk = blk; page = p; currentpos = i }

move_to_block_lem :
    (file : LogFile) (blk : ℕ) (recs : List Record)
    (b : IsBlock file.block_size (file.block blk) recs)
    → move_to_block file blk ≡ some (it_at file blk (file.block blk) b.boundary)
unfolding move_to_block
move_to_block_lem file blk recs b = rw b.reads_boundary

read_record_lem :
    (it : LogIterator) (r : Record)
    → get_bytes it.currentpos it.page ≡ some r
    → read_record it ≡ some (r, record it { currentpos = it.currentpos + (4 + length r) })
unfolding read_record
read_record_lem it r e = rw e

-- Inside a block the next record is the one at the position.
next_inside :
    (file : LogFile) (blk : ℕ) (p : Page) (i : ℕ) (r : Record)
    → i < file.block_size
    → get_bytes i p ≡ some r
    → next (it_at file blk p i) ≡ some (r, it_at file blk p (i + (4 + length r)))
unfolding next
next_inside file blk p i r lt e = ground (arith, lt, read_record_lem (it_at file blk p i) r e)

-- At the end of a block it is the first one of the block before.
next_before :
    (file : LogFile) (blk : ℕ) (p : Page) (r : Record) (recs : List Record)
    → (b : IsBlock file.block_size (file.block blk) (r ∷ recs))
    → next (it_at file (suc blk) p file.block_size)
      ≡ some (r, it_at file blk (file.block blk) (b.boundary + (4 + length r)))
unfolding next
next_before file blk p r recs b = ground (
  arith,
  move_to_block_lem file blk (r ∷ recs) b,
  read_record_lem (it_at file blk (file.block blk) b.boundary) r (b.holds.1),
)

read_all_more :
    (fuel : ℕ) (it it' : LogIterator) (r : Record) (rest : List Record)
    → has_next it ≡ true
    → next it ≡ some (r, it')
    → read_all fuel it' ≡ some rest
    → read_all (suc fuel) it ≡ some (r ∷ rest)
unfolding read_all
read_all_more fuel it it' r rest h e ih = ground (arith, h, e, ih)

read_all_end :
    (fuel : ℕ) (it : LogIterator) → has_next it ≡ false → read_all (suc fuel) it ≡ some []
unfolding read_all
read_all_end fuel it h = ground (arith, h)

read_all-records :
    (fuel : ℕ) (file : LogFile) (blk : ℕ) (p : Page) (i : ℕ) (recs : List Record)
    (blocks : List (List Record))
    → length (recs ++ concat blocks) < fuel
    → p.size ≡ file.block_size
    → Holds p i recs
    → Earlier file blk blocks
    → read_all fuel (it_at file blk p i) ≡ some (recs ++ concat blocks)
read_all-records zero file blk p i recs blocks lt size h t = absurd (omega arith)
read_all-records (suc fuel) file blk p i (r ∷ recs) blocks lt size (below, e, h) t =
    read_all_more fuel (it_at file blk p i) (it_at file blk p (i + (4 + length r))) r
      (recs ++ concat blocks) (ground (arith, below, size))
      (next_inside file blk p i r (omega (arith, size)) e)
      (read_all-records fuel file blk p (i + (4 + length r)) recs blocks (omega arith) size h t)
read_all-records (suc fuel) file zero p i [] [] lt size h t =
    read_all_end fuel (it_at file zero p i) (ground (arith, h, size))
read_all-records (suc fuel) file zero p i [] (b ∷ blocks) lt size h t = absurd t
read_all-records (suc fuel) file (suc blk) p i [] [] lt size h t = absurd t
read_all-records (suc fuel) file (suc blk) p i [] ([] ∷ blocks) lt size h (b, e, t) = absurd e
read_all-records (suc fuel) file (suc blk) p i [] ((r ∷ recs) ∷ blocks) lt size h (b, e, t) =
    read_all_more fuel (it_at file (suc blk) p i)
      (it_at file blk (file.block blk) (b.boundary + (4 + length r))) r (recs ++ concat blocks)
      (ground arith)
      (ap (λ (k : ℕ). next (it_at file (suc blk) p k)) (h ∙ size) ∙ next_before file blk p r recs b)
      (read_all-records fuel file blk (file.block blk) (b.boundary + (4 + length r)) recs blocks
        (omega arith) b.page_size (b.holds.2) t)

iterator_lem :
    (m : LogMgr) (recs : List Record) (blocks : List (List Record)) (l : IsLog m recs blocks)
    → iterator m
      ≡ some (
          it_at
            (flush m).file
            m.currentblk
            ((flush m).file.block m.currentblk)
            ((flushed_block m recs blocks l).boundary))
unfolding iterator
iterator_lem m recs blocks l =
    move_to_block_lem (flush m).file m.currentblk recs (flushed_block m recs blocks l)

-- If a log contains records, its iterator gives them, the last one first, and ends after them.
pub iterator-Contains :
    (m : LogMgr) (all : List Record) (fuel : ℕ)
    → Contains m all
    → length all < fuel
    → (it : LogIterator) × (iterator m ≡ some it)
      × (it.file.block_size ≡ m.file.block_size)
      × (it.blk ≡ m.currentblk)
      × (read_all fuel it ≡ some all)
iterator-Contains m all fuel c lt =
    let b : IsBlock (flush m).file.block_size ((flush m).file.block m.currentblk) c.recs =
      flushed_block m c.recs c.blocks c.log in
    (
      it_at (flush m).file m.currentblk ((flush m).file.block m.currentblk) b.boundary,
      iterator_lem m c.recs c.blocks c.log,
      flush_size m,
      refl,
      read_all-records fuel (flush m).file m.currentblk ((flush m).file.block m.currentblk)
            b.boundary c.recs c.blocks (subst (λ (l : List Record). length l < fuel) c.order lt)
            b.page_size b.holds (flush-Earlier m c.blocks c.log.earlier)
          ∙ ap (λ (l : List Record). some l) (sym c.order),
    )
