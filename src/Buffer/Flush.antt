-- ===== src/Buffer/Flush.antt =====
-- `flushAll` of src/main/java/simpledb/buffer/BufferMgr.java.
use database_system_swe.Base.{
  ℕ, ℤ, pos, true, false, some, List, [], ◌∷◌, ◌≡◌, ◌≢◌, ◌∙◌, Bool-cases, refl, arith, inl, inr,
  int_eq, int_ltb,
}
use database_system_swe.Base.Assoc.{lookup}
use database_system_swe.Tx.Block.{BlockId, block_eq}
use database_system_swe.Buffer.Page.{is_dirty, flush}
use database_system_swe.Buffer.BufferMgr.{BufferMgr, flush_one, flush_each}
use database_system_swe.Buffer.Valid.{IsValid, view, rows_below}
use database_system_swe.Buffer.Steps.{flush_one-IsValid, view-flush_one}

module _ {C : Type 0} where
  -- What flushing leaves as it was.
  pub record Same (m m' : BufferMgr C) : Type 0 where
    pub size : m'.size ≡ m.size
    pub bufferpool : m'.bufferpool ≡ m.bufferpool
    pub contents : (j : ℕ) → (m'.buffers j).contents ≡ (m.buffers j).contents
    pub blk : (j : ℕ) → (m'.buffers j).blk ≡ (m.buffers j).blk
    pub pins : (j : ℕ) → (m'.buffers j).pins ≡ (m.buffers j).pins
    pub txnum :
        (j : ℕ) → is_dirty (m'.buffers j) ≡ true → (m'.buffers j).txnum ≡ (m.buffers j).txnum

  flush_one-Same : (txnum : ℤ) (i : ℕ) (m : BufferMgr C) → Same m (flush_one txnum i m)
  unfolding flush
  flush_one-Same txnum i m = record {
    size = ground arith;
    bufferpool = ground arith;
    contents = λ j. ground arith;
    blk = λ j. ground arith;
    pins = λ j. ground arith;
    txnum = λ j d. ground arith;
  }

  pub flush_each-Same :
      (txnum : ℤ) (rows : List (BlockId × ℕ)) (m : BufferMgr C) → Same m (flush_each txnum rows m)
  unfolding flush_each
  flush_each-Same txnum [] m = record {
    size = refl;
    bufferpool = refl;
    contents = λ j. refl;
    blk = λ j. refl;
    pins = λ j. refl;
    txnum = λ j d. refl;
  }
  flush_each-Same txnum (row ∷ rows) m =
      let one : Same m (flush_one txnum row.1 m) = flush_one-Same txnum row.1 m in
      let ih : Same (flush_one txnum row.1 m) (flush_each txnum rows (flush_one txnum row.1 m)) =
        flush_each-Same txnum rows (flush_one txnum row.1 m) in
      record {
        size = ih.size ∙ one.size;
        bufferpool = ih.bufferpool ∙ one.bufferpool;
        contents = λ j. ih.contents j ∙ one.contents j;
        blk = λ j. ih.blk j ∙ one.blk j;
        pins = λ j. ih.pins j ∙ one.pins j;
        txnum = λ j d. ground (arith, ih.txnum j d, one.txnum j);
      }

  pub flush_each-IsValid :
      (txnum : ℤ) (rows : List (BlockId × ℕ)) (m : BufferMgr C)
      → IsValid m
      → rows_below m.size rows ≡ true
      → IsValid (flush_each txnum rows m)
  unfolding flush_each rows_below
  flush_each-IsValid txnum [] m v e = v
  flush_each-IsValid txnum (row ∷ rows) m v e =
      flush_each-IsValid txnum rows (flush_one txnum row.1 m)
        (flush_one-IsValid m v row.1 (ground (arith, e)) txnum)
        (ground (arith, e, (flush_one-Same txnum row.1 m).size))

  pub view-flush_each :
      (txnum : ℤ) (rows : List (BlockId × ℕ)) (m : BufferMgr C)
      → IsValid m
      → rows_below m.size rows ≡ true
      → (b : BlockId) → view (flush_each txnum rows m) b ≡ view m b
  unfolding flush_each rows_below
  view-flush_each txnum [] m v e b = refl
  view-flush_each txnum (row ∷ rows) m v e b =
      view-flush_each txnum rows (flush_one txnum row.1 m)
        (flush_one-IsValid m v row.1 (ground (arith, e)) txnum)
        (ground (arith, e, (flush_one-Same txnum row.1 m).size)) b
      ∙ view-flush_one m v row.1 (ground (arith, e)) txnum b

  flush_one-flushed :
      (txnum : ℤ) (i : ℕ) (m : BufferMgr C)
      → int_ltb txnum (pos 0) ≡ false
      → is_dirty ((flush_one txnum i m).buffers i) ≡ true
      → (m.buffers i).txnum ≢ txnum
  unfolding flush
  flush_one-flushed txnum i m p d e = ground (arith, e)

  pub flush_each-flushed :
      (t : ℕ) (rows : List (BlockId × ℕ)) (m : BufferMgr C) (b : BlockId) (j : ℕ)
      → lookup b rows ≡ some j
      → (m.buffers j).txnum ≡ pos t
      → is_dirty ((flush_each (pos t) rows m).buffers j) ≡ false
  unfolding flush_each lookup
  flush_each-flushed t [] m b j e o = ground (arith, e)
  flush_each-flushed t (row ∷ rows) m b j e o =
      let m1 : BufferMgr C = flush_one (pos t) row.1 m in
      let one : Same m m1 = flush_one-Same (pos t) row.1 m in
      let later : Same m1 (flush_each (pos t) rows m1) = flush_each-Same (pos t) rows m1 in
      let first = flush_one-flushed (pos t) row.1 m (ground arith) in
      elim (Bool-cases (is_dirty (m1.buffers j))) [
        | inl d ↦ ground (arith, e, o, d, one.txnum j d, first, flush_each-flushed t rows m1 b j)
        | inr d ↦ ground (arith, d, later.txnum j)
      ]
