-- ===== src/Buffer/Pool.antt =====
-- What the pool of src/main/java/simpledb/buffer/BufferMgr.java answers, when a block is pinned.
use database_system_swe.Base.{
  ℕ, ◌<◌, ◌+ℤ◌, true, false, Option, none, some, List, [], ◌∷◌, ◌≡◌, ◌≢◌, ◌∙◌, subst, refl, arith,
  nat_beq, ◌↔◌, int_eq,
}
use mathlib.Core.Option.{some-injective}
use database_system_swe.Base.Assoc.{lookup}
use database_system_swe.Tx.Block.{BlockId, block_eq}
use database_system_swe.Buffer.Page.{is_pinned, flush, assign_to_block}
use database_system_swe.Buffer.BufferMgr.{BufferMgr, try_to_pin, pin_buffer, reassign, pin_unpinned}
use database_system_swe.Buffer.Valid.{IsValid, view, view-own, occurs}
use database_system_swe.Buffer.Hit.{pin_buffer-IsValid, view-pin_buffer}
use database_system_swe.Buffer.Miss.{given-IsValid, view-given}

module _ {C : Type 0} where
  -- What a successful pin of a block promises of the buffer it returns and of the pool after it.
  pub record IsPin (blk : BlockId) (m : BufferMgr C) (i : ℕ) (m' : BufferMgr C) : Type 0 where
    pub valid : IsValid m'
    pub size : m'.size ≡ m.size
    pub known : i < m.size
    pub block : (m'.buffers i).blk ≡ some blk
    pub pinned : is_pinned (m'.buffers i) ≡ true
    pub reads : (m'.buffers i).contents ≡ view m blk
    pub same_view : (b : BlockId) → view m' b ≡ view m b
    pub others :
        (j : ℕ)
        → j < m.size
        → is_pinned (m.buffers j) ≡ true
        → nat_beq j i ≡ false
        → m'.buffers j ≡ m.buffers j

  IsPin-hit :
      (blk : BlockId) (m : BufferMgr C) (i : ℕ)
      → IsValid m
      → lookup blk m.bufferpool ≡ some i
      → IsPin blk m i (pin_buffer i m)
  unfolding ◌+ℤ◌ view
  IsPin-hit blk m i v e = record {
    valid = pin_buffer-IsValid m v i (v.row_known blk i e);
    size = ground arith;
    known = v.row_known blk i e;
    block = ground (arith, v.row_block blk i e);
    pinned = ground (arith, v.no_debt i, v.row_known blk i e);
    reads = ground (arith, e);
    same_view = view-pin_buffer m v i (v.row_known blk i e);
    others = λ j lt p ne. ground arith;
  }

  IsPin-miss :
      (blk : BlockId) (m : BufferMgr C) (i : ℕ) (rest : List ℕ)
      → IsValid m
      → lookup blk m.bufferpool ≡ none
      → m.unpinned ≡ i ∷ rest
      → IsPin blk m i (pin_buffer i (reassign blk i rest m))
  unfolding ◌+ℤ◌ view assign_to_block occurs flush
  IsPin-miss blk m i rest v e first = record {
    valid = given-IsValid m v blk i rest e first;
    size = ground arith;
    known = ground (arith, v.free i);
    block = ground arith;
    pinned = ground arith;
    reads =
        view-own (pin_buffer i (reassign blk i rest m)) i blk (given-IsValid m v blk i rest e first)
          (ground (arith, v.free i)) (ground arith)
        ∙ view-given m v blk i rest e first blk;
    same_view = view-given m v blk i rest e first;
    others = λ j lt p ne. ground arith;
  }

  IsPin-any :
      (blk : BlockId) (m : BufferMgr C) (l : List ℕ) (i : ℕ) (m' : BufferMgr C)
      → IsValid m
      → lookup blk m.bufferpool ≡ none
      → m.unpinned ≡ l
      → pin_unpinned blk l m ≡ some (i, m')
      → IsPin blk m i m'
  IsPin-any blk m [] i m' v e first p = ground (arith, p)
  IsPin-any blk m (j ∷ rest) i m' v e first p =
      subst (λ r. IsPin blk m r.0 r.1)
        (some-injective (j, pin_buffer j (reassign blk j rest m)) (i, m') p)
        (IsPin-miss blk m j rest v e first)

  abbrev answer : BlockId → BufferMgr C → Option ℕ → Option (ℕ × BufferMgr C)
  answer blk m none = pin_unpinned blk m.unpinned m
  answer blk m (some i) = some (i, pin_buffer i m)

  IsPin-found :
      (blk : BlockId) (m : BufferMgr C) (o : Option ℕ) (i : ℕ) (m' : BufferMgr C)
      → IsValid m
      → lookup blk m.bufferpool ≡ o
      → answer blk m o ≡ some (i, m')
      → IsPin blk m i m'
  IsPin-found blk m none i m' v e p = IsPin-any blk m m.unpinned i m' v e refl p
  IsPin-found blk m (some j) i m' v e p =
      subst (λ r. IsPin blk m r.0 r.1) (some-injective (j, pin_buffer j m) (i, m') p)
        (IsPin-hit blk m j v e)

  -- If the pool is in order and tryToPin returns a buffer, the buffer is pinned, has the block and
  -- holds what a client reads there; no other pinned buffer changes, no block reads differently,
  -- and the pool is in order again.
  pub try_to_pin-IsPin :
      (blk : BlockId) (m : BufferMgr C) (i : ℕ) (m' : BufferMgr C)
      → IsValid m
      → try_to_pin blk m ≡ some (i, m')
      → IsPin blk m i m'
  unfolding try_to_pin
  try_to_pin-IsPin blk m i m' v e = IsPin-found blk m (lookup blk m.bufferpool) i m' v refl e

  answer-none :
      (blk : BlockId) (m : BufferMgr C) (o : Option ℕ) (l : List ℕ) (i : ℕ)
      → IsValid m
      → i < m.size
      → lookup blk m.bufferpool ≡ o
      → m.unpinned ≡ l
      → answer blk m o ≡ none
      → (is_pinned (m.buffers i) ≡ true) × ((m.buffers i).blk ≢ some blk)
  unfolding occurs
  answer-none blk m none l i v lt e first p =
      (ground (arith, p, v.free i), λ own. ground (arith, e, v.has_row blk i lt own))
  answer-none blk m (some j) l i v lt e first p = ground (arith, p)

  all_pinned :
      (blk : BlockId) (m : BufferMgr C) (o : Option ℕ) (l : List ℕ)
      → IsValid m
      → lookup blk m.bufferpool ≡ o
      → m.unpinned ≡ l
      → ((i : ℕ) → i < m.size → (is_pinned (m.buffers i) ≡ true) × ((m.buffers i).blk ≢ some blk))
      → answer blk m o ≡ none
  unfolding occurs
  all_pinned blk m none [] v e first h = rw first refl
  all_pinned blk m none (j ∷ rest) v e first h = ground (arith, first, v.free j, h j)
  all_pinned blk m (some j) l v e first h =
      absurd ((h j (v.row_known blk j e)).1 (v.row_block blk j e))

  -- If the pool is in order, tryToPin returns no buffer exactly where no buffer has the block and
  -- every buffer is pinned.
  pub try_to_pin-none :
      (blk : BlockId) (m : BufferMgr C)
      → IsValid m
      → (try_to_pin blk m ≡ none)
        ↔ ((i : ℕ) → i < m.size → (is_pinned (m.buffers i) ≡ true) × ((m.buffers i).blk ≢ some blk))
  unfolding try_to_pin
  try_to_pin-none blk m v = (
    λ e i lt. answer-none blk m (lookup blk m.bufferpool) m.unpinned i v lt refl refl e,
    λ h. all_pinned blk m (lookup blk m.bufferpool) m.unpinned v refl refl h,
  )
