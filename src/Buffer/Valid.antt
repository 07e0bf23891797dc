-- ===== src/Buffer/Valid.antt =====
-- When a pool of src/main/java/simpledb/buffer/BufferMgr.java is in order.
use database_system_swe.Base.{
  ℕ, suc, ◌+◌, ◌-◌, ◌<◌, pos, neg_part, Bool, true, false, none, some, List, [], ◌∷◌, ◌++◌, ◌≡◌,
  arith, nat_beq, ltb, if◌then◌else◌, length,
}
use database_system_swe.Base.Assoc.{lookup}
use database_system_swe.Tx.Block.{BlockId, block_eq}
use database_system_swe.Buffer.Page.{is_pinned, is_dirty}
use database_system_swe.Buffer.BufferMgr.{BufferMgr, remove_buffer, contains}

unfoldable pub occurs : ℕ → List ℕ → ℕ
occurs i [] = 0
occurs i (j ∷ js) = let rest = occurs i js in if nat_beq j i then suc rest else rest

pub occurs-remove_buffer :
    (i j : ℕ) (l : List ℕ)
    → occurs j (remove_buffer i l) ≡ (if nat_beq i j then occurs j l - 1 else occurs j l)
unfolding occurs remove_buffer
occurs-remove_buffer i j [] = ground arith
occurs-remove_buffer i j (k ∷ l) = ground (arith, occurs-remove_buffer i j l)

pub length-remove_buffer :
    (i : ℕ) (l : List ℕ)
    → length l ≡ length (remove_buffer i l) + (if ltb 0 (occurs i l) then 1 else 0)
unfolding occurs remove_buffer
length-remove_buffer i [] = ground arith
length-remove_buffer i (k ∷ l) = ground (arith, length-remove_buffer i l)

pub occurs-append_one :
    (i j : ℕ) (l : List ℕ) → occurs j (l ++ i ∷ []) ≡ occurs j l + (if nat_beq i j then 1 else 0)
unfolding occurs
occurs-append_one i j [] = ground arith
occurs-append_one i j (k ∷ l) = ground (arith, occurs-append_one i j l)

pub contains-occurs : (i : ℕ) (l : List ℕ) → contains i l ≡ ltb 0 (occurs i l)
unfolding occurs contains
contains-occurs i [] = ground arith
contains-occurs i (k ∷ l) = ground (arith, contains-occurs i l)

-- Whether every row names a buffer below the size.
unfoldable pub rows_below : ℕ → List (BlockId × ℕ) → Bool
rows_below n [] = true
rows_below n ((b, i) ∷ rows) = let rest = rows_below n rows in if ltb i n then rest else false

module _ {C : Type 0} where
  -- Every row of the pool is a buffer that has the block; every buffer with a block has a row; the
  -- unpinned list holds each unpinned buffer once and no other, and is counted; no pin count is
  -- negative; a buffer that no transaction modified holds what the disk holds.
  pub record IsValid (m : BufferMgr C) : Type 0 where
    pub row_known : (b : BlockId) (i : ℕ) → lookup b m.bufferpool ≡ some i → i < m.size
    pub rows_known : rows_below m.size m.bufferpool ≡ true
    pub row_block :
        (b : BlockId) (i : ℕ) → lookup b m.bufferpool ≡ some i → (m.buffers i).blk ≡ some b
    pub has_row :
        (b : BlockId) (i : ℕ)
        → i < m.size
        → (m.buffers i).blk ≡ some b
        → lookup b m.bufferpool ≡ some i
    pub free :
        (i : ℕ)
        → occurs i m.unpinned
          ≡ (if ltb i m.size then if is_pinned (m.buffers i) then 0 else 1 else 0)
    pub counted : m.num_available ≡ pos (length m.unpinned)
    pub no_debt : (i : ℕ) → i < m.size → neg_part (m.buffers i).pins ≡ 0
    pub clean :
        (i : ℕ) (b : BlockId)
        → i < m.size
        → (m.buffers i).blk ≡ some b
        → is_dirty (m.buffers i) ≡ false
        → (m.buffers i).contents ≡ m.world.disk b
    pub unused_clean :
        (i : ℕ) → i < m.size → (m.buffers i).blk ≡ none → is_dirty (m.buffers i) ≡ false

  -- What a client reads at a block: the page in the pool, or else the disk.
  unfoldable pub view : BufferMgr C → BlockId → C
  view m b = elim (lookup b m.bufferpool) [
    | none ↦ m.world.disk b
    | some i ↦ (m.buffers i).contents
  ]

  pub view-own :
      (m : BufferMgr C) (i : ℕ) (b : BlockId)
      → IsValid m
      → i < m.size
      → (m.buffers i).blk ≡ some b
      → (m.buffers i).contents ≡ view m b
  unfolding view
  view-own m i b v lt o = ground (arith, v.has_row b i lt o)
