-- ===== src/Buffer/Miss.antt =====
-- Pinning a block that the pool of src/main/java/simpledb/buffer/BufferMgr.java does not have: the
-- least recently used of the unpinned buffers is given to it.
use database_system_swe.Base.{
  ℕ, ◌<◌, pos, ◌+ℤ◌, ◌-ℤ◌, neg_part, true, false, Option, none, some, List, [], ◌∷◌, ◌≡◌, ◌≢◌, refl,
  arith, nat_beq, ltb, if◌then◌else◌, length, Option-cases, inl, inr,
}
use database_system_swe.Base.Assoc.{lookup, insert, remove, lookup-insert, lookup-remove}
use database_system_swe.Tx.Block.{BlockId, block_eq, equals, equals_iff}
use database_system_swe.Buffer.Page.{is_pinned, is_dirty, flush, assign_to_block}
use database_system_swe.Buffer.BufferMgr.{BufferMgr, pin_buffer, reassign, drop_block}
use database_system_swe.Buffer.Valid.{
  IsValid, view, rows_below, occurs, occurs-remove_buffer, length-remove_buffer,
}

-- What dropping the row of a block makes of a lookup.
abbrev dropped : Option BlockId → BlockId → Option ℕ → Option ℕ
dropped none b found = found
dropped (some old) b found = if equals old b then none else found

lookup-drop_block :
    (o : Option BlockId) (b : BlockId) (pool : List (BlockId × ℕ))
    → lookup b (drop_block o pool) ≡ dropped o b (lookup b pool)
lookup-drop_block none b pool = refl
lookup-drop_block (some old) b pool = lookup-remove old b pool

rows_below-remove :
    (n : ℕ) (b : BlockId) (pool : List (BlockId × ℕ))
    → rows_below n pool ≡ true
    → rows_below n (remove b pool) ≡ true
unfolding rows_below remove
rows_below-remove n b [] e = refl
rows_below-remove n b ((c, j) ∷ pool) e = ground (arith, rows_below-remove n b pool)

rows_below-insert :
    (n : ℕ) (b : BlockId) (i : ℕ) (pool : List (BlockId × ℕ))
    → i < n
    → rows_below n pool ≡ true
    → rows_below n (insert b i pool) ≡ true
unfolding rows_below insert
rows_below-insert n b i [] lt e = ground arith
rows_below-insert n b i ((c, j) ∷ pool) lt e = ground (arith, rows_below-insert n b i pool)

rows_below-drop_block :
    (n : ℕ) (o : Option BlockId) (pool : List (BlockId × ℕ))
    → rows_below n pool ≡ true
    → rows_below n (drop_block o pool) ≡ true
rows_below-drop_block n none pool e = e
rows_below-drop_block n (some b) pool e = rows_below-remove n b pool e

module _ {C : Type 0} (m : BufferMgr C) (v : IsValid m) (blk : BlockId) (i : ℕ) (rest : List ℕ)
    (missing : lookup blk m.bufferpool ≡ none) (first : m.unpinned ≡ i ∷ rest) where
  abbrev given : BufferMgr C
  given = pin_buffer i (reassign blk i rest m)

  first_free : (i < m.size) × (is_pinned (m.buffers i) ≡ false) × (occurs i rest ≡ 0)
  unfolding occurs
  first_free = ground (arith, v.free i)

  given-lookup :
      (b : BlockId)
      → lookup b given.bufferpool
        ≡ (if equals blk b then some i else dropped (m.buffers i).blk b (lookup b m.bufferpool))
  given-lookup b = ground (
    arith,
    lookup-insert blk b i (drop_block (m.buffers i).blk m.bufferpool),
    lookup-drop_block (m.buffers i).blk b m.bufferpool,
  )

  given-row_known : (b : BlockId) (j : ℕ) → lookup b given.bufferpool ≡ some j → j < m.size
  given-row_known b j e = ground (arith, given-lookup b, first_free, v.row_known b j)

  given-rows_known : rows_below m.size given.bufferpool ≡ true
  given-rows_known = ground (
    arith,
    rows_below-insert m.size blk i (drop_block (m.buffers i).blk m.bufferpool),
    rows_below-drop_block m.size (m.buffers i).blk m.bufferpool,
    v.rows_known,
    first_free,
  )

  given-row_block :
      (b : BlockId) (j : ℕ) → lookup b given.bufferpool ≡ some j → (given.buffers j).blk ≡ some b
  unfolding assign_to_block
  given-row_block b j e = elim (Option-cases (m.buffers i).blk) [
    | inl o ↦ ground (arith, o, given-lookup b, equals_iff blk b, v.row_block b j)
    | inr (old, o) ↦ ground (
      arith,
      o,
      given-lookup b,
      equals_iff blk b,
      equals_iff old b,
      v.row_block b j,
      v.row_block b i,
    )
  ]

  given-has_row :
      (b : BlockId) (j : ℕ)
      → j < m.size
      → (given.buffers j).blk ≡ some b
      → lookup b given.bufferpool ≡ some j
  unfolding assign_to_block
  given-has_row b j lt e = elim (Option-cases (m.buffers i).blk) [
    | inl o ↦ ground (arith, o, given-lookup b, equals_iff blk b, v.has_row b j, first_free)
    | inr (old, o) ↦ ground (
      arith,
      o,
      given-lookup b,
      equals_iff blk b,
      equals_iff old b,
      v.has_row b j,
      v.has_row b i,
      first_free,
    )
  ]

  given-free :
      (j : ℕ)
      → occurs j given.unpinned
        ≡ (if ltb j m.size then if is_pinned (given.buffers j) then 0 else 1 else 0)
  unfolding assign_to_block occurs ◌+ℤ◌
  given-free j = ground (arith, v.free j, first_free, occurs-remove_buffer i j rest)

  given-counted : given.num_available ≡ pos (length given.unpinned)
  unfolding assign_to_block ◌-ℤ◌
  given-counted = ground (arith, v.counted, first_free, length-remove_buffer i rest)

  given-no_debt : (j : ℕ) → j < m.size → neg_part (given.buffers j).pins ≡ 0
  unfolding assign_to_block ◌+ℤ◌
  given-no_debt j lt = ground (arith, v.no_debt j)

  -- The block that a buffer had is its own.
  others_block :
      (j : ℕ) (b : BlockId)
      → j < m.size
      → nat_beq j i ≡ false
      → (m.buffers j).blk ≡ some b
      → (m.buffers i).blk ≢ some b
  others_block j b lt ne e o = ground (arith, v.has_row b j lt e, v.has_row b i (first_free.0) o)

  given-clean :
      (j : ℕ) (b : BlockId)
      → j < m.size
      → (given.buffers j).blk ≡ some b
      → is_dirty (given.buffers j) ≡ false
      → (given.buffers j).contents ≡ given.world.disk b
  unfolding assign_to_block flush
  given-clean j b lt e d = elim (Option-cases (m.buffers i).blk) [
    | inl o ↦ ground (arith, o, v.clean j b, v.unused_clean i, first_free)
    | inr (old, o) ↦ ground (arith, o, v.clean j b, equals_iff b old, others_block j b, first_free)
  ]

  given-unused_clean :
      (j : ℕ) → j < m.size → (given.buffers j).blk ≡ none → is_dirty (given.buffers j) ≡ false
  unfolding assign_to_block
  given-unused_clean j lt e = ground (arith, v.unused_clean j)

  pub given-IsValid : IsValid given
  given-IsValid = record {
    row_known = λ b j e. ground (arith, given-row_known b j e);
    rows_known = ground (arith, given-rows_known);
    row_block = given-row_block;
    has_row = λ b j lt e. given-has_row b j (ground (arith, lt)) e;
    free = λ j. ground (arith, given-free j);
    counted = given-counted;
    no_debt = λ j lt. given-no_debt j (ground (arith, lt));
    clean = λ j b lt e d. given-clean j b (ground (arith, lt)) e d;
    unused_clean = λ j lt e. given-unused_clean j (ground (arith, lt)) e;
  }

  view-given-none : (m.buffers i).blk ≡ none → (b : BlockId) → view given b ≡ view m b
  unfolding view assign_to_block flush
  view-given-none o b =
      ground
        (arith, o, given-lookup b, equals_iff blk b, first_free, v.unused_clean i, v.row_block b i)

  view-given-some :
      (old : BlockId) → (m.buffers i).blk ≡ some old → (b : BlockId) → view given b ≡ view m b
  unfolding view assign_to_block flush
  view-given-some old o b = ground (
    arith,
    o,
    given-lookup b,
    equals_iff blk b,
    equals_iff old b,
    equals_iff b old,
    first_free,
    v.clean i old,
    v.has_row old i,
    v.row_block b i,
  )

  pub view-given : (b : BlockId) → view given b ≡ view m b
  view-given b = elim (Option-cases (m.buffers i).blk) [
    | inl o ↦ view-given-none o b
    | inr (old, o) ↦ view-given-some old o b
  ]
