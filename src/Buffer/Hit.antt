-- ===== src/Buffer/Hit.antt =====
-- Pinning a block that the pool of src/main/java/simpledb/buffer/BufferMgr.java already has.
use database_system_swe.Base.{ℕ, ◌<◌, pos, ◌+ℤ◌, ◌-ℤ◌, ◌≡◌, arith, ltb, if◌then◌else◌, length}
use database_system_swe.Tx.Block.{BlockId, block_eq}
use database_system_swe.Buffer.Page.{is_pinned}
use database_system_swe.Buffer.BufferMgr.{BufferMgr, pin_buffer}
use database_system_swe.Buffer.Valid.{
  IsValid, view, occurs, occurs-remove_buffer, length-remove_buffer,
}

module _ {C : Type 0} (m : BufferMgr C) (v : IsValid m) (i : ℕ) (known : i < m.size) where
  pin_buffer-free :
      (j : ℕ)
      → occurs j (pin_buffer i m).unpinned
        ≡ (if ltb j m.size then if is_pinned ((pin_buffer i m).buffers j) then 0 else 1 else 0)
  unfolding ◌+ℤ◌
  pin_buffer-free j =
      ground (arith, v.free j, v.free i, v.no_debt i, occurs-remove_buffer i j m.unpinned)

  pin_buffer-counted : (pin_buffer i m).num_available ≡ pos (length (pin_buffer i m).unpinned)
  unfolding ◌-ℤ◌
  pin_buffer-counted = ground (arith, v.counted, v.free i, length-remove_buffer i m.unpinned)

  pub pin_buffer-IsValid : IsValid (pin_buffer i m)
  unfolding ◌+ℤ◌
  pin_buffer-IsValid = record {
    row_known = λ b j e. ground (arith, v.row_known b j);
    rows_known = ground (arith, v.rows_known);
    row_block = λ b j e. ground (arith, v.row_block b j);
    has_row = λ b j lt e. ground (arith, v.has_row b j);
    free = λ j. ground (arith, pin_buffer-free j);
    counted = pin_buffer-counted;
    no_debt = λ j lt. ground (arith, v.no_debt j);
    clean = λ j b lt e d. ground (arith, v.clean j b);
    unused_clean = λ j lt e. ground (arith, v.unused_clean j);
  }

  pub view-pin_buffer : (b : BlockId) → view (pin_buffer i m) b ≡ view m b
  unfolding view
  view-pin_buffer b = ground arith
