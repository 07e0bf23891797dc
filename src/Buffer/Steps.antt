-- ===== src/Buffer/Steps.antt =====
-- The operations of src/main/java/simpledb/buffer/BufferMgr.java on a pool that is in order.
use database_system_swe.Base.{
  ℕ, zero, suc, ◌+◌, ◌<◌, ℤ, pos, ◌+ℤ◌, ◌-ℤ◌, true, false, some, List, [], ◌∷◌, ◌++◌, ◌≡◌, refl,
  arith, ltb, if◌then◌else◌, length, Option-cases, inl, inr, int_eq,
}
use database_system_swe.Base.Assoc.{lookup}
use database_system_swe.Tx.Block.{BlockId, block_eq, equals, equals_iff}
use database_system_swe.Buffer.Page.{World, is_pinned, is_dirty, flush}
use database_system_swe.Buffer.BufferMgr.{BufferMgr, new_mgr, count_up, unpin, modify, flush_one}
use database_system_swe.Buffer.Valid.{
  IsValid, view, rows_below, occurs, occurs-append_one, contains-occurs,
}

occurs-count_up :
    (i a n : ℕ) → occurs i (count_up a n) ≡ (if ltb i a then 0 else if ltb i (a + n) then 1 else 0)
unfolding occurs count_up
occurs-count_up i a zero = ground arith
occurs-count_up i a (suc n) = ground (arith, occurs-count_up i (suc a) n)

length-count_up : (a n : ℕ) → length (count_up a n) ≡ n
unfolding count_up
length-count_up a zero = refl
length-count_up a (suc n) = ground (arith, length-count_up (suc a) n)

length-append_one {ℓ} : {A : Type ℓ} → (x : A) (l : List A) → length (l ++ x ∷ []) ≡ length l + 1
length-append_one x [] = refl
length-append_one x (y ∷ l) = ground (arith, length-append_one x l)

module _ {C : Type 0} where
  pub new_mgr-IsValid : (empty_page : C) (w : World C) (n : ℕ) → IsValid (new_mgr empty_page w n)
  unfolding lookup rows_below
  new_mgr-IsValid empty_page w n = record {
    row_known = λ b i e. ground (arith, e);
    rows_known = refl;
    row_block = λ b i e. ground (arith, e);
    has_row = λ b i lt e. ground (arith, e);
    free = λ i. ground (arith, occurs-count_up i 0 n);
    counted = ground (arith, length-count_up 0 n);
    no_debt = λ i lt. ground arith;
    clean = λ i b lt e d. ground (arith, e);
    unused_clean = λ i lt e. ground arith;
  }

  module _ (m : BufferMgr C) (v : IsValid m) (i : ℕ) (known : i < m.size) where
    unpin-free :
        is_pinned (m.buffers i) ≡ true
        → (j : ℕ)
        → occurs j (unpin i m).unpinned
          ≡ (if ltb j m.size then if is_pinned ((unpin i m).buffers j) then 0 else 1 else 0)
    unfolding unpin ◌-ℤ◌ ◌+ℤ◌
    unpin-free p j = ground (
      arith,
      v.free j,
      v.free i,
      v.no_debt i,
      occurs-append_one i j m.unpinned,
      contains-occurs i m.unpinned,
    )

    unpin-counted :
        is_pinned (m.buffers i) ≡ true
        → (unpin i m).num_available ≡ pos (length (unpin i m).unpinned)
    unfolding unpin ◌+ℤ◌
    unpin-counted p =
        ground
          (arith, v.counted, v.free i, length-append_one i m.unpinned, contains-occurs i m.unpinned)

    pub unpin-IsValid : is_pinned (m.buffers i) ≡ true → IsValid (unpin i m)
    unfolding unpin ◌-ℤ◌ ◌+ℤ◌
    unpin-IsValid p = record {
      row_known = λ b j e. ground (arith, v.row_known b j);
      rows_known = ground (arith, v.rows_known);
      row_block = λ b j e. ground (arith, v.row_block b j);
      has_row = λ b j lt e. ground (arith, v.has_row b j);
      free = λ j. ground (arith, unpin-free p j);
      counted = unpin-counted p;
      no_debt = λ j lt. ground (arith, v.no_debt j);
      clean = λ j b lt e d. ground (arith, v.clean j b);
      unused_clean = λ j lt e. ground (arith, v.unused_clean j);
    }

    pub view-unpin : (b : BlockId) → view (unpin i m) b ≡ view m b
    unfolding view unpin
    view-unpin b = ground arith

    flush_one-clean :
        (txnum : ℤ) (j : ℕ) (b : BlockId)
        → j < m.size
        → ((flush_one txnum i m).buffers j).blk ≡ some b
        → is_dirty ((flush_one txnum i m).buffers j) ≡ false
        → ((flush_one txnum i m).buffers j).contents ≡ (flush_one txnum i m).world.disk b
    unfolding flush
    flush_one-clean txnum j b lt e d = elim (Option-cases (m.buffers i).blk) [
      | inl o ↦ ground (arith, o, v.clean j b, v.unused_clean i known o)
      | inr (old, o) ↦
          ground (arith, o, equals_iff b old, v.clean j b, v.has_row b j, v.has_row b i)
    ]

    -- The write of `flush` reaches the disk below the buffer only.
    pub flush_one-IsValid : (txnum : ℤ) → IsValid (flush_one txnum i m)
    unfolding flush
    flush_one-IsValid txnum = record {
      row_known = λ b j e. ground (arith, v.row_known b j);
      rows_known = ground (arith, v.rows_known);
      row_block = λ b j e. ground (arith, v.row_block b j);
      has_row = λ b j lt e. ground (arith, v.has_row b j);
      free = λ j. ground (arith, v.free j);
      counted = ground (arith, v.counted);
      no_debt = λ j lt. ground (arith, v.no_debt j);
      clean = λ j b lt e d. flush_one-clean txnum j b (ground (arith, lt)) e d;
      unused_clean = λ j lt e. ground (arith, v.unused_clean j);
    }

    pub view-flush_one : (txnum : ℤ) (b : BlockId) → view (flush_one txnum i m) b ≡ view m b
    unfolding view flush
    view-flush_one txnum b = elim (Option-cases (m.buffers i).blk) [
      | inl o ↦ ground (arith, o)
      | inr (old, o) ↦ ground (arith, o, equals_iff b old, v.has_row old i)
    ]

    pub modify-IsValid :
        (b : BlockId) (contents : C) (t : ℕ) (lsn : ℤ)
        → (m.buffers i).blk ≡ some b
        → IsValid (modify i contents (pos t) lsn m)
    unfolding modify
    modify-IsValid own contents t lsn o = record {
      row_known = λ b j e. ground (arith, v.row_known b j);
      rows_known = ground (arith, v.rows_known);
      row_block = λ b j e. ground (arith, v.row_block b j);
      has_row = λ b j lt e. ground (arith, v.has_row b j);
      free = λ j. ground (arith, v.free j);
      counted = ground (arith, v.counted);
      no_debt = λ j lt. ground (arith, v.no_debt j);
      clean = λ j b lt e d. ground (arith, v.clean j b);
      unused_clean = λ j lt e. ground (arith, v.unused_clean j, o);
    }

    pub view-modify :
        (own : BlockId) (contents : C) (t : ℕ) (lsn : ℤ)
        → (m.buffers i).blk ≡ some own
        → (b : BlockId)
        → view (modify i contents (pos t) lsn m) b ≡ (if equals own b then contents else view m b)
    unfolding view modify
    view-modify own contents t lsn o b =
        ground (arith, o, equals_iff own b, v.has_row own i, v.row_block b i)
