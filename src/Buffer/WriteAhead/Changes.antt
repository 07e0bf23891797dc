-- ===== src/Buffer/WriteAhead/Changes.antt =====
-- Unpins and changes in src/main/java/simpledb/buffer/BufferMgr.java, which make no calls.
use database_system_swe.Base.{
  ℕ, ◌<◌, ℤ, pos, negsuc, int_ltb, ◌&&◌, false, some, List, ◌≡◌, inl, inr, subst, arith, Bool-cases,
  nat_beq, ◌==◌, int_eq,
}
use database_system_swe.Tx.Block.{BlockId, block_eq, equals_iff}
use database_system_swe.Buffer.BufferMgr.{BufferMgr, unpin, modify}
use database_system_swe.Buffer.WriteAhead.{Note, noted, Carries, IsHeld}
use database_system_swe.Buffer.WriteAhead.Keeps.{Keeps-IsHeld}

module _ {C : Type 0} where
  pub unpin-IsHeld : (i : ℕ) (m : BufferMgr C) (t : List Note) → IsHeld m t → IsHeld (unpin i m) t
  unfolding unpin
  unpin-IsHeld i m t h =
      Keeps-IsHeld m (unpin i m) t (ground arith)
        (λ j. record { block = ground arith; txnum = ground arith; lsn = ground arith }) h

-- A log record's number is not before the one that a buffer has.
abbrev pub IsLater : ℤ → ℤ → Type 0
IsLater (pos n) last = int_ltb (pos n) last ≡ false
IsLater (negsuc n) last = Unit {0}

later_still :
    (k n : ℕ) (last : ℤ)
    → int_ltb (pos k) last ≡ false
    → int_ltb last (pos n) ≡ false
    → int_ltb (pos k) (pos n) ≡ false
later_still k n (pos l) e e' = ground (arith, e, e')
later_still k n (negsuc l) e e' = absurd (ground (arith, e'))

module _ {C : Type 0} (m : BufferMgr C) (i t : ℕ) (blk : BlockId) (contents : C)
    (known : i < m.size) (own : (m.buffers i).blk ≡ some blk) where
  modify_late :
      (k n j : ℕ)
      → IsLater (pos k) (m.buffers i).lsn
      → int_ltb (m.buffers j).lsn (pos n) ≡ false
      → int_ltb ((modify i contents (pos t) (pos k) m).buffers j).lsn (pos n) ≡ false
  unfolding modify
  modify_late k n j later e = elim (Bool-cases (nat_beq j i)) [
    | inl same ↦
        let same_buffer : j ≡ i = ground (arith, same) in
        let last = subst (λ (x : ℕ). int_ltb (m.buffers x).lsn (pos n) ≡ false) same_buffer e in
        ground (arith, same, later_still k n (m.buffers i).lsn later last)
    | inr other ↦ ground (arith, other, e)
  ]

  -- An older change is carried on.
  modify-Carries :
      (lsn : ℤ) (b : BlockId) (n j : ℕ)
      → IsLater lsn (m.buffers i).lsn
      → Carries m b n j
      → Carries (modify i contents (pos t) lsn m) b n j
  unfolding modify
  modify-Carries (pos k) b n j later c = record {
    known = ground (arith, c.known);
    block = ground (arith, c.block);
    dirty = ground (arith, c.dirty);
    late = modify_late k n j later c.late;
  }
  modify-Carries (negsuc k) b n j later c = record {
    known = ground (arith, c.known);
    block = ground (arith, c.block);
    dirty = ground (arith, c.dirty);
    late = ground (arith, c.late);
  }

  old-IsHeld :
      (lsn : ℤ) (trace : List Note)
      → IsLater lsn (m.buffers i).lsn
      → IsHeld m trace
      → IsHeld (modify i contents (pos t) lsn m) trace
  old-IsHeld lsn trace later h b n e = elim (h b n e) [
    | inl c ↦ inl c
    | inr (j, c) ↦ inr (j, modify-Carries lsn b n j later c)
  ]

  -- The new change is in the buffer.
  new-Carries : (n : ℕ) → Carries (modify i contents (pos t) (pos n) m) blk n i
  unfolding modify
  new-Carries n = record {
    known = ground (arith, known);
    block = ground (arith, own);
    dirty = ground arith;
    late = ground arith;
  }

  pub modify-IsHeld :
      (lsn : ℤ) (trace : List Note)
      → IsLater lsn (m.buffers i).lsn
      → IsHeld m trace
      → IsHeld (modify i contents (pos t) lsn m) (noted blk lsn trace)
  modify-IsHeld (negsuc k) trace later h b n e = old-IsHeld (negsuc k) trace later h b n e
  modify-IsHeld (pos k) trace later h b n e = elim (Bool-cases (blk == b && nat_beq k n)) [
    | inl new ↦
        let same_block : blk ≡ b = ground (arith, new, equals_iff blk b) in
        let same_number : k ≡ n = ground (arith, new) in
        inr (
          i,
          subst (λ c. Carries (modify i contents (pos t) (pos k) m) c n i) same_block
              (subst (λ (l : ℕ). Carries (modify i contents (pos t) (pos k) m) blk l i) same_number
                (new-Carries k)),
        )
    | inr old ↦ old-IsHeld (pos k) trace later h b n (ground (arith, e, old))
  ]
