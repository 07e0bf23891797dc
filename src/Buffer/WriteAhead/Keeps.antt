-- ===== src/Buffer/WriteAhead/Keeps.antt =====
-- What the operations of src/main/java/simpledb/buffer keep of the write-ahead rule.
use database_system_swe.Base.{
  ℕ, ◌<◌, ℤ, pos, int_ltb, true, false, Option, none, some, List, [], ◌∷◌, ◌≡◌, inl, inr, refl, sym,
  subst, ◌∙◌, arith, Bool-cases, nat_beq,
}
use database_system_swe.Tx.Block.{BlockId, block_eq}
use database_system_swe.Buffer.Page.{Event, log_flush, page_write, is_dirty}
use database_system_swe.Buffer.BufferMgr.{BufferMgr}
use database_system_swe.Buffer.Valid.{IsValid}
use database_system_swe.Buffer.WriteAhead.{
  Note, called, changed_at, covered, IsAhead, extend, Carries, IsHeld, write_calls, flush_calls,
}

-- The calls of a flush are no changes, and cover what was covered.
changed_at-extend :
    (b : BlockId) (n : ℕ) (events : List Event) (t : List Note)
    → changed_at b n (extend events t) ≡ changed_at b n t
changed_at-extend b n [] t = refl
changed_at-extend b n (e ∷ events) t = changed_at-extend b n events t

covered-extend :
    (n : ℕ) (events : List Event) (t : List Note)
    → covered n t ≡ true
    → covered n (extend events t) ≡ true
covered-extend n [] t e = e
covered-extend n (log_flush l ∷ events) t e = ground (arith, covered-extend n events t e)
covered-extend n (page_write b ∷ events) t e = covered-extend n events t e

covered-write_calls :
    (n : ℕ) (o : Option BlockId) (lsn : ℤ) (t : List Note)
    → int_ltb lsn (pos n) ≡ false
    → covered n (extend (write_calls o lsn) t) ≡ true
covered-write_calls n none lsn t e = ground (arith, e)
covered-write_calls n (some b) lsn t e = ground (arith, e)

module _ {C : Type 0} where
  covered-flush_calls :
      (m : BufferMgr C) (b : BlockId) (n i : ℕ) (t : List Note)
      → Carries m b n i
      → covered n (extend (flush_calls (m.buffers i)) t) ≡ true
  covered-flush_calls m b n i t c =
      ground (arith, c.dirty, covered-write_calls n (m.buffers i).blk (m.buffers i).lsn t c.late)

  -- Two buffers with a block are one.
  one_buffer :
      (m : BufferMgr C) (b : BlockId) (i j : ℕ)
      → IsValid m
      → i < m.size
      → j < m.size
      → (m.buffers i).blk ≡ some b
      → (m.buffers j).blk ≡ some b
      → j ≡ i
  one_buffer m b i j v lt lt' e e' = ground (arith, v.has_row b i lt e, v.has_row b j lt' e')

  write_covers :
      (m : BufferMgr C) (b : BlockId) (i : ℕ) (t : List Note)
      → IsValid m
      → i < m.size
      → (m.buffers i).blk ≡ some b
      → IsHeld m t
      → (n : ℕ) → changed_at b n t ≡ true
      → covered n (called (log_flush (m.buffers i).lsn) ∷ t) ≡ true
  write_covers m b i t v lt o h n e = elim (h b n e) [
    | inl c ↦ ground (arith, c)
    | inr (j, c) ↦
        let same : j ≡ i = one_buffer m b i j v lt c.known o c.block in
        ground (arith, subst (λ (k : ℕ). int_ltb (m.buffers k).lsn (pos n) ≡ false) same c.late)
  ]

  write_calls-IsAhead :
      (m : BufferMgr C) (i : ℕ) (o : Option BlockId) (t : List Note)
      → IsValid m
      → i < m.size
      → (m.buffers i).blk ≡ o
      → IsHeld m t
      → IsAhead t
      → IsAhead (extend (write_calls o (m.buffers i).lsn) t)
  write_calls-IsAhead m i none t v lt e h a = a
  write_calls-IsAhead m i (some b) t v lt e h a = (write_covers m b i t v lt e h, a)

  -- A flush of a buffer keeps the rule.
  pub flush_calls-IsAhead :
      (m : BufferMgr C) (i : ℕ) (t : List Note)
      → IsValid m
      → i < m.size
      → IsHeld m t
      → IsAhead t
      → IsAhead (extend (flush_calls (m.buffers i)) t)
  flush_calls-IsAhead m i t v lt h a = elim (Bool-cases (is_dirty (m.buffers i))) [
    | inl dirty ↦ rw dirty (write_calls-IsAhead m i (m.buffers i).blk t v lt refl h a)
    | inr clean ↦ rw clean a
  ]

  -- Buffer `j` has the same block and the same changes.
  pub record Keeps (m m' : BufferMgr C) (j : ℕ) : Type 0 where
    pub block : (m'.buffers j).blk ≡ (m.buffers j).blk
    pub txnum : (m'.buffers j).txnum ≡ (m.buffers j).txnum
    pub lsn : (m'.buffers j).lsn ≡ (m.buffers j).lsn

  Carries-Keeps :
      (m m' : BufferMgr C) (b : BlockId) (n i : ℕ)
      → m'.size ≡ m.size
      → Keeps m m' i
      → Carries m b n i
      → Carries m' b n i
  Carries-Keeps m m' b n i size k c = record {
    known = subst (λ (s : ℕ). i < s) (sym size) c.known;
    block = k.block ∙ c.block;
    dirty = ground (arith, k.txnum, c.dirty);
    late = ground (arith, k.lsn, c.late);
  }

  pub Keeps-IsHeld :
      (m m' : BufferMgr C) (t : List Note)
      → m'.size ≡ m.size
      → ((j : ℕ) → Keeps m m' j)
      → IsHeld m t
      → IsHeld m' t
  Keeps-IsHeld m m' t size k h b n e = elim (h b n e) [
    | inl c ↦ inl c
    | inr (i, c) ↦ inr (i, Carries-Keeps m m' b n i size (k i) c)
  ]

  -- After a flush of buffer `i` the others hold what the log has not.
  pub flush-IsHeld :
      (m m' : BufferMgr C) (i : ℕ) (t : List Note)
      → m'.size ≡ m.size
      → ((j : ℕ) → nat_beq j i ≡ false → Keeps m m' j)
      → IsHeld m t
      → IsHeld m' (extend (flush_calls (m.buffers i)) t)
  flush-IsHeld m m' i t size k h b n e =
      let calls : List Event = flush_calls (m.buffers i) in
      elim (h b n (sym (changed_at-extend b n calls t) ∙ e)) [
        | inl c ↦ inl (covered-extend n calls t c)
        | inr (j, c) ↦ elim (Bool-cases (nat_beq j i)) [
          | inl same ↦
              inl (covered-flush_calls m b n i t (subst (Carries m b n) (ground (arith, same)) c))
          | inr other ↦ inr (j, Carries-Keeps m m' b n j size (k j other) c)
        ]
      ]
