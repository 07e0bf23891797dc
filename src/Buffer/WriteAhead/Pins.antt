-- ===== src/Buffer/WriteAhead/Pins.antt =====
-- The calls that `tryToPin` of src/main/java/simpledb/buffer/BufferMgr.java adds to a trace.
use mathlib.Core.Option.{some-injective}
use database_system_swe.Base.{
  ℕ, ◌<◌, false, Option, none, some, List, [], ◌∷◌, ◌++◌, ◌≡◌, inl, inr, refl, subst, arith,
  Option-cases, nat_beq, int_eq,
}
use database_system_swe.Base.Assoc.{lookup}
use database_system_swe.Tx.Block.{BlockId, block_eq}
use database_system_swe.Buffer.Page.{flush, assign_to_block}
use database_system_swe.Buffer.BufferMgr.{BufferMgr, try_to_pin, pin_buffer, reassign, pin_unpinned}
use database_system_swe.Buffer.Valid.{IsValid, occurs}
use database_system_swe.Buffer.WriteAhead.{Note, IsAhead, IsHeld, flush_calls}
use database_system_swe.Buffer.WriteAhead.Keeps.{
  Keeps, Keeps-IsHeld, flush_calls-IsAhead, flush-IsHeld,
}
use database_system_swe.Buffer.WriteAhead.Flushes.{Step}

module _ {C : Type 0} where
  -- A pin keeps what the buffers carry.
  pin_buffer-Keeps : (i j : ℕ) (m : BufferMgr C) → Keeps m (pin_buffer i m) j
  pin_buffer-Keeps i j m = record { block = ground arith; txnum = ground arith; lsn = ground arith }

  reassign-Keeps :
      (blk : BlockId) (i j : ℕ) (rest : List ℕ) (m : BufferMgr C)
      → nat_beq j i ≡ false
      → Keeps m (pin_buffer i (reassign blk i rest m)) j
  reassign-Keeps blk i j rest m ne = record {
    block = ground arith;
    txnum = ground arith;
    lsn = ground arith;
  }

  reassign-calls :
      (blk : BlockId) (i : ℕ) (rest : List ℕ) (m : BufferMgr C)
      → ((pin_buffer i (reassign blk i rest m)).world.calls
          ≡ flush_calls (m.buffers i) ++ m.world.calls)
        × ((pin_buffer i (reassign blk i rest m)).size ≡ m.size)
  unfolding assign_to_block flush
  reassign-calls blk i rest m = elim (Option-cases (m.buffers i).blk) [
    | inl o ↦ ground (arith, o)
    | inr (b, o) ↦ ground (arith, o)
  ]

  pin_buffer-calls :
      (i : ℕ) (m : BufferMgr C)
      → ((pin_buffer i m).world.calls ≡ m.world.calls) × ((pin_buffer i m).size ≡ m.size)
  pin_buffer-calls i m = ground arith

  -- Pinning a block that the pool has calls nothing.
  hit-Step :
      (i : ℕ) (m : BufferMgr C) (t : List Note) → IsHeld m t → IsAhead t → Step m (pin_buffer i m) t
  hit-Step i m t h a = record {
    events = [];
    calls = (pin_buffer-calls i m).0;
    held =
        Keeps-IsHeld m (pin_buffer i m) t ((pin_buffer-calls i m).1) (λ j. pin_buffer-Keeps i j m)
          h;
    ahead = a;
  }

  -- Pinning another one flushes the buffer that it gets.
  miss-Step :
      (blk : BlockId) (i : ℕ) (rest : List ℕ) (m : BufferMgr C) (t : List Note)
      → IsValid m
      → m.unpinned ≡ i ∷ rest
      → IsHeld m t
      → IsAhead t
      → Step m (pin_buffer i (reassign blk i rest m)) t
  unfolding occurs
  miss-Step blk i rest m t v first h a =
      let lt : i < m.size = ground (arith, v.free i, first) in
      let (calls, size) = reassign-calls blk i rest m in
      record {
        events = flush_calls (m.buffers i);
        calls = calls;
        held =
            flush-IsHeld m (pin_buffer i (reassign blk i rest m)) i t size
              (λ j ne. reassign-Keeps blk i j rest m ne) h;
        ahead = flush_calls-IsAhead m i t v lt h a;
      }

  pin_unpinned-Step :
      (blk : BlockId) (m : BufferMgr C) (l : List ℕ) (i : ℕ) (m' : BufferMgr C) (t : List Note)
      → IsValid m
      → m.unpinned ≡ l
      → pin_unpinned blk l m ≡ some (i, m')
      → IsHeld m t
      → IsAhead t
      → Step m m' t
  pin_unpinned-Step blk m [] i m' t v first e h a = absurd (ground (arith, e))
  pin_unpinned-Step blk m (j ∷ rest) i m' t v first e h a =
      subst (λ r. Step m r.1 t) (some-injective (j, pin_buffer j (reassign blk j rest m)) (i, m') e)
        (miss-Step blk j rest m t v first h a)

  abbrev answer : BlockId → BufferMgr C → Option ℕ → Option (ℕ × BufferMgr C)
  answer blk m none = pin_unpinned blk m.unpinned m
  answer blk m (some j) = some (j, pin_buffer j m)

  answer-Step :
      (blk : BlockId) (o : Option ℕ) (i : ℕ) (m m' : BufferMgr C) (t : List Note)
      → IsValid m
      → answer blk m o ≡ some (i, m')
      → IsHeld m t
      → IsAhead t
      → Step m m' t
  answer-Step blk none i m m' t v e h a = pin_unpinned-Step blk m m.unpinned i m' t v refl e h a
  answer-Step blk (some j) i m m' t v e h a =
      subst (λ r. Step m r.1 t) (some-injective (j, pin_buffer j m) (i, m') e) (hit-Step j m t h a)

  pub try_to_pin-Step :
      (blk : BlockId) (i : ℕ) (m m' : BufferMgr C) (t : List Note)
      → IsValid m
      → try_to_pin blk m ≡ some (i, m')
      → IsHeld m t
      → IsAhead t
      → Step m m' t
  unfolding try_to_pin
  try_to_pin-Step blk i m m' t v e h a = answer-Step blk (lookup blk m.bufferpool) i m m' t v e h a
