-- ===== src/Buffer/WriteAhead.antt =====
-- The write-ahead rule of src/main/java/simpledb/buffer: the log has the records of a page's changes
-- when the page is written. A trace has the changes of pages with the numbers of their log records,
-- and the calls that the pool makes, the latest first.
pub mod Keeps
pub mod Flushes
pub mod Pins
pub mod Changes
use database_system_swe.Base.{
  ℕ, ◌<◌, ℤ, pos, negsuc, int_ltb, Bool, true, false, not, ◌&&◌, ◌||◌, Option, none, some, List, [],
  ◌∷◌, ◌≡◌, ◌⊎◌, ◌==◌, nat_beq, if◌then◌else◌,
}
use database_system_swe.Tx.Block.{BlockId, block_eq}
use database_system_swe.Buffer.Page.{Event, log_flush, page_write, Buffer, is_dirty}
use database_system_swe.Buffer.BufferMgr.{BufferMgr}

pub data Note : Type 0 where
  changed : BlockId → ℕ → Note
  called : Event → Note

-- Whether the trace has a change of the block with this number.
abbrev pub changed_at : BlockId → ℕ → List Note → Bool
changed_at b n [] = false
changed_at b n (changed c k ∷ t) = (c == b && nat_beq k n) || changed_at b n t
changed_at b n (called e ∷ t) = changed_at b n t

-- Whether the log was flushed up to this number.
abbrev pub covered : ℕ → List Note → Bool
covered n [] = false
covered n (changed c k ∷ t) = covered n t
covered n (called (log_flush l) ∷ t) = not (int_ltb l (pos n)) || covered n t
covered n (called (page_write b) ∷ t) = covered n t

-- Before each write of a page the log was flushed up to every change of it.
abbrev pub IsAhead : List Note → Type 0
IsAhead [] = Unit {0}
IsAhead (changed c k ∷ t) = IsAhead t
IsAhead (called (log_flush l) ∷ t) = IsAhead t
IsAhead (called (page_write b) ∷ t) =
    ((n : ℕ) → changed_at b n t ≡ true → covered n t ≡ true) × IsAhead t

abbrev pub extend : List Event → List Note → List Note
extend [] t = t
extend (e ∷ events) t = called e ∷ extend events t

-- A change without a log record is not noted.
abbrev pub noted : BlockId → ℤ → List Note → List Note
noted b (pos n) t = changed b n ∷ t
noted b (negsuc n) t = t

-- The calls of `Buffer.flush`, the latest first.
abbrev pub write_calls : Option BlockId → ℤ → List Event
write_calls none lsn = log_flush lsn ∷ []
write_calls (some b) lsn = page_write b ∷ log_flush lsn ∷ []

module _ {C : Type 0} where
  -- A buffer has the block of a change, and the number of its log record or a later one.
  pub record Carries (m : BufferMgr C) (b : BlockId) (n i : ℕ) : Type 0 where
    pub known : i < m.size
    pub block : (m.buffers i).blk ≡ some b
    pub dirty : is_dirty (m.buffers i) ≡ true
    pub late : int_ltb (m.buffers i).lsn (pos n) ≡ false

  -- What the log has not, a buffer has.
  abbrev pub IsHeld : BufferMgr C → List Note → Type 0
  IsHeld m t =
      (b : BlockId) (n : ℕ)
      → changed_at b n t ≡ true
      → (covered n t ≡ true) ⊎ ((i : ℕ) × Carries m b n i)

  abbrev pub flush_calls : Buffer C → List Event
  flush_calls buff = if is_dirty buff then write_calls buff.blk buff.lsn else []
