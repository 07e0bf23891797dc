-- ===== src/Buffer/Logged.antt =====
-- The traces of a pool of src/main/java/simpledb/buffer/BufferMgr.java, with the changes of its
-- clients.
use database_system_swe.Base.{
  ℕ, ◌<◌, ℤ, pos, negsuc, true, some, List, [], ◌++◌, ◌≡◌, arith, int_eq,
}
use database_system_swe.Tx.Block.{BlockId, block_eq}
use database_system_swe.Buffer.Page.{Event, World, is_pinned}
use database_system_swe.Buffer.BufferMgr.{BufferMgr, new_mgr, unpin, modify, flush_all, try_to_pin}
use database_system_swe.Buffer.Valid.{IsValid}
use database_system_swe.Buffer.WriteAhead.{Note, IsAhead, extend, noted, IsHeld}
use database_system_swe.Buffer.WriteAhead.Flushes.{Step-calls, flush_each-Step}
use database_system_swe.Buffer.WriteAhead.Pins.{try_to_pin-Step}
use database_system_swe.Buffer.WriteAhead.Changes.{IsLater, unpin-IsHeld, modify-IsHeld}
use database_system_swe.Buffer.Steps.{new_mgr-IsValid, unpin-IsValid, modify-IsValid}
use database_system_swe.Buffer.Flush.{flush_each-IsValid}
use database_system_swe.Buffer.Pool.{try_to_pin-IsPin}

noted-IsAhead : (blk : BlockId) (lsn : ℤ) (t : List Note) → IsAhead t → IsAhead (noted blk lsn t)
noted-IsAhead blk (pos n) t a = a
noted-IsAhead blk (negsuc n) t a = a

module _ {C : Type 0} where
  -- The steps of the pool's clients, each with the calls it made. The number of a change's log
  -- record is not before the one that its buffer has.
  pub data Logged (empty_page : C) (w : World C) : BufferMgr C → List Note → Type 0 where
    start : (n : ℕ) → Logged empty_page w (new_mgr empty_page w n) []
    pin :
        (m : BufferMgr C) (t : List Note) (blk : BlockId) (i : ℕ) (m' : BufferMgr C)
        (events : List Event)
        → Logged empty_page w m t
        → try_to_pin blk m ≡ some (i, m')
        → m'.world.calls ≡ events ++ m.world.calls
        → Logged empty_page w m' (extend events t)
    unpin_one :
        (m : BufferMgr C) (t : List Note) (i : ℕ)
        → Logged empty_page w m t
        → i < m.size
        → is_pinned (m.buffers i) ≡ true
        → Logged empty_page w (unpin i m) t
    change :
        (m : BufferMgr C) (t : List Note) (i : ℕ) (blk : BlockId) (contents : C) (txnum : ℕ)
        (lsn : ℤ)
        → Logged empty_page w m t
        → i < m.size
        → (m.buffers i).blk ≡ some blk
        → IsLater lsn (m.buffers i).lsn
        → Logged empty_page w (modify i contents (pos txnum) lsn m) (noted blk lsn t)
    flush_changes :
        (m : BufferMgr C) (t : List Note) (txnum : ℕ) (events : List Event)
        → Logged empty_page w m t
        → (flush_all (pos txnum) m).world.calls ≡ events ++ m.world.calls
        → Logged empty_page w (flush_all (pos txnum) m) (extend events t)

  Logged-IsHeld :
      (empty_page : C) (w : World C) (m : BufferMgr C) (t : List Note)
      → Logged empty_page w m t
      → IsValid m × IsHeld m t × IsAhead t
  unfolding flush_all
  Logged-IsHeld empty_page w m t (start n) =
      (new_mgr-IsValid empty_page w n, λ b k e. absurd (ground (arith, e)), tt)
  Logged-IsHeld empty_page w m t (pin before t0 blk i m' events l e calls) =
      let (v, h, a) = Logged-IsHeld empty_page w before t0 l in
      let (h', a') =
        Step-calls before m' t0 events (try_to_pin-Step blk i before m' t0 v e h a) calls in
      ((try_to_pin-IsPin blk before i m' v e).valid, h', a')
  Logged-IsHeld empty_page w m t (unpin_one before t0 i l lt p) =
      let (v, h, a) = Logged-IsHeld empty_page w before t l in
      (unpin-IsValid before v i lt p, unpin-IsHeld i before t h, a)
  Logged-IsHeld empty_page w m t (change before t0 i blk contents txnum lsn l lt own later) =
      let (v, h, a) = Logged-IsHeld empty_page w before t0 l in
      (
        modify-IsValid before v i lt blk contents txnum lsn own,
        modify-IsHeld before i txnum blk contents lt own lsn t0 later h,
        noted-IsAhead blk lsn t0 a,
      )
  Logged-IsHeld empty_page w m t (flush_changes before t0 txnum events l calls) =
      let (v, h, a) = Logged-IsHeld empty_page w before t0 l in
      let (h', a') =
        Step-calls before (flush_all (pos txnum) before) t0 events
          (flush_each-Step (pos txnum) before.bufferpool before t0 v v.rows_known h a) calls in
      (flush_each-IsValid (pos txnum) before.bufferpool before v v.rows_known, h', a')

  -- In every trace of the pool whose changes have log records in the order of their numbers, before
  -- each write of a page there is a flush of the log up to the number of each change of the page.
  pub Logged-IsAhead :
      (empty_page : C) (w : World C) (m : BufferMgr C) (t : List Note)
      → Logged empty_page w m t
      → IsAhead t
  Logged-IsAhead empty_page w m t l = (Logged-IsHeld empty_page w m t l).2
