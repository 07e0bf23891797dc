-- ===== src/Buffer/TraceTests.antt =====
-- A trace of a pool of src/main/java/simpledb/buffer/BufferMgr.java with two buffers, where a page is
-- a number.
use database_system_swe.Base.{ℕ, pos, negsuc, some, List, [], ◌∷◌, ◌++◌, ◌≡◌, refl, arith}
use database_system_swe.Base.Assoc.{lookup, insert}
use database_system_swe.Tx.Block.{BlockId}
use database_system_swe.Buffer.Page.{log_flush, page_write, World, flush, assign_to_block}
use database_system_swe.Buffer.BufferMgr.{
  BufferMgr, new_mgr, modify, flush_all, flush_each, try_to_pin, pin_buffer, reassign, count_up,
}
use database_system_swe.Buffer.WriteAhead.{Note, changed, called, IsAhead}
use database_system_swe.Buffer.Logged.{Logged, start, pin, change, flush_changes, Logged-IsAhead}

abbrev courses : BlockId
courses = record { filename = "course.tbl"; blknum = pos 0 }

abbrev zeros : World ℕ
zeros = record { disk = λ b. 0; calls = [] }

abbrev pinned : BufferMgr ℕ
pinned = pin_buffer 0 (reassign courses 0 (1 ∷ []) (new_mgr 0 zeros 2))

pins_courses : try_to_pin courses (new_mgr 0 zeros 2) ≡ some (0, pinned)
unfolding try_to_pin lookup count_up
pins_courses = refl

calls_nothing : pinned.world.calls ≡ []
unfolding assign_to_block flush
calls_nothing = refl

abbrev changed_page : BufferMgr ℕ
changed_page = modify 0 9 (pos 3) (pos 1) pinned

has_courses : ((pinned.buffers 0).blk ≡ some courses) × ((pinned.buffers 0).lsn ≡ negsuc 0)
unfolding assign_to_block flush
has_courses = (refl, refl)

writes_what_it_calls :
    (flush_all (pos 3) changed_page).world.calls
    ≡ (page_write courses ∷ log_flush (pos 1) ∷ []) ++ changed_page.world.calls
unfolding flush_all flush_each assign_to_block flush modify insert
writes_what_it_calls = refl

abbrev trace : List Note
trace = called (page_write courses) ∷ called (log_flush (pos 1)) ∷ changed courses 1 ∷ []

traced : Logged 0 zeros (flush_all (pos 3) changed_page) trace
unfolding assign_to_block flush
traced =
    flush_changes changed_page (changed courses 1 ∷ []) 3
      (page_write courses ∷ log_flush (pos 1) ∷ [])
      (change pinned [] 0 courses 9 3 (pos 1)
        (pin (new_mgr 0 zeros 2) [] courses 0 pinned [] (start 2) pins_courses calls_nothing)
        (omega arith) (has_courses.0) refl)
      writes_what_it_calls

Logged-IsAhead_example : IsAhead trace
Logged-IsAhead_example = Logged-IsAhead 0 zeros (flush_all (pos 3) changed_page) trace traced
