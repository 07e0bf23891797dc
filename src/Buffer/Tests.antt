-- ===== src/Buffer/Tests.antt =====
-- Runs of src/main/java/simpledb/buffer/BufferMgr.java on a pool of two buffers, where a page is a
-- number.
use database_system_swe.Base.{
  ℕ, pos, true, false, none, some, [], ◌∷◌, ◌≡◌, ◌≢◌, ◌<◌, ◌↔◌, refl, arith, if◌then◌else◌,
}
use database_system_swe.Base.Assoc.{lookup}
use database_system_swe.Tx.Block.{BlockId, equals}
use database_system_swe.Buffer.Page.{World, is_pinned, is_dirty, flush, assign_to_block}
use database_system_swe.Buffer.BufferMgr.{
  BufferMgr, new_mgr, unpin, modify, flush_all, try_to_pin, pin_buffer, reassign, count_up,
}
use database_system_swe.Buffer.Valid.{IsValid, view}
use database_system_swe.Buffer.Steps.{new_mgr-IsValid, modify-IsValid}
use database_system_swe.Buffer.Pool.{IsPin, try_to_pin-IsPin, try_to_pin-none}
use database_system_swe.Buffer.History.{
  start, pin, reachable-IsValid, flush_all_saves, view_changes,
}

abbrev students : BlockId
students = record { filename = "student.tbl"; blknum = pos 0 }

abbrev disk_of_sevens : World ℕ
disk_of_sevens = record { disk = λ b. 7; calls = [] }

abbrev fresh : BufferMgr ℕ
fresh = new_mgr 0 disk_of_sevens 2

abbrev students_pinned : BufferMgr ℕ
students_pinned = pin_buffer 0 (reassign students 0 (1 ∷ []) fresh)

pins_first : try_to_pin students fresh ≡ some (0, students_pinned)
unfolding try_to_pin lookup count_up
pins_first = refl

reads_the_disk : (students_pinned.buffers 0).contents ≡ 7
unfolding assign_to_block flush
reads_the_disk = refl

try_to_pin-IsPin_example : IsPin students fresh 0 students_pinned
try_to_pin-IsPin_example =
    try_to_pin-IsPin students fresh 0 students_pinned (new_mgr-IsValid 0 disk_of_sevens 2)
      pins_first

try_to_pin-none_example : (try_to_pin students fresh ≡ none) ↔ (
    (i : ℕ)
    → i < fresh.size
    → (is_pinned (fresh.buffers i) ≡ true) × ((fresh.buffers i).blk ≢ some students))
try_to_pin-none_example = try_to_pin-none students fresh (new_mgr-IsValid 0 disk_of_sevens 2)

reachable-IsValid_example : IsValid students_pinned
reachable-IsValid_example =
    reachable-IsValid 0 disk_of_sevens students_pinned
      (pin fresh students 0 students_pinned (start 2) pins_first)

abbrev changed : BufferMgr ℕ
changed = modify 0 9 (pos 3) (pos 1) students_pinned

has_students : (students_pinned.buffers 0).blk ≡ some students
unfolding assign_to_block flush
has_students = refl

changed_has_students : (changed.buffers 0).blk ≡ some students
unfolding modify assign_to_block flush
changed_has_students = refl

changed_by_three : (changed.buffers 0).txnum ≡ pos 3
unfolding modify
changed_by_three = refl

students_pinned-IsValid : IsValid students_pinned
students_pinned-IsValid =
    (try_to_pin-IsPin students fresh 0 students_pinned (new_mgr-IsValid 0 disk_of_sevens 2)
      pins_first).valid

pinned_below : 0 < students_pinned.size
pinned_below = ground arith

below : 0 < changed.size
unfolding modify
below = ground arith

changed-IsValid : IsValid changed
changed-IsValid =
    modify-IsValid students_pinned students_pinned-IsValid 0 pinned_below students 9 3 (pos 1)
      has_students

flush_all_saves_example :
    (is_dirty ((flush_all (pos 3) changed).buffers 0) ≡ false)
    × ((flush_all (pos 3) changed).world.disk students ≡ (changed.buffers 0).contents)
flush_all_saves_example =
    flush_all_saves changed 3 0 students changed-IsValid below changed_has_students changed_by_three

view_changes_example :
    (view (unpin 0 students_pinned) students ≡ view students_pinned students)
    × (view (flush_all (pos 3) students_pinned) students ≡ view students_pinned students)
    × (view (modify 0 9 (pos 3) (pos 1) students_pinned) students
        ≡ (if equals students students then 9 else view students_pinned students))
view_changes_example =
    view_changes students_pinned 0 3 students 9 (pos 1) students students_pinned-IsValid
      pinned_below has_students
