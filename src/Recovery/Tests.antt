-- ===== src/Recovery/Tests.antt =====
-- Runs of src/main/java/simpledb/tx/recovery/RecoveryMgr.java: one transaction changes a value.
use database_system_swe.Base.{pos, true, false, [], ◌≡◌, refl, if◌then◌else◌}
use database_system_swe.Recovery.LogRecord.{Place, int_value, Database}
use database_system_swe.Recovery.RecoveryMgr.{
  State, begin_tx, change, rollback_tx, recover, has_finished,
}
use database_system_swe.Recovery.Unfinished.{has_change, is_tx, is_other, any_tx}
use database_system_swe.Recovery.Rollback.{mentions, is_running}
use database_system_swe.Recovery.History.{Reachable, opens, begins, sets, rolls_back, Survives}
use database_system_swe.Recovery.Restore.{recover_restores, rollback_restores, committed_holds}

abbrev grade : Place
grade = record { blk = record { filename = "enroll.tbl"; blknum = pos 2 }; offset = pos 8 }

abbrev zeros : Database
zeros = λ p. int_value (pos 0)

abbrev begun : State
begun = begin_tx 1 (record { db = zeros; log = [] })

abbrev graded : State
graded = change 1 grade (int_value (pos 4)) begun

is_new : mentions 1 [] ≡ false
unfolding mentions
is_new = refl

runs : is_running 1 begun.log ≡ true
unfolding is_running mentions
runs = refl

has_lock : has_change (is_other 1) grade [] begun.log ≡ false
unfolding has_change has_finished
has_lock = refl

graded-Reachable : Reachable graded zeros
graded-Reachable =
    sets 1 grade (int_value (pos 4)) begun zeros
      (begins 1 (record { db = zeros; log = [] }) zeros (opens zeros) is_new) runs has_lock

still_runs : is_running 1 graded.log ≡ true
unfolding is_running mentions
still_runs = refl

nothing_lost : Survives graded graded.db
nothing_lost = λ p h. refl

recover_restores_example :
    (recover (begin_tx 2 (record graded { db = graded.db }))).db grade ≡ zeros grade
recover_restores_example =
    recover_restores 2 graded.db graded zeros grade graded-Reachable nothing_lost

rollback_restores_example :
    (rollback_tx 1 graded).db grade
    ≡ (if has_change (is_tx 1) grade [] graded.log then zeros grade else graded.db grade)
rollback_restores_example = rollback_restores 1 graded zeros grade graded-Reachable still_runs

abbrev after_rollback : State
after_rollback = rollback_tx 1 graded

rolled_back : Reachable after_rollback zeros
rolled_back = rolls_back 1 graded zeros graded-Reachable still_runs

nobody_left : has_change any_tx grade [] after_rollback.log ≡ false
unfolding has_change has_finished rollback_tx
nobody_left = refl

committed_holds_example : after_rollback.db grade ≡ zeros grade
committed_holds_example = committed_holds after_rollback zeros grade rolled_back nobody_left
