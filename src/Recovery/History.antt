-- ===== src/Recovery/History.antt =====
-- Every state that transactions, crashes and recoveries of a database come to, and what
-- src/main/java/simpledb/tx/recovery/RecoveryMgr.java restores in it.
use database_system_swe.Base.{ℕ, true, false, [], ◌≡◌, int_eq, if◌then◌else◌}
use database_system_swe.Recovery.LogRecord.{Place, Value, Database}
use database_system_swe.Recovery.RecoveryMgr.{
  do_recover, State, begin_tx, change, commit_tx, rollback_tx, recover,
}
use database_system_swe.Recovery.Unfinished.{has_change, is_tx, is_other, any_tx}
use database_system_swe.Recovery.Rollback.{mentions, is_running}

-- The values once the transaction has committed: its own where it made a change.
abbrev pub committed : ℕ → State → Database → Database
committed t s saved = λ p. if has_change (is_tx t) p [] s.log then s.db p else saved p

-- What a crash leaves: it loses changes of unfinished transactions only.
abbrev pub Survives : State → Database → Type 0
Survives s disk = (p : Place) → has_change any_tx p [] s.log ≡ false → disk p ≡ s.db p

-- The states with the values that the committed transactions made. A transaction takes a new
-- number, changes a place only where no other unfinished transaction did, as its exclusive lock
-- grants, and ends once. After a crash a transaction recovers the database.
pub data Reachable : State → Database → Type 0 where
  opens : (db : Database) → Reachable (record { db = db; log = [] }) db
  begins :
      (t : ℕ) (s : State) (saved : Database)
      → Reachable s saved
      → mentions t s.log ≡ false
      → Reachable (begin_tx t s) saved
  sets :
      (t : ℕ) (p : Place) (v : Value) (s : State) (saved : Database)
      → Reachable s saved
      → is_running t s.log ≡ true
      → has_change (is_other t) p [] s.log ≡ false
      → Reachable (change t p v s) saved
  commits :
      (t : ℕ) (s : State) (saved : Database)
      → Reachable s saved
      → is_running t s.log ≡ true
      → Reachable (commit_tx t s) (committed t s saved)
  rolls_back :
      (t : ℕ) (s : State) (saved : Database)
      → Reachable s saved
      → is_running t s.log ≡ true
      → Reachable (rollback_tx t s) saved
  crashes :
      (t : ℕ) (disk : Database) (s : State) (saved : Database)
      → Reachable s saved
      → Survives s disk
      → Reachable (recover (begin_tx t (record s { db = disk }))) saved

-- Recovery would restore the committed values, and no two unfinished transactions changed a place.
pub record IsSound (s : State) (saved : Database) : Type 0 where
  pub restores : (p : Place) → do_recover [] s.log s.db p ≡ saved p
  pub alone :
      (t : ℕ) (p : Place)
      → has_change (is_tx t) p [] s.log ≡ true
      → has_change (is_other t) p [] s.log ≡ false
