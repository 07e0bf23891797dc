-- ===== src/Recovery/Restore.antt =====
-- What src/main/java/simpledb/tx/recovery/RecoveryMgr.java restores.
use database_system_swe.Base.{ℕ, true, false, [], ◌≡◌, int_eq, if◌then◌else◌, ◌∙◌, sym}
use database_system_swe.Recovery.LogRecord.{Place, Database}
use database_system_swe.Recovery.History.{Survives, Reachable, IsSound}
use database_system_swe.Recovery.Sound.{Reachable-IsSound, rollback_value, crash_value}
use database_system_swe.Recovery.RecoveryMgr.{
  has_finished, do_recover, State, begin_tx, rollback_tx, recover,
}
use database_system_swe.Recovery.Unfinished.{has_change, is_tx, any_tx}
use database_system_swe.Recovery.Undo.{do_recover-kept}
use database_system_swe.Recovery.Rollback.{is_running}

-- In every state that transactions, crashes and recoveries come to, if a crash loses changes of
-- unfinished transactions only, then recovery makes every place hold the value that the committed
-- transactions made.
pub recover_restores :
    (t : ℕ) (disk : Database) (s : State) (saved : Database) (p : Place)
    → Reachable s saved
    → Survives s disk
    → (recover (begin_tx t (record s { db = disk }))).db p ≡ saved p
unfolding recover do_recover has_finished
recover_restores t disk s saved p r k = crash_value disk s saved p (Reachable-IsSound s saved r) k

-- In every such state, the rollback of a running transaction makes the places it changed hold
-- the values that the committed transactions made, and leaves every other place as it was.
pub rollback_restores :
    (t : ℕ) (s : State) (saved : Database) (p : Place)
    → Reachable s saved
    → is_running t s.log ≡ true
    → (rollback_tx t s).db p ≡ (if has_change (is_tx t) p [] s.log then saved p else s.db p)
unfolding rollback_tx
rollback_restores t s saved p r run = rollback_value t s saved p (Reachable-IsSound s saved r) run

-- In every such state, a place that no unfinished transaction changed holds the value that the
-- committed transactions made.
pub committed_holds :
    (s : State) (saved : Database) (p : Place)
    → Reachable s saved
    → has_change any_tx p [] s.log ≡ false
    → s.db p ≡ saved p
committed_holds s saved p r h =
    let v : IsSound s saved = Reachable-IsSound s saved r in
    sym (do_recover-kept [] s.log p s.db h) ∙ v.restores p
