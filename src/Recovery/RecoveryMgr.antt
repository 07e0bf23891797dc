-- ===== src/Recovery/RecoveryMgr.antt =====
-- src/main/java/simpledb/tx/recovery/RecoveryMgr.java over a log whose last record comes first, as
-- the log's iterator gives the records.
use database_system_swe.Base.{
  ℕ, ℤ, pos, Bool, false, ◌||◌, List, [], ◌∷◌, ◌==◌, int_eq, if◌then◌else◌,
}
use database_system_swe.Recovery.LogRecord.{
  Place, Value, int_value, string_value, Database, set_value, LogRecord, checkpoint, start, commit,
  rollback, set_int, set_string, tx_number, undo, is_start, is_checkpoint, is_end,
}

-- `doRollback`
unfoldable pub do_rollback : ℕ → List LogRecord → Database → Database
do_rollback txnum [] db = db
do_rollback txnum (rec ∷ recs) db =
    let undone = do_rollback txnum recs (undo rec db) in
    let passed = do_rollback txnum recs db in
    if tx_number rec == pos txnum then if is_start rec then db else undone else passed

-- `finishedTxs.contains`
unfoldable pub has_finished : ℤ → List ℤ → Bool
has_finished t [] = false
has_finished t (u ∷ finished_txs) = u == t || has_finished t finished_txs

-- `doRecover`, from the transactions known as finished.
unfoldable pub do_recover : List ℤ → List LogRecord → Database → Database
do_recover finished_txs [] db = db
do_recover finished_txs (rec ∷ recs) db =
    let ended = do_recover (tx_number rec ∷ finished_txs) recs db in
    let kept =
      do_recover finished_txs recs
        (if has_finished (tx_number rec) finished_txs then db else undo rec db) in
    if is_checkpoint rec then db else if is_end rec then ended else kept

-- The state of a database that runs: its contents and its log.
pub record State : Type 0 where
  pub db : Database
  pub log : List LogRecord

-- The constructor writes the record of the start.
abbrev pub begin_tx : ℕ → State → State
begin_tx txnum s = record s { log = start txnum ∷ s.log }

abbrev pub record_of : ℕ → Place → Value → LogRecord
record_of txnum p (int_value old) = set_int txnum p old
record_of txnum p (string_value old) = set_string txnum p old

-- `setInt` or `setString` of a transaction, with the record of the old value.
abbrev pub change : ℕ → Place → Value → State → State
change txnum p v s = record { db = set_value p v s.db; log = record_of txnum p (s.db p) ∷ s.log }

abbrev pub commit_tx : ℕ → State → State
commit_tx txnum s = record s { log = commit txnum ∷ s.log }

unfoldable pub rollback_tx : ℕ → State → State
rollback_tx txnum s = record { db = do_rollback txnum s.log s.db; log = rollback txnum ∷ s.log }

unfoldable pub recover : State → State
recover s = record { db = do_recover [] s.log s.db; log = checkpoint ∷ s.log }
