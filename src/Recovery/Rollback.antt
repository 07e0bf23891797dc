-- ===== src/Recovery/Rollback.antt =====
-- `doRollback` of src/main/java/simpledb/tx/recovery/RecoveryMgr.java against `doRecover`.
use database_system_swe.Base.{
  ℕ, ℤ, pos, Bool, true, false, not, ◌||◌, ◌&&◌, List, [], ◌∷◌, ◌==◌, ◌≡◌, refl, arith, int_eq,
  if◌then◌else◌,
}
use database_system_swe.Recovery.LogRecord.{
  Place, Database, LogRecord, tx_number, undo, is_start, is_checkpoint, is_end,
}
use database_system_swe.Recovery.RecoveryMgr.{do_rollback, has_finished, do_recover}
use database_system_swe.Recovery.Unfinished.{has_change, is_tx, is_other, has_change-any_tx}
use database_system_swe.Recovery.Undo.{undo-same, undo-elsewhere, do_recover-same, do_recover-kept}

-- Whether the log names the transaction since the last checkpoint.
unfoldable pub mentions : ℕ → List LogRecord → Bool
mentions t [] = false
mentions t (rec ∷ recs) =
    let earlier = mentions t recs in
    if is_checkpoint rec then false else tx_number rec == pos t || earlier

-- Whether the transaction, whose number is new where it starts, has started since the last
-- checkpoint and has not ended.
unfoldable pub is_running : ℕ → List LogRecord → Bool
is_running t [] = false
is_running t (rec ∷ recs) =
    let earlier = is_running t recs in
    if tx_number rec == pos t
    then if is_start rec then not (mentions t recs) else not (is_end rec) && earlier
    else not (is_checkpoint rec) && earlier

has_change-mentions :
    (t : ℕ) (p : Place) (fin : List ℤ) (log : List LogRecord)
    → mentions t log ≡ false
    → has_change (is_tx t) p fin log ≡ false
unfolding has_change mentions
has_change-mentions t p fin [] h = refl
has_change-mentions t p fin (rec ∷ log) h =
    ground
      (arith, h, has_change-mentions t p fin log, has_change-mentions t p (tx_number rec ∷ fin) log)

pub do_rollback-same :
    (t : ℕ) (log : List LogRecord) (p : Place) (db db' : Database)
    → db p ≡ db' p
    → do_rollback t log db p ≡ do_rollback t log db' p
unfolding do_rollback
do_rollback-same t [] p db db' e = e
do_rollback-same t (rec ∷ log) p db db' e = ground (
  arith,
  e,
  undo-same rec p db db' e,
  do_rollback-same t log p (undo rec db) (undo rec db'),
  do_rollback-same t log p db db',
)

-- A place that the transaction did not change stays.
pub do_rollback-kept :
    (t : ℕ) (fin : List ℤ) (log : List LogRecord) (p : Place) (db : Database)
    → is_running t log ≡ true
    → has_finished (pos t) fin ≡ false
    → has_change (is_tx t) p fin log ≡ false
    → do_rollback t log db p ≡ db p
unfolding do_rollback has_change is_running has_finished
do_rollback-kept t fin [] p db r f h = refl
do_rollback-kept t fin (rec ∷ log) p db r f h = ground (
  arith,
  r,
  f,
  h,
  undo-elsewhere rec p db,
  do_rollback-kept t fin log p db,
  do_rollback-kept t fin log p (undo rec db),
  do_rollback-kept t (tx_number rec ∷ fin) log p db,
)

-- Where nobody else's change would be undone, the transaction's rollback does what recovery does.
pub do_rollback-do_recover :
    (t : ℕ) (fin : List ℤ) (log : List LogRecord) (p : Place) (db : Database)
    → is_running t log ≡ true
    → has_finished (pos t) fin ≡ false
    → has_change (is_other t) p fin log ≡ false
    → do_rollback t log db p ≡ do_recover fin log db p
unfolding do_rollback has_change is_running has_finished do_recover
do_rollback-do_recover t fin [] p db r f h = refl
do_rollback-do_recover t fin (rec ∷ log) p db r f h = ground (
  arith,
  r,
  f,
  h,
  undo-elsewhere rec p db,
  do_recover-same fin log p (undo rec db) db,
  do_recover-kept fin log p db,
  do_recover-kept fin log p (undo rec db),
  has_change-any_tx t p fin log,
  has_change-mentions t p fin log,
  do_rollback-do_recover t fin log p db,
  do_rollback-do_recover t fin log p (undo rec db),
  do_rollback-do_recover t (tx_number rec ∷ fin) log p db,
)
