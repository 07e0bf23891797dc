-- ===== src/Recovery/Undo.antt =====
-- What the loops of src/main/java/simpledb/tx/recovery/RecoveryMgr.java make of one place.
use database_system_swe.Base.{ℕ, ℤ, true, false, List, [], ◌∷◌, ◌≡◌, refl, arith, int_eq}
use database_system_swe.Recovery.LogRecord.{
  Place, Database, LogRecord, checkpoint, start, commit, rollback, set_int, set_string, tx_number,
  undo,
}
use database_system_swe.Recovery.RecoveryMgr.{do_recover}
use database_system_swe.Recovery.Unfinished.{changes, has_change, is_tx, any_tx, Adds, Adds-cons}

-- A step of either loop reads the place alone.
pub undo-same :
    (rec : LogRecord) (p : Place) (db db' : Database)
    → db p ≡ db' p
    → undo rec db p ≡ undo rec db' p
undo-same checkpoint p db db' e = e
undo-same (start t) p db db' e = e
undo-same (commit t) p db db' e = e
undo-same (rollback t) p db db' e = e
undo-same (set_int t q old) p db db' e = ground (arith, e)
undo-same (set_string t q old) p db db' e = ground (arith, e)

pub undo-elsewhere :
    (rec : LogRecord) (p : Place) (db : Database) → changes p rec ≡ false → undo rec db p ≡ db p
undo-elsewhere checkpoint p db c = refl
undo-elsewhere (start t) p db c = refl
undo-elsewhere (commit t) p db c = refl
undo-elsewhere (rollback t) p db c = refl
undo-elsewhere (set_int t q old) p db c = ground (arith, c)
undo-elsewhere (set_string t q old) p db c = ground (arith, c)

undo-there :
    (rec : LogRecord) (p : Place) (db db' : Database)
    → changes p rec ≡ true
    → undo rec db p ≡ undo rec db' p
undo-there checkpoint p db db' c = ground (arith, c)
undo-there (start t) p db db' c = ground (arith, c)
undo-there (commit t) p db db' c = ground (arith, c)
undo-there (rollback t) p db db' c = ground (arith, c)
undo-there (set_int t q old) p db db' c = ground (arith, c)
undo-there (set_string t q old) p db db' c = ground (arith, c)

pub do_recover-same :
    (fin : List ℤ) (log : List LogRecord) (p : Place) (db db' : Database)
    → db p ≡ db' p
    → do_recover fin log db p ≡ do_recover fin log db' p
unfolding do_recover
do_recover-same fin [] p db db' e = e
do_recover-same fin (rec ∷ log) p db db' e = ground (
  arith,
  e,
  undo-same rec p db db' e,
  do_recover-same fin log p (undo rec db) (undo rec db'),
  do_recover-same fin log p db db',
  do_recover-same (tx_number rec ∷ fin) log p db db',
)

-- Where nobody unfinished changed the place, it stays.
pub do_recover-kept :
    (fin : List ℤ) (log : List LogRecord) (p : Place) (db : Database)
    → has_change any_tx p fin log ≡ false
    → do_recover fin log db p ≡ db p
unfolding do_recover has_change
do_recover-kept fin [] p db h = refl
do_recover-kept fin (rec ∷ log) p db h = ground (
  arith,
  h,
  undo-elsewhere rec p db,
  do_recover-kept fin log p db,
  do_recover-kept fin log p (undo rec db),
  do_recover-kept (tx_number rec ∷ fin) log p db,
)

-- Where somebody unfinished did, what was there before is gone.
pub do_recover-undone :
    (fin : List ℤ) (log : List LogRecord) (p : Place) (db db' : Database)
    → has_change any_tx p fin log ≡ true
    → do_recover fin log db p ≡ do_recover fin log db' p
unfolding do_recover has_change
do_recover-undone fin [] p db db' h = ground (arith, h)
do_recover-undone fin (rec ∷ log) p db db' h = ground (
  arith,
  h,
  undo-there rec p db db',
  do_recover-same fin log p (undo rec db) (undo rec db'),
  do_recover-undone fin log p db db',
  do_recover-undone fin log p (undo rec db) (undo rec db'),
  do_recover-undone (tx_number rec ∷ fin) log p db db',
)

-- Finishing a transaction that did not change the place makes no difference to it.
pub do_recover-Adds :
    (t : ℕ) (fin fin' : List ℤ) (log : List LogRecord) (p : Place) (db : Database)
    → Adds t fin fin'
    → has_change (is_tx t) p fin log ≡ false
    → do_recover fin' log db p ≡ do_recover fin log db p
unfolding do_recover has_change
do_recover-Adds t fin fin' [] p db a h = refl
do_recover-Adds t fin fin' (rec ∷ log) p db a h = ground (
  arith,
  h,
  a (tx_number rec),
  undo-elsewhere rec p db,
  do_recover-same fin log p (undo rec db) db,
  do_recover-Adds t fin fin' log p db a,
  do_recover-Adds t fin fin' log p (undo rec db) a,
  do_recover-Adds t (tx_number rec ∷ fin) (tx_number rec ∷ fin') log p db
      (Adds-cons t (tx_number rec) fin fin' a),
)
