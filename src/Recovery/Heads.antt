-- ===== src/Recovery/Heads.antt =====
-- The loops of src/main/java/simpledb/tx/recovery/RecoveryMgr.java at the last record of a log.
use database_system_swe.Base.{
  ℕ, ℤ, pos, Bool, true, ◌||◌, ◌&&◌, List, [], ◌∷◌, ◌≡◌, refl, arith, int_eq,
}
use database_system_swe.Recovery.LogRecord.{
  Place, same_place, Value, int_value, string_value, Database, set_value, LogRecord, commit,
  rollback,
}
use database_system_swe.Recovery.RecoveryMgr.{has_finished, do_recover, record_of}
use database_system_swe.Recovery.Unfinished.{has_change}

pub finished_one : (t : ℕ) → has_finished (pos t) (pos t ∷ []) ≡ true
unfolding has_finished
finished_one t = ground arith

pub do_recover-record_of :
    (t : ℕ) (p : Place) (old : Value) (log : List LogRecord) (db : Database)
    → do_recover [] (record_of t p old ∷ log) db ≡ do_recover [] log (set_value p old db)
unfolding do_recover has_finished
do_recover-record_of t p (int_value old) log db = refl
do_recover-record_of t p (string_value old) log db = refl

pub has_change-record_of :
    (who : ℤ → Bool) (t : ℕ) (p q : Place) (old : Value) (log : List LogRecord)
    → has_change who q [] (record_of t p old ∷ log)
      ≡ (same_place p q && who (pos t) || has_change who q [] log)
unfolding has_change has_finished
has_change-record_of who t p q (int_value old) log = ground arith
has_change-record_of who t p q (string_value old) log = ground arith

pub has_change-commit :
    (who : ℤ → Bool) (t : ℕ) (p : Place) (log : List LogRecord)
    → has_change who p [] (commit t ∷ log) ≡ has_change who p (pos t ∷ []) log
unfolding has_change
has_change-commit who t p log = refl

pub has_change-rollback :
    (who : ℤ → Bool) (t : ℕ) (p : Place) (log : List LogRecord)
    → has_change who p [] (rollback t ∷ log) ≡ has_change who p (pos t ∷ []) log
unfolding has_change
has_change-rollback who t p log = refl

pub do_recover-commit :
    (t : ℕ) (log : List LogRecord) (db : Database)
    → do_recover [] (commit t ∷ log) db ≡ do_recover (pos t ∷ []) log db
unfolding do_recover
do_recover-commit t log db = refl

pub do_recover-rollback :
    (t : ℕ) (log : List LogRecord) (db : Database)
    → do_recover [] (rollback t ∷ log) db ≡ do_recover (pos t ∷ []) log db
unfolding do_recover
do_recover-rollback t log db = refl
