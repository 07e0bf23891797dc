-- ===== src/Recovery/Unfinished.antt =====
-- Which changes in a log `doRecover` of src/main/java/simpledb/tx/recovery/RecoveryMgr.java undoes.
use database_system_swe.Base.{
  ℕ, ℤ, pos, Bool, true, false, not, ◌||◌, ◌&&◌, List, [], ◌∷◌, ◌==◌, ◌≡◌, ◌≢◌, refl, arith, int_eq,
  if◌then◌else◌,
}
use database_system_swe.Recovery.LogRecord.{
  Place, same_place, LogRecord, checkpoint, start, commit, rollback, set_int, set_string, tx_number,
  is_checkpoint, is_end,
}
use database_system_swe.Recovery.RecoveryMgr.{has_finished}

-- Whether a record is of a change at the place.
abbrev pub changes : Place → LogRecord → Bool
changes p checkpoint = false
changes p (start t) = false
changes p (commit t) = false
changes p (rollback t) = false
changes p (set_int t q old) = same_place q p
changes p (set_string t q old) = same_place q p

-- Whether a transaction that `who` accepts changed the place after the last checkpoint and has
-- not finished.
unfoldable pub has_change : (ℤ → Bool) → Place → List ℤ → List LogRecord → Bool
has_change who p finished_txs [] = false
has_change who p finished_txs (rec ∷ recs) =
    let ended = has_change who p (tx_number rec ∷ finished_txs) recs in
    let kept = has_change who p finished_txs recs in
    if is_checkpoint rec
    then false
    else if is_end rec
    then ended
    else changes p rec && not (has_finished (tx_number rec) finished_txs) && who (tx_number rec)
      || kept

abbrev pub is_tx : ℕ → ℤ → Bool
is_tx t u = u == pos t

abbrev pub is_other : ℕ → ℤ → Bool
is_other t u = not (u == pos t)

abbrev pub any_tx : ℤ → Bool
any_tx u = true

-- The second list has one transaction more.
abbrev pub Adds : ℕ → List ℤ → List ℤ → Type 0
Adds t fin fin' = (u : ℤ) → has_finished u fin' ≡ (has_finished u fin || u == pos t)

pub Adds-cons : (t : ℕ) (v : ℤ) (fin fin' : List ℤ) → Adds t fin fin' → Adds t (v ∷ fin) (v ∷ fin')
unfolding has_finished
Adds-cons t v fin fin' h u = ground (arith, h u)

pub Adds-one : (t : ℕ) → Adds t [] (pos t ∷ [])
unfolding has_finished
Adds-one t u = ground arith

-- Another transaction's change is a change by somebody else.
pub has_change-is_other :
    (t u : ℕ) (p : Place) (fin : List ℤ) (log : List LogRecord)
    → pos u ≢ pos t
    → has_change (is_tx u) p fin log ≡ true
    → has_change (is_other t) p fin log ≡ true
unfolding has_change
has_change-is_other t u p fin [] ne h = ground (arith, h)
has_change-is_other t u p fin (rec ∷ log) ne h = ground (
  arith,
  has_change-is_other t u p fin log ne,
  has_change-is_other t u p (tx_number rec ∷ fin) log ne,
)

-- What finishes a transaction leaves the changes of the others.
pub has_change-Adds :
    (who : ℤ → Bool) (t : ℕ) (p : Place) (fin fin' : List ℤ) (log : List LogRecord)
    → Adds t fin fin'
    → has_change who p fin' log ≡ true
    → has_change who p fin log ≡ true
unfolding has_change
has_change-Adds who t p fin fin' [] a h = h
has_change-Adds who t p fin fin' (rec ∷ log) a h = ground (
  arith,
  h,
  a (tx_number rec),
  has_change-Adds who t p fin fin' log a,
  has_change-Adds who t p (tx_number rec ∷ fin) (tx_number rec ∷ fin') log
      (Adds-cons t (tx_number rec) fin fin' a),
)

-- A finished transaction has no change that is undone.
pub has_change-finished :
    (t : ℕ) (p : Place) (fin : List ℤ) (log : List LogRecord)
    → has_finished (pos t) fin ≡ true
    → has_change (is_tx t) p fin log ≡ false
unfolding has_change has_finished
has_change-finished t p fin [] f = refl
has_change-finished t p fin (rec ∷ log) f =
    ground
      (arith, f, has_change-finished t p fin log, has_change-finished t p (tx_number rec ∷ fin) log)

-- A change is by the transaction or by another.
pub has_change-any_tx :
    (t : ℕ) (p : Place) (fin : List ℤ) (log : List LogRecord)
    → has_change any_tx p fin log
      ≡ (has_change (is_tx t) p fin log || has_change (is_other t) p fin log)
unfolding has_change
has_change-any_tx t p fin [] = refl
has_change-any_tx t p fin (rec ∷ log) =
    ground (arith, has_change-any_tx t p fin log, has_change-any_tx t p (tx_number rec ∷ fin) log)
