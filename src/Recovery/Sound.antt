-- ===== src/Recovery/Sound.antt =====
-- The operations of src/main/java/simpledb/tx/recovery/RecoveryMgr.java keep what recovery would
-- restore.
use database_system_swe.Base.{
  ℕ, pos, true, false, [], ◌∷◌, ◌≡◌, refl, ap, arith, int_eq, if◌then◌else◌, ◌∙◌, Bool-cases, inl,
  inr,
}
use database_system_swe.Recovery.LogRecord.{Place, same_place_iff, Value, Database, set_value}
use database_system_swe.Recovery.History.{
  committed, Survives, Reachable, opens, begins, sets, commits, rolls_back, crashes, IsSound,
}
use database_system_swe.Recovery.RecoveryMgr.{
  do_rollback, has_finished, do_recover, State, begin_tx, change, commit_tx, rollback_tx, recover,
}
use database_system_swe.Recovery.Unfinished.{
  has_change, is_tx, is_other, any_tx, has_change-any_tx, has_change-Adds, has_change-finished,
  has_change-is_other, Adds-one,
}
use database_system_swe.Recovery.Undo.{
  do_recover-same, do_recover-kept, do_recover-undone, do_recover-Adds,
}
use database_system_swe.Recovery.Heads.{finished_one, do_recover-record_of, has_change-record_of}
use database_system_swe.Recovery.Rollback.{is_running, do_rollback-kept, do_rollback-do_recover}

begin_tx-IsSound :
    (t : ℕ) (s : State) (saved : Database) → IsSound s saved → IsSound (begin_tx t s) saved
unfolding do_recover has_change has_finished
begin_tx-IsSound t s saved v = record {
  restores = λ p. ground (arith, v.restores p);
  alone = λ u p h. ground (arith, v.alone u p, h);
}

change-restores :
    (t : ℕ) (p : Place) (v : Value) (s : State) (q : Place)
    → do_recover [] (change t p v s).log (change t p v s).db q ≡ do_recover [] s.log s.db q
change-restores t p v s q =
    ap (λ db. db q) (do_recover-record_of t p (s.db p) s.log (set_value p v s.db))
    ∙ do_recover-same [] s.log q (set_value p (s.db p) (set_value p v s.db)) s.db
        (ground (arith, same_place_iff p q))

-- A change keeps the changes of two unfinished transactions apart.
change-alone :
    (t : ℕ) (p : Place) (v : Value) (s : State) (saved : Database)
    → has_change (is_other t) p [] s.log ≡ false
    → IsSound s saved
    → (u : ℕ) (q : Place) → has_change (is_tx u) q [] (change t p v s).log ≡ true
    → has_change (is_other u) q [] (change t p v s).log ≡ false
change-alone t p v s saved h sound u q w = ground (
  arith,
  h,
  w,
  same_place_iff p q,
  has_change-record_of (is_tx u) t p q (s.db p) s.log,
  has_change-record_of (is_other u) t p q (s.db p) s.log,
  sound.alone u q,
  has_change-is_other t u p [] s.log,
)

change-IsSound :
    (t : ℕ) (p : Place) (v : Value) (s : State) (saved : Database)
    → has_change (is_other t) p [] s.log ≡ false
    → IsSound s saved
    → IsSound (change t p v s) saved
change-IsSound t p v s saved h sound = record {
  restores = λ q. change-restores t p v s q ∙ sound.restores q;
  alone = change-alone t p v s saved h sound;
}

-- The end of a transaction keeps the changes of two unfinished transactions apart.
end-alone :
    (t : ℕ) (s : State) (saved : Database)
    → IsSound s saved
    → (u : ℕ) (p : Place) → has_change (is_tx u) p (pos t ∷ []) s.log ≡ true
    → has_change (is_other u) p (pos t ∷ []) s.log ≡ false
end-alone t s saved v u p h = ground (
  arith,
  h,
  v.alone u p,
  has_change-Adds (is_other u) t p [] (pos t ∷ []) s.log (Adds-one t),
  has_change-Adds (is_tx u) t p [] (pos t ∷ []) s.log (Adds-one t),
)

-- Once a transaction has finished, its changes stay.
end-kept :
    (t : ℕ) (s : State) (saved : Database) (p : Place) (db : Database)
    → IsSound s saved
    → has_change (is_tx t) p [] s.log ≡ true
    → do_recover (pos t ∷ []) s.log db p ≡ db p
end-kept t s saved p db v h = do_recover-kept (pos t ∷ []) s.log p db (
    ground (
      arith,
      h,
      v.alone t p,
      has_change-any_tx t p (pos t ∷ []) s.log,
      has_change-finished t p (pos t ∷ []) s.log (finished_one t),
      has_change-Adds (is_other t) t p [] (pos t ∷ []) s.log (Adds-one t),
    ))

commit_tx-restores :
    (t : ℕ) (s : State) (saved : Database) (p : Place)
    → IsSound s saved
    → do_recover (pos t ∷ []) s.log s.db p ≡ committed t s saved p
commit_tx-restores t s saved p v = ground (
  arith,
  v.restores p,
  end-kept t s saved p s.db v,
  do_recover-Adds t [] (pos t ∷ []) s.log p s.db (Adds-one t),
)

commit_tx-IsSound :
    (t : ℕ) (s : State) (saved : Database)
    → IsSound s saved
    → IsSound (commit_tx t s) (committed t s saved)
unfolding do_recover has_change
commit_tx-IsSound t s saved v = record {
  restores = λ p. commit_tx-restores t s saved p v;
  alone = λ u p h. end-alone t s saved v u p h;
}

-- What rollback makes of a place: the committed value where the transaction changed it, and the
-- present one elsewhere.
pub rollback_value :
    (t : ℕ) (s : State) (saved : Database) (p : Place)
    → IsSound s saved
    → is_running t s.log ≡ true
    → do_rollback t s.log s.db p ≡ (if has_change (is_tx t) p [] s.log then saved p else s.db p)
unfolding has_finished
rollback_value t s saved p v r = ground (
  arith,
  v.restores p,
  v.alone t p,
  do_rollback-kept t [] s.log p s.db r refl,
  do_rollback-do_recover t [] s.log p s.db r refl,
)

rollback_tx-restores :
    (t : ℕ) (s : State) (saved : Database) (p : Place)
    → IsSound s saved
    → is_running t s.log ≡ true
    → do_recover (pos t ∷ []) s.log (do_rollback t s.log s.db) p ≡ saved p
rollback_tx-restores t s saved p v r = ground (
  arith,
  v.restores p,
  rollback_value t s saved p v r,
  end-kept t s saved p (do_rollback t s.log s.db) v,
  do_recover-Adds t [] (pos t ∷ []) s.log p (do_rollback t s.log s.db) (Adds-one t),
  do_recover-same [] s.log p (do_rollback t s.log s.db) s.db,
)

rollback_tx-IsSound :
    (t : ℕ) (s : State) (saved : Database)
    → IsSound s saved
    → is_running t s.log ≡ true
    → IsSound (rollback_tx t s) saved
unfolding do_recover has_change rollback_tx
rollback_tx-IsSound t s saved v r = record {
  restores = λ p. rollback_tx-restores t s saved p v r;
  alone = λ u p h. end-alone t s saved v u p h;
}

-- What recovery makes of what a crash left.
pub crash_value :
    (disk : Database) (s : State) (saved : Database) (p : Place)
    → IsSound s saved
    → Survives s disk
    → do_recover [] s.log disk p ≡ saved p
crash_value disk s saved p v k = elim (Bool-cases (has_change any_tx p [] s.log)) [
  | inl h ↦ do_recover-undone [] s.log p disk s.db h ∙ v.restores p
  | inr h ↦ do_recover-same [] s.log p disk s.db (k p h) ∙ v.restores p
]

recover-IsSound :
    (t : ℕ) (disk : Database) (s : State) (saved : Database)
    → IsSound s saved
    → Survives s disk
    → IsSound (recover (begin_tx t (record s { db = disk }))) saved
unfolding do_recover has_change recover has_finished
recover-IsSound t disk s saved v k = record {
  restores = λ p. crash_value disk s saved p v k;
  alone = λ u p h. refl;
}

pub Reachable-IsSound : (s : State) (saved : Database) → Reachable s saved → IsSound s saved
unfolding do_recover has_change
Reachable-IsSound s saved (opens db) = record { restores = λ p. refl; alone = λ t p h. refl }
Reachable-IsSound s saved (begins t before saved' r e) =
    begin_tx-IsSound t before saved' (Reachable-IsSound before saved' r)
Reachable-IsSound s saved (sets t p v before saved' r run free) =
    change-IsSound t p v before saved' free (Reachable-IsSound before saved' r)
Reachable-IsSound s saved (commits t before saved' r run) =
    commit_tx-IsSound t before saved' (Reachable-IsSound before saved' r)
Reachable-IsSound s saved (rolls_back t before saved' r run) =
    rollback_tx-IsSound t before saved' (Reachable-IsSound before saved' r) run
Reachable-IsSound s saved (crashes t disk before saved' r k) =
    recover-IsSound t disk before saved' (Reachable-IsSound before saved' r) k
