-- ===== src/Tx/Requests.antt =====
-- A request to src/main/java/simpledb/tx/concurrency/ConcurrencyMgr.java keeps the books in order,
-- however it is answered.
use database_system_swe.Base.{
  ℕ, suc, none, some, ◌≡◌, refl, sym, ◌∙◌, subst, nat_eq, int_eq, arith, inl, inr, Option-cases,
  Bool-cases, false, ap,
}
use database_system_swe.Base.Assoc.{lookup, lookup-insert}
use database_system_swe.Tx.Block.{BlockId, block_eq, equals_iff}
use database_system_swe.Tx.LockTable
use database_system_swe.Tx.LockTable.{
  LockTable, Check, go, wait, die, attempt, check_for_s_lock, check_for_x_lock, add_s_entry,
  add_x_entry, unlock,
}
use database_system_swe.Tx.ConcurrencyMgr
use database_system_swe.Tx.ConcurrencyMgr.{
  ConcurrencyMgr, LockType, Outcome, s, x, Reply, held, blocked, failed, settle, upgrade,
  unlock_all, is_x,
}
use database_system_swe.Tx.Locking.{System, mgr, commit, after_request, holding}
use database_system_swe.Tx.Books.{Inv, with_s-Inv, with_x-Inv}

-- The invariant reads a system through its table and what each transaction holds.
pub Inv-same :
    (σ τ : System)
    → τ.table ≡ σ.table
    → ((u : ℕ) (b : BlockId) → holding τ u b ≡ holding σ u b)
    → Inv σ
    → Inv τ
Inv-same σ τ e h v = record {
  positive = λ b. rw e (v.positive b);
  agrees = λ n b. rw (e, h (suc n) b) (v.agrees n b);
  alone = λ n m b p d. h (suc m) b ∙ v.alone n m b (sym (h (suc n) b) ∙ p) d;
}

-- What an answer leaves behind.
pub record Keeps (σ : System) (n : ℕ) (blk : BlockId) (o : Outcome) : Type 0 where
  pub keeps_inv : Inv (commit σ (suc n) o.table o.mgr)
  pub keeps_number : o.mgr.txnum ≡ suc n
  pub keeps_share :
      o.reply ≡ held → is_x (lookup blk (σ.local (suc n))) ≡ false → lookup blk o.mgr.locks ≡ some s

module _ (σ : System) (v : Inv σ) (n : ℕ) (blk : BlockId) where
  same-Inv : Inv (commit σ (suc n) σ.table (mgr σ (suc n)))
  same-Inv = Inv-same σ _ refl (λ u b. ground arith) v

  settle_s-Keeps :
      (k : Check)
      → check_for_s_lock σ.table blk (suc n) ≡ k
      → holding σ (suc n) blk ≡ none
      → Keeps σ n blk
          (settle (attempt k (add_s_entry σ.table blk (suc n))) σ.table (mgr σ (suc n)) blk s)
  settle_s-Keeps go e vacant = record {
    keeps_inv = with_s-Inv σ v n blk vacant e;
    keeps_number = refl;
    keeps_share =
        λ h k. ground (arith, lookup-insert blk blk s (σ.local (suc n)), equals_iff blk blk);
  }
  settle_s-Keeps wait e vacant = record {
    keeps_inv = same-Inv;
    keeps_number = refl;
    keeps_share = λ h k. cc;
  }
  settle_s-Keeps die e vacant = record {
    keeps_inv = same-Inv;
    keeps_number = refl;
    keeps_share = λ h k. cc;
  }

  pub s_lock-Keeps : Keeps σ n blk (ConcurrencyMgr.s_lock σ.table (mgr σ (suc n)) blk)
  unfolding ConcurrencyMgr.s_lock LockTable.s_lock
  s_lock-Keeps = elim (Option-cases (lookup blk (σ.local (suc n)))) [
    | inl vacant ↦ rw (vacant, ConcurrencyMgr.s_lock) (settle_s-Keeps _ refl vacant)
    | inr (ty, e) ↦
        rw (e, ConcurrencyMgr.s_lock)
          (record { keeps_inv = same-Inv; keeps_number = refl; keeps_share = λ h k. grind arith })
  ]

-- The upgrade, from a state in which the transaction has the shared lock.
module _ (σ : System) (v : Inv σ) (n : ℕ) (blk : BlockId)
    (shared : holding σ (suc n) blk ≡ some s) where
  settle_x-Inv :
      (k : Check)
      → check_for_x_lock σ.table blk (suc n) ≡ k
      → let o =
          settle (attempt k (add_x_entry σ.table blk (suc n))) σ.table (mgr σ (suc n)) blk x in
        Inv (commit σ (suc n) o.table o.mgr)
  settle_x-Inv go e = with_x-Inv σ v n blk shared e
  settle_x-Inv wait e = same-Inv σ v n blk
  settle_x-Inv die e = same-Inv σ v n blk

  upgrade-Inv :
      let o = upgrade held σ.table (mgr σ (suc n)) blk in Inv (commit σ (suc n) o.table o.mgr)
  unfolding LockTable.x_lock
  upgrade-Inv = settle_x-Inv _ refl

pub mgr-commit :
    (σ : System) (t : ℕ) (table : LockTable) (c : ConcurrencyMgr)
    → c.txnum ≡ t
    → mgr (commit σ t table c) t ≡ c
mgr-commit σ t table c e = ground arith

module _ (σ : System) (n : ℕ) (blk : BlockId) where
  upgrade-Keeps :
      (r : Reply) (table : LockTable) (c : ConcurrencyMgr)
      → Inv (commit σ (suc n) table c)
      → c.txnum ≡ suc n
      → (r ≡ held → lookup blk c.locks ≡ some s)
      → let o = upgrade r table c blk in Inv (commit σ (suc n) o.table o.mgr)
  upgrade-Keeps blocked table c v e h = v
  upgrade-Keeps failed table c v e h = v
  upgrade-Keeps held table c v e h =
      let τ = commit σ (suc n) table c in
      let back = mgr-commit σ (suc n) table c e in
      let after =
        upgrade-Inv τ v n blk (ap (λ (d : ConcurrencyMgr). lookup blk d.locks) back ∙ h refl) in
      let o = upgrade held table c blk in
      Inv-same (commit τ (suc n) o.table o.mgr) (commit σ (suc n) o.table o.mgr) refl
        (λ u b. ground arith)
        (subst (λ d. let p = upgrade held table d blk in Inv (commit τ (suc n) p.table p.mgr)) back
          after)

  x_lock-Inv :
      Inv σ
      → let o = ConcurrencyMgr.x_lock σ.table (mgr σ (suc n)) blk in
        Inv (commit σ (suc n) o.table o.mgr)
  unfolding ConcurrencyMgr.x_lock
  x_lock-Inv v = elim (Bool-cases (is_x (lookup blk (σ.local (suc n))))) [
    | inl e ↦ rw (e, ConcurrencyMgr.x_lock) (same-Inv σ v n blk)
    | inr e ↦
        let k = s_lock-Keeps σ v n blk in
        rw (e, ConcurrencyMgr.x_lock)
          (upgrade-Keeps _ _ _ k.keeps_inv k.keeps_number (λ h. k.keeps_share h e))
  ]

  -- A request keeps the invariant, whether it is granted, waits or throws.
  pub request-Inv : (ty : LockType) → Inv σ → Inv (after_request σ (suc n) blk ty)
  request-Inv s v = (s_lock-Keeps σ v n blk).keeps_inv
  request-Inv x v = x_lock-Inv v
