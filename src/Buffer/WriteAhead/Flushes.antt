-- ===== src/Buffer/WriteAhead/Flushes.antt =====
-- The calls that `flushAll` of src/main/java/simpledb/buffer/BufferMgr.java adds to a trace.
use mathlib.Core.List.{append_assoc, append_cancel_right}
use database_system_swe.Base.{
  ℕ, ◌<◌, ℤ, true, false, List, [], ◌∷◌, ◌++◌, ◌≡◌, inl, inr, refl, sym, ap, subst, ◌∙◌, arith,
  Bool-cases, Option-cases, nat_beq, ◌==◌, int_eq,
}
use database_system_swe.Tx.Block.{BlockId, block_eq}
use database_system_swe.Buffer.Page.{Event, flush}
use database_system_swe.Buffer.BufferMgr.{BufferMgr, flush_each, flush_one}
use database_system_swe.Buffer.Valid.{IsValid, rows_below}
use database_system_swe.Buffer.Steps.{flush_one-IsValid}
use database_system_swe.Buffer.WriteAhead.{Note, called, IsAhead, extend, IsHeld, flush_calls}
use database_system_swe.Buffer.WriteAhead.Keeps.{Keeps, flush_calls-IsAhead, flush-IsHeld}

extend-append :
    (events more : List Event) (t : List Note)
    → extend (events ++ more) t ≡ extend events (extend more t)
extend-append [] more t = refl
extend-append (e ∷ events) more t = ap (λ l. called e ∷ l) (extend-append events more t)

module _ {C : Type 0} where
  -- A step of the pool with the calls it makes keeps the rule.
  pub record Step (m m' : BufferMgr C) (t : List Note) : Type 0 where
    pub events : List Event
    pub calls : m'.world.calls ≡ events ++ m.world.calls
    pub held : IsHeld m' (extend events t)
    pub ahead : IsAhead (extend events t)

  -- The calls of a step are the ones it makes.
  pub Step-calls :
      (m m' : BufferMgr C) (t : List Note) (events : List Event)
      → Step m m' t
      → m'.world.calls ≡ events ++ m.world.calls
      → IsHeld m' (extend events t) × IsAhead (extend events t)
  Step-calls m m' t events s e =
      let same : s.events ≡ events =
        append_cancel_right s.events events m.world.calls (sym s.calls ∙ e) in
      subst (λ l. IsHeld m' (extend l t) × IsAhead (extend l t)) same (s.held, s.ahead)

  flush_one-Keeps :
      (txnum : ℤ) (i j : ℕ) (m : BufferMgr C)
      → nat_beq j i ≡ false
      → Keeps m (flush_one txnum i m) j
  unfolding flush
  flush_one-Keeps txnum i j m ne = record {
    block = ground arith;
    txnum = ground arith;
    lsn = ground arith;
  }

  flush_one-calls :
      (txnum : ℤ) (i : ℕ) (m : BufferMgr C)
      → (m.buffers i).txnum ≡ txnum
      → ((flush_one txnum i m).world.calls ≡ flush_calls (m.buffers i) ++ m.world.calls)
        × ((flush_one txnum i m).size ≡ m.size)
  unfolding flush
  flush_one-calls txnum i m e = elim (Option-cases (m.buffers i).blk) [
    | inl o ↦ ground (arith, e, o, int_eq.same_iff (m.buffers i).txnum txnum)
    | inr (b, o) ↦ ground (arith, e, o, int_eq.same_iff (m.buffers i).txnum txnum)
  ]

  flush_one_other :
      (txnum : ℤ) (i : ℕ) (m : BufferMgr C)
      → (m.buffers i).txnum == txnum ≡ false
      → flush_one txnum i m ≡ m
  flush_one_other txnum i m e = rw e refl

  flush_one-Step :
      (txnum : ℤ) (i : ℕ) (m : BufferMgr C) (t : List Note)
      → IsValid m
      → i < m.size
      → IsHeld m t
      → IsAhead t
      → Step m (flush_one txnum i m) t
  flush_one-Step txnum i m t v lt h a = elim (Bool-cases ((m.buffers i).txnum == txnum)) [
    | inl owned ↦
        let own : (m.buffers i).txnum ≡ txnum =
          ground (arith, owned, int_eq.same_iff (m.buffers i).txnum txnum) in
        let (calls, size) = flush_one-calls txnum i m own in
        record {
          events = flush_calls (m.buffers i);
          calls = calls;
          held =
              flush-IsHeld m (flush_one txnum i m) i t size (λ j ne. flush_one-Keeps txnum i j m ne)
                h;
          ahead = flush_calls-IsAhead m i t v lt h a;
        }
    | inr other ↦
        subst (λ m'. Step m m' t) (sym (flush_one_other txnum i m other))
          (record { events = []; calls = refl; held = h; ahead = a })
  ]

  Step-trans :
      (m m1 m2 : BufferMgr C) (t : List Note) (s : Step m m1 t)
      → Step m1 m2 (extend s.events t)
      → Step m m2 t
  Step-trans m m1 m2 t s s' =
      let e = sym (extend-append s'.events s.events t) in
      record {
        events = s'.events ++ s.events;
        calls =
            s'.calls
            ∙ ap (λ l. s'.events ++ l) s.calls
            ∙ sym (append_assoc s'.events s.events m.world.calls);
        held = subst (IsHeld m2) e s'.held;
        ahead = subst IsAhead e s'.ahead;
      }

  pub flush_each-Step :
      (txnum : ℤ) (rows : List (BlockId × ℕ)) (m : BufferMgr C) (t : List Note)
      → IsValid m
      → rows_below m.size rows ≡ true
      → IsHeld m t
      → IsAhead t
      → Step m (flush_each txnum rows m) t
  unfolding flush_each rows_below
  flush_each-Step txnum [] m t v below h a = record {
    events = [];
    calls = refl;
    held = h;
    ahead = a;
  }
  flush_each-Step txnum (row ∷ rows) m t v below h a =
      let m1 : BufferMgr C = flush_one txnum row.1 m in
      let lt : row.1 < m.size = ground (arith, below) in
      let s : Step m m1 t = flush_one-Step txnum row.1 m t v lt h a in
      Step-trans m m1 (flush_each txnum rows m1) t s (
        flush_each-Step txnum rows m1 (extend s.events t) (flush_one-IsValid m v row.1 lt txnum)
          (ground (arith, below)) s.held s.ahead)
