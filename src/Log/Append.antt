-- ===== src/Log/Append.antt =====
-- `append` of src/main/java/simpledb/log/LogMgr.java adds one record.
use database_system_swe.Base.{
  ℕ, suc, ◌+◌, ◌<◌, ◌≤◌, ℤ, pos, ◌-ℤ◌, int_ltb, true, false, some, List, [], ◌∷◌, ◌++◌, ◌≡◌, refl,
  sym, ap, subst, Bool-cases, ◌⊎◌, inl, inr, ltb, ◌∙◌, arith, length,
}
use database_system_swe.Log.Page.{Page, get_int}
use database_system_swe.Log.Unbounded.{
  LogMgr, next_lsn, flush, append_new_block, append_at, append_next, append,
}
use database_system_swe.Log.Blocks.{
  Moved, move, moved_log, moved-OnDisk, moved_size, moved_last, flush_all-Earlier, flush_size,
  flush_count,
}
use database_system_swe.Log.Records.{
  Record, IsBlock, HasRecord, Earlier, concat, IsLog, Contains, OnDisk,
}
use database_system_swe.Log.Place.{offset_left, offset_short, placed_log, IsLog-append_at}

append_fits :
    (m : LogMgr) (r : Record) (b : ℕ)
    → get_int 0 m.logpage ≡ some (pos b)
    → int_ltb (pos b -ℤ pos (length r + 4)) (pos 4) ≡ false
    → append r m ≡ append_at (pos b) r m
unfolding append
append_fits m r b e h = rw e (rw h)

append_full :
    (m : LogMgr) (r : Record) (b : ℕ)
    → get_int 0 m.logpage ≡ some (pos b)
    → int_ltb (pos b -ℤ pos (length r + 4)) (pos 4) ≡ true
    → append r m ≡ append_next r m
unfolding append
append_full m r b e h = rw e (rw h)

append_next_lem :
    (m : LogMgr) (r : Record) (p : Page) (b : ℤ)
    → append_new_block (flush m) ≡ some (moved_log (flush m) p)
    → get_int 0 p ≡ some b
    → append_next r m ≡ append_at b r (moved_log (flush m) p)
unfolding append_next
append_next_lem m r p b e g = rw e (rw g)

pub flush_keeps :
    (m : LogMgr)
    → (((flush m).logpage ≡ m.logpage) × ((flush m).currentblk ≡ m.currentblk))
      × ((flush m).latest_lsn ≡ m.latest_lsn)
unfolding flush
flush_keeps m = ((refl, refl), refl)

pub flush_saves : (m : LogMgr) → (flush m).last_saved_lsn ≡ m.latest_lsn
unfolding flush
flush_saves m = refl

-- Nothing is written to the file.
abbrev pub Unwritten : LogMgr → LogMgr → Type 0
Unwritten m after = (after.file ≡ m.file) × (after.last_saved_lsn ≡ m.last_saved_lsn)

-- The records before are in the file, and the log knows it.
abbrev pub Written : LogMgr → LogMgr → List Record → Type 0
Written m after all = OnDisk after.file all × (after.last_saved_lsn ≡ m.latest_lsn)

-- The log with one record more, in the same block or in a new one.
pub record Appended (m : LogMgr) (r : Record) (all : List Record) : Type 0 where
  pub after : LogMgr
  pub appends : append r m ≡ some (next_lsn m.latest_lsn, after)
  pub contains : Contains after (r ∷ all)
  pub same_size : after.file.block_size ≡ m.file.block_size
  pub latest : after.latest_lsn ≡ next_lsn m.latest_lsn
  pub grows : after.file.block_count ≤ suc m.file.block_count
  pub disk : Unwritten m after ⊎ Written m after all

append_in_block :
    (m : LogMgr) (r : Record) (recs : List Record) (blocks : List (List Record))
    (l : IsLog m recs blocks)
    → length r + 8 ≤ l.page.boundary
    → Appended m r (recs ++ concat blocks)
append_in_block m r recs blocks l fits =
    let (p, e, l') = IsLog-append_at m r recs blocks l fits in
    record {
      after = placed_log m p;
      appends =
          append_fits m r l.page.boundary l.page.reads_boundary
            ((offset_left l.page.boundary (length r + 4) (omega arith)).0)
          ∙ e;
      contains = record { recs = r ∷ recs; blocks = blocks; log = l'; order = refl };
      same_size = refl;
      latest = refl;
      grows = omega arith;
      disk = inl (refl, refl);
    }

append_in_next :
    (m : LogMgr) (r : Record) (recs : List Record) (blocks : List (List Record))
    (l : IsLog m recs blocks)
    → length r + 8 ≤ m.file.block_size
    → l.page.boundary < length r + 8
    → HasRecord recs
    → Appended m r (recs ++ concat blocks)
append_in_next m r recs blocks l room full h =
    let mv : Moved (flush m) (recs ∷ blocks) =
      move (flush m) (recs ∷ blocks) (omega (arith, l.small, flush_size m))
        (omega (arith, flush_size m))
        (ap (λ (p : Page). p.size) ((flush_keeps m).0.0) ∙ l.page.page_size ∙ sym (flush_size m))
        (subst (λ (k : ℕ). Earlier (flush m).file k (recs ∷ blocks)) (sym (flush_count m ∙ l.last))
          (flush_all-Earlier m recs blocks l h)) in
    let m1 : LogMgr = moved_log (flush m) mv.page in
    let (p, e, l') =
      IsLog-append_at m1 r [] (recs ∷ blocks) mv.log (omega (arith, mv.empty, flush_size m)) in
    record {
      after = placed_log m1 p;
      appends =
          append_full m r l.page.boundary l.page.reads_boundary
            (offset_short l.page.boundary (length r + 4) (omega arith))
          ∙ append_next_lem m r mv.page (pos (flush m).file.block_size) mv.moves mv.bounded
          ∙ ap (λ (k : ℕ). append_at (pos k) r m1) (sym mv.empty)
          ∙ e
          ∙ ap (λ (n : ℤ). some (next_lsn n, placed_log m1 p)) ((flush_keeps m).1);
      contains = record { recs = r ∷ []; blocks = recs ∷ blocks; log = l'; order = refl };
      same_size = moved_size (flush m) mv.page ∙ flush_size m;
      latest = ap next_lsn ((flush_keeps m).1);
      grows = omega (arith, moved_last (flush m) mv.page, flush_count m);
      disk = inr (moved-OnDisk (flush m) mv.page (recs ∷ blocks) mv.log, flush_saves m);
    }

-- A block that a record does not fit in has a record, if the record fits in an empty block.
full-HasRecord :
    (size n : ℕ) (p : Page) (recs : List Record) (b : IsBlock size p recs)
    → n ≤ size
    → b.boundary < n
    → HasRecord recs
full-HasRecord size n p [] b room full = omega (arith, b.holds, b.page_size)
full-HasRecord size n p (r ∷ recs) b room full = tt

-- If a log contains records, a record of a size that leaves room in a block is appended without an
-- exception, gets the next number, and the log contains it and the others.
pub append-Contains :
    (m : LogMgr) (r : Record) (all : List Record)
    → Contains m all
    → length r + 8 ≤ m.file.block_size
    → Appended m r all
append-Contains m r all c room =
    subst (Appended m r) (sym c.order) (elim (Bool-cases (ltb c.log.page.boundary (length r + 8))) [
      | inl short ↦ append_in_next m r c.recs c.blocks c.log room (ground (arith, short)) (
          full-HasRecord m.file.block_size (length r + 8) m.logpage c.recs c.log.page room
            (ground (arith, short)))
      | inr fits ↦ append_in_block m r c.recs c.blocks c.log (ground (arith, fits))
    ])
