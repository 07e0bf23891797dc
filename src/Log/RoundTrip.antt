-- ===== src/Log/RoundTrip.antt =====
-- A log of src/main/java/simpledb/log/LogMgr.java that is opened, on a new file and again.
use mathlib.Core.List.{reverse, reverse-cons, append_assoc}
use database_system_swe.Base.{
  ℕ, suc, ◌+◌, ◌^◌, ◌<◌, ◌≤◌, pos, some, List, [], ◌∷◌, ◌++◌, ◌≡◌, refl, sym, ap, subst, ◌∙◌, arith,
  length,
}
use database_system_swe.Log.Page.{Page, new_page}
use database_system_swe.Log.Unbounded.{LogFile, LogMgr, append_new_block, open_log}
use database_system_swe.Log.Records.{Record, Earlier, Contains, OnDisk}
use database_system_swe.Log.Blocks.{moved-OnDisk, move, moved_log, moved_last, moved_size, Moved}

-- A log that is opened: at the block `blk` of its file.
abbrev pub opened : LogFile → Page → ℕ → LogMgr
opened file p blk = record {
  file = file;
  logpage = p;
  currentblk = blk;
  latest_lsn = pos 0;
  last_saved_lsn = pos 0;
}

open_log_old :
    (file : LogFile) (blk : ℕ)
    → file.block_count ≡ suc blk
    → open_log file ≡ some (opened file (file.block blk) blk)
unfolding open_log
open_log_old file blk e = ground (arith, e)

open_log_new :
    (file : LogFile)
    → file.block_count ≡ 0
    → open_log file ≡ append_new_block (opened file (new_page file.block_size) 0)
unfolding open_log
open_log_new file e = ground (arith, e)

-- A log that is opened has the records of its file.
pub open_log-OnDisk :
    (file : LogFile) (all : List Record)
    → OnDisk file all
    → (m : LogMgr) × (open_log file ≡ some m) × Contains m all × (m.file ≡ file)
open_log-OnDisk file all d = (
  opened file (file.block d.blk) d.blk,
  open_log_old file d.blk d.last,
  record {
    recs = d.recs;
    blocks = d.blocks;
    log = record { small = d.small; last = d.last; page = d.page; earlier = d.earlier };
    order = d.order;
  },
  refl,
)

-- A new log.
pub record Opened (file : LogFile) : Type 0 where
  pub log : LogMgr
  pub opens : open_log file ≡ some log
  pub contains : Contains log []
  pub same_size : log.file.block_size ≡ file.block_size
  pub one_block : log.file.block_count ≡ 1
  pub disk : OnDisk log.file []
  pub numbers : (log.latest_lsn ≡ pos 0) × (log.last_saved_lsn ≡ pos 0)

pub open_log_empty :
    (file : LogFile)
    → file.block_count ≡ 0
    → 4 ≤ file.block_size
    → file.block_size < 2 ^ 31
    → Opened file
open_log_empty file e le small =
    let m : LogMgr = opened file (new_page file.block_size) 0 in
    let mv : Moved m [] =
      move m [] small le refl (subst (λ (k : ℕ). Earlier file k []) (sym e) tt) in
    record {
      log = moved_log m mv.page;
      opens = open_log_new file e ∙ mv.moves;
      contains = record { recs = []; blocks = []; log = mv.log; order = refl };
      same_size = moved_size m mv.page;
      one_block = moved_last m mv.page ∙ ap suc e;
      disk = moved-OnDisk m mv.page [] mv.log;
      numbers = (refl, refl);
    }

-- Every record leaves room in a block for its length and for the boundary.
abbrev pub AllFit : ℕ → List Record → Type 0
AllFit size [] = Unit {0}
AllFit size (r ∷ recs) = (length r + 8 ≤ size) × AllFit size recs

pub regroup :
    (recs : List Record) (r : Record) (all : List Record)
    → reverse recs ++ r ∷ all ≡ reverse (r ∷ recs) ++ all
regroup recs r all =
    sym (append_assoc (reverse recs) (r ∷ []) all)
    ∙ ap (λ (l : List Record). l ++ all) (sym (reverse-cons r recs))

length_one : (l : List Record) (r : Record) → length (l ++ r ∷ []) ≡ suc (length l)
length_one [] r = refl
length_one (x ∷ l) r = ap suc (length_one l r)

pub length-reverse : (recs : List Record) → length (reverse recs) ≡ length recs
length-reverse [] = refl
length-reverse (r ∷ recs) =
    ap (λ (l : List Record). length l) (reverse-cons r recs)
    ∙ length_one (reverse recs) r
    ∙ ap suc (length-reverse recs)
