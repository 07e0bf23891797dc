-- ===== src/Log/Blocks.antt =====
-- `flush` and `appendNewBlock` of src/main/java/simpledb/log/LogMgr.java keep the records.
use database_system_swe.Base.{
  ℕ, suc, ◌^◌, ◌<◌, ◌≤◌, pos, some, List, [], ◌∷◌, ◌≡◌, refl, sym, subst, ◌∙◌, arith,
}
use database_system_swe.Log.Page.{Page, get_int, set_int}
use database_system_swe.Log.Page.Access.{get_int-set_int}
use database_system_swe.Log.Unbounded.{LogMgr, write_block, append_block, flush, append_new_block}
use database_system_swe.Log.Records.{
  Record, IsBlock, HasRecord, Earlier, IsLog, Contains, OnDisk, concat, Earlier-same,
}

-- The log after `append_new_block`.
abbrev pub moved_log : LogMgr → Page → LogMgr
moved_log m p = record m {
  file = write_block m.file.block_count p ((append_block m.file).1);
  logpage = p;
  currentblk = m.file.block_count;
}

append_new_block_lem :
    (m : LogMgr) (p : Page)
    → set_int 0 (pos m.file.block_size) m.logpage ≡ some p
    → append_new_block m ≡ some (moved_log m p)
unfolding append_new_block append_block
append_new_block_lem m p e = rw e

moved-Earlier :
    (m : LogMgr) (p : Page) (blocks : List (List Record))
    → Earlier m.file m.file.block_count blocks
    → Earlier (moved_log m p).file m.file.block_count blocks
unfolding write_block append_block
moved-Earlier m p blocks t =
    Earlier-same m.file (moved_log m p).file m.file.block_count m.file.block_count blocks refl
      (λ i lt. ground (arith, lt)) (omega arith) t

pub moved_last : (m : LogMgr) (p : Page) → (moved_log m p).file.block_count ≡ suc m.file.block_count
unfolding write_block append_block
moved_last m p = refl

pub moved_size : (m : LogMgr) (p : Page) → (moved_log m p).file.block_size ≡ m.file.block_size
unfolding write_block append_block
moved_size m p = refl

-- A new block, after blocks that have records.
pub record Moved (m : LogMgr) (blocks : List (List Record)) : Type 0 where
  pub page : Page
  pub moves : append_new_block m ≡ some (moved_log m page)
  pub log : IsLog (moved_log m page) [] blocks
  pub empty : log.page.boundary ≡ m.file.block_size
  pub bounded : get_int 0 page ≡ some (pos m.file.block_size)

pub move :
    (m : LogMgr) (blocks : List (List Record))
    → m.file.block_size < 2 ^ 31
    → 4 ≤ m.file.block_size
    → m.logpage.size ≡ m.file.block_size
    → Earlier m.file m.file.block_count blocks
    → Moved m blocks
move m blocks small le size t =
    let (p, e, g, s) = get_int-set_int 0 m.file.block_size m.logpage small (omega (arith, size)) in
    record {
      page = p;
      moves = append_new_block_lem m p e;
      log = record {
        small = omega (arith, moved_size m p);
        last = moved_last m p;
        page = record {
          boundary = m.file.block_size;
          page_size = s.size ∙ size ∙ sym (moved_size m p);
          reads_boundary = g;
          above = le;
          holds = sym (s.size ∙ size);
        };
        earlier = moved-Earlier m p blocks t;
      };
      empty = refl;
      bounded = g;
    }

-- What `flush` writes is what the page has.
pub flush_block : (m : LogMgr) → (flush m).file.block m.currentblk ≡ m.logpage
unfolding flush write_block
flush_block m = ground arith

pub flush-Earlier :
    (m : LogMgr) (blocks : List (List Record))
    → Earlier m.file m.currentblk blocks
    → Earlier (flush m).file m.currentblk blocks
unfolding flush write_block
flush-Earlier m blocks t =
    Earlier-same m.file (flush m).file m.currentblk m.currentblk blocks refl
      (λ i lt. ground (arith, lt)) (omega arith) t

pub flush_size : (m : LogMgr) → (flush m).file.block_size ≡ m.file.block_size
unfolding flush write_block
flush_size m = refl

pub flush_count : (m : LogMgr) → (flush m).file.block_count ≡ m.file.block_count
unfolding flush write_block
flush_count m = refl

-- After `flush` the page's records stand in the file too.
pub flushed_block :
    (m : LogMgr) (recs : List Record) (blocks : List (List Record))
    → (l : IsLog m recs blocks)
    → IsBlock (flush m).file.block_size ((flush m).file.block m.currentblk) recs
flushed_block m recs blocks l =
    subst (λ (k : ℕ). IsBlock k ((flush m).file.block m.currentblk) recs) (sym (flush_size m))
      (subst (λ p. IsBlock m.file.block_size p recs) (sym (flush_block m)) l.page)

pub flush_all-Earlier :
    (m : LogMgr) (recs : List Record) (blocks : List (List Record))
    → IsLog m recs blocks
    → HasRecord recs
    → Earlier (flush m).file (suc m.currentblk) (recs ∷ blocks)
flush_all-Earlier m recs blocks l h =
    (flushed_block m recs blocks l, h, flush-Earlier m blocks l.earlier)

-- `flush` keeps the records.
pub flush-Contains : (m : LogMgr) (all : List Record) → Contains m all → Contains (flush m) all
unfolding flush write_block
flush-Contains m all c = record {
  recs = c.recs;
  blocks = c.blocks;
  log = record {
    small = c.log.small;
    last = c.log.last;
    page = c.log.page;
    earlier = flush-Earlier m c.blocks c.log.earlier;
  };
  order = c.order;
}

-- What `flush` leaves on the disk is the log.
pub flush-OnDisk : (m : LogMgr) (all : List Record) → Contains m all → OnDisk (flush m).file all
flush-OnDisk m all c = record {
  recs = c.recs;
  blocks = c.blocks;
  blk = m.currentblk;
  small = omega (arith, c.log.small, flush_size m);
  last = flush_count m ∙ c.log.last;
  page = flushed_block m c.recs c.blocks c.log;
  earlier = flush-Earlier m c.blocks c.log.earlier;
  order = c.order;
}

moved_block : (m : LogMgr) (p : Page) → (moved_log m p).file.block m.file.block_count ≡ p
unfolding write_block append_block
moved_block m p = ground arith

-- What a new block leaves on the disk is the log before it.
pub moved-OnDisk :
    (m : LogMgr) (p : Page) (blocks : List (List Record))
    → IsLog (moved_log m p) [] blocks
    → OnDisk (moved_log m p).file (concat blocks)
moved-OnDisk m p blocks l = record {
  recs = [];
  blocks = blocks;
  blk = m.file.block_count;
  small = l.small;
  last = l.last;
  page = subst (λ q. IsBlock (moved_log m p).file.block_size q []) (sym (moved_block m p)) l.page;
  earlier = l.earlier;
  order = refl;
}
