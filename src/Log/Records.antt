-- ===== src/Log/Records.antt =====
-- Which records a log of src/main/java/simpledb/log/LogMgr.java holds.
use database_system_swe.Base.{
  ℕ, zero, suc, ◌+◌, ◌^◌, ◌<◌, ◌≤◌, pos, some, List, [], ◌∷◌, ◌++◌, ◌≡◌, sym, subst, ◌∙◌, arith,
  length,
}
use database_system_swe.Log.Page.{Page, get_int, get_bytes}
use database_system_swe.Log.Page.Access.{SameFrom, get_bytes-same}
use database_system_swe.Log.Unbounded.{LogFile, LogMgr}

abbrev pub Record : Type 0
Record = List ℕ

-- From a position on, a page has these records and nothing else.
abbrev pub Holds : Page → ℕ → List Record → Type 0
Holds p i [] = i ≡ p.size
Holds p i (r ∷ recs) = (i < p.size) × (get_bytes i p ≡ some r) × Holds p (i + (4 + length r)) recs

-- A block has these records from its boundary on.
pub record IsBlock (size : ℕ) (p : Page) (recs : List Record) : Type 0 where
  pub boundary : ℕ
  pub page_size : p.size ≡ size
  pub reads_boundary : get_int 0 p ≡ some (pos boundary)
  pub above : 4 ≤ boundary
  pub holds : Holds p boundary recs

abbrev pub HasRecord : List Record → Type 0
HasRecord [] = ⊥
HasRecord (r ∷ recs) = Unit {0}

-- The blocks below a number, the last one first, each with a record.
abbrev pub Earlier : LogFile → ℕ → List (List Record) → Type 0
Earlier file zero [] = Unit {0}
Earlier file zero (recs ∷ blocks) = ⊥
Earlier file (suc blk) [] = ⊥
Earlier file (suc blk) (recs ∷ blocks) =
    IsBlock file.block_size (file.block blk) recs × HasRecord recs × Earlier file blk blocks

abbrev pub concat : List (List Record) → List Record
concat [] = []
concat (recs ∷ blocks) = recs ++ concat blocks

-- The log has the records `recs` in its page and those of `blocks` before, the last ones first.
pub record IsLog (m : LogMgr) (recs : List Record) (blocks : List (List Record)) : Type 0 where
  pub small : m.file.block_size < 2 ^ 31
  pub last : m.file.block_count ≡ suc m.currentblk
  pub page : IsBlock m.file.block_size m.logpage recs
  pub earlier : Earlier m.file m.currentblk blocks

-- All records of a log, the last one first.
pub record Contains (m : LogMgr) (all : List Record) : Type 0 where
  pub recs : List Record
  pub blocks : List (List Record)
  pub log : IsLog m recs blocks
  pub order : all ≡ recs ++ concat blocks

-- A file that has these records, the last one first.
pub record OnDisk (file : LogFile) (all : List Record) : Type 0 where
  pub recs : List Record
  pub blocks : List (List Record)
  pub blk : ℕ
  pub small : file.block_size < 2 ^ 31
  pub last : file.block_count ≡ suc blk
  pub page : IsBlock file.block_size (file.block blk) recs
  pub earlier : Earlier file blk blocks
  pub order : all ≡ recs ++ concat blocks

pub Holds-same :
    (start : ℕ) (p p' : Page) (i : ℕ) (recs : List Record)
    → SameFrom start p p'
    → start ≤ i
    → Holds p i recs
    → Holds p' i recs
Holds-same start p p' i [] s h e = e ∙ sym s.size
Holds-same start p p' i (r ∷ recs) s h (lt, g, rest) = (
  omega (arith, s.size),
  get_bytes-same start i p p' s h ∙ g,
  Holds-same start p p' (i + (4 + length r)) recs s (omega arith) rest,
)

-- The blocks before are those of a file that has the same ones.
pub Earlier-same :
    (file file' : LogFile) (n blk : ℕ) (blocks : List (List Record))
    → file'.block_size ≡ file.block_size
    → ((i : ℕ) → i < n → file'.block i ≡ file.block i)
    → blk ≤ n
    → Earlier file blk blocks
    → Earlier file' blk blocks
Earlier-same file file' n zero [] e s le t = t
Earlier-same file file' n zero (recs ∷ blocks) e s le t = t
Earlier-same file file' n (suc blk) [] e s le t = t
Earlier-same file file' n (suc blk) (recs ∷ blocks) e s le (b, h, t) = (
  subst (λ (k : ℕ). IsBlock k (file'.block blk) recs) (sym e)
      (subst (λ p. IsBlock file.block_size p recs) (sym (s blk (omega arith))) b),
  h,
  Earlier-same file file' n blk blocks e s (omega arith) t,
)
