-- ===== src/Log/Saved.antt =====
-- How far the file of src/main/java/simpledb/log/LogMgr.java is behind the log, after any calls.
use database_system_swe.Base.{
  ℕ, suc, ◌+◌, ◌^◌, ◌<◌, ◌≤◌, ℤ, pos, int_ltb, Bool-cases, List, [], ◌∷◌, ◌++◌, ◌⊎◌, inl, inr, true,
  ◌≡◌, refl, sym, ap, subst, ◌∙◌, arith, length,
}
use database_system_swe.Log.Unbounded.{LogMgr, next_lsn, flush, flush_to}
use database_system_swe.Log.Records.{Record, Contains, OnDisk}
use database_system_swe.Log.Blocks.{flush-OnDisk, flush-Contains, flush_size, flush_count}
use database_system_swe.Log.Append.{Appended, append-Contains, flush_keeps, flush_saves}

-- The calls of a log's clients.
pub data LogCall : Type 0 where
  appends : Record → LogCall
  flushes : ℤ → LogCall

-- The records that the calls append, in their order.
abbrev pub records_of : List LogCall → List Record
records_of [] = []
records_of (appends r ∷ calls) = r ∷ records_of calls
records_of (flushes lsn ∷ calls) = records_of calls

-- A log of these records since its file was empty: its file has those up to the last number saved.
pub record IsSaved (m : LogMgr) (all : List Record) : Type 0 where
  pub contains : Contains m all
  pub missing : List Record
  pub kept : List Record
  pub split : all ≡ missing ++ kept
  pub disk : OnDisk m.file kept
  pub saved : m.last_saved_lsn ≡ pos (length kept)
  pub latest : m.latest_lsn ≡ pos (length all)

next_lsn_small : (n : ℕ) → n + 1 < 2 ^ 31 → next_lsn (pos n) ≡ pos (suc n)
unfolding next_lsn
next_lsn_small n lt = ground (arith, lt)

-- A record that is appended is missing in the file, or the only one that is.
pub append-IsSaved :
    (m : LogMgr) (r : Record) (all : List Record)
    → IsSaved m all
    → length r + 8 ≤ m.file.block_size
    → length all + 1 < 2 ^ 31
    → (one : Appended m r all) × IsSaved one.after (r ∷ all)
append-IsSaved m r all s room lt =
    let one : Appended m r all = append-Contains m r all s.contains room in
    let number : one.after.latest_lsn ≡ pos (suc (length all)) =
      one.latest ∙ ap next_lsn s.latest ∙ next_lsn_small (length all) lt in
    (
      one,
      elim one.disk [
        | inl (same, saved) ↦ record {
          contains = one.contains;
          missing = r ∷ s.missing;
          kept = s.kept;
          split = ap (λ (l : List Record). r ∷ l) s.split;
          disk = subst (λ file. OnDisk file s.kept) (sym same) s.disk;
          saved = saved ∙ s.saved;
          latest = number;
        }
        | inr (disk, saved) ↦ record {
          contains = one.contains;
          missing = r ∷ [];
          kept = all;
          split = refl;
          disk = disk;
          saved = saved ∙ s.latest;
          latest = number;
        }
      ],
    )

flush-IsSaved : (m : LogMgr) (all : List Record) → IsSaved m all → IsSaved (flush m) all
flush-IsSaved m all s = record {
  contains = flush-Contains m all s.contains;
  missing = [];
  kept = all;
  split = refl;
  disk = flush-OnDisk m all s.contains;
  saved = flush_saves m ∙ s.latest;
  latest = (flush_keeps m).1 ∙ s.latest;
}

flush_to_cases :
    (lsn : ℤ) (m : LogMgr)
    → ((flush_to lsn m ≡ m) × (int_ltb lsn m.last_saved_lsn ≡ true)) ⊎ (flush_to lsn m ≡ flush m)
unfolding flush_to
flush_to_cases lsn m = elim (Bool-cases (int_ltb lsn m.last_saved_lsn)) [
  | inl below ↦ inl (rw below, below)
  | inr above ↦ inr (rw above)
]

pub flush_to-IsSaved :
    (lsn : ℤ) (m : LogMgr) (all : List Record) → IsSaved m all → IsSaved (flush_to lsn m) all
flush_to-IsSaved lsn m all s = elim (flush_to_cases lsn m) [
  | inl (same, below) ↦ subst (λ m'. IsSaved m' all) (sym same) s
  | inr flushed ↦ subst (λ m'. IsSaved m' all) (sym flushed) (flush-IsSaved m all s)
]

pub flush_to_size : (lsn : ℤ) (m : LogMgr) → (flush_to lsn m).file.block_size ≡ m.file.block_size
flush_to_size lsn m = elim (flush_to_cases lsn m) [
  | inl (same, below) ↦ ap (λ m'. m'.file.block_size) same
  | inr flushed ↦ ap (λ m'. m'.file.block_size) flushed ∙ flush_size m
]

pub flush_to_count : (lsn : ℤ) (m : LogMgr) → (flush_to lsn m).file.block_count ≡ m.file.block_count
flush_to_count lsn m = elim (flush_to_cases lsn m) [
  | inl (same, below) ↦ ap (λ m'. m'.file.block_count) same
  | inr flushed ↦ ap (λ m'. m'.file.block_count) flushed ∙ flush_count m
]

-- After `flush_to` the file has the records up to the number.
pub flush_to-OnDisk :
    (l : ℕ) (m : LogMgr) (all : List Record)
    → IsSaved m all
    → l ≤ length all
    → (missing : List Record) × (kept : List Record) × (all ≡ missing ++ kept)
      × (l ≤ length kept)
      × OnDisk (flush_to (pos l) m).file kept
flush_to-OnDisk l m all s le = elim (flush_to_cases (pos l) m) [
  | inl (same, below) ↦ (
    s.missing,
    s.kept,
    s.split,
    ground (arith, subst (λ k. int_ltb (pos l) k ≡ true) s.saved below),
    subst (λ m'. OnDisk m'.file s.kept) (sym same) s.disk,
  )
  | inr flushed ↦ (
    [],
    all,
    refl,
    le,
    subst (λ m'. OnDisk m'.file all) (sym flushed) (flush-OnDisk m all s.contains),
  )
]
