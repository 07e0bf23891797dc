-- ===== src/Log/Durable.antt =====
-- Which records src/main/java/simpledb/log/LogMgr.java has written to the file when it returns from
-- `flush(lsn)`.
use mathlib.Core.List.{reverse, append-nil}
use database_system_swe.Base.{
  ℕ, zero, suc, ◌+◌, ◌*◌, ◌^◌, ◌<◌, ◌≤◌, pos, Option, some, List, [], ◌∷◌, ◌++◌, ◌≡◌, refl, sym, ap,
  subst, ◌∙◌, arith, length,
}
use database_system_swe.Log.Page.{◌>>=◌}
use database_system_swe.Log.LogMgr
use database_system_swe.Log.LogMgr.{LogFile}
use database_system_swe.Log.LogIterator
use database_system_swe.Log.Unbounded
use database_system_swe.Log.Unbounded.{LogMgr}
use database_system_swe.Log.Records.{Record, Contains, OnDisk}
use database_system_swe.Log.Bounded.{times_le, IsNear, flush_to_lem}
use database_system_swe.Log.RoundTrip.{
  AllFit, Opened, open_log_empty, open_log-OnDisk, regroup, length-reverse,
}
use database_system_swe.Log.Saved.{
  LogCall, appends, flushes, records_of, IsSaved, append-IsSaved, flush_to-IsSaved, flush_to_size,
  flush_to_count, flush_to-OnDisk,
}
use database_system_swe.Log.Programs.{
  HasMore, HasMore-one, HasMore-rest, append_one, open_log_lem, open_log_room, read_log,
}

-- The calls, one after the other.
unfoldable pub run_calls : List LogCall → LogMgr → Option LogMgr
run_calls [] m = some m
run_calls (appends r ∷ calls) m = LogMgr.append r m >>= λ done. run_calls calls done.1
run_calls (flushes lsn ∷ calls) m = LogMgr.flush_to lsn m >>= λ m'. run_calls calls m'

-- What a program that starts again reads from a log file.
unfoldable pub recover_log : ℕ → LogFile → Option (List Record)
recover_log fuel file =
    LogMgr.open_log file >>= λ m. LogIterator.iterator m >>= LogIterator.read_all fuel

open_log-IsSaved : (file : LogFile) (o : Opened file) → IsSaved o.log []
open_log-IsSaved file o = record {
  contains = o.contains;
  missing = [];
  kept = [];
  split = refl;
  disk = o.disk;
  saved = o.numbers.1;
  latest = o.numbers.0;
}

-- The block of a log is near, if its file is.
current_IsNear :
    (m : LogMgr) (all : List Record) (n : ℕ)
    → Contains m all
    → HasMore n m.file
    → IsNear m.currentblk m.file
current_IsNear m all n c more = omega (
  arith,
  more,
  times_le m.currentblk (m.file.block_count + n) m.file.block_size (omega (arith, c.log.last)),
)

HasMore-flush_to :
    (n : ℕ) (m m' : LogMgr)
    → m'.file.block_size ≡ m.file.block_size
    → m'.file.block_count ≡ m.file.block_count
    → HasMore n m.file
    → HasMore n m'.file
HasMore-flush_to n m m' size count more =
    subst (λ (k : ℕ). (m'.file.block_count + n) * k < 2 ^ 31) (sym size)
      (subst (λ (k : ℕ). (k + n) * m.file.block_size < 2 ^ 31) (sym count) more)

run_calls-IsSaved :
    (calls : List LogCall) (m : LogMgr) (all : List Record)
    → IsSaved m all
    → AllFit m.file.block_size (records_of calls)
    → length (records_of calls) + length all < 2 ^ 31
    → HasMore (length (records_of calls)) m.file
    → (m' : LogMgr) × (run_calls calls m ≡ some m')
      × IsSaved m' (reverse (records_of calls) ++ all)
      × HasMore 0 m'.file
unfolding run_calls
run_calls-IsSaved [] m all s fit lt more = (m, refl, s, more)
run_calls-IsSaved (appends r ∷ calls) m all s (fit, fits) lt more =
    let (one, s1) = append-IsSaved m r all s fit (omega arith) in
    let (m', e, s', more') =
      run_calls-IsSaved calls one.after (r ∷ all) s1
        (subst (λ (k : ℕ). AllFit k (records_of calls)) (sym one.same_size) fits) (omega arith)
        (HasMore-rest (length (records_of calls)) m.file one.after.file more one.same_size
          one.grows) in
    (
      m',
      ap (λ o. o >>= λ done. run_calls calls done.1)
            (append_one m r all s.contains (HasMore-one (length (records_of calls)) m.file more)
              one)
          ∙ e,
      subst (IsSaved m') (regroup (records_of calls) r all) s',
      more',
    )
run_calls-IsSaved (flushes lsn ∷ calls) m all s fit lt more =
    let m1 : LogMgr = Unbounded.flush_to lsn m in
    let (m', e, s', more') =
      run_calls-IsSaved calls m1 all (flush_to-IsSaved lsn m all s)
        (subst (λ (k : ℕ). AllFit k (records_of calls)) (sym (flush_to_size lsn m)) fit) lt
        (HasMore-flush_to (length (records_of calls)) m m1 (flush_to_size lsn m)
          (flush_to_count lsn m) more) in
    (
      m',
      ap (λ o. o >>= λ m2. run_calls calls m2)
            (flush_to_lem lsn m (current_IsNear m all (length (records_of calls)) s.contains more))
          ∙ e,
      s',
      more',
    )

recover_log-OnDisk :
    (file : LogFile) (all : List Record)
    → OnDisk file all
    → HasMore 0 file
    → recover_log (suc (length all)) file ≡ some all
unfolding recover_log
recover_log-OnDisk file all d more =
    let (m, o, c, same) = open_log-OnDisk file all d in
    let near : IsNear file.block_count file = omega (
      arith,
      more,
      times_le file.block_count (file.block_count + 0) file.block_size (omega arith),
    ) in
    ap (λ x. x >>= λ m1. LogIterator.iterator m1 >>= LogIterator.read_all (suc (length all)))
      (open_log_lem file near ∙ o)
    ∙ read_log (suc (length all)) m all c (subst (HasMore 0) (sym same) more) (omega arith)

-- If a log file is empty with blocks of at least 4 bytes, and a program opens the log, makes any calls
-- that append records which each leave room in a block, and which need less than 2^31 bytes if each
-- takes a block behind the first, or flush up to any number, and then flushes up to the l-th of those
-- records, then none of this is an exception, and opening the file again and iterating gives the
-- records from the last to the first; only some of the last ones may be missing, and the first l are
-- there.
pub recover_log-flush_to :
    (file : LogFile) (calls : List LogCall) (l : ℕ)
    → file.block_count ≡ 0
    → 4 ≤ file.block_size
    → suc (length (records_of calls)) * file.block_size < 2 ^ 31
    → AllFit file.block_size (records_of calls)
    → l ≤ length (records_of calls)
    → (missing : List Record) × (kept : List Record) × (reverse (records_of calls)
        ≡ missing ++ kept)
      × (l ≤ length kept)
      × ((LogMgr.open_log file >>= λ m. run_calls calls m >>= λ m'.
            LogMgr.flush_to (pos l) m' >>= λ m''. recover_log (suc (length kept)) m''.file)
          ≡ some kept)
recover_log-flush_to file calls l e le room fit le_l =
    let n : ℕ = length (records_of calls) in
    let small : file.block_size < 2 ^ 31 =
      omega (arith, room, times_le 1 (suc n) file.block_size (omega arith)) in
    let few : n < 2 ^ 31 = fewer n file.block_size room le in
    let o : Opened file = open_log_empty file e le small in
    let (opens, more) = open_log_room file n o e room in
    let (m', ran, s, more') =
      run_calls-IsSaved calls o.log [] (open_log-IsSaved file o)
        (subst (λ (k : ℕ). AllFit k (records_of calls)) (sym o.same_size) fit) (omega arith) more in
    let s' : IsSaved m' (reverse (records_of calls)) =
      subst (IsSaved m') (append-nil (reverse (records_of calls))) s in
    let (missing, kept, split, enough, d) =
      flush_to-OnDisk l m' (reverse (records_of calls)) s'
        (omega (arith, length-reverse (records_of calls))) in
    let m1 : LogMgr = Unbounded.flush_to (pos l) m' in
    let after : LogMgr → Option (List Record) = λ m2. recover_log (suc (length kept)) m2.file in
    (
      missing,
      kept,
      split,
      enough,
      ap (λ x. x >>= λ m. run_calls calls m >>= λ m2. LogMgr.flush_to (pos l) m2 >>= after) opens
          ∙ ap (λ x. x >>= λ m2. LogMgr.flush_to (pos l) m2 >>= after) ran
          ∙ ap (λ x. x >>= after)
              (flush_to_lem (pos l) m'
                (current_IsNear m' (reverse (records_of calls)) 0 s'.contains more'))
          ∙ recover_log-OnDisk m1.file kept d (
              HasMore-flush_to 0 m' m1 (flush_to_size (pos l) m') (flush_to_count (pos l) m')
                more'),
    )
  where
    fewer : (n size : ℕ) → suc n * size < 2 ^ 31 → 4 ≤ size → n < 2 ^ 31
    fewer n size room le = omega (arith, room, at_least n size le)
      where
        at_least : (n size : ℕ) → 4 ≤ size → n ≤ suc n * size
        at_least zero size le = omega arith
        at_least (suc n) size le = omega (arith, at_least n size le)
