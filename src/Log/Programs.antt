-- ===== src/Log/Programs.antt =====
-- Programs that use a log of src/main/java/simpledb/log, on a file whose positions stay below 2^31.
use mathlib.Core.List.{reverse, append-nil}
use database_system_swe.Base.{
  ℕ, suc, ◌+◌, ◌-◌, ◌*◌, ◌^◌, ◌<◌, ◌≤◌, Option, some, List, [], ◌∷◌, ◌++◌, ◌≡◌, refl, sym, ap,
  subst, ◌∙◌, arith, length, nat_beq, Bool-cases, inl, inr,
}
use database_system_swe.Log.Page.{new_page, ◌>>=◌}
use database_system_swe.Log.LogMgr
use database_system_swe.Log.LogMgr.{LogFile}
use database_system_swe.Log.LogIterator
use database_system_swe.Log.Unbounded
use database_system_swe.Log.Unbounded.{LogMgr}
use database_system_swe.Log.Records.{Record, Contains}
use database_system_swe.Log.Append.{Appended, append-Contains}
use database_system_swe.Log.Bounded.{
  times_le, IsNear, read_block_lem, append_new_block_lem, append_lem,
}
use database_system_swe.Log.Reading.{iterator_lem, read_all_lem}
use database_system_swe.Log.Iterate.{iterator-Contains}
use database_system_swe.Log.RoundTrip.{
  opened, AllFit, Opened, open_log_empty, regroup, length-reverse,
}

-- A file of so many blocks has its positions below 2^31.
abbrev pub HasRoom : ℕ → LogFile → Type 0
HasRoom count file = (file.block_count ≤ count) × (count * file.block_size < 2 ^ 31)

pub HasRoom-IsNear : (count n : ℕ) (file : LogFile) → HasRoom count file → n ≤ count → IsNear n file
HasRoom-IsNear count n file room le = omega (arith, room.1, times_le n count file.block_size le)

-- Appends the records in their order.
unfoldable pub append_all : List Record → LogMgr → Option LogMgr
append_all [] m = some m
append_all (r ∷ recs) m = LogMgr.append r m >>= λ done. append_all recs done.1

-- A record that is appended in a file that has room for a block more.
pub append_one :
    (m : LogMgr) (r : Record) (all : List Record) (c : Contains m all)
    → HasRoom (suc m.file.block_count) m.file
    → (one : Appended m r all) → LogMgr.append r m ≡ some (LogMgr.next_lsn m.latest_lsn, one.after)
append_one m r all c room one =
    append_lem r m
      (HasRoom-IsNear (suc m.file.block_count) m.currentblk m.file room (omega (arith, c.log.last)))
      (HasRoom-IsNear (suc m.file.block_count) m.file.block_count m.file room (omega arith))
    ∙ one.appends

-- There is room for these blocks more.
abbrev pub HasMore : ℕ → LogFile → Type 0
HasMore n file = (file.block_count + n) * file.block_size < 2 ^ 31

pub HasMore-one :
    (n : ℕ) (file : LogFile) → HasMore (suc n) file → HasRoom (suc file.block_count) file
HasMore-one n file more = (
  omega arith,
  omega (
    arith,
    more,
    times_le (suc file.block_count) (file.block_count + suc n) file.block_size (omega arith),
  ),
)

pub HasMore-rest :
    (n : ℕ) (file file' : LogFile)
    → HasMore (suc n) file
    → file'.block_size ≡ file.block_size
    → file'.block_count ≤ suc file.block_count
    → HasMore n file'
HasMore-rest n file file' more size grows =
    subst (λ (k : ℕ). (file'.block_count + n) * k < 2 ^ 31) (sym size)
      (omega (
        arith,
        more,
        times_le (file'.block_count + n) (file.block_count + suc n) file.block_size (omega arith),
      ))

append_all-Contains :
    (recs : List Record) (m : LogMgr) (all : List Record)
    → Contains m all
    → AllFit m.file.block_size recs
    → HasMore (length recs) m.file
    → (m' : LogMgr) × (append_all recs m ≡ some m')
      × Contains m' (reverse recs ++ all)
      × HasMore 0 m'.file
unfolding append_all
append_all-Contains [] m all c fit more = (m, refl, c, more)
append_all-Contains (r ∷ recs) m all c (fit, fits) more =
    let one : Appended m r all = append-Contains m r all c fit in
    let (m', e, c', more') =
      append_all-Contains recs one.after (r ∷ all) one.contains
        (subst (λ (k : ℕ). AllFit k recs) (sym one.same_size) fits)
        (HasMore-rest (length recs) m.file one.after.file more one.same_size one.grows) in
    (
      m',
      ap (λ o. o >>= λ done. append_all recs done.1)
            (append_one m r all c (HasMore-one (length recs) m.file more) one)
          ∙ e,
      subst (Contains m') (regroup recs r all) c',
      more',
    )

pub open_log_lem :
    (file : LogFile) → IsNear file.block_count file → LogMgr.open_log file ≡ Unbounded.open_log file
unfolding LogMgr.open_log Unbounded.open_log
open_log_lem file near = elim (Bool-cases (nat_beq file.block_count 0)) [
  | inl fresh ↦ rw fresh (append_new_block_lem (opened file (new_page file.block_size) 0) near)
  | inr old ↦
      let before : IsNear (file.block_count - 1) file = omega (
        arith,
        near,
        times_le (file.block_count - 1) file.block_count file.block_size (omega arith),
      ) in
      rw (old, read_block_lem (file.block_count - 1) file before) refl
]

-- Where a log has its records in a file without positions from 2^31 on, a loop over its iterator reads
-- them.
pub read_log :
    (fuel : ℕ) (m : LogMgr) (all : List Record)
    → Contains m all
    → HasMore 0 m.file
    → length all < fuel
    → (LogIterator.iterator m >>= LogIterator.read_all fuel) ≡ some all
read_log fuel m all c more lt =
    let near : IsNear m.currentblk m.file = omega (
      arith,
      more,
      times_le m.currentblk (m.file.block_count + 0) m.file.block_size (omega (arith, c.log.last)),
    ) in
    let (it, i, size, blk, reads) = iterator-Contains m all fuel c lt in
    let near_it : IsNear it.blk it.file =
      subst (λ (k : ℕ). k * it.file.block_size < 2 ^ 31) (sym blk)
        (subst (λ (k : ℕ). m.currentblk * k < 2 ^ 31) (sym size) near) in
    ap (λ o. o >>= LogIterator.read_all fuel) (iterator_lem m near ∙ i)
    ∙ read_all_lem fuel it near_it
    ∙ reads

-- Opening an empty file that has room for so many blocks behind the first one.
pub open_log_room :
    (file : LogFile) (n : ℕ) (o : Opened file)
    → file.block_count ≡ 0
    → suc n * file.block_size < 2 ^ 31
    → (LogMgr.open_log file ≡ some o.log) × HasMore n o.log.file
open_log_room file n o e room = (
  open_log_lem file
        (omega (arith, room, times_le file.block_count (suc n) file.block_size (omega arith)))
      ∙ o.opens,
  subst (λ (k : ℕ). (o.log.file.block_count + n) * k < 2 ^ 31) (sym o.same_size)
      (omega (
        arith,
        room,
        times_le (o.log.file.block_count + n) (suc n) file.block_size (omega (arith, o.one_block)),
      )),
)

-- If a log file is empty, its blocks have at least 4 bytes, and one block more than there are records
-- is less than 2^31 bytes, then opening the log, appending records that each leave room in a block,
-- and iterating gives the records from the last to the first, with no exception.
pub log_round_trip :
    (file : LogFile) (recs : List Record)
    → file.block_count ≡ 0
    → 4 ≤ file.block_size
    → suc (length recs) * file.block_size < 2 ^ 31
    → AllFit file.block_size recs
    → (LogMgr.open_log file >>= λ m. append_all recs m >>= λ m'.
        LogIterator.iterator m' >>= LogIterator.read_all (suc (length recs)))
      ≡ some (reverse recs)
log_round_trip file recs e le room fit =
    let small : file.block_size < 2 ^ 31 =
      omega (arith, room, times_le 1 (suc (length recs)) file.block_size (omega arith)) in
    let o : Opened file = open_log_empty file e le small in
    let (opens, more) = open_log_room file (length recs) o e room in
    let (m', done, c, more') =
      append_all-Contains recs o.log [] o.contains
        (subst (λ (k : ℕ). AllFit k recs) (sym o.same_size) fit) more in
    let c' : Contains m' (reverse recs) = subst (Contains m') (append-nil (reverse recs)) c in
    ap
      (λ x. x >>= λ m. append_all recs m >>= λ m1.
        LogIterator.iterator m1 >>= LogIterator.read_all (suc (length recs)))
      opens
    ∙ ap (λ x. x >>= λ m1. LogIterator.iterator m1 >>= LogIterator.read_all (suc (length recs)))
        done
    ∙ read_log (suc (length recs)) m' (reverse recs) c' more' (omega (arith, length-reverse recs))
