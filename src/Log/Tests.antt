-- ===== src/Log/Tests.antt =====
-- Runs of src/main/java/simpledb/log on a file with blocks of 16 bytes.
use database_system_swe.Base.{
  ◌-ℤ◌, List, [], ◌∷◌, some, suc, pos, ◌++◌, ◌≤◌, length, ◌≡◌, refl, arith,
}
use database_system_swe.Log.Page.{
  new_page, ◌>>=◌, set_bytes, get_bytes, put, get_int, set_int, take_bytes,
}
use database_system_swe.Log.LogMgr.{
  LogFile, open_log, append_new_block, append_block, write_block, append, append_at, append_next,
  next_lsn, flush, flush_to, seek, read_block,
}
use database_system_swe.Log.LogIterator.{iterator, read_all, move_to_block, read_record, next}
use database_system_swe.Log.Records.{Record}
use database_system_swe.Log.Programs.{append_all, log_round_trip}
use database_system_swe.Log.Saved.{LogCall, appends, flushes}
use database_system_swe.Log.Durable.{run_calls, recover_log, recover_log-flush_to}

abbrev small_file : LogFile
small_file = record { block_size = 16; block_count = 0; block = λ i. new_page 0 }

-- The second record does not fit in the block of the first one.
abbrev two_records : List Record
two_records = (1 ∷ 2 ∷ 3 ∷ []) ∷ (255 ∷ 0 ∷ []) ∷ []

runs_round_trip :
    (open_log small_file >>= λ m. append_all two_records m >>= λ m'. iterator m' >>= read_all 3)
    ≡ some ((255 ∷ 0 ∷ []) ∷ (1 ∷ 2 ∷ 3 ∷ []) ∷ [])
unfolding seek read_block open_log append_new_block append_block write_block append_all append
    append_at append_next next_lsn flush iterator read_all move_to_block read_record next set_bytes
    get_bytes put get_int set_int take_bytes ◌-ℤ◌
runs_round_trip = refl

log_round_trip_example :
    (open_log small_file >>= λ m. append_all two_records m >>= λ m'. iterator m' >>= read_all 3)
    ≡ some ((255 ∷ 0 ∷ []) ∷ (1 ∷ 2 ∷ 3 ∷ []) ∷ [])
log_round_trip_example =
    log_round_trip small_file two_records refl (omega arith) (omega arith) (omega arith)

-- The second record moves the log to a new block, so that the first one is saved before `flush_to`.
abbrev three_calls : List LogCall
three_calls = flushes (pos 0) ∷ appends (1 ∷ 2 ∷ 3 ∷ []) ∷ appends (255 ∷ 0 ∷ []) ∷ []

runs_flush_to :
    (open_log small_file >>= λ m.
    run_calls three_calls m >>= λ m'. flush_to (pos 0) m' >>= λ m''. recover_log 2 m''.file)
    ≡ some ((1 ∷ 2 ∷ 3 ∷ []) ∷ [])
unfolding seek read_block open_log append_new_block append_block write_block run_calls append
    append_at append_next next_lsn flush flush_to recover_log iterator read_all move_to_block
    read_record next set_bytes get_bytes put get_int set_int take_bytes ◌-ℤ◌
runs_flush_to = refl

recover_log-flush_to_example :
    (missing : List Record) × (kept : List Record) × ((255 ∷ 0 ∷ []) ∷ (1 ∷ 2 ∷ 3 ∷ []) ∷ []
      ≡ missing ++ kept)
    × (1 ≤ length kept)
    × ((open_log small_file >>= λ m. run_calls three_calls m >>= λ m'.
          flush_to (pos 1) m' >>= λ m''. recover_log (suc (length kept)) m''.file)
        ≡ some kept)
recover_log-flush_to_example =
    recover_log-flush_to small_file three_calls 1 refl (omega arith) (omega arith) (omega arith)
      (omega arith)
