-- ===== src/Recovery/LogRecord.antt =====
-- The records of src/main/java/simpledb/tx/recovery: LogRecord.java and the classes that implement
-- it. A value is at a place, a block and an offset in it; the values of the records of a file do
-- not overlap.
use database_system_swe.Base.{
  ℕ, ℤ, pos, negsuc, String, Bool, true, false, ◌&&◌, ◌≡◌, ◌↔◌, arith, ◌==◌, int_beq_iff, int_eq,
  if◌then◌else◌,
}
use database_system_swe.Tx.Block.{BlockId, equals, equals_iff, block_eq}

pub record Place : Type 0 where
  pub blk : BlockId
  pub offset : ℤ

abbrev pub same_place : Place → Place → Bool
same_place p q = equals p.blk q.blk && p.offset == q.offset

pub same_place_iff : (p q : Place) → (same_place p q ≡ true) ↔ (p ≡ q)
same_place_iff p q = ground (arith, equals_iff p.blk q.blk, int_beq_iff p.offset q.offset)

pub data Value : Type 0 where
  int_value : ℤ → Value
  string_value : String → Value

-- The contents of the database.
abbrev pub Database : Type 0
Database = Place → Value

-- `setInt` and `setString` of Transaction.java, without a record of the change.
abbrev pub set_value : Place → Value → Database → Database
set_value p v db = λ q. if same_place p q then v else db q

-- The records, each with its transaction, those of changes with the place and the old value.
pub data LogRecord : Type 0 where
  checkpoint : LogRecord
  start : ℕ → LogRecord
  commit : ℕ → LogRecord
  rollback : ℕ → LogRecord
  set_int : ℕ → Place → ℤ → LogRecord
  set_string : ℕ → Place → String → LogRecord

abbrev pub tx_number : LogRecord → ℤ
tx_number checkpoint = negsuc 0
tx_number (start t) = pos t
tx_number (commit t) = pos t
tx_number (rollback t) = pos t
tx_number (set_int t p old) = pos t
tx_number (set_string t p old) = pos t

abbrev pub undo : LogRecord → Database → Database
undo checkpoint db = db
undo (start t) db = db
undo (commit t) db = db
undo (rollback t) db = db
undo (set_int t p old) db = set_value p (int_value old) db
undo (set_string t p old) db = set_value p (string_value old) db

-- `rec.op() == START` and its like.
abbrev pub is_start : LogRecord → Bool
is_start checkpoint = false
is_start (start t) = true
is_start (commit t) = false
is_start (rollback t) = false
is_start (set_int t p old) = false
is_start (set_string t p old) = false

abbrev pub is_checkpoint : LogRecord → Bool
is_checkpoint checkpoint = true
is_checkpoint (start t) = false
is_checkpoint (commit t) = false
is_checkpoint (rollback t) = false
is_checkpoint (set_int t p old) = false
is_checkpoint (set_string t p old) = false

abbrev pub is_end : LogRecord → Bool
is_end checkpoint = false
is_end (start t) = false
is_end (commit t) = true
is_end (rollback t) = true
is_end (set_int t p old) = false
is_end (set_string t p old) = false
