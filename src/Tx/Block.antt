-- ===== src/Tx/Block.antt =====
-- src/main/java/simpledb/file/BlockId.java: a block is a file name and a number. The number is
-- signed: the block -1 of a file stands for its end.
use database_system_swe.Base.{
  String, ℤ, Bool, ◌&&◌, ◌≡◌, ◌↔◌, arith, Key, ◌==◌, int_beq_iff, string_eq, int_eq, true,
}

pub record BlockId : Type 0 where
  pub filename : String
  pub blknum : ℤ

-- `equals`
abbrev pub equals : BlockId → BlockId → Bool
equals a b = a.filename == b.filename && a.blknum == b.blknum

pub equals_iff : (a b : BlockId) → (equals a b ≡ true) ↔ (a ≡ b)
equals_iff a b =
    ground (arith, string_eq.same_iff a.filename b.filename, int_beq_iff a.blknum b.blknum)

instance abbrev pub block_eq : Key BlockId
block_eq = record { same = equals; same_iff = equals_iff }
