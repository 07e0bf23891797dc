-- ===== src/Tx/Counts.antt =====
-- How often a lock stands among the entries of a block, and what the operations of
-- src/main/java/simpledb/tx/concurrency/LockTable.java do to that number.
use database_system_swe.Base.{
  ℕ, suc, ◌+◌, ◌-◌, ◌≤◌, ◌<◌, ℤ, pos, negsuc, neg, nat_abs, true, none, some, List, [], ◌∷◌, ◌++◌,
  ◌==◌, ◌≡◌, refl, ◌≢◌, arith, int_eq, int_beq_iff, if◌then◌else◌, Bool-cases, inl, inr,
}
use database_system_swe.Base.Assoc.{lookup, lookup-insert, lookup-remove}
use database_system_swe.Tx.Block.{BlockId, block_eq, equals, equals_iff}
use database_system_swe.Tx.LockTable.{
  LockTable, go, wait, die, check_s_entries, check_x_entries, check_for_s_lock, check_for_x_lock,
  add_s_entry, add_x_entry, remove_first, is_empty, drop_entries, unlock,
}

unfoldable pub count : ℤ → List ℤ → ℕ
count x [] = 0
count x (y ∷ ys) = let rest = count x ys in if y == x then suc rest else rest

-- The entries of a block: none where the table has no row.
unfoldable pub entries : LockTable → BlockId → List ℤ
entries locks blk = elim (lookup blk locks) [ none ↦ [] | some txs ↦ txs ]

pub count-append_one :
    (x y : ℤ) (txs : List ℤ) → count x (txs ++ y ∷ []) ≡ count x txs + (if y == x then 1 else 0)
unfolding count
count-append_one x y [] = ground arith
count-append_one x y (z ∷ txs) = ground (arith, count-append_one x y txs)

pub count-remove_first :
    (x y : ℤ) (txs : List ℤ)
    → count x (remove_first y txs) ≡ (if y == x then count x txs - 1 else count x txs)
unfolding count remove_first
count-remove_first x y [] = ground arith
count-remove_first x y (z ∷ txs) =
    ground (arith, int_beq_iff y x, int_beq_iff z x, int_beq_iff z y, count-remove_first x y txs)

pub count-check_s_go :
    (txs : List ℤ) (t n : ℕ) → check_s_entries txs t ≡ go → count (negsuc n) txs ≡ 0
unfolding count check_s_entries
count-check_s_go [] t n h = refl
count-check_s_go (pos k ∷ txs) t n h = ground (arith, count-check_s_go txs t n)
count-check_s_go (negsuc k ∷ txs) t n h = ground arith

pub count-check_x_go :
    (txs : List ℤ) (t : ℕ) (x : ℤ) → check_x_entries txs t ≡ go → x ≢ pos t → count x txs ≡ 0
unfolding count check_x_entries
count-check_x_go [] t x h d = refl
count-check_x_go (y ∷ txs) t x h d =
    ground (arith, int_beq_iff y x, int_beq_iff y (pos t), count-check_x_go txs t x)

pub check_s_wait :
    (txs : List ℤ) (t : ℕ)
    → check_s_entries txs t ≡ wait
    → (n : ℕ) × (0 < count (negsuc n) txs) × (t ≤ suc n)
unfolding count check_s_entries
check_s_wait [] t h = cc
check_s_wait (pos k ∷ txs) t h =
    let (n, c, le) = check_s_wait txs t (ground arith) in (n, ground arith, le)
check_s_wait (negsuc k ∷ txs) t h = (k, ground arith, ground arith)

pub check_s_die :
    (txs : List ℤ) (t : ℕ)
    → check_s_entries txs t ≡ die
    → (n : ℕ) × (0 < count (negsuc n) txs) × (suc n < t)
unfolding count check_s_entries
check_s_die [] t h = cc
check_s_die (pos k ∷ txs) t h =
    let (n, c, le) = check_s_die txs t (ground arith) in (n, ground arith, le)
check_s_die (negsuc k ∷ txs) t h = (k, ground arith, ground arith)

pub check_x_wait :
    (txs : List ℤ) (t : ℕ)
    → check_x_entries txs t ≡ wait
    → (x : ℤ) × (0 < count x txs) × (x ≢ pos t) × (t ≤ nat_abs x)
unfolding count check_x_entries
check_x_wait [] t h = cc
check_x_wait (y ∷ txs) t h = elim (Bool-cases (y == pos t)) [
  | inl own ↦ let (x, c, d, le) = check_x_wait txs t (ground arith) in (x, ground arith, d, le)
  | inr other ↦
      (y, ground (arith, int_beq_iff y y), ground (arith, int_beq_iff y (pos t)), ground arith)
]

pub check_x_die :
    (txs : List ℤ) (t : ℕ)
    → check_x_entries txs t ≡ die
    → (x : ℤ) × (0 < count x txs) × (x ≢ pos t) × (nat_abs x < t)
unfolding count check_x_entries
check_x_die [] t h = cc
check_x_die (y ∷ txs) t h = elim (Bool-cases (y == pos t)) [
  | inl own ↦ let (x, c, d, le) = check_x_die txs t (ground arith) in (x, ground arith, d, le)
  | inr other ↦
      (y, ground (arith, int_beq_iff y y), ground (arith, int_beq_iff y (pos t)), ground arith)
]

-- The checks read a block's entries.
pub check_for_s_lock_lem :
    (locks : LockTable) (blk : BlockId) (t : ℕ)
    → check_for_s_lock locks blk t ≡ check_s_entries (entries locks blk) t
unfolding check_for_s_lock check_s_entries entries
check_for_s_lock_lem locks blk t = ground arith

pub check_for_x_lock_lem :
    (locks : LockTable) (blk : BlockId) (t : ℕ)
    → check_for_x_lock locks blk t ≡ check_x_entries (entries locks blk) t
unfolding check_for_x_lock check_x_entries entries
check_for_x_lock_lem locks blk t = ground arith

pub entries-add_s :
    (locks : LockTable) (blk b : BlockId) (t : ℕ)
    → entries (add_s_entry locks blk t) b
      ≡ (if equals blk b then entries locks blk ++ pos t ∷ [] else entries locks b)
unfolding entries add_s_entry
entries-add_s locks blk b t = ground (
  arith,
  lookup-insert blk b (pos t ∷ []) locks,
  lookup-insert blk b (entries locks blk ++ pos t ∷ []) locks,
)

pub entries-add_x :
    (locks : LockTable) (blk b : BlockId) (t : ℕ)
    → 0 < count (pos t) (entries locks blk)
    → entries (add_x_entry locks blk t) b
      ≡ (if equals blk b then entries locks blk ++ neg (pos t) ∷ [] else entries locks b)
unfolding entries add_x_entry count
entries-add_x locks blk b t h =
    ground (arith, lookup-insert blk b (entries locks blk ++ neg (pos t) ∷ []) locks)

count-is_empty : (x : ℤ) (txs : List ℤ) → is_empty txs ≡ true → count x txs ≡ 0
unfolding count
count-is_empty x [] h = refl
count-is_empty x (y ∷ txs) h = cc

pub count-drop_entries :
    (n : ℕ) (x : ℤ) (txs : List ℤ)
    → count x (drop_entries (suc n) txs) ≡ (
        if pos (suc n) == x
        then count x txs - 1
        else if negsuc n == x
        then count x txs - 1
        else count x txs)
count-drop_entries n x txs = ground (
  arith,
  int_beq_iff (pos (suc n)) x,
  int_beq_iff (negsuc n) x,
  count-remove_first x (negsuc n) (remove_first (pos (suc n)) txs),
  count-remove_first x (pos (suc n)) txs,
)

-- Unlocking takes one entry of each kind of the transaction from the block, and nothing else.
pub count-unlock :
    (locks : LockTable) (blk b : BlockId) (n : ℕ) (x : ℤ)
    → count x (entries (unlock locks blk (suc n)).0 b) ≡ (
        if equals blk b
        then count x (drop_entries (suc n) (entries locks b))
        else count x (entries locks b))
unfolding unlock entries count remove_first
count-unlock locks blk b n x = ground (
  arith,
  equals_iff blk b,
  lookup-insert blk b (drop_entries (suc n) (entries locks blk)) locks,
  lookup-remove blk b locks,
  count-is_empty x (drop_entries (suc n) (entries locks blk)),
)
