-- ===== src/Log/Bounded.antt =====
-- src/main/java/simpledb/log/LogMgr.java where no position in its file reaches 2^31: then a block is
-- found by its number.
use database_system_swe.Base.{
  ℕ, zero, suc, ◌+◌, ◌*◌, ◌^◌, ◌<◌, ◌≤◌, ℤ, pos, max, int_ltb, Bool-cases, Option, none, some, List,
  ◌≡◌, refl, arith, inl, inr, length, ◌-ℤ◌,
}
use database_system_swe.Log.Page.{Page, ◌>>=◌, get_int, set_int}
use database_system_swe.Log.LogMgr
use database_system_swe.Log.LogMgr.{LogFile, append_at}
use database_system_swe.Log.Unbounded
use database_system_swe.Log.Unbounded.{LogMgr}

-- Chains that go on in the same way.
pub bind_same {ℓ κ} :
    {A : Type ℓ} {B : Type κ} (o : Option A) (f g : A → Option B)
    → ((a : A) → o ≡ some a → f a ≡ g a)
    → (o >>= f) ≡ (o >>= g)
bind_same none f g same = refl
bind_same (some a) f g same = same a refl

pub times_le : (k n size : ℕ) → k ≤ n → k * size ≤ n * size
times_le zero n size le = omega arith
times_le (suc k) zero size le = absurd (omega arith)
times_le (suc k) (suc n) size le = omega (arith, times_le k n size (omega arith))

-- The position of a block is less than 2^31.
abbrev pub IsNear : ℕ → LogFile → Type 0
IsNear blknum file = blknum * file.block_size < 2 ^ 31

pub seek_lem :
    (blknum : ℕ) (file : LogFile) → IsNear blknum file → LogMgr.seek blknum file ≡ some blknum
unfolding LogMgr.seek
seek_lem blknum file near = ground (arith, near)

pub read_block_lem :
    (blknum : ℕ) (file : LogFile)
    → IsNear blknum file
    → LogMgr.read_block blknum file ≡ some (file.block blknum)
unfolding LogMgr.read_block
read_block_lem blknum file near = rw (seek_lem blknum file near) refl

write_block_lem :
    (blknum : ℕ) (p : Page) (file : LogFile)
    → IsNear blknum file
    → LogMgr.write_block blknum p file ≡ some (Unbounded.write_block blknum p file)
unfolding LogMgr.write_block Unbounded.write_block
write_block_lem blknum p file near = rw (seek_lem blknum file near) refl

max-suc : (n : ℕ) → max n (suc n) ≡ suc n
max-suc n = omega arith

append_block_lem :
    (file : LogFile)
    → IsNear file.block_count file
    → LogMgr.append_block file ≡ some (Unbounded.append_block file)
unfolding LogMgr.append_block Unbounded.append_block
append_block_lem file near = rw (seek_lem file.block_count file near, max-suc file.block_count) refl

pub flush_lem :
    (m : LogMgr) → IsNear m.currentblk m.file → LogMgr.flush m ≡ some (Unbounded.flush m)
unfolding LogMgr.flush Unbounded.flush
flush_lem m near = rw (write_block_lem m.currentblk m.logpage m.file near) refl

pub flush_to_lem :
    (lsn : ℤ) (m : LogMgr)
    → IsNear m.currentblk m.file
    → LogMgr.flush_to lsn m ≡ some (Unbounded.flush_to lsn m)
unfolding LogMgr.flush_to Unbounded.flush_to
flush_to_lem lsn m near = elim (Bool-cases (int_ltb lsn m.last_saved_lsn)) [
  | inl below ↦ rw below refl
  | inr above ↦ rw (above, flush_lem m near) refl
]

pub append_new_block_lem :
    (m : LogMgr)
    → IsNear m.file.block_count m.file
    → LogMgr.append_new_block m ≡ Unbounded.append_new_block m
unfolding LogMgr.append_new_block Unbounded.append_new_block Unbounded.append_block
append_new_block_lem m near = rw (append_block_lem m.file near) (
    bind_same (set_int 0 (pos m.file.block_size) m.logpage) _ _ (λ p e.
      rw (write_block_lem m.file.block_count p ((Unbounded.append_block m.file).1) near) refl))

append_next_lem :
    (logrec : List ℕ) (m : LogMgr)
    → IsNear m.currentblk m.file
    → IsNear m.file.block_count m.file
    → LogMgr.append_next logrec m ≡ Unbounded.append_next logrec m
unfolding LogMgr.append_next Unbounded.append_next Unbounded.flush Unbounded.write_block
append_next_lem logrec m near near' =
    rw (flush_lem m near, append_new_block_lem (Unbounded.flush m) near') refl

pub append_lem :
    (logrec : List ℕ) (m : LogMgr)
    → IsNear m.currentblk m.file
    → IsNear m.file.block_count m.file
    → LogMgr.append logrec m ≡ Unbounded.append logrec m
unfolding LogMgr.append Unbounded.append
append_lem logrec m near near' = bind_same (get_int 0 m.logpage) _ _ (λ b e.
    elim (Bool-cases (int_ltb (b -ℤ pos (length logrec + 4)) (pos 4))) [
      | inl full ↦ rw full (append_next_lem logrec m near near')
      | inr fits ↦ rw fits refl
    ])
