-- ===== src/Log/Reading.antt =====
-- src/main/java/simpledb/log/LogIterator.java where no position in its file reaches 2^31.
use database_system_swe.Base.{
  ℕ, zero, suc, ◌≤◌, true, false, Bool-cases, Option, none, some, Bool, List, [], ◌∷◌, ◌≡◌, refl,
  sym, ap, subst, arith, inl, inr, nat_beq,
}
use database_system_swe.Log.Page.{◌>>=◌, get_int, get_bytes}
use database_system_swe.Log.LogMgr.{LogFile}
use database_system_swe.Log.LogIterator
use database_system_swe.Log.LogIterator.{has_next, read_record}
use database_system_swe.Log.LogMgr.{offset_of}
use database_system_swe.Log.Unbounded
use database_system_swe.Log.Unbounded.{LogMgr}
use database_system_swe.Log.Bounded.{bind_same, times_le, IsNear, read_block_lem, flush_lem}

move_to_block_lem :
    (file : LogFile) (blk : ℕ)
    → IsNear blk file
    → LogIterator.move_to_block file blk ≡ Unbounded.move_to_block file blk
unfolding LogIterator.move_to_block Unbounded.move_to_block
move_to_block_lem file blk near = rw (read_block_lem blk file near) refl

pub iterator_lem :
    (m : LogMgr) → IsNear m.currentblk m.file → LogIterator.iterator m ≡ Unbounded.iterator m
unfolding LogIterator.iterator Unbounded.iterator Unbounded.flush Unbounded.write_block
iterator_lem m near =
    rw (flush_lem m near) (move_to_block_lem (Unbounded.flush m).file m.currentblk near)

previous_block_lem :
    (file : LogFile) (blk : ℕ)
    → IsNear blk file
    → LogIterator.previous_block file blk ≡ Unbounded.previous_block file blk
previous_block_lem file zero near = refl
previous_block_lem file (suc blk) near =
    move_to_block_lem file blk (omega (arith, times_le blk (suc blk) file.block_size (omega arith)))

next_lem :
    (it : Unbounded.LogIterator) → IsNear it.blk it.file → LogIterator.next it ≡ Unbounded.next it
unfolding LogIterator.next Unbounded.next
next_lem it near = rw (previous_block_lem it.file it.blk near) refl

-- The iterator stays in its file and goes back.
abbrev GoesBack : LogFile → ℕ → Unbounded.LogIterator → Type 0
GoesBack file blk it = (it.file ≡ file) × (it.blk ≤ blk)

-- Every result has the property.
abbrev Each {ℓ κ} : {A : Type ℓ} → (A → Type κ) → Option A → Type κ
Each P none = Unit
Each P (some a) = P a

bind-Each {ℓ κ μ ν} :
    {A : Type ℓ} {B : Type κ} (P : A → Type μ) (Q : B → Type ν) (o : Option A) (f : A → Option B)
    → Each P o
    → ((a : A) → P a → Each Q (f a))
    → Each Q (o >>= f)
bind-Each P Q none f p then = tt
bind-Each P Q (some a) f p then = then a p

all_results {ℓ} : {A : Type ℓ} (o : Option A) → Each (λ a. Unit {0}) o
all_results none = tt
all_results (some a) = tt

abbrev Next : LogFile → ℕ → List ℕ × Unbounded.LogIterator → Type 0
Next file blk r = GoesBack file blk r.1

read_record-Next :
    (file : LogFile) (blk : ℕ) (it : Unbounded.LogIterator)
    → GoesBack file blk it
    → Each (Next file blk) (read_record it)
unfolding read_record
read_record-Next file blk it back =
    bind-Each (λ a. Unit {0}) (Next file blk) (get_bytes it.currentpos it.page) _
      (all_results (get_bytes it.currentpos it.page)) (λ rec u. back)

previous_block-GoesBack :
    (file : LogFile) (blk : ℕ) → Each (GoesBack file blk) (Unbounded.previous_block file blk)
unfolding Unbounded.move_to_block
previous_block-GoesBack file zero = tt
previous_block-GoesBack file (suc blk) =
    bind-Each (λ a. Unit {0}) (GoesBack file (suc blk)) (get_int 0 (file.block blk)) _
      (all_results (get_int 0 (file.block blk)))
      (λ b u.
        bind-Each (λ a. Unit {0}) (GoesBack file (suc blk)) (offset_of b) _
          (all_results (offset_of b)) (λ k v. (refl, omega arith)))

next-Next : (it : Unbounded.LogIterator) → Each (Next it.file it.blk) (Unbounded.next it)
unfolding Unbounded.next
next-Next it = elim (Bool-cases (nat_beq it.currentpos it.file.block_size)) [
  | inl done ↦ rw done (
      bind-Each (GoesBack it.file it.blk) (Next it.file it.blk)
        (Unbounded.previous_block it.file it.blk) read_record
        (previous_block-GoesBack it.file it.blk)
        (λ it' back. read_record-Next it.file it.blk it' back))
  | inr more ↦ rw more (read_record-Next it.file it.blk it (refl, omega arith))
]

IsNear-before :
    (file file' : LogFile) (blk blk' : ℕ)
    → file' ≡ file
    → blk' ≤ blk
    → IsNear blk file
    → IsNear blk' file'
IsNear-before file file' blk blk' same le near =
    subst (λ f. IsNear blk' f) (sym same) (omega (arith, times_le blk' blk file.block_size le))

choose_same {ℓ} :
    {A : Type ℓ} (b : Bool) (x y y' : A)
    → (b ≡ true → y ≡ y')
    → elim b [ false ↦ x | true ↦ y ] ≡ elim b [ false ↦ x | true ↦ y' ]
choose_same true x y y' same = same refl
choose_same false x y y' same = refl

pub read_all_lem :
    (fuel : ℕ) (it : Unbounded.LogIterator)
    → IsNear it.blk it.file
    → LogIterator.read_all fuel it ≡ Unbounded.read_all fuel it
unfolding LogIterator.read_all Unbounded.read_all
read_all_lem zero it near = refl
read_all_lem (suc fuel) it near = choose_same (has_next it) (some []) _ _ (λ more.
    rw (next_lem it near) (
      bind_same (Unbounded.next it) _ _ (λ r e.
        let back : Next it.file it.blk r = subst (Each (Next it.file it.blk)) e (next-Next it) in
        ap (λ o. o >>= λ recs. some (r.0 ∷ recs))
          (read_all_lem fuel r.1
            (IsNear-before it.file r.1.file it.blk r.1.blk back.0 back.1 near)))))
