-- ===== src/Multibuffer/BufferNeeds.antt =====
-- src/main/java/simpledb/multibuffer/BufferNeeds.java: how many of the available buffers a scan
-- takes. The numbers are not negative. `available - 2`, which may be, is only compared with 1 where
-- it is. What the loops compute in floating point is a parameter.
use database_system_swe.Base.{
  ℕ, zero, suc, ◌+◌, ◌-◌, ◌*◌, ◌^◌, ◌<◌, ◌≤◌, Option, none, some, ◌≡◌, sym, ap, subst, ◌∙◌, arith,
  Bool-cases, inl, inr, nat_beq, ltb, leb, if◌then◌else◌,
}

-- The loop of `bestFactor` and of `bestRoot`, at round `i` with the value `k`; `value i` is what a
-- round computes. `none`: the fuel ran out.
unfoldable pub reduce : (ℕ → ℕ) → ℕ → ℕ → ℕ → ℕ → Option ℕ
reduce value avail zero i k = none
reduce value avail (suc fuel) i k =
    let more = reduce value avail fuel (suc i) (value (suc i)) in
    if ltb avail k then more else some k

-- `quotient size i` is `(int)Math.ceil(size / i)`. The loop has as many rounds as the size, and one.
unfoldable pub best_factor : (ℕ → ℕ → ℕ) → ℕ → ℕ → Option ℕ
best_factor quotient available size =
    if leb (available - 2) 1
    then some 1
    else reduce (quotient size) (available - 2) (suc size) 1 size

-- `root size i` is `(int)Math.ceil(Math.pow(size, 1/i))`.
unfoldable pub best_root : (ℕ → ℕ → ℕ) → ℕ → ℕ → Option ℕ
best_root root available size =
    if leb (available - 2) 1 then some 1 else reduce (root size) (available - 2) 32 1 (2 ^ 31 - 1)

-- The quotient of two ints, rounded up: a double holds it closely enough for `ceil` to be exact.
pub record IsCeiling (quotient : ℕ → ℕ → ℕ) : Type 0 where
  pub enough : (size i : ℕ) → 0 < i → size ≤ quotient size i * i
  pub least : (size i k : ℕ) → 0 < i → size ≤ k * i → quotient size i ≤ k

-- The 31st and later roots of an int are at most 2, also when they are rounded up.
abbrev pub IsRoot : (ℕ → ℕ → ℕ) → Type 0
IsRoot root = (size i : ℕ) → size < 2 ^ 31 → 31 ≤ i → root size i ≤ 2

-- The first round from `first` on with a value that is available.
pub record IsFirstFit (value : ℕ → ℕ) (avail first : ℕ) (result : Option ℕ) : Type 0 where
  pub round : ℕ
  pub started : first ≤ round
  pub returns : result ≡ some (value round)
  pub fits : value round ≤ avail
  pub earlier : (j : ℕ) → first ≤ j → j < round → avail < value j

module _ (value : ℕ → ℕ) (avail : ℕ) where
  reduce_here :
      (fuel i : ℕ)
      → value i ≤ avail
      → IsFirstFit value avail i (reduce value avail (suc fuel) i (value i))
  unfolding reduce
  reduce_here fuel i h = record {
    round = i;
    started = omega arith;
    returns = ground (arith, h);
    fits = h;
    earlier = λ j le lt. absurd (omega arith);
  }

  reduce_next :
      (fuel i : ℕ) (k : ℕ)
      → avail < k
      → reduce value avail (suc fuel) i k ≡ reduce value avail fuel (suc i) (value (suc i))
  unfolding reduce
  reduce_next fuel i k h = ground (arith, h)

  reduce_later :
      (i : ℕ) (r r' : Option ℕ)
      → avail < value i
      → r ≡ r'
      → IsFirstFit value avail (suc i) r'
      → IsFirstFit value avail i r
  reduce_later i r r' h e f = record {
    round = f.round;
    started = omega (arith, f.started);
    returns = e ∙ f.returns;
    fits = f.fits;
    earlier = λ j le lt. earlier_cases j le lt;
  }
    where
      earlier_cases : (j : ℕ) → i ≤ j → j < f.round → avail < value j
      earlier_cases j le lt = elim (Bool-cases (nat_beq i j)) [
        | inl same ↦ ground (arith, same, h)
        | inr other ↦ f.earlier j (ground (arith, other, le)) lt
      ]

  reduce-IsFirstFit :
      (fuel i : ℕ)
      → value (i + fuel) ≤ avail
      → IsFirstFit value avail i (reduce value avail (suc fuel) i (value i))
  reduce-IsFirstFit zero i h = reduce_here 0 i (subst (λ (k : ℕ). value k ≤ avail) (omega arith) h)
  reduce-IsFirstFit (suc fuel) i h = elim (Bool-cases (ltb avail (value i))) [
    | inl more ↦
        reduce_later i (reduce value avail (suc (suc fuel)) i (value i))
          (reduce value avail (suc fuel) (suc i) (value (suc i))) (ground (arith, more))
          (reduce_next (suc fuel) i (value i) (ground (arith, more)))
          (reduce-IsFirstFit fuel (suc i) (subst (λ (k : ℕ). value k ≤ avail) (omega arith) h))
    | inr done ↦ reduce_here (suc fuel) i (ground (arith, done))
  ]

best_factor_start :
    (quotient : ℕ → ℕ → ℕ) (available size : ℕ)
    → quotient size 1 ≡ size
    → 3 < available
    → reduce (quotient size) (available - 2) (suc size) 1 (quotient size 1)
      ≡ best_factor quotient available size
unfolding best_factor
best_factor_start quotient available size whole h =
    ap (λ (k : ℕ). reduce (quotient size) (available - 2) (suc size) 1 k) whole ∙ ground (arith, h)

best_root_start :
    (root : ℕ → ℕ → ℕ) (available size : ℕ)
    → 3 < available
    → available < 2 ^ 31
    → reduce (root size) (available - 2) 31 2 (root size 2) ≡ best_root root available size
unfolding best_root
best_root_start root available size h lt =
    sym (reduce_next (root size) (available - 2) 31 1 (2 ^ 31 - 1) (omega arith))
    ∙ ground (arith, h)

-- If more than three buffers are available, bestFactor ends, within as many rounds as the size and
-- one, with the quotient of the size by the first number, from 1 on, for which the quotient,
-- rounded up, is at most the available buffers but two.
pub best_factor-IsFirstFit :
    (quotient : ℕ → ℕ → ℕ) (available size : ℕ)
    → IsCeiling quotient
    → 3 < available
    → IsFirstFit (quotient size) (available - 2) 1 (best_factor quotient available size)
best_factor-IsFirstFit quotient available size q h =
    let last : quotient size (1 + size) ≤ available - 2 =
      omega (arith, q.least size (1 + size) 1 (omega arith) (omega arith)) in
    let whole : quotient size 1 ≡ size =
      omega
        (arith, q.enough size 1 (omega arith), q.least size 1 size (omega arith) (omega arith)) in
    subst (IsFirstFit (quotient size) (available - 2) 1)
      (best_factor_start quotient available size whole h)
      (reduce-IsFirstFit (quotient size) (available - 2) size 1 last)

-- If more than three buffers are available, and they and the size are below 2^31, bestRoot ends, within 32 rounds,
-- with the root, rounded up, of the first degree from 2 on for which it is at most the available
-- buffers but two.
pub best_root-IsFirstFit :
    (root : ℕ → ℕ → ℕ) (available size : ℕ)
    → IsRoot root
    → 3 < available
    → available < 2 ^ 31
    → size < 2 ^ 31
    → IsFirstFit (root size) (available - 2) 2 (best_root root available size)
best_root-IsFirstFit root available size r h lt small =
    subst (IsFirstFit (root size) (available - 2) 2) (best_root_start root available size h lt) (
      reduce-IsFirstFit (root size) (available - 2) 30 2
        (omega (arith, r size 32 small (omega arith))))
