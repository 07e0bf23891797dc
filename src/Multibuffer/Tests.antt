-- ===== src/Multibuffer/Tests.antt =====
-- Runs of src/main/java/simpledb/multibuffer/BufferNeeds.java.
use native.Mathlib.Nat.{pow-le-pow_right}
use database_system_swe.Base.{
  ℕ, zero, suc, ◌+◌, ◌-◌, ◌/◌, ◌^◌, ◌≤◌, some, ◌≡◌, refl, arith, leb, if◌then◌else◌,
}
use database_system_swe.Multibuffer.BufferNeeds.{
  reduce, best_factor, best_root, IsCeiling, IsRoot, IsFirstFit, best_factor-IsFirstFit,
  best_root-IsFirstFit,
}

abbrev ceiling : ℕ → ℕ → ℕ
ceiling size i = (size + i - 1) / i

ceiling-IsCeiling : IsCeiling ceiling
ceiling-IsCeiling = record {
  enough = λ size i h. grind arith;
  least = λ size i k h le. grind arith;
}

-- The first number from `k` on, for some rounds, whose power is at least the size.
power_from : ℕ → ℕ → ℕ → ℕ → ℕ
power_from zero k size i = k
power_from (suc fuel) k size i =
    let more = power_from fuel (suc k) size i in if leb size (k ^ i) then k else more

two_thirds : best_factor ceiling 6 10 ≡ some 4
unfolding best_factor reduce
two_thirds = refl

factor_of_ten : IsFirstFit (ceiling 10) 4 1 (best_factor ceiling 6 10)
factor_of_ten = best_factor-IsFirstFit ceiling 6 10 ceiling-IsCeiling (omega arith)

abbrev root : ℕ → ℕ → ℕ
root size i = power_from 65536 0 size i

power_from-le_two : (fuel k size i : ℕ) → size ≤ 2 ^ i → k ≤ 2 → power_from fuel k size i ≤ 2
unfolding power_from
power_from-le_two zero k size i h le = le
power_from-le_two (suc fuel) zero size i h le = ground (arith, h, power_from-le_two fuel 1 size i h)
power_from-le_two (suc fuel) (suc zero) size i h le =
    ground (arith, h, power_from-le_two fuel 2 size i h)
power_from-le_two (suc fuel) (suc (suc zero)) size i h le = ground (arith, h)
power_from-le_two (suc fuel) (suc (suc (suc k))) size i h le = absurd (omega arith)

root-IsRoot : IsRoot root
root-IsRoot size i small le =
    let large : 2 ^ 31 ≤ 2 ^ i = pow-le-pow_right (omega arith) le in
    power_from-le_two 65536 0 size i (omega arith) (omega arith)

square : best_root root 6 9 ≡ some 3
unfolding best_root reduce power_from
square = refl

root_of_nine : IsFirstFit (root 9) 4 2 (best_root root 6 9)
root_of_nine = best_root-IsFirstFit root 6 9 root-IsRoot (omega arith) (omega arith) (omega arith)
