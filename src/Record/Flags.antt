-- ===== src/Record/Flags.antt =====
-- The flags that src/main/java/simpledb/record/RecordPage.java reads and writes.
use database_system_swe.Base.{
  ℕ, zero, suc, ◌+◌, ◌-◌, ◌*◌, ◌^◌, true, false, ◌<◌, ◌≤◌, ℤ, pos, negsuc, Option, some, ◌≡◌, ◌⊎◌,
  subst, arith,
}
use database_system_swe.Log.Page.{Page, get_int}
use database_system_swe.Record.Layout.{Layout}
use database_system_swe.Record.RecordPage.{offset, is_valid_slot}

-- The start of a slot, without an overflow.
abbrev pub place : Layout → ℕ → ℕ
place layout slot = slot * layout.slotsize

pub offset-place :
    (layout : Layout) (s : ℕ) → place layout s < 2 ^ 32 → offset layout s ≡ place layout s
unfolding offset
offset-place layout s lt = omega arith

-- A later slot is behind an earlier one.
pub place_step : (layout : Layout) (s : ℕ) → place layout (suc s) ≡ place layout s + layout.slotsize
place_step layout s = omega arith

place_mono : (layout : Layout) (d s : ℕ) → place layout s ≤ place layout (d + s)
place_mono layout zero s = omega arith
place_mono layout (suc d) s = omega (arith, place_mono layout d s, place_step layout (d + s))

pub place_le : (layout : Layout) (s t : ℕ) → s ≤ t → place layout s ≤ place layout t
place_le layout s t le =
    let e : t - s + s ≡ t = omega arith in
    subst (λ (k : ℕ). place layout s ≤ place layout k) e (place_mono layout (t - s) s)

pub place_lt :
    (layout : Layout) (s t : ℕ) → s < t → place layout s + layout.slotsize ≤ place layout t
place_lt layout s t lt = omega (arith, place_step layout s, place_le layout (suc s) t lt)

pub slot_le : (layout : Layout) (s : ℕ) → 4 ≤ layout.slotsize → s * 4 ≤ place layout s
slot_le layout zero le = omega arith
slot_le layout (suc s) le = omega (arith, slot_le layout s le, place_step layout s)

-- A slot that is valid: inside the page.
abbrev pub IsSlot : Layout → Page → ℕ → Type 0
IsSlot layout p s = place layout (suc s) ≤ p.size

abbrev pub HasFlag : Layout → Page → ℕ → ℕ → Type 0
HasFlag layout p s flag = get_int (place layout s) p ≡ some (pos flag)

pub is_valid_slot-IsSlot :
    (layout : Layout) (p : Page) (s : ℕ)
    → p.size < 2 ^ 31
    → IsSlot layout p s
    → is_valid_slot layout p s ≡ true
unfolding is_valid_slot
is_valid_slot-IsSlot layout p s small v =
    let e : offset layout (suc s) ≡ place layout (suc s) =
      offset-place layout (suc s) (omega arith) in
    ground (arith, e, v, small)

pub is_valid_slot-behind :
    (layout : Layout) (p : Page) (s : ℕ)
    → p.size < place layout (suc s)
    → place layout (suc s) < 2 ^ 31
    → is_valid_slot layout p s ≡ false
unfolding is_valid_slot
is_valid_slot-behind layout p s out small =
    let e : offset layout (suc s) ≡ place layout (suc s) =
      offset-place layout (suc s) (omega arith) in
    ground (arith, e, out, small)

-- The first slot from `from` on with the flag.
pub record IsFirst (layout : Layout) (flag : ℕ) (p : Page) (from s : ℕ) : Type 0 where
  pub late : from ≤ s
  pub valid : IsSlot layout p s
  pub has : HasFlag layout p s flag
  pub earlier : (t : ℕ) → from ≤ t → t < s → ¬ (HasFlag layout p t flag)

-- No slot from `from` on has the flag.
abbrev pub IsNowhere : Layout → ℕ → Page → ℕ → Type 0
IsNowhere layout flag p from = (t : ℕ) → from ≤ t → IsSlot layout p t → ¬ (HasFlag layout p t flag)

-- What a search from `from` on returns: the first slot, or -1.
abbrev pub IsFound : Layout → ℕ → Page → ℕ → Option ℤ → Type 0
IsFound layout flag p from r =
    ((s : ℕ) × (r ≡ some (pos s)) × IsFirst layout flag p from s)
    ⊎ ((r ≡ some (negsuc 0)) × IsNowhere layout flag p from)
