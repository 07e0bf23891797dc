-- ===== src/Record/Search.antt =====
-- `searchAfter` of src/main/java/simpledb/record/RecordPage.java ends with the first slot that has a flag.
use database_system_swe.Base.{
  refl, ◌^◌, sym, ap, ℕ, zero, suc, ◌+◌, ◌<◌, ◌≤◌, ℤ, pos, negsuc, Option, some, ◌≡◌, inl, inr,
  subst, ◌∙◌, arith, int_beq, int_beq_iff, dec_lt, Bool-cases, false,
}
use database_system_swe.Log.Page.{Page, get_int, ◌>>=◌}
use database_system_swe.Log.Page.Within.{get_int_inside}
use database_system_swe.Record.Layout.{Layout}
use database_system_swe.Record.RecordPage.{next_after, search_after, search_from, after, used}
use database_system_swe.Record.Flags.{
  place, offset-place, is_valid_slot-IsSlot, is_valid_slot-behind, place_step, place_le, slot_le,
  IsSlot, HasFlag, IsNowhere, IsFound,
}

module _ (layout : Layout) (flag : ℕ) (p : Page) (room : 4 ≤ layout.slotsize)
    (small : p.size + layout.slotsize < 2 ^ 31) where
  search_out :
      (fuel s : ℕ)
      → p.size < place layout (suc s)
      → place layout (suc s) < 2 ^ 31
      → search_from layout flag p (suc fuel) s ≡ some (negsuc 0)
  unfolding search_from
  search_out fuel s lt fits = ground (arith, is_valid_slot-behind layout p s lt fits)

  search_hit :
      (fuel s : ℕ)
      → IsSlot layout p s
      → HasFlag layout p s flag
      → search_from layout flag p (suc fuel) s ≡ some (pos s)
  unfolding search_from
  search_hit fuel s v h =
      rw
        (
          is_valid_slot-IsSlot layout p s (omega arith) v,
          offset-place layout s (omega (arith, place_step layout s)),
          h,
        )
        (ground arith)

  search_miss :
      (fuel s : ℕ) (n : ℤ)
      → IsSlot layout p s
      → get_int (place layout s) p ≡ some n
      → int_beq n (pos flag) ≡ false
      → search_from layout flag p (suc fuel) s ≡ search_from layout flag p fuel (suc s)
  unfolding search_from
  search_miss fuel s n v g h =
      rw
        (
          is_valid_slot-IsSlot layout p s (omega arith) v,
          offset-place layout s (omega (arith, place_step layout s)),
          g,
          h,
        )
        refl

  out_IsNowhere : (s : ℕ) → p.size < place layout (suc s) → IsNowhere layout flag p s
  out_IsNowhere s lt t le v h = omega (arith, place_le layout (suc s) (suc t) (omega arith))

  missed :
      (s : ℕ) (n : ℤ)
      → get_int (place layout s) p ≡ some n
      → int_beq n (pos flag) ≡ false
      → ¬ (HasFlag layout p s flag)
  missed s n g h e = ground (arith, g, e, h, int_beq_iff n (pos flag))

  later :
      (s : ℕ) (r r' : Option ℤ)
      → ¬ (HasFlag layout p s flag)
      → r ≡ r'
      → IsFound layout flag p (suc s) r'
      → IsFound layout flag p s r
  later s r r' missing e f = elim f [
    | inl (t, e', first) ↦ inl (
      t,
      e ∙ e',
      record {
        late = omega (arith, first.late);
        valid = first.valid;
        has = first.has;
        earlier = λ u le lt h. elim (dec_lt s u) [
          | yes lt' ↦ first.earlier u lt' lt h
          | no ge ↦ missing (subst (λ (k : ℕ). HasFlag layout p k flag) (omega arith) h)
        ];
      },
    )
    | inr (e', nowhere) ↦ inr (
      e ∙ e',
      λ u le v h. elim (dec_lt s u) [
        | yes lt' ↦ nowhere u lt' v h
        | no ge ↦ missing (subst (λ (k : ℕ). HasFlag layout p k flag) (omega arith) h)
      ],
    )
  ]

  IsFound-here :
      (fuel s : ℕ)
      → IsSlot layout p s
      → HasFlag layout p s flag
      → IsFound layout flag p s (search_from layout flag p (suc fuel) s)
  IsFound-here fuel s v h = inl (
    s,
    search_hit fuel s v h,
    record { late = omega arith; valid = v; has = h; earlier = λ t le lt. absurd (omega arith) },
  )

  slot_end : (s : ℕ) → IsSlot layout p s → place layout s + 4 ≤ p.size
  slot_end s v = omega (arith, place_step layout s)

  pub search_from-IsFound :
      (fuel s : ℕ)
      → 0 < fuel
      → p.size < fuel + s
      → place layout (suc s) < 2 ^ 31
      → IsFound layout flag p s (search_from layout flag p fuel s)
  search_from-IsFound zero s some_left enough fits = absurd (omega arith)
  search_from-IsFound (suc fuel) s some_left enough fits =
      elim (dec_lt p.size (place layout (suc s))) [
        | yes out ↦ inr (search_out fuel s out fits, out_IsNowhere s out)
        | no inside ↦
            let (n, g) = get_int_inside (place layout s) p (slot_end s (omega arith)) in
            elim (Bool-cases (int_beq n (pos flag))) [
              | inl same ↦
                  IsFound-here fuel s (omega arith)
                    (ground (arith, g, same, int_beq_iff n (pos flag)))
              | inr other ↦
                  later s (search_from layout flag p (suc fuel) s)
                    (search_from layout flag p fuel (suc s)) (missed s n g other)
                    (search_miss fuel s n (omega arith) g other)
                    (search_from-IsFound fuel (suc s) (omega (arith, slot_le layout (suc s) room))
                      (omega arith) (omega (arith, place_step layout (suc s))))
            ]
      ]

-- If a slot has at least the four bytes of its flag and no offset reaches 2^31, then a search that starts at a slot ends.
pub search_after-IsFound :
    (layout : Layout) (flag : ℕ) (p : Page) (slot : ℤ) (from : ℕ)
    → 4 ≤ layout.slotsize
    → p.size + layout.slotsize < 2 ^ 31
    → place layout (suc from) < 2 ^ 31
    → after slot ≡ some from
    → IsFound layout flag p from (search_after layout flag p slot)
search_after-IsFound layout flag p slot from room small fits e =
    subst (IsFound layout flag p from)
      (sym (ap (λ o. o >>= λ s. search_from layout flag p (suc p.size) s) e))
      (search_from-IsFound layout flag p room small (suc p.size) from (omega arith) (omega arith)
        fits)

-- If a slot has at least the four bytes of its flag, the given slot is at least -1, and the end of the
-- slot behind it is less than 2^31, as is a slot more than the page, then `nextAfter` ends without an exception, with the first slot after the given one that is in the page
-- and marked as used, or with -1 where there is none.
pub next_after-IsFound :
    (layout : Layout) (p : Page) (slot : ℤ) (from : ℕ)
    → 4 ≤ layout.slotsize
    → p.size + layout.slotsize < 2 ^ 31
    → place layout (suc from) < 2 ^ 31
    → after slot ≡ some from
    → IsFound layout used p from (next_after layout p slot)
next_after-IsFound layout p slot from room small fits e =
    search_after-IsFound layout used p slot from room small fits e
