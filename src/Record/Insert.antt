-- ===== src/Record/Insert.antt =====
-- `insertAfter` and `delete` of src/main/java/simpledb/record/RecordPage.java.
use database_system_swe.Base.{
  suc, ℕ, ◌+◌, ◌^◌, ◌<◌, ◌≤◌, ℤ, pos, negsuc, Option, some, ◌≡◌, ◌≢◌, ◌⊎◌, inl, inr, sym, ap, subst,
  ◌∙◌, arith, nat_beq, Bool-cases, dec_lt,
}
use database_system_swe.Log.Page.{Page, get_int, set_int, ◌>>=◌}
use database_system_swe.Log.Page.Access.{get_int-put}
use database_system_swe.Log.Page.Within.{
  with_int, set_int_lem, get_int-with_int_apart, with_int-byte, with_int_size,
}
use database_system_swe.Record.Layout.{Layout}
use database_system_swe.Record.RecordPage.{
  set_flag, delete, search_after, after, mark_found, insert_after, empty, used,
}
use database_system_swe.Record.Flags.{
  place, offset-place, place_lt, place_step, IsSlot, HasFlag, IsFirst, IsNowhere,
}
use database_system_swe.Record.Search.{search_after-IsFound}

-- Only the flag of a slot has changed.
pub record IsMarked (layout : Layout) (s flag : ℕ) (p p' : Page) : Type 0 where
  pub has : HasFlag layout p' s flag
  pub size : p'.size ≡ p.size
  pub others : (t : ℕ) → t ≢ s → get_int (place layout t) p' ≡ get_int (place layout t) p
  pub bytes : (i : ℕ) → (i < place layout s) ⊎ (place layout s + 4 ≤ i) → p'.byte i ≡ p.byte i

module _ (layout : Layout) (p : Page) (room : 4 ≤ layout.slotsize) where
  apart :
      (s t : ℕ)
      → t ≢ s
      → (place layout t + 4 ≤ place layout s) ⊎ (place layout s + 4 ≤ place layout t)
  apart s t differ = elim (dec_lt t s) [
    | yes lt ↦ inl (omega (arith, place_lt layout t s lt))
    | no ge ↦ inr (omega (arith, place_lt layout s t (omega arith)))
  ]

  pub set_flag-IsMarked :
      (s flag : ℕ)
      → IsSlot layout p s
      → flag < 2 ^ 31
      → p.size < 2 ^ 31
      → (p' : Page) × (set_flag layout s flag p ≡ some p') × IsMarked layout s flag p p'
  set_flag-IsMarked s flag v small small_page =
      let le : place layout s + 4 ≤ p.size = omega (arith, place_step layout s) in
      (
        with_int (place layout s) flag p,
        ap (λ i. set_int i (pos flag) p) (offset-place layout s (omega arith))
            ∙ set_int_lem (place layout s) flag p small le,
        record {
          has = get_int-put (place layout s) flag p small le;
          size = with_int_size (place layout s) flag p;
          others = λ t differ.
              get_int-with_int_apart (place layout t) (place layout s) flag p (apart s t differ);
          bytes = with_int-byte (place layout s) flag p;
        },
      )

-- What `insertAfter` does, from a slot on.
abbrev pub IsInserted : Layout → Page → ℕ → Option (ℤ × Page) → Type 0
IsInserted layout p from r =
    ((s : ℕ) × (p' : Page) × (r ≡ some (pos s, p'))
      × IsFirst layout empty p from s
      × IsMarked layout s used p p')
    ⊎ ((r ≡ some (negsuc 0, p)) × IsNowhere layout empty p from)

mark_found_lem :
    (layout : Layout) (s : ℕ) (p p' : Page)
    → set_flag layout s used p ≡ some p'
    → mark_found layout (pos s) p ≡ some (pos s, p')
mark_found_lem layout s p p' e = ap (λ o. o >>= λ q. some (pos s, q)) e

insert_after_lem :
    (layout : Layout) (p : Page) (slot found : ℤ)
    → search_after layout empty p slot ≡ some found
    → insert_after layout p slot ≡ mark_found layout found p
unfolding insert_after
insert_after_lem layout p slot found e = ap (λ o. o >>= λ f. mark_found layout f p) e

-- If a slot has at least the four bytes of its flag, the given slot is at least -1, and the end of the
-- slot behind it is less than 2^31, as is a slot more than the page, then `insertAfter` ends without an
-- exception: with the first empty slot after the given one that is in the page, which is then marked as used while every other flag and every byte outside its flag
-- stay; or with -1 and the same page where no such slot is empty.
pub insert_after-IsInserted :
    (layout : Layout) (p : Page) (slot : ℤ) (from : ℕ)
    → 4 ≤ layout.slotsize
    → p.size + layout.slotsize < 2 ^ 31
    → place layout (suc from) < 2 ^ 31
    → after slot ≡ some from
    → IsInserted layout p from (insert_after layout p slot)
insert_after-IsInserted layout p slot from room small fits start =
    elim (search_after-IsFound layout empty p slot from room small fits start) [
      | inl (s, e, first) ↦
          let (p', m, marked) =
            set_flag-IsMarked layout p room s used first.valid (omega arith) (omega arith) in
          inl (
            s,
            p',
            insert_after_lem layout p slot (pos s) e ∙ mark_found_lem layout s p p' m,
            first,
            marked,
          )
      | inr (e, nowhere) ↦ inr (insert_after_lem layout p slot (negsuc 0) e, nowhere)
    ]

restored :
    (layout : Layout) (s : ℕ) (p p' p'' : Page)
    → HasFlag layout p s empty
    → IsMarked layout s used p p'
    → IsMarked layout s empty p' p''
    → (t : ℕ) → get_int (place layout t) p'' ≡ get_int (place layout t) p
restored layout s p p' p'' was made_used gone t = elim (Bool-cases (nat_beq t s)) [
  | inl same ↦
      let e : s ≡ t = ground (arith, same) in
      subst (λ (k : ℕ). get_int (place layout k) p'' ≡ get_int (place layout k) p) e
        (gone.has ∙ sym was)
  | inr differ ↦
      let no_match : t ≢ s = ground (arith, differ) in
      gone.others t no_match ∙ made_used.others t no_match
]

-- An insertion that has given a slot.
made :
    (layout : Layout) (p p' : Page) (slot : ℤ) (from s : ℕ)
    → 4 ≤ layout.slotsize
    → p.size + layout.slotsize < 2 ^ 31
    → place layout (suc from) < 2 ^ 31
    → after slot ≡ some from
    → insert_after layout p slot ≡ some (pos s, p')
    → IsFirst layout empty p from s × IsMarked layout s used p p'
made layout p p' slot from s room small fits start e =
    elim (insert_after-IsInserted layout p slot from room small fits start) [
      | inl (s', q, e', first, marked) ↦
          let same_slot : s' ≡ s = ground (arith, e, e') in
          let same_page : q ≡ p' = ground (arith, e, e') in
          (
            subst (IsFirst layout empty p from) same_slot first,
            subst (λ (k : ℕ). IsMarked layout k used p p') same_slot
                (subst (IsMarked layout s' used p) same_page marked),
          )
      | inr (e', nowhere) ↦ absurd (ground (arith, e, e'))
    ]

-- If a slot has at least the four bytes of its flag, the end of the slot behind the given one is less
-- than 2^31, as is a slot more than the page, and `insertAfter`, called with a slot of at
-- least -1, has just made a record, then deleting it is no exception, and every flag is again what it
-- was.
pub delete-insert_after :
    (layout : Layout) (p p' : Page) (slot : ℤ) (from s : ℕ)
    → 4 ≤ layout.slotsize
    → p.size + layout.slotsize < 2 ^ 31
    → place layout (suc from) < 2 ^ 31
    → after slot ≡ some from
    → insert_after layout p slot ≡ some (pos s, p')
    → (p'' : Page) × (delete layout s p' ≡ some p'')
      × ((t : ℕ) → get_int (place layout t) p'' ≡ get_int (place layout t) p)
delete-insert_after layout p p' slot from s room small fits start e =
    let (first, marked) = made layout p p' slot from s room small fits start e in
    let (p'', d, gone) =
      set_flag-IsMarked layout p' room s empty (omega (arith, first.valid, marked.size))
        (omega arith) (omega (arith, marked.size)) in
    (p'', d, restored layout s p p' p'' first.has marked gone)
