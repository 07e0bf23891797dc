-- ===== src/Record/Fields.antt =====
-- What `setInt` and `setString` of src/main/java/simpledb/record/RecordPage.java write into a field of a
-- layout that the constructor of src/main/java/simpledb/record/Layout.java made.
use database_system_swe.Base.{
  string_eq, ℕ, ◌+◌, ◌<◌, ◌≤◌, some, String, ◌≡◌, ◌≢◌, ◌⊎◌, inl, inr, ap, arith, dec_lt,
}
use database_system_swe.Base.Assoc.{lookup}
use database_system_swe.Log.Page.{Page}
use database_system_swe.Record.Layout.{Layout, length_in_bytes}
use database_system_swe.Record.Flags.{place, place_lt, place_step, IsSlot}
use database_system_swe.Record.Offsets.{IsPlaced}

-- Only bytes of one field of one slot have changed: no flag, and no other field of any slot.
pub record IsWritten (bytes_per_char : ℕ) (layout : Layout) (slot : ℕ) (f : String) (p p' : Page)
    : Type 0 where
  pub size : p'.size ≡ p.size
  pub flags : (t i : ℕ) → place layout t ≤ i → i < place layout t + 4 → p'.byte i ≡ p.byte i
  pub fields :
      (t : ℕ) (g : String) (at n i : ℕ)
      → (t ≢ slot) ⊎ (g ≢ f)
      → lookup g layout.offsets ≡ some at
      → length_in_bytes bytes_per_char layout.schema g ≡ some n
      → place layout t + at ≤ i
      → i < place layout t + at + n
      → p'.byte i ≡ p.byte i

-- A field of a layout.
pub record IsField (bytes_per_char : ℕ) (layout : Layout) (f : String) (at n : ℕ) : Type 0 where
  pub here : lookup f layout.offsets ≡ some at
  pub takes : length_in_bytes bytes_per_char layout.schema f ≡ some n

module _ (bytes_per_char : ℕ) (layout : Layout)
    (placed : IsPlaced bytes_per_char layout.schema layout.offsets layout.slotsize)
    (room : 4 ≤ layout.slotsize) where
  outside_flag :
      (slot t at n i : ℕ)
      → 4 ≤ at
      → at + n ≤ layout.slotsize
      → place layout t ≤ i
      → i < place layout t + 4
      → (i < place layout slot + at) ⊎ (place layout slot + at + n ≤ i)
  outside_flag slot t at n i ge le from to = elim (dec_lt slot t) [
    | yes lt ↦ inr (omega (arith, place_lt layout slot t lt))
    | no not_lt ↦ elim (dec_lt t slot) [
      | yes lt ↦ inl (omega (arith, place_lt layout t slot lt))
      | no not_gt ↦
          let same : t ≡ slot = omega arith in
          inl (omega (arith, ap (λ (k : ℕ). place layout k) same))
    ]
  ]

  outside_field :
      (slot t : ℕ) (f g : String) (at n at' n' i : ℕ)
      → IsField bytes_per_char layout f at n
      → IsField bytes_per_char layout g at' n'
      → (t ≢ slot) ⊎ (g ≢ f)
      → place layout t + at' ≤ i
      → i < place layout t + at' + n'
      → (i < place layout slot + at) ⊎ (place layout slot + at + n ≤ i)
  outside_field slot t f g at n at' n' i ff fg differ from to =
      let inside = placed.inside f at n ff.here ff.takes in
      let inside' = placed.inside g at' n' fg.here fg.takes in
      elim (dec_lt slot t) [
        | yes lt ↦ inr (omega (arith, inside.1, place_lt layout slot t lt))
        | no not_lt ↦ elim (dec_lt t slot) [
          | yes lt ↦ inl (omega (arith, inside'.1, place_lt layout t slot lt))
          | no not_gt ↦
              let same : t ≡ slot = omega arith in
              elim differ [
                | inl other ↦ absurd (other same)
                | inr other ↦
                    elim (placed.apart g f at' at n' n other fg.here ff.here fg.takes ff.takes) [
                      | inl before ↦ inl (omega (arith, ap (λ (k : ℕ). place layout k) same))
                      | inr behind ↦ inr (omega (arith, ap (λ (k : ℕ). place layout k) same))
                    ]
              ]
        ]
      ]

  pub written :
      (slot : ℕ) (f : String) (at n : ℕ) (p p' : Page)
      → IsField bytes_per_char layout f at n
      → p'.size ≡ p.size
      → ((i : ℕ)
          → (i < place layout slot + at) ⊎ (place layout slot + at + n ≤ i)
          → p'.byte i ≡ p.byte i)
      → IsWritten bytes_per_char layout slot f p p'
  written slot f at n p p' ff size same = record {
    size = size;
    flags = λ t i from to. same i (
        outside_flag slot t at n i ((placed.inside f at n ff.here ff.takes).0)
          ((placed.inside f at n ff.here ff.takes).1) from to);
    fields = λ t g at' n' i differ e e' from to. same i (
        outside_field slot t f g at n at' n' i ff (record { here = e; takes = e' }) differ from to);
  }

  -- A field of a slot in the page ends in the page.
  pub field_end :
      (slot : ℕ) (f : String) (at n : ℕ) (p : Page)
      → IsField bytes_per_char layout f at n
      → IsSlot layout p slot
      → place layout slot + at + n ≤ p.size
  field_end slot f at n p ff v =
      omega (arith, (placed.inside f at n ff.here ff.takes).1, place_step layout slot)
