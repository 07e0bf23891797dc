-- ===== src/Record/Format.antt =====
-- `format` of src/main/java/simpledb/record/RecordPage.java makes every slot of a page empty.
use database_system_swe.Base.{
  string_eq, ℕ, zero, suc, ◌^◌, ◌+◌, ◌<◌, ◌≤◌, pos, Option, some, List, All, [], ◌∷◌, String, ◌≡◌,
  ◌≢◌, refl, sym, ap, subst, ◌∙◌, arith, dec_lt,
}
use database_system_swe.Base.Assoc.{lookup}
use database_system_swe.Log.Page.{Page, get_int, ◌>>=◌}
use database_system_swe.Log.Page.Within.{get_int-bytes}
use database_system_swe.Record.Layout.{
  FieldType, FieldInfo, integer, varchar, Layout, new_schema, bytes_of, layout_of,
}
use database_system_swe.Record.RecordPage.{
  format_field, format_fields, format_slot, format_from, format, empty,
}
use database_system_swe.Record.Flags.{
  place, is_valid_slot-IsSlot, is_valid_slot-behind, place_step, IsSlot, HasFlag, slot_le, place_le,
}
use database_system_swe.Record.Offsets.{
  IsSmall, IsKnown, add_columns, add_columns-IsKnown, layout_of-IsPlaced,
}
use database_system_swe.Record.Fields.{IsField, IsWritten}
use database_system_swe.Record.Insert.{set_flag-IsMarked}
use database_system_swe.Record.Write.{
  made_bytes, get_int_field-set_int_field, get_string-set_string,
}

-- A page with the same flags.
record SameFlags (layout : Layout) (p p' : Page) : Type 0 where
  size : p'.size ≡ p.size
  flag : (t : ℕ) → get_int (place layout t) p' ≡ get_int (place layout t) p

SameFlags-trans :
    (layout : Layout) (p p' p'' : Page)
    → SameFlags layout p p'
    → SameFlags layout p' p''
    → SameFlags layout p p''
SameFlags-trans layout p p' p'' s t = record {
  size = t.size ∙ s.size;
  flag = λ k. t.flag k ∙ s.flag k;
}

IsWritten-SameFlags :
    (bytes_per_char : ℕ) (layout : Layout) (slot : ℕ) (f : String) (p p' : Page)
    → IsWritten bytes_per_char layout slot f p p'
    → SameFlags layout p p'
IsWritten-SameFlags bytes_per_char layout slot f p p' w = record {
  size = w.size;
  flag = λ t. get_int-bytes (place layout t) p p' w.size (w.flags t);
}

module _ (bytes_per_char : ℕ) (cols : List (String × FieldInfo)) (l : Layout)
    (fits : IsSmall bytes_per_char (add_columns cols new_schema))
    (made : layout_of bytes_per_char (add_columns cols new_schema) ≡ some l) where
  -- A page that a step of `format` gives.
  abbrev Formats : Page → Option Page → Type 0
  Formats p r = (p' : Page) × (r ≡ some p') × SameFlags l p p'

  format_type :
      (slot : ℕ) (f : String) (at k : ℕ) (p : Page) (t : FieldType)
      → lookup f l.schema.info ≡ some (record { type = t; length = k })
      → lookup f l.offsets ≡ some at
      → IsSlot l p slot
      → p.size < 2 ^ 31
      → Formats p (format_field l slot f (record { type = t; length = k }) p)
  format_type slot f at k p integer e e' v small =
      let field : IsField bytes_per_char l f at 4 = record {
        here = e';
        takes = ap (λ o. o >>= λ i. some (bytes_of bytes_per_char i)) e;
      } in
      let (p', set, got, w) =
        get_int_field-set_int_field bytes_per_char cols l f at 4 p slot (pos 0) fits made small
          field v (omega arith) in
      (p', set, IsWritten-SameFlags bytes_per_char l slot f p p' w)
  format_type slot f at k p varchar e e' v small =
      let n : ℕ = bytes_of bytes_per_char (record { type = varchar; length = k }) in
      let field : IsField bytes_per_char l f at n = record {
        here = e';
        takes = ap (λ o. o >>= λ i. some (bytes_of bytes_per_char i)) e;
      } in
      let big : 4 ≤ n = made_bytes bytes_per_char cols l f n fits made field.takes in
      let (p', set, got, w) =
        get_string-set_string bytes_per_char cols l f at n p slot [] fits made small field tt
          (omega arith) v in
      (p', set, IsWritten-SameFlags bytes_per_char l slot f p p' w)

  format_fields-Formats :
      (slot : ℕ) (fields : List String) (p : Page)
      → All (λ f. IsKnown l.schema.info f) fields
      → All (λ f. IsKnown l.offsets f) fields
      → IsSlot l p slot
      → p.size < 2 ^ 31
      → Formats p (format_fields l slot fields p)
  unfolding format_fields
  format_fields-Formats slot [] p known known' v small =
      (p, refl, record { size = refl; flag = λ t. refl })
  format_fields-Formats slot (f ∷ fields) p ((i, e), known) ((at, e'), known') v small =
      let (p1, e1, s1) = format_type slot f at i.length p i.type e e' v small in
      let (p2, e2, s2) =
        format_fields-Formats slot fields p1 known known' (omega (arith, s1.size, v))
          (omega (arith, s1.size, small)) in
      (
        p2,
        ap (λ o. o >>= λ j. format_field l slot f j p >>= λ q. format_fields l slot fields q) e
            ∙ ap (λ o. o >>= λ q. format_fields l slot fields q) e1
            ∙ e2,
        SameFlags-trans l p p1 p2 s1 s2,
      )

  -- What the layout knows of its fields.
  made-IsKnown :
      All (λ f. IsKnown l.schema.info f) l.schema.fields
      × All (λ f. IsKnown l.offsets f) l.schema.fields
      × (4 ≤ l.slotsize)
  made-IsKnown =
      let (l', e, schema, known, placed, room, ends) =
        layout_of-IsPlaced bytes_per_char cols fits in
      let same : l' ≡ l = ground (arith, e, made) in
      subst
        (λ k.
          All (λ f. IsKnown k.schema.info f) k.schema.fields
          × All (λ f. IsKnown k.offsets f) k.schema.fields
          × (4 ≤ k.slotsize))
        same
        (
          subst (λ sch. All (λ f. IsKnown sch.info f) sch.fields) (sym schema)
              (add_columns-IsKnown cols new_schema tt),
          known,
          room,
        )

  format_slot-IsEmpty :
      (slot : ℕ) (p : Page)
      → IsSlot l p slot
      → p.size < 2 ^ 31
      → (p' : Page) × (format_slot l slot p ≡ some p')
        × (p'.size ≡ p.size)
        × HasFlag l p' slot empty
        × ((t : ℕ) → t ≢ slot → get_int (place l t) p' ≡ get_int (place l t) p)
  format_slot-IsEmpty slot p v small =
      let (known, known', room) = made-IsKnown in
      let (p1, e1, marked) = set_flag-IsMarked l p room slot empty v (omega arith) small in
      let (p2, e2, s2) =
        format_fields-Formats slot l.schema.fields p1 known known' (omega (arith, marked.size, v))
          (omega (arith, marked.size, small)) in
      (
        p2,
        ap (λ o. o >>= λ q. format_fields l slot l.schema.fields q) e1 ∙ e2,
        s2.size ∙ marked.size,
        s2.flag slot ∙ marked.has,
        λ t differ. s2.flag t ∙ marked.others t differ,
      )

  -- What `format` has done from a slot on.
  record IsFormatted (slot : ℕ) (p p' : Page) : Type 0 where
    size : p'.size ≡ p.size
    before : (t : ℕ) → t < slot → get_int (place l t) p' ≡ get_int (place l t) p
    behind : (t : ℕ) → slot ≤ t → IsSlot l p t → HasFlag l p' t empty

  format_end :
      (fuel slot : ℕ) (p : Page)
      → p.size < place l (suc slot)
      → place l (suc slot) < 2 ^ 31
      → format_from l (suc fuel) slot p ≡ some p
  unfolding format_from
  format_end fuel slot p out small = rw (format_from, is_valid_slot-behind l p slot out small) refl

  format_more :
      (fuel slot : ℕ) (p p' : Page)
      → IsSlot l p slot
      → p.size < 2 ^ 31
      → format_slot l slot p ≡ some p'
      → format_from l (suc fuel) slot p ≡ format_from l fuel (suc slot) p'
  unfolding format_from
  format_more fuel slot p p' v small e =
      rw (format_from, is_valid_slot-IsSlot l p slot small v, e) refl

  format_from-IsFormatted :
      (fuel slot : ℕ) (p : Page)
      → 0 < fuel
      → p.size < fuel + slot
      → p.size + l.slotsize < 2 ^ 31
      → place l (suc slot) < 2 ^ 31
      → (p' : Page) × (format_from l fuel slot p ≡ some p') × IsFormatted slot p p'
  format_from-IsFormatted zero slot p some_left enough small fit = absurd (omega arith)
  format_from-IsFormatted (suc fuel) slot p some_left enough small fit =
      elim (dec_lt p.size (place l (suc slot))) [
        | yes out ↦ (
          p,
          format_end fuel slot p out fit,
          record {
            size = refl;
            before = λ t lt. refl;
            behind = λ t le v. absurd (omega (arith, place_le l (suc slot) (suc t) (omega arith)));
          },
        )
        | no inside ↦
            let v : IsSlot l p slot = omega arith in
            let (p1, e1, size1, has1, others1) = format_slot-IsEmpty slot p v (omega arith) in
            let (p2, e2, done) =
              format_from-IsFormatted fuel (suc slot) p1
                (omega (arith, slot_le l (suc slot) (made-IsKnown.2))) (omega (arith, size1))
                (omega (arith, size1)) (omega (arith, place_step l (suc slot))) in
            (
              p2,
              format_more fuel slot p p1 v (omega arith) e1 ∙ e2,
              record {
                size = done.size ∙ size1;
                before = λ t lt. done.before t (omega arith) ∙ others1 t (omega arith);
                behind = λ t le w. elim (dec_lt slot t) [
                  | yes later ↦ done.behind t later (omega (arith, size1))
                  | no not_later ↦
                      let same : slot ≡ t = omega arith in
                      subst (λ (k : ℕ). HasFlag l p2 k empty) same
                        (done.before slot (omega arith) ∙ has1)
                ];
              },
            )
      ]

-- For a layout made from columns whose lengths add up to less than 2^31, `format` ends without an
-- exception on any page that is less than 2^31 bytes with a slot more, and every slot that is in the
-- page is empty after that.
pub format-IsEmpty :
    (bytes_per_char : ℕ) (cols : List (String × FieldInfo)) (l : Layout) (p : Page)
    → IsSmall bytes_per_char (add_columns cols new_schema)
    → layout_of bytes_per_char (add_columns cols new_schema) ≡ some l
    → p.size + l.slotsize < 2 ^ 31
    → (p' : Page) × (format l p ≡ some p')
      × (p'.size ≡ p.size)
      × ((t : ℕ) → IsSlot l p' t → HasFlag l p' t empty)
format-IsEmpty bytes_per_char cols l p fits made small =
    let (p', e, done) =
      format_from-IsFormatted bytes_per_char cols l fits made (suc p.size) 0 p (omega arith)
        (omega arith) small (omega arith) in
    (p', e, done.size, λ t v. done.behind t (omega arith) (omega (arith, done.size, v)))
