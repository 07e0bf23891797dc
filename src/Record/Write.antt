-- ===== src/Record/Write.antt =====
-- `setInt` and `setString` of src/main/java/simpledb/record/RecordPage.java, and what `getInt` and
-- `getString` read after them.
use database_system_swe.Base.{
  string_eq, ℕ, ◌+◌, ◌*◌, ◌^◌, All, [], ◌∷◌, ◌==◌, Bool-cases, ◌<◌, ◌≤◌, ℤ, some, List, String,
  length, ◌≡◌, ◌⊎◌, inl, inr, ap, subst, ◌∙◌, arith,
}
use database_system_swe.Base.Assoc.{lookup}
use database_system_swe.Log.Page.{Page, get_int, set_int, ◌>>=◌}
use database_system_swe.Log.Page.Ascii.{
  get_text, set_text, IsAscii, set_text-IsAscii, get_text-IsAscii,
}
use database_system_swe.Log.Page.Within.{
  IsInt, with_word, with_word_size, set_int-with_word, get_int-with_word, with_word-byte,
  with_bytes, with_bytes_size, set_bytes-with_bytes, get_bytes-with_bytes, with_bytes-byte,
}
use database_system_swe.Record.Layout.{
  FieldType, integer, varchar, bytes_of, int32, length_in_bytes, Schema, FieldInfo, Layout,
  new_schema, layout_of,
}
use database_system_swe.Record.RecordPage.{
  offset, field_pos, get_int_field, set_int_field, get_string, set_string,
}
use database_system_swe.Record.Flags.{place, offset-place, IsSlot}
use database_system_swe.Record.Offsets.{
  IsPlaced, IsSmall, BytesFit, add_columns, layout_of-IsPlaced,
}
use database_system_swe.Record.Fields.{IsField, IsWritten, written, field_end}

made_layout :
    (bytes_per_char : ℕ) (cols : List (String × FieldInfo)) (l : Layout)
    → IsSmall bytes_per_char (add_columns cols new_schema)
    → layout_of bytes_per_char (add_columns cols new_schema) ≡ some l
    → IsPlaced bytes_per_char l.schema l.offsets l.slotsize
      × (4 ≤ l.slotsize)
      × (l.schema ≡ add_columns cols new_schema)
made_layout bytes_per_char cols l fits e =
    let (l', e', schema, known, placed, room, ends) = layout_of-IsPlaced bytes_per_char cols fits in
    let same : l' ≡ l = ground (arith, e, e') in
    subst
      (λ k.
        IsPlaced bytes_per_char k.schema k.offsets k.slotsize
        × (4 ≤ k.slotsize)
        × (k.schema ≡ add_columns cols new_schema))
      same (placed, room, schema)

type_bytes :
    (bytes_per_char k : ℕ) (t : FieldType)
    → 4 + k * bytes_per_char < 2 ^ 31
    → 4 ≤ bytes_of bytes_per_char (record { type = t; length = k })
type_bytes bytes_per_char k integer fit = omega arith
type_bytes bytes_per_char k varchar fit = omega arith

row_bytes :
    (bytes_per_char : ℕ) (f : String) (n : ℕ) (info : List (String × FieldInfo))
    → All (BytesFit bytes_per_char) info
    → (lookup f info >>= λ i. some (bytes_of bytes_per_char i)) ≡ some n
    → 4 ≤ n
unfolding lookup
row_bytes bytes_per_char f n [] fit e = absurd (ground (arith, e))
row_bytes bytes_per_char f n ((g, i) ∷ info) fit e = elim (Bool-cases (g == f)) [
  | inl same ↦ ground (arith, e, same, type_bytes bytes_per_char i.length i.type fit.0)
  | inr other ↦ row_bytes bytes_per_char f n info fit.1 (ground (arith, e, other))
]

-- A field has at least four bytes.
field_bytes :
    (bytes_per_char : ℕ) (sch sch' : Schema) (f : String) (n : ℕ)
    → IsSmall bytes_per_char sch
    → sch' ≡ sch
    → length_in_bytes bytes_per_char sch' f ≡ some n
    → 4 ≤ n
field_bytes bytes_per_char sch sch' f n fits same takes =
    row_bytes bytes_per_char f n sch.info fits.0
      (subst (λ k. length_in_bytes bytes_per_char k f ≡ some n) same takes)

pub made_bytes :
    (bytes_per_char : ℕ) (cols : List (String × FieldInfo)) (l : Layout) (f : String) (n : ℕ)
    → IsSmall bytes_per_char (add_columns cols new_schema)
    → layout_of bytes_per_char (add_columns cols new_schema) ≡ some l
    → length_in_bytes bytes_per_char l.schema f ≡ some n
    → 4 ≤ n
made_bytes bytes_per_char cols l f n fits made takes =
    let (placed, room, schema) = made_layout bytes_per_char cols l fits made in
    field_bytes bytes_per_char (add_columns cols new_schema) l.schema f n fits schema takes

field_pos_lem :
    (l : Layout) (slot : ℕ) (f : String) (at : ℕ)
    → lookup f l.offsets ≡ some at
    → place l slot + at < 2 ^ 32
    → field_pos l slot f ≡ some (place l slot + at)
field_pos_lem l slot f at e lt =
    ap (λ o. o >>= λ k. some (int32 (offset l slot + k))) e
    ∙ ap some (no_wrap (offset l slot) (offset-place l slot (omega arith)))
  where
    no_wrap : (o : ℕ) → o ≡ place l slot → int32 (o + at) ≡ place l slot + at
    no_wrap o same = omega arith

-- For a layout made from columns whose lengths add up to less than 2^31, and a page of less than 2^31
-- bytes: setting an int in a field of a slot that is in the page is no exception, the field has it
-- after that, and no flag and no other field of any slot has changed.
pub get_int_field-set_int_field :
    (bytes_per_char : ℕ) (cols : List (String × FieldInfo)) (l : Layout) (f : String) (at n : ℕ)
    (p : Page) (slot : ℕ) (v : ℤ)
    → IsSmall bytes_per_char (add_columns cols new_schema)
    → layout_of bytes_per_char (add_columns cols new_schema) ≡ some l
    → p.size < 2 ^ 31
    → IsField bytes_per_char l f at n
    → IsSlot l p slot
    → IsInt v
    → (p' : Page) × (set_int_field l slot f v p ≡ some p')
      × (get_int_field l slot f p' ≡ some v)
      × IsWritten bytes_per_char l slot f p p'
unfolding set_int_field get_int_field
get_int_field-set_int_field bytes_per_char cols l f at n p slot v fits made small_page field valid
      small =
    let (placed, room, schema) = made_layout bytes_per_char cols l fits made in
    let big : 4 ≤ n = made_bytes bytes_per_char cols l f n fits made field.takes in
    let i : ℕ = place l slot + at in
    let le : i + 4 ≤ p.size =
      omega (arith, field_end bytes_per_char l placed room slot f at n p field valid) in
    (
      with_word i v p,
      ap (λ o. o >>= λ k. set_int k v p) (field_pos_lem l slot f at field.here (omega arith))
          ∙ set_int-with_word i v p le,
      ap (λ o. o >>= λ k. get_int k (with_word i v p))
            (field_pos_lem l slot f at field.here (omega arith))
          ∙ get_int-with_word i v p small le,
      written bytes_per_char l placed room slot f at n p (with_word i v p) field
          (with_word_size i v p) (λ k out. with_word-byte i v p k (narrow i n k big out)),
    )
  where
    narrow : (i n k : ℕ) → 4 ≤ n → (k < i) ⊎ (i + n ≤ k) → (k < i) ⊎ (i + 4 ≤ k)
    narrow i n k le (inl h) = inl h
    narrow i n k le (inr h) = inr (omega arith)

-- For a layout made from columns whose lengths add up to less than 2^31, and a page of less than 2^31
-- bytes: setting a string of ASCII characters that is not longer than the field, in a slot that is in
-- the page, is no exception, the field has it after that, and no flag and no other field
-- of any slot has changed.
pub get_string-set_string :
    (bytes_per_char : ℕ) (cols : List (String × FieldInfo)) (l : Layout) (f : String) (at n : ℕ)
    (p : Page) (slot : ℕ) (b : List ℕ)
    → IsSmall bytes_per_char (add_columns cols new_schema)
    → layout_of bytes_per_char (add_columns cols new_schema) ≡ some l
    → p.size < 2 ^ 31
    → IsField bytes_per_char l f at n
    → IsAscii b
    → 4 + length b ≤ n
    → IsSlot l p slot
    → (p' : Page) × (set_string l slot f b p ≡ some p')
      × (get_string l slot f p' ≡ some b)
      × IsWritten bytes_per_char l slot f p p'
unfolding set_string get_string
get_string-set_string bytes_per_char cols l f at n p slot b fits made small_page field ascii big
      valid =
    let (placed, room, schema) = made_layout bytes_per_char cols l fits made in
    let i : ℕ = place l slot + at in
    let le : i + 4 + length b ≤ p.size =
      omega (arith, field_end bytes_per_char l placed room slot f at n p field valid) in
    (
      with_bytes i b p,
      ap (λ o. o >>= λ k. set_text k b p) (field_pos_lem l slot f at field.here (omega arith))
          ∙ set_text-IsAscii i b p ascii
          ∙ set_bytes-with_bytes i b p (omega arith) le,
      ap (λ o. o >>= λ k. get_text k (with_bytes i b p))
            (field_pos_lem l slot f at field.here (omega arith))
          ∙ get_text-IsAscii i b (with_bytes i b p) ascii
              (get_bytes-with_bytes i b p (omega arith) le),
      written bytes_per_char l placed room slot f at n p (with_bytes i b p) field
          (with_bytes_size i b p) (λ k out. with_bytes-byte i b p k (narrow i n k big out)),
    )
  where
    narrow :
        (i n k : ℕ) → 4 + length b ≤ n → (k < i) ⊎ (i + n ≤ k) → (k < i) ⊎ (i + 4 + length b ≤ k)
    narrow i n k le (inl h) = inl h
    narrow i n k le (inr h) = inr (omega arith)
