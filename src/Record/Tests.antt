-- ===== src/Record/Tests.antt =====
-- Runs of src/main/java/simpledb/record on a page with two slots.
use database_system_swe.Base.{
  string_eq, ℕ, ◌*◌, ◌^◌, ◌<◌, All, ◌≤◌, pos, negsuc, Option, none, some, List, [], ◌∷◌, String,
  ◌≡◌, refl, arith,
}
use database_system_swe.Base.Assoc.{lookup, insert}
use database_system_swe.Log.Page.{
  Page, new_page, put, get_int, set_int, get_bytes, set_bytes, take_bytes, ◌>>=◌,
}
use database_system_swe.Log.Page.Ascii.{encode, decode, get_text, set_text}
use database_system_swe.Record.Layout.{
  FieldInfo, Layout, integer, varchar, new_schema, add_field, place_fields, layout_of,
}
use database_system_swe.Record.RecordPage.{
  search_from, offset, is_valid_slot, insert_after, next_after, delete, used, empty, format,
  format_from, format_fields, set_int_field, set_string, get_int_field, get_string,
}
use database_system_swe.Record.Flags.{IsFound, IsSlot, HasFlag}
use database_system_swe.Record.Search.{next_after-IsFound}
use database_system_swe.Record.Insert.{IsInserted, insert_after-IsInserted, delete-insert_after}
use database_system_swe.Record.Offsets.{IsSmall, add_columns, IsKnown, IsPlaced, layout_of-IsPlaced}
use database_system_swe.Record.Fields.{IsField, IsWritten}
use database_system_swe.Record.Format.{format-IsEmpty}
use database_system_swe.Record.Write.{get_int_field-set_int_field, get_string-set_string}

abbrev columns : List (String × FieldInfo)
columns =
    ("id", record { type = integer; length = 0 })
    ∷ ("name", record { type = varchar; length = 3 })
    ∷ []

abbrev layout : Layout
layout = record {
  schema = record { fields = "id" ∷ "name" ∷ []; info = columns };
  offsets = ("id", 4) ∷ ("name", 8) ∷ [];
  slotsize = 15;
}

lays_out : layout_of 1 (add_columns columns new_schema) ≡ some layout
unfolding layout_of place_fields add_field lookup insert
lays_out = refl

-- Two slots fit in the page.
abbrev page : Page
page = new_page 40

inserts_twice :
    (insert_after layout page (negsuc 0) >>= λ one. insert_after layout one.1 one.0 >>= λ two.
    insert_after layout two.1 two.0 >>= λ three. some (one.0 ∷ two.0 ∷ three.0 ∷ []))
    ≡ some (pos 0 ∷ pos 1 ∷ negsuc 0 ∷ [])
unfolding insert_after search_from offset is_valid_slot get_int set_int put
inserts_twice = refl

-- A formatted page whose second slot has a record.
abbrev filled : Option Page
filled = format layout page >>= λ p.
    set_int_field layout 1 "id" (negsuc 6) p >>= λ p1. set_string layout 1 "name" (97 ∷ 98 ∷ []) p1

reads_int : (filled >>= λ p. get_int_field layout 1 "id" p) ≡ some (negsuc 6)
unfolding format_from format_fields offset is_valid_slot set_text encode set_int_field set_string
    get_int_field get_int set_int set_bytes put lookup
reads_int = refl

reads_string : (filled >>= λ p. get_string layout 1 "name" p) ≡ some (97 ∷ 98 ∷ [])
unfolding format_from format_fields offset is_valid_slot set_text encode set_int_field set_string
    get_string get_text decode get_int set_int get_bytes set_bytes take_bytes put lookup
reads_string = refl

two_after_one : IsFound layout used page 0 (next_after layout page (negsuc 0))
two_after_one =
    next_after-IsFound layout page (negsuc 0) 0 (omega arith) (omega arith) (omega arith) refl

insert_after-IsInserted_example : IsInserted layout page 0 (insert_after layout page (negsuc 0))
insert_after-IsInserted_example =
    insert_after-IsInserted layout page (negsuc 0) 0 (omega arith) (omega arith) (omega arith) refl

abbrev with_record : Page
with_record = put 0 (0 ∷ 0 ∷ 0 ∷ 1 ∷ []) page

inserted : insert_after layout page (negsuc 0) ≡ some (pos 0, with_record)
unfolding insert_after search_from offset is_valid_slot get_int set_int
inserted = refl

deletes_what_it_inserts :
    (p : Page) × (delete layout 0 with_record ≡ some p)
    × ((t : ℕ) → get_int (t * 15) p ≡ get_int (t * 15) page)
deletes_what_it_inserts =
    delete-insert_after layout page with_record (negsuc 0) 0 0 (omega arith) (omega arith)
      (omega arith) refl inserted

columns-IsSmall : IsSmall 1 (add_columns columns new_schema)
unfolding add_field lookup insert
columns-IsSmall = ((omega arith, (omega arith, tt)), omega arith)

layout_of-IsPlaced_example :
    (l : Layout) × (layout_of 1 (add_columns columns new_schema) ≡ some l)
    × (l.schema ≡ add_columns columns new_schema)
    × All (λ f. IsKnown l.offsets f) l.schema.fields
    × IsPlaced 1 l.schema l.offsets l.slotsize
    × (4 ≤ l.slotsize)
    × (l.slotsize < 2 ^ 31)
layout_of-IsPlaced_example = layout_of-IsPlaced 1 columns columns-IsSmall

name-IsField : IsField 1 layout "name" 8 7
unfolding lookup
name-IsField = record { here = refl; takes = refl }

id-IsField : IsField 1 layout "id" 4 4
unfolding lookup
id-IsField = record { here = refl; takes = refl }

get_int_field-set_int_field_example :
    (p : Page) × (set_int_field layout 1 "id" (negsuc 6) page ≡ some p)
    × (get_int_field layout 1 "id" p ≡ some (negsuc 6))
    × IsWritten 1 layout 1 "id" page p
get_int_field-set_int_field_example =
    get_int_field-set_int_field 1 columns layout "id" 4 4 page 1 (negsuc 6) columns-IsSmall lays_out
      (omega arith) id-IsField (omega arith) (omega arith)

get_string-set_string_example :
    (p : Page) × (set_string layout 1 "name" (97 ∷ 98 ∷ []) page ≡ some p)
    × (get_string layout 1 "name" p ≡ some (97 ∷ 98 ∷ []))
    × IsWritten 1 layout 1 "name" page p
get_string-set_string_example =
    get_string-set_string 1 columns layout "name" 8 7 page 1 (97 ∷ 98 ∷ []) columns-IsSmall lays_out
      (omega arith) name-IsField (omega arith, (omega arith, tt)) (omega arith) (omega arith)

format-IsEmpty_example :
    (p : Page) × (format layout page ≡ some p)
    × (p.size ≡ 40)
    × ((t : ℕ) → IsSlot layout p t → HasFlag layout p t empty)
format-IsEmpty_example = format-IsEmpty 1 columns layout page columns-IsSmall lays_out (omega arith)

-- A string with another character is not read back.
asks :
    (set_string layout 1 "name" (233 ∷ []) page >>= λ p. get_string layout 1 "name" p)
    ≡ some (63 ∷ [])
unfolding offset set_text encode set_string get_string get_text decode get_int set_int get_bytes
    set_bytes take_bytes put lookup
asks = refl

-- A slot whose offset is negative counts as valid, and its flag is not in the page.
overflows : insert_after (record layout { slotsize = 5000 }) page (pos 500000) ≡ none
unfolding insert_after search_from offset is_valid_slot get_int set_int
overflows = refl
