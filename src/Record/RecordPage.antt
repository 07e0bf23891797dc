-- ===== src/Record/RecordPage.antt =====
-- src/main/java/simpledb/record/RecordPage.java on the page of its block: `tx.getInt`, `tx.setInt` and
-- the like of the transaction that has pinned it. Its locks and its log records are not part of it. An
-- exception is `none`. An `int` that is computed is its 32 bits, as in Layout; a negative one is behind
-- every page. The slots of fields are not negative.
use database_system_swe.Base.{
  string_eq, ℕ, zero, suc, ◌+◌, ◌*◌, ◌^◌, ◌||◌, ℤ, pos, negsuc, int_beq, Bool, true, false, Option,
  none, some, List, [], ◌∷◌, leb, if◌then◌else◌, String,
}
use database_system_swe.Base.Assoc.{lookup}
use database_system_swe.Log.Page.{Page, get_int, set_int, ◌>>=◌}
use database_system_swe.Log.Page.Ascii.{get_text, set_text}
use database_system_swe.Record.Layout.{Layout, int32, FieldInfo, integer, varchar}

-- The flags of a slot: EMPTY and USED.
abbrev pub empty : ℕ
empty = 0

abbrev pub used : ℕ
used = 1

-- The private `offset`.
unfoldable pub offset : Layout → ℕ → ℕ
offset layout slot = int32 (slot * layout.slotsize)

-- A negative offset is below every block size.
unfoldable pub is_valid_slot : Layout → Page → ℕ → Bool
unfolding offset
is_valid_slot layout p slot =
    leb (2 ^ 31) (offset layout (suc slot)) || leb (offset layout (suc slot)) p.size

-- Where a field of a slot is.
abbrev pub field_pos : Layout → ℕ → String → Option ℕ
field_pos layout slot fldname =
    lookup fldname layout.offsets >>= λ o. some (int32 (offset layout slot + o))

unfoldable pub get_int_field : Layout → ℕ → String → Page → Option ℤ
get_int_field layout slot fldname p = field_pos layout slot fldname >>= λ i. get_int i p

-- `getString` and `setString`
unfoldable pub get_string : Layout → ℕ → String → Page → Option (List ℕ)
get_string layout slot fldname p = field_pos layout slot fldname >>= λ i. get_text i p

unfoldable pub set_int_field : Layout → ℕ → String → ℤ → Page → Option Page
set_int_field layout slot fldname v p = field_pos layout slot fldname >>= λ i. set_int i v p

unfoldable pub set_string : Layout → ℕ → String → List ℕ → Page → Option Page
set_string layout slot fldname v p = field_pos layout slot fldname >>= λ i. set_text i v p

abbrev pub set_flag : Layout → ℕ → ℕ → Page → Option Page
set_flag layout slot flag p = set_int (offset layout slot) (pos flag) p

abbrev pub delete : Layout → ℕ → Page → Option Page
delete layout slot p = set_flag layout slot empty p

-- The loop of `searchAfter`, from a slot on. `none`: an exception, or the fuel ran out.
unfoldable pub search_from : Layout → ℕ → Page → ℕ → ℕ → Option ℤ
search_from layout flag p zero slot = none
search_from layout flag p (suc fuel) slot =
    let rest = search_from layout flag p fuel (suc slot) in
    if is_valid_slot layout p slot
    then (get_int (offset layout slot) p >>= λ f.
        if int_beq f (pos flag) then some (pos slot) else rest)
    else some (negsuc 0)

-- `slot++`. Below -1 the loop first looks before the page, which is an exception.
abbrev pub after : ℤ → Option ℕ
after (pos slot) = some (suc slot)
after (negsuc zero) = some 0
after (negsuc (suc n)) = none

-- A slot has at least the four bytes of its flag, so that fewer slots than the page has bytes are
-- valid.
abbrev pub search_after : Layout → ℕ → Page → ℤ → Option ℤ
search_after layout flag p slot = after slot >>= λ s. search_from layout flag p (suc p.size) s

abbrev pub next_after : Layout → Page → ℤ → Option ℤ
next_after layout p slot = search_after layout used p slot

-- Marks the slot that was found, if there is one.
abbrev pub mark_found : Layout → ℤ → Page → Option (ℤ × Page)
mark_found layout (pos slot) p = set_flag layout slot used p >>= λ p'. some (pos slot, p')
mark_found layout (negsuc n) p = some (negsuc n, p)

unfoldable pub insert_after : Layout → Page → ℤ → Option (ℤ × Page)
insert_after layout p slot = search_after layout empty p slot >>= λ found. mark_found layout found p

abbrev pub format_field : Layout → ℕ → String → FieldInfo → Page → Option Page
format_field layout slot f i p = elim i.type [
  | integer ↦ set_int_field layout slot f (pos 0) p
  | varchar ↦ set_string layout slot f [] p
]

-- The inner loop of `format`.
unfoldable pub format_fields : Layout → ℕ → List String → Page → Option Page
format_fields layout slot [] p = some p
format_fields layout slot (f ∷ fields) p = lookup f layout.schema.info >>= λ i.
    format_field layout slot f i p >>= λ p'. format_fields layout slot fields p'

-- One slot of `format`.
abbrev pub format_slot : Layout → ℕ → Page → Option Page
format_slot layout slot p =
    set_flag layout slot empty p >>= λ p'. format_fields layout slot layout.schema.fields p'

-- The loop of `format`, with fuel as in `search_from`.
unfoldable pub format_from : Layout → ℕ → ℕ → Page → Option Page
format_from layout zero slot p = none
format_from layout (suc fuel) slot p = elim (is_valid_slot layout p slot) [
  | true ↦ format_slot layout slot p >>= λ p'. format_from layout fuel (suc slot) p'
  | false ↦ some p
]

abbrev pub format : Layout → Page → Option Page
format layout p = format_from layout (suc p.size) 0 p
