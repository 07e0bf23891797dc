-- ===== src/Record/Layout.antt =====
-- src/main/java/simpledb/record/Schema.java and src/main/java/simpledb/record/Layout.java. A missing name is
-- an exception, `none`. The two SQL types are those that the parser makes. Lengths are not negative.
use database_system_swe.Base.{
  string_eq, ℕ, ◌+◌, ◌*◌, ◌%◌, ◌^◌, Option, some, List, [], ◌∷◌, ◌++◌, String,
}
use database_system_swe.Base.Assoc.{lookup, insert}
use database_system_swe.Log.Page.{◌>>=◌}

pub data FieldType : Type 0 where
  integer : FieldType
  varchar : FieldType

pub record FieldInfo : Type 0 where
  pub type : FieldType
  pub length : ℕ

pub record Schema : Type 0 where
  pub fields : List String
  pub info : List (String × FieldInfo)

abbrev pub new_schema : Schema
new_schema = record { fields = []; info = [] }

unfoldable pub add_field : String → FieldInfo → Schema → Schema
add_field fldname i sch = record {
  fields = sch.fields ++ fldname ∷ [];
  info = insert fldname i sch.info;
}

-- `addIntField` and `addStringField`.
abbrev pub add_int_field : String → Schema → Schema
add_int_field fldname sch = add_field fldname (record { type = integer; length = 0 }) sch

abbrev pub add_string_field : String → ℕ → Schema → Schema
add_string_field fldname n sch = add_field fldname (record { type = varchar; length = n }) sch

-- `add`: the field of another schema.
unfoldable pub add : String → Schema → Schema → Option Schema
add fldname from sch = lookup fldname from.info >>= λ i. some (add_field fldname i sch)

-- The loop of `addAll`.
unfoldable pub add_names : List String → Schema → Schema → Option Schema
add_names [] from sch = some sch
add_names (f ∷ fields) from sch = add f from sch >>= λ sch'. add_names fields from sch'

abbrev pub add_all : Schema → Schema → Option Schema
add_all from sch = add_names from.fields from sch

-- The result of an addition or a multiplication of `int`s, as its 32 bits: from 2^31 on it is negative.
abbrev pub int32 : ℕ → ℕ
int32 n = n % 2 ^ 32

-- `Page.maxLength`; `bytes_per_char` is what the encoder of the character set says.
abbrev pub max_length : ℕ → ℕ → ℕ
max_length bytes_per_char strlen = int32 (4 + strlen * bytes_per_char)

abbrev pub bytes_of : ℕ → FieldInfo → ℕ
bytes_of bytes_per_char i = elim i.type [
  | integer ↦ 4
  | varchar ↦ max_length bytes_per_char i.length
]

abbrev pub length_in_bytes : ℕ → Schema → String → Option ℕ
length_in_bytes bytes_per_char sch fldname =
    lookup fldname sch.info >>= λ i. some (bytes_of bytes_per_char i)

pub record Layout : Type 0 where
  pub schema : Schema
  pub offsets : List (String × ℕ)
  pub slotsize : ℕ

-- The loop of the constructor: the offsets, and the position behind the last field.
unfoldable pub place_fields :
    ℕ → Schema → List String → ℕ → List (String × ℕ) → Option (List (String × ℕ) × ℕ)
place_fields bytes_per_char sch [] at offsets = some (offsets, at)
place_fields bytes_per_char sch (f ∷ fields) at offsets =
    length_in_bytes bytes_per_char sch f >>= λ n.
    place_fields bytes_per_char sch fields (int32 (at + n)) (insert f at offsets)

unfoldable pub layout_of : ℕ → Schema → Option Layout
layout_of bytes_per_char sch = place_fields bytes_per_char sch sch.fields 4 [] >>= λ placed.
    some (record { schema = sch; offsets = placed.0; slotsize = placed.1 })
