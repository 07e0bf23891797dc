-- ===== src/Docs/Ids.antt =====
-- `convertToId` of html/search/search.js, and the comparison that `SearchResults.Search` makes with
-- its results.
pub mod Prefix
use database_system_swe.Base.{
  ℕ, ◌+◌, Bool, ◌&&◌, ◌||◌, List, [], ◌∷◌, ◌++◌, ltb, leb, nat_beq, if◌then◌else◌, length, ◌==◌,
}
use database_system_swe.Docs.Text.{Text, text_eq, to_hex, take}

-- `c.match(/[a-z0-9\u0080-\uFFFF]/)`
abbrev pub is_plain : ℕ → Bool
is_plain c = leb b'a' c && leb c b'z' || leb b'0' c && leb c b'9' || leb 128 c && leb c 65535

-- What one round of the loop adds to the result.
unfoldable pub escape_unit : ℕ → Text
escape_unit c =
    if is_plain c then c ∷ [] else if ltb c 16 then b'_' ∷ b'0' ∷ to_hex c else b'_' ∷ to_hex c

unfoldable pub convert_from : Text → Text → Text
convert_from result [] = result
convert_from result (c ∷ search) = convert_from (result ++ escape_unit c) search

abbrev pub convert_to_id : Text → Text
convert_to_id search = convert_from [] search

-- `search.length<=name.length && name.substr(0, search.length)==search`
abbrev pub has_prefix : Text → Text → Bool
has_prefix search name = leb (length search) (length name) && take (length search) name == search
