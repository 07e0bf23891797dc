-- ===== src/Docs/Results/Search.antt =====
-- `SearchResults.Search` of html/search/search.js.
use database_system_swe.Base.{
  ℕ, ◌+◌, Bool, false, ◌&&◌, List, [], ◌∷◌, if◌then◌else◌, nat_beq, leb, ◌==◌,
}
use database_system_swe.Docs.Text.{Text, text, text_eq, is_blank, strip_leading, strip_trailing}
use database_system_swe.Docs.Ids.{convert_to_id, has_prefix}
use database_system_swe.Docs.Dom.{Display, block, hidden}

-- `String.toLowerCase` and `unescape`, which the browser provides.
pub record Browser : Type 0 where
  pub to_lower : Text → Text
  pub unescape : Text → Text

-- The fields of `SearchResults`.
pub record SearchResults : Type 0 where
  pub last_match_count : ℕ
  pub last_key : ℕ
  pub repeat_on : Bool

abbrev pub new_results : SearchResults
new_results = record { last_match_count = 0; last_key = 0; repeat_on = false }

-- A DIV of the page.
pub record Div : Type 0 where
  pub id : Text
  pub class_name : Text
  pub display : Display

-- The page: its DIVs of the rows, and the two that tell how the search stands.
pub record Page : Type 0 where
  pub divs : List Div
  pub searching : Display
  pub no_matches : Display

abbrev pub is_digit : ℕ → Bool
is_digit c = leb b'0' c && leb c b'9'

-- The rest of the pattern `\d*_`, or `whole` where it does not match.
unfoldable pub after_digits : Text → Text → Text
after_digits whole [] = whole
after_digits whole (c ∷ s) =
    let more = after_digits whole s in
    if is_digit c then more else if nat_beq c b'_' then s else whole

-- `name.replace(/^sr\d*_/, '')`
unfoldable pub strip_row_prefix : Text → Text
strip_row_prefix [] = []
strip_row_prefix (a ∷ []) = a ∷ []
strip_row_prefix (a ∷ b ∷ s) =
    if nat_beq a b's' && nat_beq b b'r' then after_digits (a ∷ b ∷ s) s else a ∷ b ∷ s

-- `location.substring(1)`
abbrev pub drop_first : Text → Text
drop_first [] = []
drop_first (c ∷ s) = s

abbrev pub is_result : Div → Bool
is_result row = row.class_name == text "SRResult"

module _ (browser : Browser) where
  -- The identifier that a query is turned into; an empty one comes from the location's query part.
  unfoldable pub wanted_id : Text → Text → Text
  wanted_id search location =
      let given = if is_blank search then browser.unescape (drop_first location) else search in
      convert_to_id (browser.to_lower (strip_trailing (strip_leading given)))

  abbrev pub is_match : Text → Div → Bool
  is_match search row = has_prefix search (strip_row_prefix (browser.to_lower row.id))

  -- One round of the loop over the DIVs.
  abbrev pub filter_row : Text → Div → Div
  filter_row search row =
      if is_result row
      then record row { display = if is_match search row then block else hidden }
      else row

  -- The loop: the rows, and the count of the matches.
  unfoldable pub filter_rows : Text → List Div → ℕ → List Div × ℕ
  filter_rows search [] matches = ([], matches)
  filter_rows search (row ∷ rows) matches =
      let rest =
        filter_rows search rows
          (if is_result row && is_match search row then matches + 1 else matches) in
      (filter_row search row ∷ rest.0, rest.1)

  unfoldable pub search_page : SearchResults → Page → Text → Text → SearchResults × Page
  search_page results page search location =
      let found = filter_rows (wanted_id search location) page.divs 0 in
      (
        record results { last_match_count = found.1 },
        record {
          divs = found.0;
          searching = hidden;
          no_matches = if nat_beq found.1 0 then block else hidden;
        },
      )
