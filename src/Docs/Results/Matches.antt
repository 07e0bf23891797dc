-- ===== src/Docs/Results/Matches.antt =====
-- What `SearchResults.Search` (html/search/search.js) shows, for rows whose identifiers were made
-- from names.
use database_system_swe.Base.{
  ℕ, ◌+◌, false, List, [], ◌∷◌, ◌++◌, map, ◌≡◌, refl, ◌∙◌, ap, arith, if◌then◌else◌, nat_beq, All,
}
use database_system_swe.Docs.Text.{Text, text, text_eq, is_blank, strip_leading, strip_trailing}
use database_system_swe.Docs.Ids.{convert_to_id, has_prefix}
use database_system_swe.Docs.Ids.Prefix.{starts, Units, prefix-convert_to_id}
use database_system_swe.Docs.Dom.{Display, block, hidden}
use database_system_swe.Docs.Results.Search.{
  Browser, SearchResults, Div, Page, is_result, after_digits, strip_row_prefix, is_match, wanted_id,
  filter_rows, search_page,
}

-- A DIV of the page: the row of a member, by its name and as it is shown before the search, or
-- another one.
pub data PageDiv : Type 0 where
  result : Text → Display → PageDiv
  other : Div → PageDiv

abbrev pub div_of : PageDiv → Div
div_of (result name d) = record {
  id = text "SR_" ++ convert_to_id name;
  class_name = text "SRResult";
  display = d;
}
div_of (other div) = div

abbrev pub found : Text → PageDiv → PageDiv
found query (result name d) = result name (if starts query name then block else hidden)
found query (other div) = other div

unfoldable pub count_found : Text → List PageDiv → ℕ
count_found query [] = 0
count_found query (result name d ∷ divs) =
    let rest = count_found query divs in if starts query name then rest + 1 else rest
count_found query (other div ∷ divs) = count_found query divs

module _ (browser : Browser) where
  -- A name has 16-bit units. Its identifier has no capital but those of the prefix. The other DIVs
  -- are of another class.
  abbrev pub IsPageDiv : PageDiv → Type 0
  IsPageDiv (result name d) =
      Units name
      × (browser.to_lower (text "SR_" ++ convert_to_id name) ≡ text "sr_" ++ convert_to_id name)
  IsPageDiv (other div) = is_result div ≡ false

  -- The query as it is compared.
  abbrev pub compared : Text → Text
  compared query = browser.to_lower (strip_trailing (strip_leading query))

  strip_row_prefix-sr : (s : Text) → strip_row_prefix (text "sr_" ++ s) ≡ s
  unfolding strip_row_prefix after_digits
  strip_row_prefix-sr s = refl

  is_match-div_of :
      (query name : Text) (d : Display)
      → Units query
      → IsPageDiv (result name d)
      → is_match browser (convert_to_id query) (div_of (result name d)) ≡ starts query name
  is_match-div_of query name d hq (hn, low) =
      ap (λ s. has_prefix (convert_to_id query) (strip_row_prefix s)) low
      ∙ ap (has_prefix (convert_to_id query)) (strip_row_prefix-sr (convert_to_id name))
      ∙ prefix-convert_to_id query name hq hn

  filter_rows-found :
      (query : Text) (divs : List PageDiv) (matches : ℕ)
      → Units query
      → All IsPageDiv divs
      → filter_rows browser (convert_to_id query) (map div_of divs) matches
        ≡ (map div_of (map (found query) divs), matches + count_found query divs)
  unfolding filter_rows count_found
  filter_rows-found query [] matches hq h = ground arith
  filter_rows-found query (result name d ∷ divs) matches hq h = ground (
    arith,
    is_match-div_of query name d hq h.0,
    filter_rows-found query divs matches hq h.1,
    filter_rows-found query divs (matches + 1) hq h.1,
  )
  filter_rows-found query (other div ∷ divs) matches hq h =
      ground (arith, h.0, filter_rows-found query divs matches hq h.1)

  -- On a page whose DIVs of class SRResult carry identifiers made from names, among any others, a
  -- search for a text that is not empty shows exactly the rows whose name begins with the text as it
  -- is compared (without blanks at its ends, in small letters), leaves the other DIVs as they are,
  -- counts the rows it shows, hides the sign that a search is under way, and shows the sign of no match
  -- exactly if the count is zero; the keyboard state is kept.
  pub search_page-found :
      (results : SearchResults) (page : Page) (query location : Text) (divs : List PageDiv)
      → is_blank query ≡ false
      → Units (compared query)
      → All IsPageDiv divs
      → page.divs ≡ map div_of divs
      → let shown = count_found (compared query) divs in
        search_page browser results page query location ≡ (
          record results { last_match_count = shown },
          record {
            divs = map div_of (map (found (compared query)) divs);
            searching = hidden;
            no_matches = if nat_beq shown 0 then block else hidden;
          },
        )
  unfolding search_page wanted_id
  search_page-found results page query location divs given hq h e =
      ground (arith, filter_rows-found (compared query) divs 0 hq h)
