-- ===== src/Docs/Tests.antt =====
-- Tests and examples for the documentation's search, html/search/search.js.
use database_system_swe.Base.{
  ℕ, true, false, none, some, List, [], ◌∷◌, ◌++◌, map, ◌≡◌, refl, inr, arith, nat_beq,
  if◌then◌else◌,
}
use database_system_swe.Docs.Text.{
  Text, text, strip_leading, strip_trailing, remove_spaces, take, hex_rounds,
}
use database_system_swe.Docs.Ids.{convert_to_id, has_prefix, escape_unit, convert_from}
use database_system_swe.Docs.Ids.Prefix.{starts, prefix-convert_to_id, convert_to_id-injective}
use database_system_swe.Docs.Dom.{
  unset, block, hidden, walk, find_child_element, set_display, toggle, size,
}
use database_system_swe.Docs.Dom.Walk.{
  flipped, find_in, find_in_nodes, find_child_element-find_in_nodes, find_child_element-toggle,
}
use database_system_swe.Docs.Create.{
  Link, Entry, row_nodes, entry_nodes, child_links, decimal_rounds,
}
use database_system_swe.Docs.Create.Rows.{listed, shown, toggle-row_nodes}
use database_system_swe.Docs.Results.Search.{
  Browser, new_results, Page, filter_rows, search_page, strip_row_prefix, after_digits, wanted_id,
}
use database_system_swe.Docs.Results.Matches.{
  div_of, PageDiv, result, other, found, count_found, compared, search_page-found,
}
use database_system_swe.Docs.Results.Keys.{
  process_keys, key_event, keydown, keyup, presses, answers, all_true, answers-hold,
}
use database_system_swe.Docs.Results.Navigation.{
  Row, Target, item, link, nav, nav_child, nav_next, nav_next_from, nav_prev_from, last_link,
}
use database_system_swe.Docs.Results.Navigation.Steps.{
  IsNext, IsPrev, nav_next-IsNext, nav_prev_from-IsPrev,
}
use database_system_swe.Docs.Results.Navigation.Focus.{
  IsVisible, up_from, nav_down, nav_child_moves, nav_up, nav_up_unseen,
}

program : Unit {0}
unfolding strip_leading strip_trailing remove_spaces take hex_rounds escape_unit convert_from walk
    size set_display toggle find_child_element find_in entry_nodes child_links decimal_rounds
    filter_rows search_page strip_row_prefix after_digits wanted_id answers nav nav_child
    nav_next_from nav_prev_from last_link count_found process_keys
program = tt

convert_runs : convert_to_id (text "a_B 9") ≡ text "a_5f_42_209"
unfolding program
convert_runs = refl

prefix_example :
    has_prefix (convert_to_id (text "get_")) (convert_to_id (text "get_int"))
    ≡ starts (text "get_") (text "get_int")
prefix_example = prefix-convert_to_id (text "get_") (text "get_int") (omega arith) (omega arith)

one_text_one_id : text "a b" ≡ text "a b"
one_text_one_id = convert_to_id-injective (text "a b") (text "a b") (omega arith) (omega arith) refl

-- A browser for texts whose only capitals are those of the row prefix.
abbrev small : ℕ → ℕ
small c = if nat_beq c b'S' then b's' else if nat_beq c b'R' then b'r' else c

abbrev browser : Browser
browser = record { to_lower = map small; unescape = λ s. s }

abbrev rows : List PageDiv
rows =
    other (record { id = text "SRIndex"; class_name = []; display = unset })
    ∷ result (text "buffer") unset
    ∷ result (text "block") block
    ∷ other (record { id = []; class_name = text "SREntry"; display = unset })
    ∷ result (text "lexer") block
    ∷ []

abbrev page : Page
page = record { divs = map div_of rows; searching = block; no_matches = block }

search_runs : search_page browser new_results page (text " b ") [] ≡ (
  record new_results { last_match_count = 2 },
  record {
    divs = map div_of (map (found (text "b")) rows);
    searching = hidden;
    no_matches = hidden;
  },
)
unfolding program
search_runs = refl

search_page-found_example :
    let shown = count_found (compared browser (text "b")) rows in
    search_page browser new_results page (text "b") [] ≡ (
      record new_results { last_match_count = shown },
      record {
        divs = map div_of (map (found (compared browser (text "b"))) rows);
        searching = hidden;
        no_matches = if nat_beq shown 0 then block else hidden;
      },
    )
unfolding program
search_page-found_example =
    search_page-found browser new_results page (text "b") [] rows refl (omega arith)
      (refl, ((omega arith, refl), ((omega arith, refl), (refl, ((omega arith, refl), tt))))) refl

held_key_acts :
    answers new_results (key_event keydown 40 ∷ presses 3 40 ++ key_event keyup 40 ∷ [])
    ≡ true ∷ false ∷ all_true 2 ++ false ∷ []
held_key_acts = answers-hold new_results 2 40 (omega arith)

-- Three rows: the first shows its links, the second is hidden and has links, the third has none.
abbrev nav_rows : List Row
nav_rows =
    record { display = block; children = some (record { display = block; links = 2 }) }
    ∷ record { display = hidden; children = some (record { display = unset; links = 3 }) }
    ∷ record { display = block; children = none }
    ∷ []

later_row_is_found : IsNext nav_rows 1 (nav_next nav_rows 1)
later_row_is_found = nav_next-IsNext nav_rows 1

previous_row_is_found : IsPrev nav_rows 1 (nav_prev_from nav_rows 1)
previous_row_is_found = nav_prev_from-IsPrev nav_rows 1 (omega arith)

nav_down_example :
    IsVisible nav_rows (link 0 0)
    × ((nav new_results nav_rows (key_event keydown 40) 0).rows ≡ nav_rows)
    × ((nav new_results nav_rows (key_event keydown 40) 0).closes ≡ false)
unfolding program
nav_down_example = nav_down new_results nav_rows 0 (link 0 0) refl refl

up_from_a_link : IsVisible nav_rows (item 2)
unfolding program
up_from_a_link =
    nav_child_moves new_results nav_rows 0 1 40 (item 2) (refl, refl, refl) (inr refl) refl

zero_near : IsPrev nav_rows 1 (some 0)
unfolding program
zero_near = nav_prev_from-IsPrev nav_rows 1 (omega arith)

nav_up_example :
    ((nav new_results nav_rows (key_event keydown 38) 2).focus ≡ some (up_from nav_rows 2 (some 0)))
    × ((nav new_results nav_rows (key_event keydown 38) 2).rows ≡ nav_rows)
    × ((nav new_results nav_rows (key_event keydown 38) 2).closes ≡ false)
nav_up_example = nav_up new_results nav_rows 2 (some 0) (omega arith, zero_near)

nav_up_unseen_example :
    (t : Target) × ((nav new_results nav_rows (key_event keydown 38) 2).focus ≡ some t)
    × (¬ IsVisible nav_rows t)
nav_up_unseen_example =
    nav_up_unseen new_results nav_rows 1 0 (omega arith) refl (omega arith) zero_near refl

abbrev place : Text → Link
place s = record { href = s; parent = true; scope = [] }

abbrev entry : Entry
entry = record {
  id = text "close";
  name = text "close";
  links = place (text "a.html") ∷ place (text "b.html") ∷ [];
}

finds_a_child : find_child_element (row_nodes 10 0 entry) ≡ find_in_nodes (row_nodes 10 0 entry)
finds_a_child = find_child_element-find_in_nodes (row_nodes 10 0 entry)

entry_toggles :
    find_child_element (toggle (row_nodes 10 0 entry))
    ≡ flipped (find_child_element (row_nodes 10 0 entry))
entry_toggles = find_child_element-toggle (row_nodes 10 0 entry)

one_row_toggles :
    (find_child_element (row_nodes 10 0 entry) ≡ listed 10 entry.links)
    × (find_child_element (toggle (row_nodes 10 0 entry)) ≡ shown (listed 10 entry.links))
one_row_toggles = toggle-row_nodes 10 0 entry
