-- ===== src/Docs/SearchBox/Field.antt =====
-- `SearchBox.OnSearchFieldChange` of html/search/search.js: the keys typed into the search field.
use database_system_swe.Base.{
  ℕ, ◌+◌, Bool, false, not, ◌||◌, Option, none, some, List, [], ◌∷◌, nat_beq, if◌then◌else◌, ◌==◌,
}
use database_system_swe.Docs.Text.{text_eq, is_blank, remove_spaces}
use database_system_swe.Docs.Results.Navigation.{nav_next}
use database_system_swe.Docs.SearchBox.Page.{
  Places, State, SelectChild, select_child, result_item, set_timeout, clear_timeout, run_search,
}
use database_system_swe.Docs.SearchBox.Panel.{
  activate, blur_field, move_focus, hide_results, on_search_select_show,
}

-- Kills the running timer.
abbrev pub kill_timer : State → State
kill_timer s =
    if not (nat_beq s.box.key_timeout 0)
    then record {
      box = record s.box { key_timeout = 0 };
      page = clear_timeout s.box.key_timeout s.page;
    }
    else s

-- The loop over the selection window: the first item, from position `i`.
unfoldable pub first_item : List SelectChild → ℕ → Option ℕ
first_item [] i = none
first_item (child ∷ children) i =
    let later = first_item children (i + 1) in if child.is_item then some i else later

abbrev pub open_selection : Places → State → State
open_selection places s =
    let shown = on_search_select_show places s in
    elim (first_item shown.page.select_children 0) [
      | none ↦ shown
      | some i ↦ move_focus (select_child i) shown
    ]

-- Moves the focus to the first result that shows, once the frame has its results.
abbrev pub go_to_results : State → State
go_to_results s = elim s.page.frame_rows [
  | none ↦ s
  | some rows ↦ elim (nav_next rows 0) [ none ↦ s | some i ↦ move_focus (result_item i) s ]
]

abbrev pub forget_search : State → State
forget_search s = record {
  box = record s.box { last_search_value = [] };
  page = hide_results s.page;
}

-- Escape: leaves the field and closes the panel.
abbrev pub escape_panel : State → State
escape_panel s = activate false (forget_search (blur_field s))

-- The last part: starts the timer of a new search, or hides the results of an empty one.
abbrev pub start_timer : State → State
start_timer s =
    let t = set_timeout run_search s.page in
    record { box = record s.box { key_timeout = t.0 }; page = t.1 }

abbrev pub value_changed : State → State
value_changed s =
    if not (remove_spaces s.page.field_value == s.box.last_search_value)
    then if not (is_blank (remove_spaces s.page.field_value))
      then start_timer s
      else forget_search s
    else s

-- `OnSearchFieldChange`, for a key code and whether the shift key is down.
unfoldable pub on_search_field_change : Places → ℕ → Bool → State → State
on_search_field_change places key shift s =
    let killed = kill_timer s in
    if nat_beq key 40 || nat_beq key 13
    then if shift then open_selection places killed else value_changed (go_to_results killed)
    else if nat_beq key 27
    then escape_panel killed
    else value_changed killed
