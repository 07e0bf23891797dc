-- ===== src/Docs/PanelTests.antt =====
-- Tests and examples for the search panel, html/search/search.js.
use database_system_swe.Base.{◌≤◌, pos, true, false, none, [], ◌∷◌, ◌≡◌, refl, arith}
use database_system_swe.Docs.Text.{text, strip_leading, remove_spaces, take, hex_rounds}
use database_system_swe.Docs.Dom.{unset, block, hidden}
use database_system_swe.Docs.SearchBox.Page.{
  Popup, Placed, Places, State, SelectChild, bullet, blank, nowhere, field, active, inactive,
  new_search_box, sum_left, sum_top, drop_timer,
}
use database_system_swe.Docs.SearchBox.Panel.{
  activate, close_selection_window, on_search_select_show, count_items, mark_items,
  select_item_count,
}
use database_system_swe.Docs.SearchBox.Search.{
  Host, index_from, find_target, search, search_value, on_select_item, on_search_select_key,
  init_search,
}
use database_system_swe.Docs.SearchBox.Field.{kill_timer, first_item, on_search_field_change}
use database_system_swe.Docs.SearchBox.Timers.{searches, type_keys, type_keys_one_search}
use database_system_swe.Docs.SearchBox.Selection.{
  marks, marks_for, items_in, marks-mark_items, search_opens,
}
use database_system_swe.Docs.SearchBox.SelectKeys.{
  on_search_select_key-index_le, on_search_select_key_overruns, escape_resets,
}

program : Unit {0}
unfolding strip_leading remove_spaces take hex_rounds sum_left sum_top drop_timer activate
    close_selection_window on_search_select_show count_items mark_items index_from find_target
    search on_select_item on_search_select_key init_search first_item on_search_field_change
    type_keys
program = tt

abbrev host : Host
host = record { to_lower = λ s. s; escape = λ s. s; exceeds_one = λ s. false }

abbrev placed : Placed
placed = record {
  offset_width = 10;
  offset_height = 4;
  offsets = (pos 3, pos 5) ∷ (pos 100, pos 7) ∷ [];
}

abbrev places : Places
places = record {
  search_select = placed;
  search_box = placed;
  select_window_width = 60;
  results_width = 200;
  client_width = 800;
}

abbrev popup : Popup
popup = record { display = unset; left = pos 0; top = pos 0; width = pos 0 }

abbrev item_of_menu : SelectChild
item_of_menu = record { is_item = true; mark = blank }

abbrev fresh : State
fresh = record {
  box = new_search_box (text "search") false (text "Search");
  page = record {
    field_value = text "Search";
    focus = nowhere;
    box_class = inactive;
    close_button = unset;
    select_window = popup;
    select_children = [];
    results_window = popup;
    location = [];
    frame_rows = none;
    timers = [];
    next_timer = 1;
  };
}

-- The panel once the menu is built, the field has the focus and a text is typed.
abbrev typed : State
typed = record {
  box = record (fresh.box) { search_index = 2; search_active = true };
  page = record (fresh.page) {
    field_value = text "pin";
    focus = field;
    box_class = active;
    select_children = item_of_menu ∷ item_of_menu ∷ item_of_menu ∷ [];
  };
}

menu_built :
    (init_search host places fresh).state.page.select_children
    ≡ record { is_item = true; mark = bullet } ∷ item_of_menu ∷ item_of_menu ∷ []
unfolding program
menu_built = refl

search_page_of : (search host places typed).state.page.location ≡ text "search/functions_e.html?pin"
unfolding program
search_page_of = refl

type_keys_example :
    (searches
        (type_keys places ((text "p", 80, false) ∷ (text "pi", 73, false) ∷ []) fresh).page.timers
      ≤ 1)
    × (searches
          (kill_timer (
            type_keys places
              ((text "p", 80, false) ∷ (text "pi", 73, false) ∷ [])
              fresh)).page.timers
        ≡ 0)
type_keys_example =
    type_keys_one_search places ((text "p", 80, false) ∷ (text "pi", 73, false) ∷ []) fresh refl
      (omega arith)

one_item_marked :
    (marks (mark_items 1 0 typed.page.select_children)
      ≡ marks_for 1 0 (items_in typed.page.select_children))
    × (items_in (mark_items 1 0 typed.page.select_children) ≡ items_in typed.page.select_children)
one_item_marked = marks-mark_items 1 0 typed.page.select_children

search_opens_example :
    ((search host places typed).throws ≡ false)
    × ((search host places typed).state.page.results_window.display ≡ block)
    × ((search host places typed).state.box.key_timeout ≡ 0)
    × ((search host places typed).state.box.last_search_value ≡ search_value host typed)
    × ((search host places typed).state.page.field_value ≡ typed.page.field_value)
    × ((search host places typed).state.box.search_index ≡ typed.box.search_index)
search_opens_example = search_opens host places typed (omega arith)

key_40_within :
    (on_search_select_key host places 40 typed).state.box.search_index
    ≤ select_item_count (on_search_select_key host places 40 typed).state.page
unfolding program
key_40_within = on_search_select_key-index_le host places 40 typed (omega arith)

overruns_example :
    ((on_search_select_key host places 40 typed).state.box.search_index ≡ 3)
    × ((on_search_select_key host places 40 typed).throws ≡ true)
unfolding program
overruns_example = on_search_select_key_overruns host places typed refl refl refl refl

escape_example :
    ((on_search_field_change places 27 false typed).page.results_window.display ≡ hidden)
    × ((on_search_field_change places 27 false typed).page.close_button ≡ hidden)
    × ((on_search_field_change places 27 false typed).page.field_value ≡ text "Search")
    × ((on_search_field_change places 27 false typed).page.box_class ≡ inactive)
    × ((on_search_field_change places 27 false typed).box.search_active ≡ false)
    × ((on_search_field_change places 27 false typed).box.last_search_value ≡ [])
    × ((on_search_field_change places 27 false typed).box.last_results_page ≡ [])
    × ((on_search_field_change places 27 false typed).box.key_timeout ≡ 0)
escape_example = escape_resets places false typed
