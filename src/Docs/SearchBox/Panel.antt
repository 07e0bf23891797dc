-- ===== src/Docs/SearchBox/Panel.antt =====
-- The methods of `SearchBox` (html/search/search.js) that open, close and reset the panel, and the
-- selection of a section.
use database_system_swe.Base.{
  ℕ, ◌+◌, ℤ, pos, ◌+ℤ◌, ◌-ℤ◌, Bool, true, false, not, ◌||◌, List, [], ◌∷◌, nat_beq, if◌then◌else◌,
  ◌==◌,
}
use database_system_swe.Docs.Text.{text_eq}
use database_system_swe.Docs.Dom.{hidden, block, is_block}
use database_system_swe.Docs.SearchBox.Page.{
  Page, Places, State, SelectChild, bullet, blank, Focus, field, nowhere, select_child, active,
  inactive, get_x_pos, get_y_pos, set_timeout, clear_timeout, close_selection,
}

abbrev pub open_panel : State → State
open_panel s =
    if s.page.field_value == s.box.search_label
    then record {
      box = record s.box { search_active = true };
      page = record s.page { box_class = active; field_value = [] };
    }
    else record s { page = record s.page { box_class = active } }

abbrev pub reset_panel : State → State
reset_panel s = record {
  box = record s.box { search_active = false; last_search_value = []; last_results_page = [] };
  page = record s.page { box_class = inactive; field_value = s.box.search_label };
}

-- `Activate`
unfoldable pub activate : Bool → State → State
activate is_active s =
    if is_active || is_block s.page.results_window.display
    then open_panel s
    else if not is_active
    then reset_panel s
    else s

-- `OnSearchFieldFocus`
abbrev pub on_search_field_focus : Bool → State → State
on_search_field_focus is_active s = activate is_active s

abbrev pub has_field_focus : Focus → Bool
has_field_focus field = true
has_field_focus nowhere = false
has_field_focus (select_child n) = false
has_field_focus (Focus.result_item n) = false

-- `DOMSearchField().blur()` and `.focus()`, with the handler that the page attaches to the event.
abbrev pub blur_field : State → State
blur_field s =
    if has_field_focus s.page.focus
    then on_search_field_focus false (record s { page = record s.page { focus = nowhere } })
    else s

-- `.focus()` of another element, which takes the focus from the field.
abbrev pub move_focus : Focus → State → State
move_focus target s =
    if has_field_focus s.page.focus
    then on_search_field_focus false (record s { page = record s.page { focus = target } })
    else record s { page = record s.page { focus = target } }

abbrev pub focus_field : State → State
focus_field s =
    if has_field_focus s.page.focus
    then s
    else on_search_field_focus true (record s { page = record s.page { focus = field } })

-- Hides the results window and its close button.
abbrev pub hide_results : Page → Page
hide_results p = record p {
  results_window = record p.results_window { display = hidden };
  close_button = hidden;
}

-- `CloseResultsWindow`
unfoldable pub close_results_window : State → State
unfolding activate
close_results_window s = activate false (record s { page = hide_results s.page })

-- `CloseSelectionWindow`
unfoldable pub close_selection_window : State → State
close_selection_window s = record s {
  page = record s.page { select_window = record s.page.select_window { display = hidden } };
}

abbrev pub select_left : Places → Bool → ℤ
select_left places inside =
    if inside
    then get_x_pos places.search_select
      +ℤ pos (places.search_select.offset_width + 6)
      -ℤ pos places.select_window_width
    else get_x_pos places.search_select

-- `OnSearchSelectShow`
unfoldable pub on_search_select_show : Places → State → State
on_search_select_show places s =
    let shown = record s.page {
      select_window = record s.page.select_window {
        display = block;
        left = select_left places s.box.inside_frame;
        top = get_y_pos places.search_select +ℤ pos places.search_select.offset_height;
      };
    } in
    if not (nat_beq s.box.hide_timeout 0)
    then record {
      box = record s.box { hide_timeout = 0 };
      page = clear_timeout s.box.hide_timeout shown;
    }
    else record s { page = shown }

-- `OnSearchSelectHide`
unfoldable pub on_search_select_hide : State → State
on_search_select_hide s =
    let t = set_timeout close_selection s.page in
    record { box = record s.box { hide_timeout = t.0 }; page = t.1 }

-- `SelectItemCount`
unfoldable pub count_items : List SelectChild → ℕ → ℕ
count_items [] count = count
count_items (child ∷ children) count =
    count_items children (if child.is_item then count + 1 else count)

abbrev pub select_item_count : Page → ℕ
select_item_count p = count_items p.select_children 0

-- `SelectItemSet`, with its counter of the items passed.
unfoldable pub mark_items : ℕ → ℕ → List SelectChild → List SelectChild
mark_items id j [] = []
mark_items id j (child ∷ children) =
    let rest = mark_items id (if child.is_item then j + 1 else j) children in
    if child.is_item
    then record child { mark = if nat_beq j id then bullet else blank } ∷ rest
    else child ∷ rest

abbrev pub select_item_set : ℕ → Page → Page
select_item_set id p = record p { select_children = mark_items id 0 p.select_children }
