-- ===== src/Docs/SearchBox/SelectKeys.antt =====
-- The keys of the section menu and the Escape key of html/search/search.js.
use database_system_swe.Base.{ℕ, ◌+◌, ◌-◌, ◌≤◌, Bool, true, false, [], ◌≡◌, arith}
use database_system_swe.Docs.Text.{is_blank, remove_spaces}
use database_system_swe.Docs.Dom.{hidden}
use database_system_swe.Docs.SearchBox.Page.{Places, State, inactive, field}
use database_system_swe.Docs.SearchBox.Panel.{
  activate, focus_field, close_selection_window, select_item_count, select_item_set,
}
use database_system_swe.Docs.SearchBox.Field.{on_search_field_change}
use database_system_swe.Docs.SearchBox.Search.{Host, on_select_item, on_search_select_key}
use database_system_swe.Docs.SearchBox.Selection.{search_throws, on_select_item-index}

activate-keeps :
    (b : Bool) (s : State)
    → ((activate b s).box.search_index ≡ s.box.search_index)
      × ((activate b s).page.select_children ≡ s.page.select_children)
unfolding activate
activate-keeps b s = ground arith

focus_field-keeps :
    (s : State)
    → ((focus_field s).box.search_index ≡ s.box.search_index)
      × ((focus_field s).page.select_children ≡ s.page.select_children)
focus_field-keeps s =
    ground (arith, activate-keeps true (record s { page = record s.page { focus = field } }))

module _ (host : Host) (places : Places) where
  -- Each key of the menu keeps the section at most at the number of items, one past the last.
  pub on_search_select_key-index_le :
      (key : ℕ) (s : State)
      → s.box.search_index ≤ select_item_count s.page
      → let t = (on_search_select_key host places key s).state in
        t.box.search_index ≤ select_item_count t.page
  unfolding on_search_select_key close_selection_window
  on_search_select_key-index_le key s h = ground (
    arith,
    on_select_item-index host places (s.box.search_index + 1) s,
    on_select_item-index host places (s.box.search_index - 1) s,
    on_select_item-index host places s.box.search_index s,
    focus_field-keeps
        (close_selection_window (on_select_item host places s.box.search_index s).state),
  )

  on_select_item-throws :
      (id : ℕ) (s : State)
      → s.box.search_active ≡ true
      → is_blank (remove_spaces s.page.field_value) ≡ false
      → 3 ≤ id
      → (on_select_item host places id s).throws ≡ true
  unfolding on_select_item
  on_select_item-throws id s act full h = ground (
    arith,
    search_throws host places
        (record { box = record s.box { search_index = id }; page = select_item_set id s.page }) h,
  )

  -- With the three items of the menu, Down on the last one goes past it; if a search is active and
  -- the field holds more than blanks, the search that follows throws.
  pub on_search_select_key_overruns :
      (s : State)
      → select_item_count s.page ≡ 3
      → s.box.search_index ≡ 2
      → s.box.search_active ≡ true
      → is_blank (remove_spaces s.page.field_value) ≡ false
      → let r = on_search_select_key host places 40 s in
        (r.state.box.search_index ≡ 3) × (r.throws ≡ true)
  unfolding on_search_select_key
  on_search_select_key_overruns s count last act full = ground (
    arith,
    on_select_item-index host places (s.box.search_index + 1) s,
    on_select_item-throws (s.box.search_index + 1) s,
  )

-- Escape in the search field, in any state, closes the results and their button, puts the label
-- back into the field, forgets the search, and leaves the panel inactive.
pub escape_resets :
    (places : Places) (shift : Bool) (s : State)
    → let t = on_search_field_change places 27 shift s in
      (t.page.results_window.display ≡ hidden)
      × (t.page.close_button ≡ hidden)
      × (t.page.field_value ≡ s.box.search_label)
      × (t.page.box_class ≡ inactive)
      × (t.box.search_active ≡ false)
      × (t.box.last_search_value ≡ [])
      × (t.box.last_results_page ≡ [])
      × (t.box.key_timeout ≡ 0)
unfolding on_search_field_change activate
escape_resets places shift s = ground arith
