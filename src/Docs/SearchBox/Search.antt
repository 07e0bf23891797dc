-- ===== src/Docs/SearchBox/Search.antt =====
-- `SearchBox.Search` of html/search/search.js, and the handlers that start it.
use database_system_swe.Base.{
  ℕ, ◌+◌, ◌-◌, pos, ◌+ℤ◌, ◌-ℤ◌, Bool, true, false, not, ◌&&◌, ◌||◌, Option, none, some, List, [],
  ◌∷◌, ◌++◌, nat_beq, ltb, leb, get_elem?, if◌then◌else◌,
}
use database_system_swe.Docs.Text.{
  Text, text, text_eq, is_blank, strip_leading, remove_spaces, take, to_hex,
}
use database_system_swe.Docs.Dom.{block, inline, is_block}
use database_system_swe.Docs.Ids.Prefix.{starts}
use database_system_swe.Docs.SearchBox.Sections.{
  index_sections_with_content, index_section_names, index_section_labels,
}
use database_system_swe.Docs.SearchBox.Page.{
  Page, Places, SearchBox, State, SelectChild, blank, get_x_pos, get_y_pos,
}
use database_system_swe.Docs.SearchBox.Panel.{
  focus_field, close_selection_window, select_item_count, select_item_set,
}

-- What the language and the browser provide: `toLowerCase`, `escape`, and the test `s > 1` of a
-- text, which converts it to a number.
pub record Host : Type 0 where
  pub to_lower : Text → Text
  pub escape : Text → Text
  pub exceeds_one : Text → Bool

-- A call that ends, or one that throws a `TypeError`, with what it has done until then.
pub record Call : Type 0 where
  pub state : State
  pub throws : Bool

abbrev pub ends : State → Call
ends s = record { state = s; throws = false }

abbrev pub and_then : Call → (State → Call) → Call
and_then c k = if c.throws then c else k c.state

-- `section.indexOf(pattern)`, with `i` the position of the rest of the section.
unfoldable pub index_from : Text → Text → ℕ → Option ℕ
index_from pattern [] i = if is_blank pattern then some i else none
index_from pattern (c ∷ section) i =
    let later = index_from pattern section (i + 1) in
    if starts pattern (c ∷ section) then some i else later

-- The first unit of a text after `toLowerCase`, in the range of the high surrogates.
abbrev pub is_high : Text → Bool
is_high [] = false
is_high (code ∷ s) = leb 0xD800 code && leb code 0xDBFF

-- The address of the results, that address with the search in it, and whether there are any.
pub record Target : Type 0 where
  pub results_page : Text
  pub results_page_with_search : Text
  pub has_results_page : Bool

module _ (host : Host) where
  abbrev pub index_char : Text → Text
  index_char value =
      if is_high (host.to_lower value) && host.exceeds_one value
      then take 2 value
      else host.to_lower (take 1 value)

  abbrev pub target_at : SearchBox → Text → Text → Option ℕ → Target
  target_at box name value none =
      let address = box.results_path ++ text "/nomatches.html" in
      record {
        results_page = address;
        results_page_with_search = address;
        has_results_page = false;
      }
  target_at box name value (some idx) =
      let address = box.results_path ++ b'/' ∷ name ++ b'_' ∷ to_hex idx ++ text ".html" in
      record {
        results_page = address;
        results_page_with_search = address ++ b'?' ∷ host.escape value;
        has_results_page = true;
      }

  -- The first half of `Search`: nothing where the index names no section.
  unfoldable pub find_target : SearchBox → Text → Option Target
  find_target box value = elim (get_elem? index_sections_with_content box.search_index) [
    | none ↦ none
    | some section ↦ elim (get_elem? index_section_names box.search_index) [
      | none ↦ none
      | some name ↦ some (target_at box name value (index_from (index_char value) section 0))
    ]
  ]

  -- The second half: opens the results window where it does not show.
  abbrev pub show_results : Places → Bool → Page → Page
  show_results places inside p =
      if not (is_block p.results_window.display)
      then record p {
        close_button = inline;
        results_window =
            if inside
            then record p.results_window {
              display = block;
              width = pos places.client_width -ℤ pos 8;
            }
            else record p.results_window {
              display = block;
              top = get_y_pos places.search_box +ℤ pos 20;
              left = get_x_pos places.search_box +ℤ pos 150 -ℤ pos places.results_width;
            };
      }
      else p

  abbrev pub search_value : State → Text
  search_value s = strip_leading s.page.field_value

  -- `Search`
  unfoldable pub search : Places → State → Call
  search places s = elim (find_target s.box (search_value s)) [
    | none ↦ record { state = record s { box = record s.box { key_timeout = 0 } }; throws = true }
    | some t ↦ ends (record {
      box = record s.box {
        key_timeout = 0;
        last_search_value = search_value s;
        last_results_page = t.results_page;
      };
      page =
          show_results places s.box.inside_frame
            (record s.page { location = t.results_page_with_search });
    })
  ]

  -- `OnSelectItem`
  unfoldable pub on_select_item : Places → ℕ → State → Call
  on_select_item places id s =
      let chosen : State = record {
        box = record s.box { search_index = id };
        page = select_item_set id s.page;
      } in
      if not (is_blank (remove_spaces s.page.field_value)) && s.box.search_active
      then search places chosen
      else ends chosen

  -- `OnSearchSelectKey`; the key codes are those of Down, Up, Enter and Escape.
  unfoldable pub on_search_select_key : Places → ℕ → State → Call
  on_search_select_key places key s =
      if nat_beq key 40 && ltb s.box.search_index (select_item_count s.page)
      then on_select_item places (s.box.search_index + 1) s
      else if nat_beq key 38 && ltb 0 s.box.search_index
      then on_select_item places (s.box.search_index - 1) s
      else if nat_beq key 13 || nat_beq key 27
      then and_then (on_select_item places s.box.search_index s)
          (λ t. ends (focus_field (close_selection_window t)))
      else ends s

  -- The loop of `init_search`: one item for each label of a section.
  abbrev pub menu_items : List Text → List SelectChild
  menu_items [] = []
  menu_items (label ∷ labels) = record { is_item = true; mark = blank } ∷ menu_items labels

  -- `init_search`
  unfoldable pub init_search : Places → State → Call
  init_search places s = on_select_item places 0 (record s {
    page = record s.page {
      select_children = s.page.select_children ++ menu_items index_section_labels;
    };
  })
