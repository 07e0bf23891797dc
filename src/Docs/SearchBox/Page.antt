-- ===== src/Docs/SearchBox/Page.antt =====
-- What the search panel of html/search/search.js reads and writes: its own fields, the elements of
-- the page, and the timers of the browser.
use database_system_swe.Base.{
  ℕ, ◌+◌, ℤ, pos, ◌+ℤ◌, Bool, false, Option, List, [], ◌∷◌, nat_beq, if◌then◌else◌,
}
use database_system_swe.Docs.Text.{Text}
use database_system_swe.Docs.Dom.{Display}
use database_system_swe.Docs.Results.Navigation.{Row}

-- An element with a place: its width and height, and the offsets (left, top) of itself and of its
-- offset parents below the body.
pub record Placed : Type 0 where
  pub offset_width : ℕ
  pub offset_height : ℕ
  pub offsets : List (ℤ × ℤ)

-- The loops of `getXPos` and `getYPos`.
unfoldable pub sum_left : ℤ → List (ℤ × ℤ) → ℤ
sum_left x [] = x
sum_left x (o ∷ offsets) = sum_left (x +ℤ o.0) offsets

unfoldable pub sum_top : ℤ → List (ℤ × ℤ) → ℤ
sum_top y [] = y
sum_top y (o ∷ offsets) = sum_top (y +ℤ o.1) offsets

abbrev pub get_x_pos : Placed → ℤ
get_x_pos p = if nat_beq p.offset_width 0 then pos 0 else sum_left (pos 0) p.offsets

abbrev pub get_y_pos : Placed → ℤ
get_y_pos p = if nat_beq p.offset_width 0 then pos 0 else sum_top (pos 0) p.offsets

-- What a timer runs.
pub data Callback : Type 0 where
  run_search close_selection : Callback

-- A child of the selection window; the mark of an item is the text of its first child.
pub data Mark : Type 0 where
  bullet blank : Mark

pub record SelectChild : Type 0 where
  pub is_item : Bool
  pub mark : Mark

-- Where the keyboard focus is.
pub data Focus : Type 0 where
  nowhere : Focus
  field : Focus
  select_child : ℕ → Focus
  result_item : ℕ → Focus

pub data BoxClass : Type 0 where
  active inactive : BoxClass

-- A popup window: whether it shows, and the position that the panel gives it.
pub record Popup : Type 0 where
  pub display : Display
  pub left : ℤ
  pub top : ℤ
  pub width : ℤ

pub record Page : Type 0 where
  pub field_value : Text
  pub focus : Focus
  pub box_class : BoxClass
  pub close_button : Display
  pub select_window : Popup
  pub select_children : List SelectChild
  pub results_window : Popup
  -- The results frame: its address, and its rows once its script has run.
  pub location : Text
  pub frame_rows : Option (List Row)
  pub timers : List (ℕ × Callback)
  pub next_timer : ℕ

-- The places of the elements when a popup is opened.
pub record Places : Type 0 where
  pub search_select : Placed
  pub search_box : Placed
  pub select_window_width : ℕ
  pub results_width : ℕ
  pub client_width : ℕ

-- The fields of `SearchBox`. 0 stands for no timer.
pub record SearchBox : Type 0 where
  pub results_path : Text
  pub key_timeout : ℕ
  pub last_search_value : Text
  pub last_results_page : Text
  pub hide_timeout : ℕ
  pub search_index : ℕ
  pub search_active : Bool
  pub inside_frame : Bool
  pub search_label : Text

-- The constructor.
abbrev pub new_search_box : Text → Bool → Text → SearchBox
new_search_box results_path in_frame label = record {
  results_path = results_path;
  key_timeout = 0;
  last_search_value = [];
  last_results_page = [];
  hide_timeout = 0;
  search_index = 0;
  search_active = false;
  inside_frame = in_frame;
  search_label = label;
}

pub record State : Type 0 where
  pub box : SearchBox
  pub page : Page

-- `setTimeout`: the number of the new timer, and the page with it. Numbers start at 1.
abbrev pub set_timeout : Callback → Page → ℕ × Page
set_timeout run p = (
  p.next_timer,
  record p { timers = (p.next_timer, run) ∷ p.timers; next_timer = p.next_timer + 1 },
)

unfoldable pub drop_timer : ℕ → List (ℕ × Callback) → List (ℕ × Callback)
drop_timer id [] = []
drop_timer id (timer ∷ timers) =
    let rest = drop_timer id timers in if nat_beq timer.0 id then rest else timer ∷ rest

-- `clearTimeout`
abbrev pub clear_timeout : ℕ → Page → Page
clear_timeout id p = record p { timers = drop_timer id p.timers }
