-- ===== src/Docs/Results/Navigation.antt =====
-- `NavNext`, `NavPrev`, `Nav` and `NavChild` of html/search/search.js. The page is seen through its
-- rows, `Item0`, `Item1` and so on in order.
pub mod Steps
pub mod Focus
use database_system_swe.Base.{
  ℕ, zero, suc, ◌+◌, ◌-◌, ℤ, pos, negsuc, Bool, true, false, not, ◌&&◌, Option, none, some, List,
  [], ◌∷◌, if◌then◌else◌, nat_beq, ltb, length, get_elem?, set,
}
use database_system_swe.Docs.Dom.{Display, block, hidden, is_block}
use database_system_swe.Docs.Results.Search.{SearchResults}
use database_system_swe.Docs.Results.Keys.{KeyEvent, process_keys}

-- The element of class SRChildren of a row, with the number of its links, `Item3_c0` and on.
pub record Children : Type 0 where
  pub display : Display
  pub links : ℕ

pub record Row : Type 0 where
  pub display : Display
  pub children : Option Children

abbrev pub row_shown : Option Row → Bool
row_shown none = false
row_shown (some row) = is_block row.display

abbrev pub children_of : Option Row → Option Children
children_of none = none
children_of (some row) = row.children

abbrev pub children_shown : Option Children → Bool
children_shown none = false
children_shown (some c) = is_block c.display

abbrev pub links_of : Option Children → ℕ
links_of none = 0
links_of (some c) = c.links

-- There is an element `Item<i>_c<n>`.
abbrev pub has_link : List Row → ℕ → ℕ → Bool
has_link rows i n = ltb n (links_of (children_of (get_elem? rows i)))

-- The loop of `NavNext`; each round but the last passes a row.
unfoldable pub nav_next_from : ℕ → List Row → ℕ → Option ℕ
nav_next_from zero rows index = none
nav_next_from (suc fuel) rows index =
    let further = nav_next_from fuel rows (index + 1) in
    elim (get_elem? rows index) [
      | none ↦ none
      | some row ↦ if is_block row.display then some index else further
    ]

abbrev pub nav_next : List Row → ℕ → Option ℕ
nav_next rows index = nav_next_from (suc (length rows)) rows index

-- The loop of `NavPrev`: there is no item with a negative index.
unfoldable pub nav_prev_from : List Row → ℕ → Option ℕ
nav_prev_from rows zero = if row_shown (get_elem? rows 0) then some 0 else none
nav_prev_from rows (suc index) =
    let further = nav_prev_from rows index in
    elim (get_elem? rows (suc index)) [
      | none ↦ none
      | some row ↦ if is_block row.display then some (suc index) else further
    ]

abbrev pub nav_prev : List Row → ℤ → Option ℕ
nav_prev rows (pos index) = nav_prev_from rows index
nav_prev rows (negsuc n) = none

-- What gets the focus.
pub data Target : Type 0 where
  search_field : Target
  item : ℕ → Target
  link : ℕ → ℕ → Target

-- The state after a key, what is focused if anything, whether the results window was closed, and
-- what the handler returns.
pub record Reply : Type 0 where
  pub results : SearchResults
  pub rows : List Row
  pub focus : Option Target
  pub closes : Bool
  pub returns : Bool

abbrev pub reply : SearchResults → List Row → Option Target → Reply
reply results rows focus = record {
  results = results;
  rows = rows;
  focus = focus;
  closes = false;
  returns = false;
}

-- The loop of `Nav` over `Item<i>_c0`, `Item<i>_c1` and on: the last one, or what had the focus.
unfoldable pub last_link : ℕ → List Row → ℕ → ℕ → Target → Target
last_link zero rows i n focus = focus
last_link (suc fuel) rows i n focus =
    let further = last_link fuel rows i (n + 1) (link i n) in
    if has_link rows i n then further else focus

abbrev pub go_up : List Row → ℕ → Option ℕ → Target
go_up rows new_index none = search_field
go_up rows new_index (some j) =
    if children_shown (children_of (get_elem? rows j))
    then last_link (suc (links_of (children_of (get_elem? rows new_index)))) rows new_index 0
        (item j)
    else item j

-- `itemIndex-1`
abbrev pub before : ℕ → ℤ
before zero = negsuc 0
before (suc i) = pos i

abbrev pub focus_item : Option ℕ → Option Target
focus_item none = none
focus_item (some j) = some (item j)

abbrev pub go_down : List Row → ℕ → Option Target
go_down rows i =
    if children_shown (children_of (get_elem? rows i)) && has_link rows i 0
    then some (link i 0)
    else focus_item (nav_next rows (i + 1))

-- Sets the display of the children of a row, if it has any.
abbrev pub with_children : List Row → ℕ → Display → List Row
with_children rows i d = elim (get_elem? rows i) [
  | none ↦ rows
  | some row ↦ elim row.children [
    | none ↦ rows
    | some c ↦ set rows i (record row { children = some (record c { display = d }) })
  ]
]

abbrev pub act : SearchResults → List Row → ℕ → Reply
act s rows i =
    if nat_beq s.last_key 38
    then reply s rows (some (go_up rows (i - 1) (nav_prev rows (before i))))
    else if nat_beq s.last_key 40
    then reply s rows (go_down rows i)
    else if nat_beq s.last_key 39
    then reply s (with_children rows i block) none
    else if nat_beq s.last_key 37
    then reply s (with_children rows i hidden) none
    else if nat_beq s.last_key 27
    then record {
      results = s;
      rows = rows;
      focus = some search_field;
      closes = true;
      returns = false;
    }
    else record {
      results = s;
      rows = rows;
      focus = none;
      closes = false;
      returns = nat_beq s.last_key 13;
    }

-- `Nav`, for an item of the page.
unfoldable pub nav : SearchResults → List Row → KeyEvent → ℕ → Reply
nav s rows e i =
    let keys = process_keys s e in
    if nat_beq e.key_code 13
    then record { results = s; rows = rows; focus = none; closes = false; returns = true }
    else if not keys.1
    then reply keys.0 rows none
    else act keys.0 rows i

abbrev pub act_child : SearchResults → List Row → ℕ → ℕ → Reply
act_child s rows i c =
    if nat_beq s.last_key 38
    then reply s rows (some (if ltb 0 c then link i (c - 1) else item i))
    else if nat_beq s.last_key 40
    then reply s rows (
        if has_link rows i (c + 1)
        then some (link i (c + 1))
        else focus_item (nav_next rows (i + 1)))
    else if nat_beq s.last_key 27
    then record {
      results = s;
      rows = rows;
      focus = some search_field;
      closes = true;
      returns = false;
    }
    else record {
      results = s;
      rows = rows;
      focus = none;
      closes = false;
      returns = nat_beq s.last_key 13;
    }

-- `NavChild`, for a link of the page.
unfoldable pub nav_child : SearchResults → List Row → KeyEvent → ℕ → ℕ → Reply
nav_child s rows e i c =
    let keys = process_keys s e in
    if nat_beq e.key_code 13
    then record { results = s; rows = rows; focus = none; closes = false; returns = true }
    else if not keys.1
    then reply keys.0 rows none
    else act_child keys.0 rows i c
