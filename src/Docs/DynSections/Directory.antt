-- ===== src/Docs/DynSections/Directory.antt =====
-- The table of classes in html/dynsections.js: `updateStripes`, `toggleLevel`, `toggleFolder`. The
-- page has one such table. A row's identifier is `row_` with the numbers of its place in the tree,
-- each with a `_`; the spans in it are its image, `img_…`, and its arrow, `arr_…`.
pub mod Paths
pub mod Tree
pub mod Shown
use database_system_swe.Base.{
  ℕ, zero, suc, ◌+◌, Bool, true, false, not, ◌&&◌, Option, none, some, List, [], ◌∷◌, ◌++◌, map,
  ◌≡◌, if◌then◌else◌, length, nat_beq, ltb, leb, ◌==◌,
}
use database_system_swe.Docs.Text.{Text, text, text_eq, is_blank}
use database_system_swe.Docs.Ids.{has_prefix}
use database_system_swe.Docs.Results.Search.{is_digit}
use database_system_swe.Docs.DynSections.JQuery.{JQuery}

pub record Row (E : Type 0) : Type 0 where
  pub row : E
  pub spans : List E

-- `id.split('_').length-1`
unfoldable pub underscores : Text → ℕ
underscores [] = 0
underscores (c ∷ s) = let rest = underscores s in if nat_beq c b'_' then suc rest else rest

-- `id.substring(3)`
abbrev pub after_three : Text → Text
after_three (a ∷ b ∷ c ∷ s) = s
after_three s = []

-- A letter's lower-case form, by which a pattern with the flag "i" compares.
abbrev pub fold_case : ℕ → ℕ
fold_case c = if leb b'A' c && leb c b'Z' then c + 32 else c

-- The rest of a text after a beginning that is equal but for the case of its letters.
unfoldable pub after_folded : Text → Text → Option Text
after_folded [] s = some s
after_folded (c ∷ prefix) [] = none
after_folded (c ∷ prefix) (d ∷ s) =
    let rest = after_folded prefix s in if nat_beq (fold_case c) (fold_case d) then rest else none

-- The pattern `\d*_$`.
unfoldable pub ends_number : Text → Bool
ends_number [] = false
ends_number (c ∷ s) =
    let rest = ends_number s in if is_digit c then rest else nat_beq c b'_' && is_blank s

-- The pattern `\d+_$`.
abbrev pub is_number : Text → Bool
is_number [] = false
is_number (c ∷ s) = is_digit c && ends_number s

abbrev pub matches_rest : Option Text → Bool
matches_rest none = false
matches_rest (some s) = is_number s

-- `id.match('^row_'+folder+'\\d+_$', "i")`, for a folder of digits and `_`.
abbrev pub is_sub : Text → Text → Bool
is_sub folder id = matches_rest (after_folded (text "row_" ++ folder) id)

module _ {E : Type 0} (q : JQuery E) where
  -- Every other visible row has the class `even`, from the first one on.
  unfoldable pub stripe : Bool → List (Row E) → List (Row E)
  stripe even [] = []
  stripe even (r ∷ rows) =
      let plain = q.remove_class (text "even") r.row in
      let visible = q.is_visible plain in
      record r { row = if visible && even then q.add_class (text "even") plain else plain }
      ∷ stripe (if visible then not even else even) rows

  abbrev pub update_stripes : List (Row E) → List (Row E)
  update_stripes rows = stripe true rows

  abbrev pub open_icon : E → E
  open_icon e = q.add_class (text "iconfopen") (q.remove_class (text "iconfclosed") e)

  abbrev pub closed_icon : E → E
  closed_icon e = q.add_class (text "iconfclosed") (q.remove_class (text "iconfopen") e)

  -- What a row whose identifier ends in `suffix` makes of a span: its image and its arrow are set
  -- open on a level above the last one, closed on the last one, and left on the others.
  abbrev pub mark_span : ℕ → Text → E → E
  mark_span level row_id span =
      let l = underscores row_id in
      if q.id span == text "img" ++ after_three row_id
      then if ltb l (level + 1)
        then q.add_class (text "iconfopen")
            (q.remove_class (text "iconfclosed") (q.remove_class (text "iconfopen") span))
        else if nat_beq l (level + 1)
        then q.add_class (text "iconfclosed")
            (q.remove_class (text "iconfopen") (q.remove_class (text "iconfclosed") span))
        else span
      else if q.id span == text "arr" ++ after_three row_id
      then if ltb l (level + 1)
        then q.html (text "&#9660;") span
        else if nat_beq l (level + 1)
        then q.html (text "&#9658;") span
        else span
      else span

  -- What all rows together make of a span.
  unfoldable pub mark_by : ℕ → List (Row E) → E → E
  mark_by level [] span = span
  mark_by level (r ∷ rows) span = mark_by level rows (mark_span level (q.id r.row) span)

  abbrev pub show_level : ℕ → E → E
  show_level level row = if ltb (level + 1) (underscores (q.id row)) then q.hide row else q.show row

  -- The loop over the rows; what a row changes of the spans and what it changes of itself do not
  -- touch each other.
  unfoldable pub toggle_level : ℕ → List (Row E) → List (Row E)
  toggle_level level rows = update_stripes (
      map (λ r. record { row = show_level level r.row; spans = map (mark_by level rows) r.spans })
        rows)

  -- `filter(".iconfopen")` and the like, with what is done to the spans that are left.
  abbrev pub on_class : Text → (E → E) → E → E
  on_class class change span = if q.has_class class span then change span else span

  abbrev pub close_arrow : E → E
  close_arrow span =
      on_class (text "arrow") (q.html (text "&#9658;"))
        (on_class (text "iconfopen") closed_icon span)

  abbrev pub open_arrow : E → E
  open_arrow span =
      on_class (text "arrow") (q.html (text "&#9660;"))
        (on_class (text "iconfclosed") open_icon span)

  -- Whether the first of the direct children shows.
  unfoldable pub first_sub_visible : Text → List (Row E) → Bool
  first_sub_visible folder [] = false
  first_sub_visible folder (r ∷ rows) =
      let later = first_sub_visible folder rows in
      if is_sub folder (q.id r.row) then q.is_visible r.row else later

  abbrev pub hide_below : Text → Row E → Row E
  hide_below folder r =
      if has_prefix (text "row_" ++ folder) (q.id r.row) then record r { row = q.hide r.row } else r

  abbrev pub show_sub : Text → Row E → Row E
  show_sub folder r =
      if is_sub folder (q.id r.row)
      then record { row = q.show r.row; spans = map close_arrow r.spans }
      else r

  -- What the clicked row and the rows after it come to.
  abbrev pub toggle_at : Text → Row E → List (Row E) → List (Row E)
  toggle_at folder r rows =
      if first_sub_visible folder rows
      then record r { spans = map close_arrow r.spans } ∷ map (hide_below folder) rows
      else record r { spans = map open_arrow r.spans } ∷ map (show_sub folder) rows

  -- Looks for the clicked row; where there is none, no row follows it.
  unfoldable pub toggle_from : Text → List (Row E) → List (Row E)
  toggle_from folder [] = []
  toggle_from folder (r ∷ rows) =
      let later = toggle_from folder rows in
      if q.id r.row == text "row_" ++ folder then toggle_at folder r rows else r ∷ later

  unfoldable pub toggle_folder : Text → List (Row E) → List (Row E)
  toggle_folder folder rows = update_stripes (toggle_from folder rows)
