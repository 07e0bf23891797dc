-- ===== src/Docs/DynSections/Directory/Tree.antt =====
-- How the rows of the table in html/dynsections.js show: a list of identifiers, each with whether
-- its row shows.
use database_system_swe.Base.{
  Bool, true, false, not, ◌&&◌, ◌||◌, List, [], ◌∷◌, ◌++◌, map, ◌≡◌, refl, arith, if◌then◌else◌,
  ◌==◌,
}
use database_system_swe.Docs.Text.{Text, text, text_eq, text_beq_iff}
use database_system_swe.Docs.Ids.{has_prefix}
use database_system_swe.Docs.DynSections.Directory.{is_sub}
use database_system_swe.Docs.DynSections.Directory.Paths.{
  is_path, is_above, is_above-is_sub, is_above-has_prefix,
}

abbrev pub View : Type 0
View = List (Text × Bool)

-- A row that shows has a parent that shows.
abbrev pub parent_shows : Text × Bool → Text × Bool → Bool
parent_shows p c = not (is_above p.0 c.0 && c.1) || p.1

unfoldable pub shows_for : Text × Bool → View → Bool
shows_for p [] = true
shows_for p (c ∷ view) = let rest = shows_for p view in if parent_shows p c then rest else false

-- Every row that shows has each earlier row that is right above it shown.
unfoldable pub is_closed : View → Bool
is_closed [] = true
is_closed (p ∷ view) = let rest = is_closed view in if shows_for p view then rest else false

-- What `toggleFolder` does to the rows after the clicked one.
abbrev pub hide_view : Text → Text × Bool → Text × Bool
hide_view g c = if has_prefix (text "row_" ++ g) c.0 then (c.0, false) else c

abbrev pub show_view : Text → Text × Bool → Text × Bool
show_view g c = if is_sub g c.0 then (c.0, true) else c

-- Whether every row with the clicked identifier shows.
unfoldable pub clicked_shows : Text → View → Bool
clicked_shows g [] = true
clicked_shows g (p ∷ view) =
    let rest = clicked_shows g view in
    if p.0 == text "row_" ++ g then if p.1 then rest else false else rest

module _ (g : Text) where
  hide_row : (p c : Text × Bool) → parent_shows p c ≡ true → parent_shows p (hide_view g c) ≡ true
  hide_row p c h = ground (arith, h)

  hide_both :
      (p c : Text × Bool)
      → parent_shows p c ≡ true
      → parent_shows (hide_view g p) (hide_view g c) ≡ true
  hide_both p c h = ground (arith, h, is_above-has_prefix g p.0 c.0)

  shows_for-hide_row :
      (p : Text × Bool) (view : View)
      → shows_for p view ≡ true
      → shows_for p (map (hide_view g) view) ≡ true
  unfolding shows_for
  shows_for-hide_row p [] h = refl
  shows_for-hide_row p (c ∷ view) h = ground (arith, h, hide_row p c, shows_for-hide_row p view)

  shows_for-hide_both :
      (p : Text × Bool) (view : View)
      → shows_for p view ≡ true
      → shows_for (hide_view g p) (map (hide_view g) view) ≡ true
  unfolding shows_for
  shows_for-hide_both p [] h = refl
  shows_for-hide_both p (c ∷ view) h = ground (arith, h, hide_both p c, shows_for-hide_both p view)

  is_closed-hide : (view : View) → is_closed view ≡ true → is_closed (map (hide_view g) view) ≡ true
  unfolding is_closed
  is_closed-hide [] h = refl
  is_closed-hide (p ∷ view) h = ground (arith, h, shows_for-hide_both p view, is_closed-hide view)

  module _ (path : is_path g ≡ true) where
    show_row :
        (p c : Text × Bool)
        → clicked_shows g (p ∷ []) ≡ true
        → parent_shows p c ≡ true
        → parent_shows p (show_view g c) ≡ true
    unfolding clicked_shows
    show_row p c s h = ground (
      arith,
      s,
      h,
      λ (a : is_above p.0 c.0 ≡ true). is_above-is_sub g p.0 c.0 a path,
      text_beq_iff p.0 (text "row_" ++ g),
    )

    show_both :
        (p c : Text × Bool)
        → clicked_shows g (p ∷ []) ≡ true
        → parent_shows p c ≡ true
        → parent_shows (show_view g p) (show_view g c) ≡ true
    show_both p c s h = ground (arith, show_row p c s h)

    shows_for-show_row :
        (p : Text × Bool) (view : View)
        → clicked_shows g (p ∷ []) ≡ true
        → shows_for p view ≡ true
        → shows_for p (map (show_view g) view) ≡ true
    unfolding shows_for
    shows_for-show_row p [] s h = refl
    shows_for-show_row p (c ∷ view) s h =
        ground (arith, h, show_row p c s, shows_for-show_row p view s)

    shows_for-show_both :
        (p : Text × Bool) (view : View)
        → clicked_shows g (p ∷ []) ≡ true
        → shows_for p view ≡ true
        → shows_for (show_view g p) (map (show_view g) view) ≡ true
    unfolding shows_for
    shows_for-show_both p [] s h = refl
    shows_for-show_both p (c ∷ view) s h =
        ground (arith, h, show_both p c s, shows_for-show_both p view s)

    clicked_one :
        (p : Text × Bool) (view : View)
        → clicked_shows g (p ∷ view) ≡ true
        → (clicked_shows g (p ∷ []) ≡ true) × (clicked_shows g view ≡ true)
    unfolding clicked_shows
    clicked_one p view s = (ground (arith, s), ground (arith, s))

    is_closed-show :
        (view : View)
        → clicked_shows g view ≡ true
        → is_closed view ≡ true
        → is_closed (map (show_view g) view) ≡ true
    unfolding is_closed
    is_closed-show [] s h = refl
    is_closed-show (p ∷ view) s h =
        let (first, later) = clicked_one p view s in
        ground (arith, h, shows_for-show_both p view first, is_closed-show view later)

-- Whether the first direct child shows.
unfoldable pub first_shows : Text → View → Bool
first_shows g [] = false
first_shows g (p ∷ view) = let later = first_shows g view in if is_sub g p.0 then p.1 else later

abbrev pub toggle_below : Text → View → View
toggle_below g view = if first_shows g view then map (hide_view g) view else map (show_view g) view

-- What `toggleFolder` makes of the rows that show.
unfoldable pub toggle_view : Text → View → View
toggle_view g [] = []
toggle_view g (p ∷ view) =
    let later = toggle_view g view in
    if p.0 == text "row_" ++ g then p ∷ toggle_below g view else p ∷ later

module _ (g : Text) (path : is_path g ≡ true) where
  shows_for-toggle_below :
      (p : Text × Bool) (view : View)
      → clicked_shows g (p ∷ []) ≡ true
      → shows_for p view ≡ true
      → shows_for p (toggle_below g view) ≡ true
  shows_for-toggle_below p view s h =
      ground (arith, shows_for-hide_row g p view h, shows_for-show_row g path p view s h)

  is_closed-toggle_below :
      (view : View)
      → clicked_shows g view ≡ true
      → is_closed view ≡ true
      → is_closed (toggle_below g view) ≡ true
  is_closed-toggle_below view s h =
      ground (arith, is_closed-hide g view h, is_closed-show g path view s h)

  shows_for-toggle_view :
      (p : Text × Bool) (view : View)
      → clicked_shows g (p ∷ []) ≡ true
      → shows_for p view ≡ true
      → shows_for p (toggle_view g view) ≡ true
  unfolding shows_for toggle_view
  shows_for-toggle_view p [] s h = refl
  shows_for-toggle_view p (c ∷ view) s h =
      ground (arith, h, shows_for-toggle_below p view s, shows_for-toggle_view p view s)

  pub is_closed-toggle_view :
      (view : View)
      → clicked_shows g view ≡ true
      → is_closed view ≡ true
      → is_closed (toggle_view g view) ≡ true
  unfolding is_closed toggle_view
  is_closed-toggle_view [] s h = refl
  is_closed-toggle_view (p ∷ view) s h =
      let (first, later) = clicked_one g path p view s in
      ground (
        arith,
        h,
        shows_for-toggle_below p view first,
        is_closed-toggle_below view later,
        shows_for-toggle_view p view first,
        is_closed-toggle_view view later,
      )
