-- ===== src/Docs/DynSections/Directory/Shown.antt =====
-- Which rows show after `toggleLevel` and `toggleFolder` of html/dynsections.js.
use database_system_swe.Base.{
  ℕ, ◌+◌, Bool, true, not, List, [], ◌∷◌, map, ◌≡◌, refl, ap, ◌∙◌, arith, leb,
}
use database_system_swe.Docs.Text.{Text, text, text_eq}
use database_system_swe.Docs.DynSections.JQuery.{JQuery, IsJQuery}
use database_system_swe.Docs.DynSections.Directory.{
  Row, underscores, stripe, show_level, mark_by, toggle_level, hide_below, show_sub,
  first_sub_visible, toggle_from, toggle_folder,
}
use database_system_swe.Docs.DynSections.Directory.Paths.{is_path}
use database_system_swe.Docs.DynSections.Directory.Tree.{
  View, is_closed, clicked_shows, hide_view, show_view, first_shows, toggle_view,
  is_closed-toggle_view,
}

module _ {E : Type 0} (q : JQuery E) where
  -- Each row's identifier, and whether it shows.
  unfoldable pub view : List (Row E) → View
  view [] = []
  view (r ∷ rows) = (q.id r.row, q.is_visible r.row) ∷ view rows

  abbrev pub level_view : ℕ → List (Row E) → View
  level_view level rows = map (λ c. (c.0, leb (underscores c.0) (level + 1))) (view rows)

module _ {E : Type 0} (q : JQuery E) (laws : IsJQuery q) where
  view-stripe : (even : Bool) (rows : List (Row E)) → view q (stripe q even rows) ≡ view q rows
  unfolding view stripe
  view-stripe even [] = refl
  view-stripe even (r ∷ rows) =
      let plain = q.remove_class (text "even") r.row in
      ground (
        arith,
        laws.id-add_class (text "even") plain,
        laws.id-remove_class (text "even") r.row,
        laws.is_visible-add_class plain,
        laws.is_visible-remove_class r.row,
        view-stripe (not even) rows,
        view-stripe even rows,
      )

  view-hide_below :
      (g : Text) (rows : List (Row E))
      → view q (map (hide_below q g) rows) ≡ map (hide_view g) (view q rows)
  unfolding view
  view-hide_below g [] = refl
  view-hide_below g (r ∷ rows) =
      ground (arith, laws.id-hide r.row, laws.is_visible-hide r.row, view-hide_below g rows)

  view-show_sub :
      (g : Text) (rows : List (Row E))
      → view q (map (show_sub q g) rows) ≡ map (show_view g) (view q rows)
  unfolding view
  view-show_sub g [] = refl
  view-show_sub g (r ∷ rows) =
      ground (arith, laws.id-show r.row, laws.is_visible-show r.row, view-show_sub g rows)

  first_sub_visible-view :
      (g : Text) (rows : List (Row E)) → first_sub_visible q g rows ≡ first_shows g (view q rows)
  unfolding view first_sub_visible first_shows
  first_sub_visible-view g [] = refl
  first_sub_visible-view g (r ∷ rows) = ground (arith, first_sub_visible-view g rows)

  view-toggle_from :
      (g : Text) (rows : List (Row E)) → view q (toggle_from q g rows) ≡ toggle_view g (view q rows)
  unfolding view toggle_from toggle_view
  view-toggle_from g [] = refl
  view-toggle_from g (r ∷ rows) = ground (
    arith,
    view-hide_below g rows,
    view-show_sub g rows,
    first_sub_visible-view g rows,
    view-toggle_from g rows,
  )

  -- For a path of the tree, if every row that shows has each earlier row right above it shown, and
  -- the clicked row shows, then the same holds after toggleFolder.
  pub toggle_folder_closed :
      (g : Text) (rows : List (Row E))
      → is_path g ≡ true
      → clicked_shows g (view q rows) ≡ true
      → is_closed (view q rows) ≡ true
      → is_closed (view q (toggle_folder q g rows)) ≡ true
  unfolding toggle_folder
  toggle_folder_closed g rows path s h =
      ap is_closed (view-stripe true (toggle_from q g rows) ∙ view-toggle_from g rows)
      ∙ is_closed-toggle_view g path (view q rows) s h

  view-levels :
      (level : ℕ) (all rows : List (Row E))
      → view q (
          map
            (λ (r : Row E). record {
              row = show_level q level r.row;
              spans = map (mark_by q level all) r.spans;
            })
            rows)
        ≡ level_view q level rows
  unfolding view
  view-levels level all [] = refl
  view-levels level all (r ∷ rows) = ground (
    arith,
    laws.id-show r.row,
    laws.id-hide r.row,
    laws.is_visible-show r.row,
    laws.is_visible-hide r.row,
    view-levels level all rows,
  )

  -- After toggleLevel the rows are the same, and those show whose identifiers have at most one
  -- underscore more than the level.
  pub view-toggle_level :
      (level : ℕ) (rows : List (Row E))
      → view q (toggle_level q level rows) ≡ level_view q level rows
  unfolding toggle_level
  view-toggle_level level rows = view-stripe true _ ∙ view-levels level rows rows
