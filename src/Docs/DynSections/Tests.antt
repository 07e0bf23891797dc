-- ===== src/Docs/DynSections/Tests.antt =====
-- Runs of html/dynsections.js on a section and on the first rows of html/annotated.html.
use database_system_swe.Base.{Bool, true, false, List, [], ◌∷◌, ◌≡◌, refl}
use database_system_swe.Docs.Text.{Text, text}
use database_system_swe.Docs.DynSections.Elements.{
  Element, elements, elements-IsJQuery, has, without,
}
use database_system_swe.Docs.DynSections.Folding.{Section, toggle_visibility, toggle_inherit}
use database_system_swe.Docs.DynSections.Folding.Agrees.{
  Agrees, image, all_show, toggle_visibility-Agrees, toggle_inherit_agrees,
}
use database_system_swe.Docs.DynSections.Directory.{
  Row, toggle_level, toggle_folder, toggle_from, stripe, after_folded, ends_number,
  first_sub_visible,
}
use database_system_swe.Docs.DynSections.Directory.Paths.{is_path}
use database_system_swe.Docs.DynSections.Directory.Tree.{is_closed, shows_for, clicked_shows}
use database_system_swe.Docs.DynSections.Directory.Shown.{
  view, level_view, toggle_folder_closed, view-toggle_level,
}
use database_system_swe.Docs.Menu.Read.{after}

abbrev element : Text → Bool → List Text → Text → Element
element id shown classes src = record {
  id = id;
  shown = shown;
  classes = classes;
  inner_html = [];
  src = src;
}

abbrev graph : Section Element
graph = record {
  link = element (text "dynsection-0") true (text "closed" ∷ []) [];
  summary = element (text "dynsection-0-summary") true [] [];
  content = element (text "dynsection-0-content") false [] [];
  trigger = element (text "dynsection-0-trigger") true [] (text "closed.png");
}

graph-Agrees : Agrees elements [] false graph
unfolding has
graph-Agrees = record {
  content = refl;
  summary = refl;
  opened = refl;
  closed = refl;
  trigger = refl;
}

toggle_visibility-Agrees_example : Agrees elements [] true (toggle_visibility elements graph)
toggle_visibility-Agrees_example =
    toggle_visibility-Agrees elements [] false graph elements-IsJQuery graph-Agrees

abbrev inherited : Element
inherited = element (text "inherit") true [] []

abbrev inherit_image : Element
inherit_image = element [] true [] (text "../open.png")

inherited_shows : all_show elements true (inherited ∷ []) ≡ true
unfolding all_show
inherited_shows = refl

inherited_rows_fold :
    (all_show elements false (toggle_inherit elements (inherited ∷ [], inherit_image)).0 ≡ true)
    × ((toggle_inherit elements (inherited ∷ [], inherit_image)).1.src ≡ image (text "../") false)
inherited_rows_fold =
    toggle_inherit_agrees elements (text "../") true inherited [] inherit_image elements-IsJQuery
      inherited_shows refl

abbrev row : Text → Bool → Row Element
row id shown = record { row = element id shown [] []; spans = [] }

abbrev classes_table : List (Row Element)
classes_table =
    row (text "row_0_") true
    ∷ row (text "row_0_0_") true
    ∷ row (text "row_0_0_0_") false
    ∷ row (text "row_0_0_1_") false
    ∷ row (text "row_0_1_") true
    ∷ row (text "row_1_") true
    ∷ []

-- The second folder opens, and then the first one closes with all that is below it.
opens_folder :
    view elements (toggle_folder elements (text "0_0_") classes_table)
    ≡ (text "row_0_", true)
      ∷ (text "row_0_0_", true)
      ∷ (text "row_0_0_0_", true)
      ∷ (text "row_0_0_1_", true)
      ∷ (text "row_0_1_", true)
      ∷ (text "row_1_", true)
      ∷ []
unfolding view toggle_folder toggle_from stripe after_folded ends_number first_sub_visible without
opens_folder = refl

folder_path : is_path (text "0_") ≡ true
unfolding is_path
folder_path = refl

folder_shows : clicked_shows (text "0_") (view elements classes_table) ≡ true
unfolding clicked_shows view
folder_shows = refl

table_closed : is_closed (view elements classes_table) ≡ true
unfolding is_closed shows_for view after is_path after_folded ends_number
table_closed = refl

toggle_folder_closed_example :
    is_closed (view elements (toggle_folder elements (text "0_") classes_table)) ≡ true
toggle_folder_closed_example =
    toggle_folder_closed elements elements-IsJQuery (text "0_") classes_table folder_path
      folder_shows table_closed

two_levels_show :
    view elements (toggle_level elements 2 classes_table) ≡ level_view elements 2 classes_table
two_levels_show = view-toggle_level elements elements-IsJQuery 2 classes_table
