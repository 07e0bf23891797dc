-- ===== src/Docs/Menu.antt =====
-- `makeTree` of html/menu.js, which writes the menu of a page, and the menu of html/menudata.js.
pub mod Read
pub mod Data
mod Tests
pub mod RoundTrip
use database_system_swe.Base.{List, [], ◌∷◌, ◌++◌}
use database_system_swe.Docs.Text.{Text, text}

-- `data.children`, where it is there: titles, each with its address and its own children.
mutual
  pub data Menu : Type 0 where
    leaf : Menu
    children : Items → Menu

  pub data Items : Type 0 where
    nil : Items
    item : Text → Text → Menu → Items → Items

unfoldable mutual
  pub make_tree : Text → Menu → Text
  make_tree rel_path leaf = []
  make_tree rel_path (children items) = text "<ul>" ++ (make_items rel_path items ++ text "</ul>")

  -- The loop over the children.
  pub make_items : Text → Items → Text
  make_items rel_path nil = []
  make_items rel_path (item title url below items) =
      (text "<li><a href=\""
        ++ (rel_path
            ++ (url
                ++ (text "\">"
                    ++ (title ++ (text "</a>" ++ (make_tree rel_path below ++ text "</li>")))))))
      ++ make_items rel_path items
