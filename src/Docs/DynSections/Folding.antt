-- ===== src/Docs/DynSections/Folding.antt =====
-- `toggleVisibility` and `toggleInherit` of html/dynsections.js: a section with its summary, and the
-- inherited members of a class, each with an image that tells how it stands.
pub mod Agrees
use database_system_swe.Base.{
  ℕ, zero, suc, ◌-◌, ◌+◌, Bool, true, false, not, Option, none, some, List, [], ◌∷◌, ◌++◌, map, ◌≡◌,
  if◌then◌else◌, length,
}
use database_system_swe.Docs.Text.{Text, text, take}
use database_system_swe.Docs.DynSections.JQuery.{JQuery}

-- `src.substring(0,src.length-n)`
abbrev pub drop_last : ℕ → Text → Text
drop_last n src = take (length src - n) src

-- The elements that one link folds.
pub record Section (E : Type 0) : Type 0 where
  pub link : E
  pub summary : E
  pub content : E
  pub trigger : E

module _ {E : Type 0} (q : JQuery E) where
  unfoldable pub toggle_visibility : Section E → Section E
  toggle_visibility s =
      if q.is_visible s.content
      then record {
        link = q.remove_class (text "opened") (q.add_class (text "closed") s.link);
        summary = q.show s.summary;
        content = q.hide s.content;
        trigger = q.set_src (drop_last 8 (q.src s.trigger) ++ text "closed.png") s.trigger;
      }
      else record {
        link = q.add_class (text "opened") (q.remove_class (text "closed") s.link);
        summary = q.hide s.summary;
        content = q.show s.content;
        trigger = q.set_src (drop_last 10 (q.src s.trigger) ++ text "open.png") s.trigger;
      }

  -- `rows.filter(':first').is(':visible')`
  abbrev pub first_visible : List E → Bool
  first_visible [] = false
  first_visible (e ∷ rows) = q.is_visible e

  -- The rows of the inherited members, and the image of their header.
  unfoldable pub toggle_inherit : List E × E → List E × E
  toggle_inherit (rows, img) =
      if first_visible rows
      then (
        map (q.css_display (text "none")) rows,
        q.set_src (drop_last 8 (q.src img) ++ text "closed.png") img,
      )
      else (
        map (q.css_display (text "table-row")) rows,
        q.set_src (drop_last 10 (q.src img) ++ text "open.png") img,
      )
