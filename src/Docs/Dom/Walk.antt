-- ===== src/Docs/Dom/Walk.antt =====
-- The loop of `FindChildElement` (html/search/search.js) ends, and finds what a recursive search
-- finds; `Toggle` changes the display of that element.
use database_system_swe.Base.{
  ℕ, zero, suc, ◌+◌, ◌<◌, Option, none, some, List, [], ◌∷◌, ◌≡◌, refl, sym, ◌∙◌, arith,
  if◌then◌else◌, nat_beq, Option-cases, inl, inr,
}
use mathlib.Core.Path.{ap₂}
use database_system_swe.Docs.Text.{text_eq}
use database_system_swe.Docs.Dom.{
  Display, block, hidden, is_block, Tag, Node, Nodes, node, nil, child, is_div, is_children_div,
  walk, size_nodes, find_child_element, set_display, set_display_nodes, toggle,
}

abbrev pub or_else : Option Tag → Option Tag → Option Tag
or_else none later = later
or_else (some t) later = some t

-- The first such element in document order, below DIV elements only.
unfoldable mutual
  pub find_in : Node → Option Tag
  find_in (node t kids) =
      let below = find_in_nodes kids in
      if is_children_div t then some t else if is_div t then below else none

  pub find_in_nodes : Nodes → Option Tag
  find_in_nodes nil = none
  find_in_nodes (child n rest) = or_else (find_in n) (find_in_nodes rest)

find_in_levels : List Nodes → Option Tag
find_in_levels [] = none
find_in_levels (level ∷ above) = or_else (find_in_nodes level) (find_in_levels above)

size_levels : List Nodes → ℕ
size_levels [] = 0
size_levels (level ∷ above) = suc (size_nodes level + size_levels above)

walk-find :
    (fuel : ℕ) (level : Nodes) (above : List Nodes)
    → size_nodes level + size_levels above < fuel
    → walk fuel level above ≡ or_else (find_in_nodes level) (find_in_levels above)
unfolding walk find_in_nodes find_in_levels size_nodes size_levels
walk-find zero level above h = elim h [ ]
walk-find (suc fuel) nil [] h = refl
walk-find (suc fuel) nil (level ∷ above) h = walk-find fuel level above (omega arith)
walk-find (suc fuel) (child (node t kids) rest) above h =
    ground (arith, walk-find fuel kids (rest ∷ above), walk-find fuel rest above)

or_else-none : (o : Option Tag) → or_else o none ≡ o
or_else-none none = refl
or_else-none (some t) = refl

-- On every document the loop ends, and finds the first element of class SRChildren in document
-- order that only DIV elements enclose, or nothing where there is none.
pub find_child_element-find_in_nodes : (kids : Nodes) → find_child_element kids ≡ find_in_nodes kids
unfolding find_child_element find_in_levels size_levels
find_child_element-find_in_nodes kids =
    walk-find (suc (size_nodes kids)) kids [] (omega arith) ∙ or_else-none (find_in_nodes kids)

abbrev pub shown_as : ℕ → Display → Option Tag → Option Tag
shown_as ref d none = none
shown_as ref d (some t) = some (if nat_beq t.ref ref then record t { display = d } else t)

shown_as-or_else :
    (ref : ℕ) (d : Display) (a b : Option Tag)
    → shown_as ref d (or_else a b) ≡ or_else (shown_as ref d a) (shown_as ref d b)
shown_as-or_else ref d none b = refl
shown_as-or_else ref d (some t) b = refl

mutual
  unfolding find_in set_display

  find_in-set_display :
      (ref : ℕ) (d : Display) (n : Node)
      → find_in (set_display ref d n) ≡ shown_as ref d (find_in n)
  find_in-set_display ref d (node t kids) = ground (arith, find_in_nodes-set_display ref d kids)

  find_in_nodes-set_display :
      (ref : ℕ) (d : Display) (kids : Nodes)
      → find_in_nodes (set_display_nodes ref d kids) ≡ shown_as ref d (find_in_nodes kids)
  find_in_nodes-set_display ref d nil = refl
  find_in_nodes-set_display ref d (child n rest) =
      ap₂ or_else (find_in-set_display ref d n) (find_in_nodes-set_display ref d rest)
      ∙ sym (shown_as-or_else ref d (find_in n) (find_in_nodes rest))

-- What toggling makes of the element that it finds.
abbrev pub flipped : Option Tag → Option Tag
flipped none = none
flipped (some t) = some (record t { display = if is_block t.display then hidden else block })

-- On every document, toggling hides the element that the walk finds if it was shown as a block,
-- and shows it otherwise; the walk still finds the same element, changed in nothing else, or still
-- finds none.
pub find_child_element-toggle :
    (kids : Nodes) → find_child_element (toggle kids) ≡ flipped (find_child_element kids)
unfolding toggle
find_child_element-toggle kids = elim (Option-cases (find_child_element kids)) [
  | inl e ↦ rw (e, toggle) e
  | inr (t, e) ↦
      let found = sym (find_child_element-find_in_nodes kids) ∙ e in
      let d = if is_block t.display then hidden else block in
      rw (e, toggle)
        (find_child_element-find_in_nodes (set_display_nodes t.ref d kids)
          ∙ find_in_nodes-set_display t.ref d kids
          ∙ ground (arith, found))
]
