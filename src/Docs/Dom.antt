-- ===== src/Docs/Dom.antt =====
-- The part of a document that html/search/search.js walks: elements with what it reads and writes.
pub mod Walk
use database_system_swe.Base.{
  ℕ, zero, suc, Bool, true, false, ◌&&◌, Option, none, some, List, [], ◌∷◌, if◌then◌else◌, nat_beq,
  ◌==◌,
}
use database_system_swe.Docs.Text.{Text, text, text_eq}

-- `style.display`: not set, 'block', 'none' and 'inline'.
pub data Display : Type 0 where
  unset block hidden inline : Display

abbrev pub is_block : Display → Bool
is_block block = true
is_block unset = false
is_block hidden = false
is_block inline = false

-- `ref` is the identity of the element.
pub record Tag : Type 0 where
  pub ref : ℕ
  pub node_name : Text
  pub id : Text
  pub class_name : Text
  pub display : Display
  pub attributes : List (Text × Text)
  pub inner_html : Text

mutual
  pub data Node : Type 0 where
    node : Tag → Nodes → Node

  pub data Nodes : Type 0 where
    nil : Nodes
    child : Node → Nodes → Nodes

abbrev pub has_child_nodes : Nodes → Bool
has_child_nodes nil = false
has_child_nodes (child n rest) = true

abbrev pub is_div : Tag → Bool
is_div t = t.node_name == text "DIV"

-- `element.nodeName == 'DIV' && element.className == 'SRChildren'`
abbrev pub is_children_div : Tag → Bool
is_children_div t = is_div t && t.class_name == text "SRChildren"

-- The loop of `FindChildElement`. The first list holds the element and its next siblings, the
-- others the next siblings of its ancestors below the parent element. An empty list is the climb
-- to the parent; an empty stack is the parent element itself.
unfoldable pub walk : ℕ → Nodes → List Nodes → Option Tag
walk zero level above = none
walk (suc fuel) nil [] = none
walk (suc fuel) nil (level ∷ above) = walk fuel level above
walk (suc fuel) (child (node t kids) rest) above =
    let down = walk fuel kids (rest ∷ above) in
    let next = walk fuel rest above in
    if is_children_div t then some t else if is_div t && has_child_nodes kids then down else next

-- The rounds of `walk` over an element: one for it and one for the end of its children.
unfoldable mutual
  pub size : Node → ℕ
  size (node t kids) = suc (suc (size_nodes kids))

  pub size_nodes : Nodes → ℕ
  size_nodes nil = 0
  size_nodes (child n rest) = Prim.Native.Nat.◌+◌ (size n) (size_nodes rest)

-- `FindChildElement`, from the children of the element with the given id.
unfoldable pub find_child_element : Nodes → Option Tag
find_child_element kids = walk (suc (size_nodes kids)) kids []

-- `element.style.display = …`
unfoldable mutual
  pub set_display : ℕ → Display → Node → Node
  set_display ref d (node t kids) =
      node (if nat_beq t.ref ref then record t { display = d } else t)
        (set_display_nodes ref d kids)

  pub set_display_nodes : ℕ → Display → Nodes → Nodes
  set_display_nodes ref d nil = nil
  set_display_nodes ref d (child n rest) =
      child (set_display ref d n) (set_display_nodes ref d rest)

-- `Toggle`
unfoldable pub toggle : Nodes → Nodes
toggle kids = elim (find_child_element kids) [
  | none ↦ kids
  | some t ↦ set_display_nodes t.ref (if is_block t.display then hidden else block) kids
]
