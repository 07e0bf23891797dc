-- ===== src/Docs/Create.antt =====
-- `createResults` of html/search/search.js: the rows that a result page is made of. An entry of
-- `searchData` (html/search/all_0.js and its like) is an identifier, a name and its places.
pub mod Rows
use database_system_swe.Base.{
  ℕ, zero, suc, ◌+◌, ◌/◌, ◌%◌, Bool, true, false, Option, none, some, List, [], ◌∷◌, ◌++◌,
  if◌then◌else◌, nat_beq, ltb, length, ◌==◌,
}
use database_system_swe.Docs.Text.{Text, text, text_eq}
use database_system_swe.Docs.Dom.{Display, unset, Tag, Node, Nodes, node, nil, child}

-- A place: its address, whether it opens in the parent window, and its scope.
pub record Link : Type 0 where
  pub href : Text
  pub parent : Bool
  pub scope : Text

pub record Entry : Type 0 where
  pub id : Text
  pub name : Text
  pub links : List Link

-- The decimal digits of a number, as the language joins it to a text.
unfoldable pub decimal_rounds : ℕ → ℕ → Text
decimal_rounds zero n = (48 + n) ∷ []
decimal_rounds (suc rounds) n =
    let high = decimal_rounds rounds (n / 10) in
    if ltb n 10 then (48 + n) ∷ [] else high ++ (48 + n % 10) ∷ []

abbrev pub decimal : ℕ → Text
decimal n = decimal_rounds n n

-- `document.createElement`: a new element, with the next identity.
abbrev pub create_element : ℕ → Text → Tag
create_element ref name = record {
  ref = ref;
  node_name = name;
  id = [];
  class_name = [];
  display = unset;
  attributes = [];
  inner_html = [];
}

-- `setAttribute`, for a name that the element does not have yet; the attributes `id` and `class`
-- are also read as its `id` and its `className`.
abbrev pub set_attribute : Text → Text → Tag → Tag
set_attribute name value t = record t {
  id = if name == text "id" then value else t.id;
  class_name = if name == text "class" then value else t.class_name;
  attributes = t.attributes ++ (name, value) ∷ [];
}

abbrev pub set_key_actions : Text → Tag → Tag
set_key_actions action t =
    set_attribute (text "onkeyup") action
      (set_attribute (text "onkeypress") action (set_attribute (text "onkeydown") action t))

abbrev pub set_class_attr : Text → Tag → Tag
set_class_attr attr t = set_attribute (text "className") attr (set_attribute (text "class") attr t)

abbrev pub set_html : Text → Tag → Tag
set_html html t = record t { inner_html = html }

abbrev pub set_target : Bool → Tag → Tag
set_target parent t = if parent then set_attribute (text "target") (text "_parent") t else t

-- The link of an entry before its address is set: `Item<e>`.
abbrev pub item_link : ℕ → ℕ → Entry → Tag
item_link ref e entry = set_html entry.name (
    set_class_attr (text "SRSymbol") (
      set_key_actions (text "return searchResults.Nav(event," ++ decimal e ++ text ")")
        (set_attribute (text "id") (text "Item" ++ decimal e) (create_element ref (text "A")))))

-- A link below an entry: `Item<e>_c<c>`.
abbrev pub child_link : ℕ → ℕ → ℕ → Link → Tag
child_link ref e c l = set_html l.scope (
    set_target l.parent (
      set_attribute (text "href") l.href (
        set_class_attr (text "SRScope") (
          set_key_actions
            (text "return searchResults.NavChild(event,"
              ++ decimal e
              ++ b',' ∷ decimal c
              ++ text ")")
            (set_attribute (text "id") (text "Item" ++ decimal e ++ text "_c" ++ decimal c)
              (create_element ref (text "A")))))))

-- The loop over the places of an entry with several.
unfoldable pub child_links : ℕ → ℕ → ℕ → List Link → Nodes
child_links ref e c [] = nil
child_links ref e c (l ∷ links) =
    child (node (child_link ref e c l) nil) (child_links (ref + 1) e (c + 1) links)

abbrev pub children_tag : ℕ → Tag
children_tag ref = set_class_attr (text "SRChildren") (create_element ref (text "DIV"))

-- What the entry's DIV holds: the link, and the scope of the one place or the list of several.
unfoldable pub entry_nodes : ℕ → ℕ → Entry → List Link → Nodes
entry_nodes ref e entry (l ∷ []) =
    child
      (node (set_target l.parent (set_attribute (text "href") l.href (item_link (ref + 2) e entry)))
        nil)
      (child
        (node
          (set_html l.scope
            (set_class_attr (text "SRScope") (create_element (ref + 3) (text "SPAN"))))
          nil)
        nil)
entry_nodes ref e entry links =
    child
      (node
        (set_attribute (text "href")
          (text "javascript:searchResults.Toggle(\"SR_" ++ entry.id ++ text "\")")
          (item_link (ref + 2) e entry))
        nil)
      (child (node (children_tag (ref + 3)) (child_links (ref + 4) e 0 links)) nil)

abbrev pub result_tag : ℕ → Entry → Tag
result_tag ref entry =
    set_class_attr (text "SRResult")
      (set_attribute (text "id") (text "SR_" ++ entry.id) (create_element ref (text "DIV")))

abbrev pub entry_tag : ℕ → Tag
entry_tag ref = set_class_attr (text "SREntry") (create_element ref (text "DIV"))

-- The children of a row, which hold its entry alone.
abbrev pub row_nodes : ℕ → ℕ → Entry → Nodes
row_nodes ref e entry = child (node (entry_tag (ref + 1)) (entry_nodes ref e entry entry.links)) nil

-- The loop over the data, from entry `e`; the rows are appended to the element of the results.
unfoldable pub create_results : ℕ → ℕ → List Entry → Nodes
create_results ref e [] = nil
create_results ref e (entry ∷ search_data) =
    child (node (result_tag ref entry) (row_nodes ref e entry))
      (create_results (ref + 4 + length entry.links) (e + 1) search_data)
