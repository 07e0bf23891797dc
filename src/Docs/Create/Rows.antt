-- ===== src/Docs/Create/Rows.antt =====
-- The rows that `createResults` (html/search/search.js) makes, as the other functions see them.
use database_system_swe.Base.{
  ℕ, ◌+◌, Option, none, some, List, [], ◌∷◌, ◌≡◌, refl, ◌∙◌, ap, arith, Bool-cases, inl, inr,
}
use database_system_swe.Docs.Dom.{Tag, block, toggle, find_child_element}
use database_system_swe.Docs.Dom.Walk.{
  flipped, find_child_element-toggle, find_in, find_in_nodes, find_child_element-find_in_nodes,
}
use database_system_swe.Docs.Create.{Link, Entry, entry_nodes, children_tag, row_nodes}

-- The list of links that a row has: none for an entry with one place.
abbrev pub listed : ℕ → List Link → Option Tag
listed ref (l ∷ []) = none
listed ref [] = some (children_tag (ref + 3))
listed ref (l ∷ k ∷ links) = some (children_tag (ref + 3))

find_in-row_nodes :
    (ref e : ℕ) (entry : Entry) (links : List Link)
    → find_in_nodes (entry_nodes ref e entry links) ≡ listed ref links
unfolding entry_nodes find_in
find_in-row_nodes ref e entry [] = refl
find_in-row_nodes ref e entry (l ∷ []) = elim (Bool-cases l.parent) [ inl p ↦ rw p | inr p ↦ rw p ]
find_in-row_nodes ref e entry (l ∷ k ∷ links) = refl

row_nodes-listed :
    (ref e : ℕ) (entry : Entry)
    → find_child_element (row_nodes ref e entry) ≡ listed ref entry.links
unfolding find_in
row_nodes-listed ref e entry =
    find_child_element-find_in_nodes (row_nodes ref e entry)
    ∙ ground (arith, find_in-row_nodes ref e entry entry.links)

abbrev pub shown : Option Tag → Option Tag
shown none = none
shown (some t) = some (record t { display = block })

flipped-listed :
    (ref : ℕ) (links : List Link) → flipped (listed ref links) ≡ shown (listed ref links)
flipped-listed ref [] = refl
flipped-listed ref (l ∷ []) = refl
flipped-listed ref (l ∷ k ∷ links) = refl

-- In the row made for an entry, the walk for the list of links finds none if the entry has exactly
-- one place, and else the row's own list; after one toggle it finds the same, shown as a block.
pub toggle-row_nodes :
    (ref e : ℕ) (entry : Entry)
    → (find_child_element (row_nodes ref e entry) ≡ listed ref entry.links)
      × (find_child_element (toggle (row_nodes ref e entry)) ≡ shown (listed ref entry.links))
toggle-row_nodes ref e entry =
    let found = row_nodes-listed ref e entry in
    (
      found,
      find_child_element-toggle (row_nodes ref e entry)
          ∙ ap flipped found
          ∙ flipped-listed ref entry.links,
    )
