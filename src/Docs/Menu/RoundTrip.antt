-- ===== src/Docs/Menu/RoundTrip.antt =====
-- What `makeTree` of html/menu.js writes can be read back.
use mathlib.Core.List.{append_assoc, append-nil}
use database_system_swe.Base.{
  ℕ, zero, suc, ◌+◌, ◌≤◌, Bool, true, ◌&&◌, none, some, [], ◌∷◌, ◌++◌, ◌≡◌, refl, sym, ap, ◌∙◌,
  arith,
}
use database_system_swe.Docs.Text.{Text, text}
use database_system_swe.Docs.Menu.{Menu, Items, leaf, children, nil, item, make_tree, make_items}
use database_system_swe.Docs.Menu.Read.{
  after, lacks, after-append, until-append, read_tree, read_items,
}

-- Titles have no '<' and addresses no '"'.
unfoldable mutual
  pub is_clean : Menu → Bool
  is_clean leaf = true
  is_clean (children items) = items_clean items

  pub items_clean : Items → Bool
  items_clean nil = true
  items_clean (item title url below items) =
      lacks b'<' title && lacks b'"' url && (is_clean below && items_clean items)

-- The rounds of the reader.
unfoldable mutual
  pub rounds : Menu → ℕ
  rounds leaf = 1
  rounds (children items) = suc (items_rounds items)

  pub items_rounds : Items → ℕ
  items_rounds nil = 1
  items_rounds (item title url below items) = suc (rounds below + items_rounds items)

item_layout :
    (rel_path title url : Text) (below : Menu) (items : Items) (rest : Text)
    → make_items rel_path (item title url below items) ++ rest
      ≡ (text "<li><a href=\"" ++ rel_path)
        ++ (url
            ++ b'"'
              ∷ (text ">"
                  ++ (title
                      ++ b'<'
                        ∷ (text "/a>"
                            ++ (make_tree rel_path below
                                ++ (text "</li>" ++ (make_items rel_path items ++ rest)))))))
unfolding make_tree
item_layout rel_path title url below items rest = simp append_assoc

leaf_layout : (rel_path rest : Text) → make_tree rel_path leaf ++ rest ≡ rest
unfolding make_tree
leaf_layout rel_path rest = refl

nil_layout : (rel_path rest : Text) → make_items rel_path nil ++ rest ≡ rest
unfolding make_tree
nil_layout rel_path rest = refl

not_list : (s : Text) → after (text "<ul>") (text "</li>" ++ s) ≡ none
unfolding after
not_list s = refl

not_end :
    (s rel_path : Text) → after (text "</ul>") ((text "<li><a href=\"" ++ rel_path) ++ s) ≡ none
unfolding after
not_end s rel_path = refl

children_layout :
    (rel_path : Text) (items : Items) (rest : Text)
    → make_tree rel_path (children items) ++ rest
      ≡ text "<ul>" ++ (make_items rel_path items ++ (text "</ul>" ++ rest))
unfolding make_tree
children_layout rel_path items rest = simp append_assoc

read_tree-leaf :
    (fuel : ℕ) (rel_path rest : Text)
    → after (text "<ul>") rest ≡ none
    → read_tree (suc fuel) rel_path rest ≡ some (leaf, rest)
unfolding read_tree after
read_tree-leaf fuel rel_path rest h = rw h

read_tree-children :
    (fuel : ℕ) (rel_path s : Text) (items : Items) (rest : Text)
    → read_items fuel rel_path s ≡ some (items, rest)
    → read_tree (suc fuel) rel_path (text "<ul>" ++ s) ≡ some (children items, rest)
unfolding read_tree after
read_tree-children fuel rel_path s items rest h = rw h

read_items-nil :
    (fuel : ℕ) (rel_path rest : Text)
    → read_items (suc fuel) rel_path (text "</ul>" ++ rest) ≡ some (nil, rest)
unfolding read_tree after
read_items-nil fuel rel_path rest = refl

read_items-item :
    (fuel : ℕ) (rel_path title url s s' : Text) (below : Menu) (items : Items) (rest : Text)
    → lacks b'<' title ≡ true
    → lacks b'"' url ≡ true
    → read_tree fuel rel_path s ≡ some (below, text "</li>" ++ s')
    → read_items fuel rel_path s' ≡ some (items, rest)
    → read_items (suc fuel) rel_path (
        (text "<li><a href=\"" ++ rel_path)
        ++ (url ++ b'"' ∷ (text ">" ++ (title ++ b'<' ∷ (text "/a>" ++ s)))))
      ≡ some (item title url below items, rest)
unfolding read_tree
read_items-item fuel rel_path title url s s' below items rest ht hu hb hi =
    let first =
      after-append (text "<li><a href=\"" ++ rel_path)
        (url ++ b'"' ∷ (text ">" ++ (title ++ b'<' ∷ (text "/a>" ++ s)))) in
    let s3 : Text = text "/a>" ++ s in
    let s2 : Text = text ">" ++ (title ++ b'<' ∷ s3) in
    ground (
      arith,
      first,
      not_end (url ++ b'"' ∷ s2) rel_path,
      until-append b'"' url s2 hu,
      after-append (text ">") (title ++ b'<' ∷ s3),
      until-append b'<' title s3 ht,
      after-append (text "/a>") s,
      hb,
      after-append (text "</li>") s',
      hi,
    )

mutual
  unfolding is_clean rounds

  read_tree-make_tree :
      (fuel : ℕ) (rel_path : Text) (menu : Menu) (rest : Text)
      → rounds menu ≤ fuel
      → is_clean menu ≡ true
      → after (text "<ul>") rest ≡ none
      → read_tree fuel rel_path (make_tree rel_path menu ++ rest) ≡ some (menu, rest)
  read_tree-make_tree zero rel_path leaf rest lt c h = absurd (omega arith)
  read_tree-make_tree zero rel_path (children items) rest lt c h = absurd (omega arith)
  read_tree-make_tree (suc fuel) rel_path leaf rest lt c h =
      rw (leaf_layout rel_path rest) (read_tree-leaf fuel rel_path rest h)
  read_tree-make_tree (suc fuel) rel_path (children items) rest lt c h =
      rw (children_layout rel_path items rest) (
        read_tree-children fuel rel_path (make_items rel_path items ++ (text "</ul>" ++ rest)) items
          rest (read_items-make_items fuel rel_path items rest (omega arith) c))

  read_items-make_items :
      (fuel : ℕ) (rel_path : Text) (items : Items) (rest : Text)
      → items_rounds items ≤ fuel
      → items_clean items ≡ true
      → read_items fuel rel_path (make_items rel_path items ++ (text "</ul>" ++ rest))
        ≡ some (items, rest)
  read_items-make_items zero rel_path nil rest lt c = absurd (omega arith)
  read_items-make_items zero rel_path (item title url below items) rest lt c = absurd (omega arith)
  read_items-make_items (suc fuel) rel_path nil rest lt c =
      rw (nil_layout rel_path (text "</ul>" ++ rest)) (read_items-nil fuel rel_path rest)
  read_items-make_items (suc fuel) rel_path (item title url below items) rest lt c =
      let s' = make_items rel_path items ++ (text "</ul>" ++ rest) in
      rw (item_layout rel_path title url below items (text "</ul>" ++ rest)) (
        read_items-item fuel rel_path title url (make_tree rel_path below ++ (text "</li>" ++ s'))
          s' below items rest (ground (arith, c)) (ground (arith, c))
          (read_tree-make_tree fuel rel_path below (text "</li>" ++ s') (omega arith)
            (ground (arith, c)) (not_list s'))
          (read_items-make_items fuel rel_path items rest (omega arith) (ground (arith, c))))

-- If no title has a '<' and no address a '"', then what makeTree writes of a menu can be read back
-- as that menu, with nothing left over.
pub make_tree_read_back :
    (rel_path : Text) (menu : Menu)
    → is_clean menu ≡ true
    → read_tree (rounds menu) rel_path (make_tree rel_path menu) ≡ some (menu, [])
unfolding after
make_tree_read_back rel_path menu c =
    ap (read_tree (rounds menu) rel_path) (sym (append-nil (make_tree rel_path menu)))
    ∙ read_tree-make_tree (rounds menu) rel_path menu [] (omega arith) c refl
