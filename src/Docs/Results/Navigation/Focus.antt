-- ===== src/Docs/Results/Navigation/Focus.antt =====
-- Where the keys of `Nav` and `NavChild` (html/search/search.js) put the focus.
use database_system_swe.Base.{
  ℕ, zero, suc, ◌+◌, ◌-◌, ◌≤◌, ◌<◌, true, false, Option, none, some, List, ◌≡◌, refl, arith,
  if◌then◌else◌, length, get_elem?, ltb, inl, inr, ◌⊎◌, ◌∙◌, ap,
}
use database_system_swe.Docs.Results.Search.{SearchResults}
use database_system_swe.Docs.Results.Keys.{key_event, keydown, process_keys}
use database_system_swe.Docs.Results.Navigation.{
  Row, Target, search_field, item, link, children_of, children_shown, links_of, has_link, nav_next,
  last_link, go_up, go_down, nav, nav_child, focus_item,
}
use database_system_swe.Docs.Results.Navigation.Steps.{
  shown_at, IsNext, IsPrev, nav_next-IsNext, nav_prev_from-IsPrev,
}

-- What a user sees: an item of a shown row, a link of a shown list in a shown row.
abbrev pub IsVisible : List Row → Target → Type 0
IsVisible rows search_field = Unit {0}
IsVisible rows (item j) = shown_at rows j ≡ true
IsVisible rows (link j c) =
    (shown_at rows j ≡ true)
    × (children_shown (children_of (get_elem? rows j)) ≡ true)
    × (has_link rows j c ≡ true)

links_at : List Row → ℕ → ℕ
links_at rows i = links_of (children_of (get_elem? rows i))

last_link_lem :
    (fuel : ℕ) (rows : List Row) (i n : ℕ) (focus : Target)
    → links_at rows i ≤ n + fuel
    → last_link fuel rows i n focus
      ≡ (if ltb n (links_at rows i) then link i (links_at rows i - 1) else focus)
unfolding last_link links_at
last_link_lem zero rows i n focus h = ground arith
last_link_lem (suc fuel) rows i n focus h =
    ground (arith, last_link_lem fuel rows i (n + 1) (link i n))

focus_item-IsVisible :
    (rows : List Row) (i : ℕ) (o : Option ℕ) (t : Target)
    → IsNext rows i o
    → focus_item o ≡ some t
    → IsVisible rows t
focus_item-IsVisible rows i none t h e = cc
focus_item-IsVisible rows i (some j) t h e = ground (arith, h.1)

go_down-IsVisible :
    (rows : List Row) (i : ℕ) (t : Target)
    → shown_at rows i ≡ true
    → go_down rows i ≡ some t
    → IsVisible rows t
go_down-IsVisible rows i t on e = ground (
  arith,
  focus_item-IsVisible rows (i + 1) (nav_next rows (i + 1)) t (nav_next-IsNext rows (i + 1)),
)

-- From any keyboard state, pressing Down on an item of a shown row that moves the focus moves it
-- to an item or a link that the user sees, and changes neither the rows nor the window.
pub nav_down :
    (s : SearchResults) (rows : List Row) (i : ℕ) (t : Target)
    → shown_at rows i ≡ true
    → (nav s rows (key_event keydown 40) i).focus ≡ some t
    → IsVisible rows t
      × ((nav s rows (key_event keydown 40) i).rows ≡ rows)
      × ((nav s rows (key_event keydown 40) i).closes ≡ false)
unfolding nav process_keys
nav_down s rows i t on e = (go_down-IsVisible rows i t on e, refl, refl)

-- From any keyboard state, Up or Down on a link that the user sees moves the focus, where it moves
-- it, to an item or a link that the user sees.
pub nav_child_moves :
    (s : SearchResults) (rows : List Row) (i c k : ℕ) (t : Target)
    → IsVisible rows (link i c)
    → (k ≡ 38) ⊎ (k ≡ 40)
    → (nav_child s rows (key_event keydown k) i c).focus ≡ some t
    → IsVisible rows t
unfolding nav_child process_keys
nav_child_moves s rows i c k t on (inl up) e = ground arith
nav_child_moves s rows i c k t on (inr down) e = ground (
  arith,
  focus_item-IsVisible rows (i + 1) (nav_next rows (i + 1)) t (nav_next-IsNext rows (i + 1)),
)

abbrev pub last_or : List Row → ℕ → Target → Target
last_or rows i focus =
    if ltb 0 (links_of (children_of (get_elem? rows i)))
    then link i (links_of (children_of (get_elem? rows i)) - 1)
    else focus

IsPrev-unique :
    (rows : List Row) (i : ℕ) (a b : Option ℕ) → IsPrev rows i a → IsPrev rows i b → a ≡ b
IsPrev-unique rows i none none p q = refl
IsPrev-unique rows i none (some k) p q = let off = p k q.0 in cc (off, q.1)
IsPrev-unique rows i (some j) none p q = let off = q j p.0 in cc (off, p.1)
IsPrev-unique rows i (some j) (some k) p q = ground (arith, p.1, q.1, p.2 k, q.2 j)

-- Where Up goes from the item after row `i`, by the nearest shown row.
abbrev pub up_target : List Row → ℕ → Option ℕ → Target
up_target rows i none = search_field
up_target rows i (some j) =
    if children_shown (children_of (get_elem? rows j)) then last_or rows i (item j) else item j

go_up-nearest :
    (rows : List Row) (i j : ℕ)
    → go_up rows i (some j) ≡ (
        if children_shown (children_of (get_elem? rows j)) then last_or rows i (item j) else item j)
unfolding links_at
go_up-nearest rows i j =
    ground (arith, last_link_lem (suc (links_at rows i)) rows i 0 (item j) (omega arith))

go_up-target :
    (rows : List Row) (i : ℕ) (nearest : Option ℕ) → go_up rows i nearest ≡ up_target rows i nearest
go_up-target rows i none = refl
go_up-target rows i (some j) = go_up-nearest rows i j

-- Up on an item that is not the first.
nav_up_item :
    (s : SearchResults) (rows : List Row) (i : ℕ) (nearest : Option ℕ)
    → i < length rows
    → IsPrev rows i nearest
    → (nav s rows (key_event keydown 38) (suc i)).focus ≡ some (up_target rows i nearest)
unfolding nav process_keys
nav_up_item s rows i nearest h p =
    let back : suc i - 1 ≡ i = omega arith in
    rw (back, IsPrev-unique rows i _ nearest (nav_prev_from-IsPrev rows i h) p)
      (ap some (go_up-target rows i nearest))

-- The nearest shown row before an item of the page; there is none before the first item.
abbrev pub IsNearest : List Row → ℕ → Option ℕ → Type 0
IsNearest rows zero nearest = nearest ≡ none
IsNearest rows (suc i) nearest = (i < length rows) × IsPrev rows i nearest

-- Where Up goes from an item, by the nearest shown row before it.
abbrev pub up_from : List Row → ℕ → Option ℕ → Target
up_from rows zero nearest = search_field
up_from rows (suc i) nearest = up_target rows i nearest

-- From any keyboard state, Up on an item moves to the search field where the item is the first one or
-- no row before it is shown. Else it takes the nearest such row: to its item if its links are hidden.
-- If its links are shown, it moves to the last link of the row just before the item it came from,
-- which is another row where that one is hidden, and to the item of the nearest row where that one has
-- no links. Neither the rows nor the window change.
pub nav_up :
    (s : SearchResults) (rows : List Row) (i : ℕ) (nearest : Option ℕ)
    → IsNearest rows i nearest
    → ((nav s rows (key_event keydown 38) i).focus ≡ some (up_from rows i nearest))
      × ((nav s rows (key_event keydown 38) i).rows ≡ rows)
      × ((nav s rows (key_event keydown 38) i).closes ≡ false)
unfolding nav process_keys
nav_up s rows zero nearest e = (refl, refl, refl)
nav_up s rows (suc i) nearest near = (nav_up_item s rows i nearest near.0 near.1, refl, refl)

-- Whenever the row just before an item is hidden and has links, and the nearest shown row before
-- it shows its links, Up moves the focus to a link that the user does not see.
pub nav_up_unseen :
    (s : SearchResults) (rows : List Row) (i j : ℕ)
    → i < length rows
    → shown_at rows i ≡ false
    → 0 < links_of (children_of (get_elem? rows i))
    → IsPrev rows i (some j)
    → children_shown (children_of (get_elem? rows j)) ≡ true
    → (t : Target) × ((nav s rows (key_event keydown 38) (suc i)).focus ≡ some t)
      × (¬ IsVisible rows t)
nav_up_unseen s rows i j h off many near open_list = (
  link i (links_of (children_of (get_elem? rows i)) - 1),
  nav_up_item s rows i (some j) h near ∙ ground arith,
  λ seen. cc (seen.0, off),
)
