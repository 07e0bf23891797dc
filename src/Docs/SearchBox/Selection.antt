-- ===== src/Docs/SearchBox/Selection.antt =====
-- The selection of a section in html/search/search.js: which item is marked, and how far the keys
-- move.
use database_system_swe.Base.{
  ℕ, zero, suc, ◌+◌, ◌≤◌, ◌<◌, true, false, none, some, List, [], ◌∷◌, ◌≡◌, refl, arith, nat_beq,
  if◌then◌else◌, get_elem?,
}
use database_system_swe.Docs.Text.{Text}
use database_system_swe.Docs.Dom.{block}
use database_system_swe.Docs.SearchBox.Sections.{index_sections_with_content, index_section_names}
use database_system_swe.Docs.SearchBox.Page.{
  Page, Places, SearchBox, State, SelectChild, Mark, bullet, blank,
}
use database_system_swe.Docs.SearchBox.Panel.{
  count_items, mark_items, select_item_count, select_item_set,
}
use database_system_swe.Docs.SearchBox.Search.{
  Host, Target, target_at, index_from, index_char, find_target, search, search_value,
  on_select_item,
}

-- The marks of the items, in order.
unfoldable pub marks : List SelectChild → List Mark
marks [] = []
marks (child ∷ children) =
    let rest = marks children in if child.is_item then child.mark ∷ rest else rest

-- The marks of `n` items from position `j` on, of which that at position `id` has the bullet.
unfoldable pub marks_for : ℕ → ℕ → ℕ → List Mark
marks_for id j zero = []
marks_for id j (suc n) = (if nat_beq j id then bullet else blank) ∷ marks_for id (j + 1) n

unfoldable pub items_in : List SelectChild → ℕ
items_in [] = 0
items_in (child ∷ children) =
    let rest = items_in children in if child.is_item then suc rest else rest

count_items-add :
    (children : List SelectChild) (n : ℕ) → count_items children n ≡ n + items_in children
unfolding count_items items_in
count_items-add [] n = omega arith
count_items-add (child ∷ children) n =
    ground (arith, count_items-add children (n + 1), count_items-add children n)

-- Setting an item puts the bullet on the item with that position among the items, if there is one,
-- and takes it off all others; the number of items and the other children stay.
pub marks-mark_items :
    (id j : ℕ) (children : List SelectChild)
    → (marks (mark_items id j children) ≡ marks_for id j (items_in children))
      × (items_in (mark_items id j children) ≡ items_in children)
unfolding marks mark_items marks_for items_in
marks-mark_items id j [] = (refl, refl)
marks-mark_items id j (child ∷ children) =
    ground (arith, marks-mark_items id (j + 1) children, marks-mark_items id j children)

pub select_item_count-set :
    (id : ℕ) (p : Page) → select_item_count (select_item_set id p) ≡ select_item_count p
select_item_count-set id p = omega (
  arith,
  count_items-add (mark_items id 0 p.select_children) 0,
  count_items-add p.select_children 0,
  (marks-mark_items id 0 p.select_children).1,
)

sections_cover :
    (i : ℕ)
    → i < 3
    → (section : Text) × (name : Text) × (get_elem? index_sections_with_content i ≡ some section)
      × (get_elem? index_section_names i ≡ some name)
sections_cover zero h = (_, _, refl, refl)
sections_cover (suc zero) h = (_, _, refl, refl)
sections_cover (suc (suc zero)) h = (_, _, refl, refl)
sections_cover (suc (suc (suc i))) h = absurd (omega arith)

sections_end : (i : ℕ) → 3 ≤ i → get_elem? index_sections_with_content i ≡ none
sections_end zero h = absurd (omega arith)
sections_end (suc zero) h = absurd (omega arith)
sections_end (suc (suc zero)) h = absurd (omega arith)
sections_end (suc (suc (suc i))) h = refl

module _ (host : Host) where
  find_target-some :
      (box : SearchBox) (value : Text)
      → box.search_index < 3
      → (t : Target) × (find_target host box value ≡ some t)
  unfolding find_target
  find_target-some box value h =
      let (section, name, e, f) = sections_cover box.search_index h in
      (target_at host box name value (index_from (index_char host value) section 0), rw (e, f))

  find_target-none :
      (box : SearchBox) (value : Text) → 3 ≤ box.search_index → find_target host box value ≡ none
  unfolding find_target
  find_target-none box value h = rw (sections_end box.search_index h)

  -- For every state whose index names one of the three sections, a search ends: the results window
  -- shows, no search is about to run by the panel's books, the searched text is remembered without
  -- its leading blanks, and the text of the field and the section are kept.
  pub search_opens :
      (places : Places) (s : State)
      → s.box.search_index < 3
      → let r = search host places s in
        (r.throws ≡ false)
        × (r.state.page.results_window.display ≡ block)
        × (r.state.box.key_timeout ≡ 0)
        × (r.state.box.last_search_value ≡ search_value host s)
        × (r.state.page.field_value ≡ s.page.field_value)
        × (r.state.box.search_index ≡ s.box.search_index)
  unfolding search
  search_opens places s h =
      let (t, e) = find_target-some s.box (search_value host s) h in
      rw (e, search) (refl, ground arith, refl, refl, ground arith, refl)

  pub search_throws :
      (places : Places) (s : State) → 3 ≤ s.box.search_index → (search host places s).throws ≡ true
  unfolding search
  search_throws places s h = rw (find_target-none s.box (search_value host s) h, search)

  search-index_kept :
      (places : Places) (s : State)
      → (search host places s).state.box.search_index ≡ s.box.search_index
  unfolding search
  search-index_kept places s = ground arith

  search-select_children :
      (places : Places) (s : State)
      → (search host places s).state.page.select_children ≡ s.page.select_children
  unfolding search
  search-select_children places s = ground arith

  pub on_select_item-index :
      (places : Places) (id : ℕ) (s : State)
      → ((on_select_item host places id s).state.box.search_index ≡ id)
        × (select_item_count (on_select_item host places id s).state.page
            ≡ select_item_count s.page)
  unfolding on_select_item
  on_select_item-index places id s =
      let chosen : State = record {
        box = record s.box { search_index = id };
        page = select_item_set id s.page;
      } in
      ground (
        arith,
        search-index_kept places chosen,
        search-select_children places chosen,
        select_item_count-set id s.page,
      )
