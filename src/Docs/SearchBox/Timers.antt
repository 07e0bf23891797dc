-- ===== src/Docs/SearchBox/Timers.antt =====
-- The search timer of html/search/search.js: typing starts at most one.
use database_system_swe.Base.{
  ℕ, ◌+◌, ◌≤◌, ◌<◌, Bool, true, false, List, [], ◌∷◌, ◌≡◌, refl, sym, subst, ap, ◌||◌, arith,
  nat_beq, if◌then◌else◌, All, Bool-cases, Option-cases, inl, inr, ◌∙◌, ◌==◌,
}
use database_system_swe.Docs.Text.{Text, text_eq, is_blank, remove_spaces}
use database_system_swe.Docs.Results.Navigation.{nav_next}
use database_system_swe.Docs.SearchBox.Page.{
  Places, State, Callback, run_search, close_selection, drop_timer, Focus, nowhere, result_item,
  select_child,
}
use database_system_swe.Docs.SearchBox.Panel.{
  activate, on_search_select_show, move_focus, blur_field,
}
use database_system_swe.Docs.SearchBox.Field.{
  kill_timer, first_item, open_selection, go_to_results, forget_search, escape_panel, start_timer,
  value_changed, on_search_field_change,
}

abbrev pub is_search : Callback → Bool
is_search run_search = true
is_search close_selection = false

-- How many searches are about to run.
pub searches : List (ℕ × Callback) → ℕ
searches [] = 0
searches (t ∷ timers) = let rest = searches timers in if is_search t.1 then rest + 1 else rest

-- Timers have numbers from 1 up to the next one, and every search is the timer of the field.
abbrev pub Kept : ℕ → ℕ → ℕ × Callback → Type 0
Kept next k t = (0 < t.0) × (t.0 < next) × (is_search t.1 ≡ true → t.0 ≡ k)

-- The number of the field's timer, the next number, and the timers.
abbrev pub Clocks : Type 0
Clocks = ℕ × ℕ × List (ℕ × Callback)

abbrev pub clocks : State → Clocks
clocks s = (s.box.key_timeout, s.page.next_timer, s.page.timers)

pub record IsTimed (c : Clocks) : Type 0 where
  pub some_next : 0 < c.1
  pub kept : All (Kept c.1 c.0) c.2
  pub one : searches c.2 ≤ 1

module _ (next k : ℕ) where
  drop-Kept :
      (id : ℕ) (timers : List (ℕ × Callback))
      → All (Kept next k) timers
      → All (Kept next k) (drop_timer id timers)
  unfolding drop_timer
  drop-Kept id [] h = tt
  drop-Kept id (t ∷ timers) h = ground (arith, drop-Kept id timers h.1)

  drop-quiet :
      (timers : List (ℕ × Callback))
      → All (Kept next k) timers
      → All (Kept next 0) (drop_timer k timers) × (searches (drop_timer k timers) ≡ 0)
  unfolding drop_timer searches
  drop-quiet [] h = (tt, refl)
  drop-quiet (t ∷ timers) h = ground (arith, drop-quiet timers h.1)

  searches-drop-le :
      (id : ℕ) (timers : List (ℕ × Callback)) → searches (drop_timer id timers) ≤ searches timers
  unfolding drop_timer searches
  searches-drop-le id [] = omega arith
  searches-drop-le id (t ∷ timers) = ground (arith, searches-drop-le id timers)

  zero-quiet : (timers : List (ℕ × Callback)) → All (Kept next 0) timers → searches timers ≡ 0
  unfolding searches
  zero-quiet [] h = refl
  zero-quiet (t ∷ timers) h = ground (arith, zero-quiet timers h.1)

  Kept-next :
      (timers : List (ℕ × Callback))
      → searches timers ≡ 0
      → All (Kept next k) timers
      → All (Kept (next + 1) next) timers
  unfolding searches
  Kept-next [] e h = tt
  Kept-next (t ∷ timers) e h = ground (arith, Kept-next timers)

kill_timer-IsTimed :
    (s : State)
    → IsTimed (clocks s)
    → IsTimed (clocks (kill_timer s)) × ((kill_timer s).box.key_timeout ≡ 0)
kill_timer-IsTimed s v = elim (Bool-cases (nat_beq s.box.key_timeout 0)) [
  | inl e ↦ rw e (v, ground arith)
  | inr e ↦
      let (kept, none_left) = drop-quiet s.page.next_timer s.box.key_timeout s.page.timers v.kept in
      rw e (record { some_next = v.some_next; kept = kept; one = omega arith }, refl)
]

start_timer-IsTimed :
    (s : State) → IsTimed (clocks s) → s.box.key_timeout ≡ 0 → IsTimed (clocks (start_timer s))
unfolding searches
start_timer-IsTimed s v e =
    let idle : searches s.page.timers ≡ 0 =
      zero-quiet s.page.next_timer s.box.key_timeout s.page.timers (rw e at v.kept) in
    record {
      some_next = omega arith;
      kept = (
        (v.some_next, omega arith, λ h. refl),
        Kept-next s.page.next_timer s.box.key_timeout s.page.timers idle v.kept,
      );
      one = omega arith;
    }

activate-clocks : (b : Bool) (s : State) → clocks (activate b s) ≡ clocks s
unfolding activate
activate-clocks b s = ground arith

move_focus-clocks : (target : Focus) (s : State) → clocks (move_focus target s) ≡ clocks s
move_focus-clocks target s =
    ground (arith, activate-clocks false (record s { page = record s.page { focus = target } }))

blur_field-clocks : (s : State) → clocks (blur_field s) ≡ clocks s
blur_field-clocks s =
    ground (arith, activate-clocks false (record s { page = record s.page { focus = nowhere } }))

escape_panel-clocks : (s : State) → clocks (escape_panel s) ≡ clocks s
escape_panel-clocks s = activate-clocks false (forget_search (blur_field s)) ∙ blur_field-clocks s

go_to_results-clocks : (s : State) → clocks (go_to_results s) ≡ clocks s
go_to_results-clocks s = elim (Option-cases s.page.frame_rows) [
  | inl e ↦ ground arith
  | inr (rows, e) ↦ elim (Option-cases (nav_next rows 0)) [
    | inl f ↦ ground arith
    | inr (i, f) ↦ ground (arith, move_focus-clocks (result_item i) s)
  ]
]

value_changed-IsTimed :
    (s : State) → IsTimed (clocks s) → s.box.key_timeout ≡ 0 → IsTimed (clocks (value_changed s))
value_changed-IsTimed s v e =
    elim (Bool-cases (remove_spaces s.page.field_value == s.box.last_search_value)) [
      | inl same ↦ rw same v
      | inr new ↦ rw new (elim (Bool-cases (is_blank (remove_spaces s.page.field_value))) [
        | inl empty ↦ rw empty v
        | inr full ↦ rw full (start_timer-IsTimed s v e)
      ])
    ]

drop-IsTimed :
    (id k next : ℕ) (timers : List (ℕ × Callback))
    → IsTimed (k, next, timers)
    → IsTimed (k, next, drop_timer id timers)
drop-IsTimed id k next timers v = record {
  some_next = v.some_next;
  kept = drop-Kept next k id timers v.kept;
  one = omega (arith, searches-drop-le next k id timers, v.one);
}

on_search_select_show-IsTimed :
    (places : Places) (s : State)
    → IsTimed (clocks s)
    → IsTimed (clocks (on_search_select_show places s))
unfolding on_search_select_show
on_search_select_show-IsTimed places s v = elim (Bool-cases (nat_beq s.box.hide_timeout 0)) [
  | inl e ↦ rw e v
  | inr e ↦
      rw e (drop-IsTimed s.box.hide_timeout s.box.key_timeout s.page.next_timer s.page.timers v)
]

open_selection-clocks :
    (places : Places) (s : State)
    → clocks (open_selection places s) ≡ clocks (on_search_select_show places s)
open_selection-clocks places s =
    let shown = on_search_select_show places s in
    elim (Option-cases (first_item shown.page.select_children 0)) [
      | inl e ↦ rw (e, open_selection)
      | inr (i, e) ↦ rw (e, open_selection) (move_focus-clocks (select_child i) shown)
    ]

-- Every key typed into the search field keeps the timers in order.
pub on_search_field_change-IsTimed :
    (places : Places) (key : ℕ) (shift : Bool) (s : State)
    → IsTimed (clocks s)
    → IsTimed (clocks (on_search_field_change places key shift s))
unfolding on_search_field_change
on_search_field_change-IsTimed places key shift s v =
    let killed = kill_timer s in
    let (timed, zero_timer) = kill_timer-IsTimed s v in
    let to_rows = go_to_results-clocks killed in
    let plain = value_changed-IsTimed killed timed zero_timer in
    let after_rows =
      value_changed-IsTimed (go_to_results killed) (rw to_rows timed)
        (ap (λ (c : Clocks). c.0) to_rows ∙ zero_timer) in
    let opened =
      subst IsTimed (sym (open_selection-clocks places killed))
        (on_search_select_show-IsTimed places killed timed) in
    let escaped = subst IsTimed (sym (escape_panel-clocks killed)) timed in
    elim (Bool-cases (nat_beq key 40 || nat_beq key 13)) [
      | inl e ↦ rw e (elim (Bool-cases shift) [ inl f ↦ rw f opened | inr f ↦ rw f after_rows ])
      | inr e ↦
          rw e (elim (Bool-cases (nat_beq key 27)) [ inl f ↦ rw f escaped | inr f ↦ rw f plain ])
    ]

-- A key event: the text of the field after it, its code, and the shift key.
abbrev pub Typed : Type 0
Typed = Text × ℕ × Bool

-- The field after some key events.
unfoldable pub type_keys : Places → List Typed → State → State
type_keys places [] s = s
type_keys places (e ∷ events) s = type_keys places events (
    on_search_field_change places e.1 e.2 (record s { page = record s.page { field_value = e.0 } }))

type_keys-IsTimed :
    (places : Places) (events : List Typed) (s : State)
    → IsTimed (clocks s)
    → IsTimed (clocks (type_keys places events s))
unfolding type_keys
type_keys-IsTimed places [] s v = v
type_keys-IsTimed places (e ∷ events) s v = type_keys-IsTimed places events _ (
    on_search_field_change-IsTimed places e.1 e.2
      (record s { page = record s.page { field_value = e.0 } }) v)

-- From a state with no timers, whatever is typed into the search field, with any texts and keys,
-- at most one search is about to run afterwards, and if one is, it is the timer that the panel
-- remembers and that the next key kills.
pub type_keys_one_search :
    (places : Places) (events : List Typed) (s : State)
    → s.page.timers ≡ []
    → 0 < s.page.next_timer
    → let t = type_keys places events s in
      (searches t.page.timers ≤ 1) × (searches (kill_timer t).page.timers ≡ 0)
unfolding searches
type_keys_one_search places events s none_set some_next =
    let start_at : IsTimed (clocks s) = record {
      some_next = some_next;
      kept = rw none_set tt;
      one = rw none_set (omega arith);
    } in
    let v = type_keys-IsTimed places events s start_at in
    let t = type_keys places events s in
    let (timed, zero_timer) = kill_timer-IsTimed t v in
    (
      v.one,
      zero-quiet (kill_timer t).page.next_timer 0 (kill_timer t).page.timers (
          subst (λ k. All (Kept (kill_timer t).page.next_timer k) (kill_timer t).page.timers)
            zero_timer timed.kept),
    )
