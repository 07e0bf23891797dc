-- ===== src/Docs/DynSections/Folding/Agrees.antt =====
-- The image of a section in html/dynsections.js agrees with what it shows.
use database_system_swe.Base.{
  ℕ, ◌-◌, ◌+◌, Bool, true, false, not, List, [], ◌∷◌, ◌++◌, map, ◌≡◌, refl, ap, arith,
  if◌then◌else◌, length,
}
use database_system_swe.Docs.Text.{Text, text, text_eq, take}
use database_system_swe.Docs.DynSections.JQuery.{JQuery, IsJQuery}
use database_system_swe.Docs.DynSections.Folding.{
  drop_last, Section, toggle_visibility, toggle_inherit,
}

length-append_nat : (a b : Text) → length (a ++ b) ≡ length a + length b
length-append_nat [] b = omega arith
length-append_nat (x ∷ a) b = omega (arith, length-append_nat a b)

take-length : (a b : Text) → take (length a) (a ++ b) ≡ a
unfolding take
take-length [] b = refl
take-length (x ∷ a) b = ap (λ t. x ∷ t) (take-length a b)

drop_last-append : (n : ℕ) (a b : Text) → length b ≡ n → drop_last n (a ++ b) ≡ a
drop_last-append n a b e =
    let len : length (a ++ b) - n ≡ length a = omega (arith, length-append_nat a b) in
    rw len (take-length a b)

-- The name of an image: what all its states share, and the state.
abbrev pub image : Text → Bool → Text
image base shown = base ++ (if shown then text "open.png" else text "closed.png")

module _ {E : Type 0} (q : JQuery E) where
  -- The summary shows where the content does not, the link's classes tell which, and so does the
  -- image.
  pub record Agrees (base : Text) (shown : Bool) (s : Section E) : Type 0 where
    pub content : q.is_visible s.content ≡ shown
    pub summary : q.is_visible s.summary ≡ not shown
    pub opened : q.has_class (text "opened") s.link ≡ shown
    pub closed : q.has_class (text "closed") s.link ≡ not shown
    pub trigger : q.src s.trigger ≡ image base shown

  -- If a section agrees with its image, toggleVisibility makes the hidden one of content and summary
  -- show and the other hidden, and the section agrees with its new image.
  pub toggle_visibility-Agrees :
      (base : Text) (shown : Bool) (s : Section E)
      → IsJQuery q
      → Agrees base shown s
      → Agrees base (not shown) (toggle_visibility q s)
  unfolding toggle_visibility
  toggle_visibility-Agrees base true s laws a = record {
    content = ground (arith, a.content, laws.is_visible-hide s.content);
    summary = ground (arith, a.content, laws.is_visible-show s.summary);
    opened = ground (
      arith,
      a.content,
      laws.has_class-remove_class (text "opened") (text "opened") refl refl
          (q.add_class (text "closed") s.link),
    );
    closed = ground (
      arith,
      a.content,
      laws.has_class-remove_class (text "opened") (text "closed") refl refl
          (q.add_class (text "closed") s.link),
      laws.has_class-add_class (text "closed") (text "closed") refl refl s.link,
    );
    trigger = ground (
      arith,
      a.content,
      a.trigger,
      drop_last-append 8 base (text "open.png") refl,
      laws.src-set_src (drop_last 8 (q.src s.trigger) ++ text "closed.png") s.trigger,
    );
  }
  toggle_visibility-Agrees base false s laws a = record {
    content = ground (arith, a.content, laws.is_visible-show s.content);
    summary = ground (arith, a.content, laws.is_visible-hide s.summary);
    opened = ground (
      arith,
      a.content,
      laws.has_class-add_class (text "opened") (text "opened") refl refl
          (q.remove_class (text "closed") s.link),
    );
    closed = ground (
      arith,
      a.content,
      laws.has_class-add_class (text "opened") (text "closed") refl refl
          (q.remove_class (text "closed") s.link),
      laws.has_class-remove_class (text "closed") (text "closed") refl refl s.link,
    );
    trigger = ground (
      arith,
      a.content,
      a.trigger,
      drop_last-append 10 base (text "closed.png") refl,
      laws.src-set_src (drop_last 10 (q.src s.trigger) ++ text "open.png") s.trigger,
    );
  }

  -- Whether every row shows, or none does.
  unfoldable pub all_show : Bool → List E → Bool
  all_show shown [] = true
  all_show shown (e ∷ rows) =
      let rest = all_show shown rows in
      if q.is_visible e then if shown then rest else false else if shown then false else rest

  all_show-css_display :
      (s : Text) (shown : Bool) (rows : List E)
      → ((e : E) → q.is_visible (q.css_display s e) ≡ shown)
      → all_show shown (map (q.css_display s) rows) ≡ true
  unfolding all_show
  all_show-css_display s shown [] all_set = refl
  all_show-css_display s shown (e ∷ rows) all_set =
      ground (arith, all_set e, all_show-css_display s shown rows all_set)

  -- If there are inherited rows, all shown or all hidden as the image of their header tells, then
  -- after toggleInherit all are the other way, and the image tells so.
  pub toggle_inherit_agrees :
      (base : Text) (shown : Bool) (e : E) (rows : List E) (img : E)
      → IsJQuery q
      → all_show shown (e ∷ rows) ≡ true
      → q.src img ≡ image base shown
      → (all_show (not shown) (toggle_inherit q (e ∷ rows, img)).0 ≡ true)
        × (q.src (toggle_inherit q (e ∷ rows, img)).1 ≡ image base (not shown))
  unfolding toggle_inherit all_show
  toggle_inherit_agrees base true e rows img laws h i = (
    ground (
      arith,
      h,
      laws.is_visible-none e,
      all_show-css_display (text "none") false rows laws.is_visible-none,
    ),
    ground (
      arith,
      h,
      i,
      drop_last-append 8 base (text "open.png") refl,
      laws.src-set_src (drop_last 8 (q.src img) ++ text "closed.png") img,
    ),
  )
  toggle_inherit_agrees base false e rows img laws h i = (
    ground (
      arith,
      h,
      laws.is_visible-table_row e,
      all_show-css_display (text "table-row") true rows laws.is_visible-table_row,
    ),
    ground (
      arith,
      h,
      i,
      drop_last-append 10 base (text "closed.png") refl,
      laws.src-set_src (drop_last 10 (q.src img) ++ text "open.png") img,
    ),
  )
