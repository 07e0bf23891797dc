-- ===== src/Docs/DynSections/JQuery.antt =====
-- What html/dynsections.js calls of jQuery, on one element.
use database_system_swe.Base.{Bool, true, false, ◌&&◌, [], ◌∷◌, ltb, if◌then◌else◌, ◌≡◌, ◌==◌}
use database_system_swe.Docs.Text.{Text, text, text_eq}

-- `is_visible` is `is(':visible')`, `css_display` is `css('display', …)`, and the source is the
-- attribute `src`.
pub record JQuery (E : Type 0) : Type 0 where
  pub id : E → Text
  pub is_visible : E → Bool
  pub show : E → E
  pub hide : E → E
  pub css_display : Text → E → E
  pub has_class : Text → E → Bool
  pub add_class : Text → E → E
  pub remove_class : Text → E → E
  pub html : Text → E → E
  pub src : E → Text
  pub set_src : Text → E → E

-- The name of one class: not empty, and without blanks, which separate names.
abbrev pub no_blanks : Text → Bool
no_blanks [] = true
no_blanks (c ∷ s) = ltb 32 c && no_blanks s

abbrev pub is_one_class : Text → Bool
is_one_class [] = false
is_one_class (c ∷ s) = ltb 32 c && no_blanks s

-- What jQuery documents of these calls, for elements in a part of the page that shows: `show` and
-- `hide` do so, and so do the values of `display` that the source sets; a single class is added and
-- removed by its name; no class or display changes an identifier; a source that is set is read back.
-- Of the style sheet: the class `even` sets a background only.
pub record IsJQuery {E : Type 0} (q : JQuery E) : Type 0 where
  pub is_visible-show : (e : E) → q.is_visible (q.show e) ≡ true
  pub is_visible-hide : (e : E) → q.is_visible (q.hide e) ≡ false
  pub is_visible-none : (e : E) → q.is_visible (q.css_display (text "none") e) ≡ false
  pub is_visible-table_row : (e : E) → q.is_visible (q.css_display (text "table-row") e) ≡ true
  pub is_visible-add_class : (e : E) → q.is_visible (q.add_class (text "even") e) ≡ q.is_visible e
  pub is_visible-remove_class :
      (e : E) → q.is_visible (q.remove_class (text "even") e) ≡ q.is_visible e
  pub id-show : (e : E) → q.id (q.show e) ≡ q.id e
  pub id-hide : (e : E) → q.id (q.hide e) ≡ q.id e
  pub id-add_class : (s : Text) (e : E) → q.id (q.add_class s e) ≡ q.id e
  pub id-remove_class : (s : Text) (e : E) → q.id (q.remove_class s e) ≡ q.id e
  pub has_class-add_class :
      (s t : Text)
      → is_one_class s ≡ true
      → is_one_class t ≡ true
      → (e : E) → q.has_class t (q.add_class s e) ≡ (if s == t then true else q.has_class t e)
  pub has_class-remove_class :
      (s t : Text)
      → is_one_class s ≡ true
      → is_one_class t ≡ true
      → (e : E) → q.has_class t (q.remove_class s e) ≡ (if s == t then false else q.has_class t e)
  pub src-set_src : (s : Text) (e : E) → q.src (q.set_src s e) ≡ s
