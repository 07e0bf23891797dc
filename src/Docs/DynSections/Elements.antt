-- ===== src/Docs/DynSections/Elements.antt =====
-- Elements that behave as html/dynsections.js relies on.
use database_system_swe.Base.{
  Bool, true, false, List, [], ◌∷◌, ◌≡◌, refl, arith, if◌then◌else◌, ◌==◌,
}
use database_system_swe.Docs.Text.{Text, text, text_eq, text_beq_iff}
use database_system_swe.Docs.DynSections.JQuery.{JQuery, IsJQuery}

pub record Element : Type 0 where
  pub id : Text
  pub shown : Bool
  pub classes : List Text
  pub inner_html : Text
  pub src : Text

unfoldable pub has : Text → List Text → Bool
has s [] = false
has s (t ∷ classes) = let later = has s classes in if t == s then true else later

unfoldable pub without : Text → List Text → List Text
without s [] = []
without s (t ∷ classes) = let later = without s classes in if t == s then later else t ∷ later

has-without :
    (s t : Text) (classes : List Text)
    → has t (without s classes) ≡ (if s == t then false else has t classes)
unfolding has without
has-without s t [] = ground arith
has-without s t (u ∷ classes) =
    ground (arith, text_beq_iff u s, text_beq_iff u t, text_beq_iff s t, has-without s t classes)

abbrev pub elements : JQuery Element
elements = record {
  id = λ e. e.id;
  is_visible = λ e. e.shown;
  show = λ e. record e { shown = true };
  hide = λ e. record e { shown = false };
  css_display = λ s e. record e { shown = if s == text "none" then false else true };
  has_class = λ s e. has s e.classes;
  add_class = λ s e. record e { classes = s ∷ e.classes };
  remove_class = λ s e. record e { classes = without s e.classes };
  html = λ s e. record e { inner_html = s };
  src = λ e. e.src;
  set_src = λ s e. record e { src = s };
}

pub elements-IsJQuery : IsJQuery elements
unfolding has
elements-IsJQuery = record {
  is_visible-show = λ e. refl;
  is_visible-hide = λ e. refl;
  is_visible-none = λ e. refl;
  is_visible-table_row = λ e. refl;
  is_visible-add_class = λ e. refl;
  is_visible-remove_class = λ e. refl;
  id-show = λ e. refl;
  id-hide = λ e. refl;
  id-add_class = λ s e. refl;
  id-remove_class = λ s e. refl;
  has_class-add_class = λ s t one_s one_t e. refl;
  has_class-remove_class = λ s t one_s one_t e. has-without s t e.classes;
  src-set_src = λ s e. refl;
}
