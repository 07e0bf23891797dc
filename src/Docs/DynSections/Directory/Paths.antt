-- ===== src/Docs/DynSections/Directory/Paths.antt =====
-- The identifiers of the rows in html/dynsections.js: which row is above which.
use database_system_swe.Base.{
  ℕ, Bool, true, false, ◌&&◌, ◌||◌, Option, none, some, [], ◌∷◌, ◌++◌, ◌≡◌, refl, sym, ap, ◌∙◌,
  Option-cases, inl, inr, arith, if◌then◌else◌, nat_beq,
}
use database_system_swe.Docs.Text.{Text, text, text_eq, is_blank, take}
use database_system_swe.Docs.Ids.{has_prefix}
use database_system_swe.Docs.Results.Search.{is_digit}
use database_system_swe.Docs.Menu.Read.{after}
use database_system_swe.Docs.DynSections.Directory.{
  fold_case, after_folded, ends_number, matches_rest, is_sub,
}

-- Digits and `_`, the last of them a `_`.
unfoldable pub is_path : Text → Bool
is_path [] = true
is_path (c ∷ s) =
    let rest = is_path s in
    if is_digit c || nat_beq c b'_' then if is_blank s then nat_beq c b'_' else rest else false

-- The path of a row's identifier.
abbrev pub path_of : Text → Option Text
path_of id = after (text "row_") id

abbrev pub is_step : Option Text → Option Text → Bool
is_step none h = false
is_step (some f) none = false
is_step (some f) (some h) = is_path f && is_path h && matches_rest (after_folded f h)

-- Whether the second row stands right below the first one in the tree.
abbrev pub is_above : Text → Text → Bool
is_above p c = is_step (path_of p) (path_of c)

unfoldable pub starts : Text → Text → Bool
starts [] s = true
starts (c ∷ prefix) [] = false
starts (c ∷ prefix) (d ∷ s) = let rest = starts prefix s in if nat_beq c d then rest else false

has_prefix-starts : (prefix s : Text) → has_prefix prefix s ≡ starts prefix s
unfolding starts take
has_prefix-starts [] s = ground arith
has_prefix-starts (c ∷ prefix) [] = ground arith
has_prefix-starts (c ∷ prefix) (d ∷ s) = ground (arith, has_prefix-starts prefix s)

-- A path that ends inside a number is followed by no number.
is_path-ends_number :
    (g h : Text)
    → is_path g ≡ true
    → is_blank g ≡ false
    → ends_number h ≡ true
    → matches_rest (after_folded g h) ≡ false
unfolding is_path after_folded ends_number
is_path-ends_number [] h p b e = ground (arith, b)
is_path-ends_number (c ∷ g) [] p b e = ground arith
is_path-ends_number (c ∷ []) (d ∷ []) p b e = ground (arith, p, e)
is_path-ends_number (c ∷ []) (d ∷ d' ∷ h) p b e = ground (arith, p, e)
is_path-ends_number (c ∷ c' ∷ g) (d ∷ h) p b e =
    ground (arith, p, e, is_path-ends_number (c' ∷ g) h)

abbrev is_mark : ℕ → Bool
is_mark c = is_digit c || nat_beq c b'_'

is_path-cons :
    (a b : ℕ) (f : Text)
    → is_path (a ∷ b ∷ f) ≡ true
    → (is_mark a ≡ true) × (is_path (b ∷ f) ≡ true)
unfolding is_path
is_path-cons a b f p = (ground (arith, p), ground (arith, p))

matches_cons :
    (a d : ℕ) (f h : Text)
    → matches_rest (after_folded (a ∷ f) (d ∷ h)) ≡ true
    → (fold_case a ≡ fold_case d) × (matches_rest (after_folded f h) ≡ true)
unfolding after_folded
matches_cons a d f h m = (ground (arith, m), ground (arith, m))

same_mark : (a b : ℕ) → is_mark a ≡ true → is_mark b ≡ true → fold_case a ≡ fold_case b → a ≡ b
same_mark a b ma mb e = ground (arith, ma, mb, e)

-- A path has one parent.
sub_unique :
    (f g h : Text)
    → is_path f ≡ true
    → is_path g ≡ true
    → matches_rest (after_folded f h) ≡ true
    → matches_rest (after_folded g h) ≡ true
    → f ≡ g
unfolding is_path after_folded
sub_unique [] [] h pf pg mf mg = refl
sub_unique [] (c ∷ g) [] pf pg mf mg = ground (arith, mg)
sub_unique [] (c ∷ []) (d ∷ h) pf pg mf mg = ground (arith, pg, mf, mg)
sub_unique [] (c ∷ c' ∷ g) (d ∷ h) pf pg mf mg =
    ground (arith, pg, mf, mg, is_path-ends_number (c' ∷ g) h)
sub_unique (c ∷ f) [] [] pf pg mf mg = ground (arith, mf)
sub_unique (c ∷ []) [] (d ∷ h) pf pg mf mg = ground (arith, pf, mf, mg)
sub_unique (c ∷ c' ∷ f) [] (d ∷ h) pf pg mf mg =
    ground (arith, pf, mf, mg, is_path-ends_number (c' ∷ f) h)
sub_unique (a ∷ f) (b ∷ g) [] pf pg mf mg = ground (arith, mf)
sub_unique (a ∷ []) (b ∷ []) (d ∷ h) pf pg mf mg = ground (arith, pf, pg, mf, mg)
sub_unique (a ∷ []) (b ∷ b' ∷ g) (d ∷ h) pf pg mf mg =
    ground (arith, pf, pg, mf, mg, sub_unique [] (b' ∷ g) h)
sub_unique (a ∷ a' ∷ f) (b ∷ []) (d ∷ h) pf pg mf mg =
    ground (arith, pf, pg, mf, mg, sub_unique (a' ∷ f) [] h)
sub_unique (a ∷ a' ∷ f) (b ∷ b' ∷ g) (d ∷ h) pf pg mf mg =
    let (ma, pf') = is_path-cons a a' f pf in
    let (mb, pg') = is_path-cons b b' g pg in
    let (ea, mf') = matches_cons a d (a' ∷ f) h mf in
    let (eb, mg') = matches_cons b d (b' ∷ g) h mg in
    ap (λ c. c ∷ a' ∷ f) (same_mark a b ma mb (ea ∙ sym eb))
    ∙ ap (λ t. b ∷ t) (sub_unique (a' ∷ f) (b' ∷ g) h pf' pg' mf' mg')

-- What is below a path begins with what the path begins with.
starts-sub :
    (g f h : Text)
    → is_path f ≡ true
    → is_path h ≡ true
    → starts g f ≡ true
    → matches_rest (after_folded f h) ≡ true
    → starts g h ≡ true
unfolding is_path after_folded starts
starts-sub [] f h pf ph s m = refl
starts-sub (c ∷ g) [] h pf ph s m = ground (arith, s)
starts-sub (c ∷ g) (a ∷ f) [] pf ph s m = ground (arith, m)
starts-sub (c ∷ g) (a ∷ []) (d ∷ []) pf ph s m = ground (arith, m)
starts-sub (c ∷ []) (a ∷ f) (d ∷ h) pf ph s m = ground (arith, pf, ph, s, m)
starts-sub (c ∷ c' ∷ g) (a ∷ []) (d ∷ d' ∷ h) pf ph s m = ground (arith, s)
starts-sub (c ∷ c' ∷ g) (a ∷ a' ∷ f) (d ∷ []) pf ph s m = ground (arith, m)
starts-sub (c ∷ c' ∷ g) (a ∷ a' ∷ f) (d ∷ d' ∷ h) pf ph s m =
    ground (arith, pf, ph, s, m, starts-sub (c' ∷ g) (a' ∷ f) (d' ∷ h))

-- An identifier with a path is `row_` and the path.
path_of-some : (id h : Text) → path_of id ≡ some h → id ≡ text "row_" ++ h
unfolding after
path_of-some [] h e = ground (arith, e)
path_of-some (a ∷ []) h e = ground (arith, e)
path_of-some (a ∷ b ∷ []) h e = ground (arith, e)
path_of-some (a ∷ b ∷ c ∷ []) h e = ground (arith, e)
path_of-some (a ∷ b ∷ c ∷ d ∷ id) h e = ground (arith, e)

is_sub-row : (g h : Text) → is_sub g (text "row_" ++ h) ≡ matches_rest (after_folded g h)
unfolding after_folded
is_sub-row g h = refl

has_prefix-row : (g h : Text) → has_prefix (text "row_" ++ g) (text "row_" ++ h) ≡ starts g h
unfolding starts
has_prefix-row g h = has_prefix-starts (text "row_" ++ g) (text "row_" ++ h)

module _ (g p c : Text) (above : is_above p c ≡ true) where
  -- A row that `toggleFolder` shows has the clicked row above it.
  pub is_above-is_sub : is_path g ≡ true → is_sub g c ≡ true → p ≡ text "row_" ++ g
  is_above-is_sub pg s = elim (Option-cases (path_of p)) [
    | inl e ↦ ground (arith, e, above)
    | inr (f, e) ↦ elim (Option-cases (path_of c)) [
      | inl e' ↦ ground (arith, e, e', above)
      | inr (h, e') ↦
          path_of-some p f e
          ∙ ap (λ t. text "row_" ++ t)
              (sub_unique f g h (ground (arith, e, e', above)) pg (ground (arith, e, e', above))
                (sym (is_sub-row g h) ∙ ap (is_sub g) (sym (path_of-some c h e')) ∙ s))
    ]
  ]

  -- What is above a row that `toggleFolder` leaves is not hidden, when it stands after the clicked row.
  pub is_above-has_prefix :
      has_prefix (text "row_" ++ g) p ≡ true → has_prefix (text "row_" ++ g) c ≡ true
  is_above-has_prefix s = elim (Option-cases (path_of p)) [
    | inl e ↦ ground (arith, e, above)
    | inr (f, e) ↦ elim (Option-cases (path_of c)) [
      | inl e' ↦ ground (arith, e, e', above)
      | inr (h, e') ↦
          ap (has_prefix (text "row_" ++ g)) (path_of-some c h e')
          ∙ has_prefix-row g h
          ∙ starts-sub g f h (ground (arith, e, e', above)) (ground (arith, e, e', above))
              (sym (has_prefix-row g f)
                ∙ ap (has_prefix (text "row_" ++ g)) (sym (path_of-some p f e))
                ∙ s)
              (ground (arith, e, e', above))
    ]
  ]
