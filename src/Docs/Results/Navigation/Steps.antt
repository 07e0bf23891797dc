-- ===== src/Docs/Results/Navigation/Steps.antt =====
-- `NavNext` and `NavPrev` (html/search/search.js) find the nearest row that is shown.
use database_system_swe.Base.{
  ℕ, zero, suc, ◌+◌, ◌≤◌, ◌<◌, Bool, true, false, Option, none, some, List, [], ◌∷◌, ◌≡◌, refl,
  arith, if◌then◌else◌, length, get_elem?, Option-cases, Bool-cases, inl, inr, ◌∙◌, ap, dec_lt,
}
use database_system_swe.Docs.Dom.{is_block}
use database_system_swe.Docs.Results.Navigation.{
  Row, row_shown, nav_next_from, nav_next, nav_prev_from,
}

abbrev pub shown_at : List Row → ℕ → Bool
shown_at rows k = row_shown (get_elem? rows k)

get_elem?-none_of_le :
    (rows : List Row) (i k : ℕ) → get_elem? rows i ≡ none → i ≤ k → get_elem? rows k ≡ none
get_elem?-none_of_le [] i k e h = refl
get_elem?-none_of_le (row ∷ rows) zero k e h = cc
get_elem?-none_of_le (row ∷ rows) (suc i) zero e h = absurd (omega arith)
get_elem?-none_of_le (row ∷ rows) (suc i) (suc k) e h =
    get_elem?-none_of_le rows i k e (omega arith)

get_elem?-length_le : (rows : List Row) (i : ℕ) → length rows ≤ i → get_elem? rows i ≡ none
get_elem?-length_le [] i h = refl
get_elem?-length_le (row ∷ rows) zero h = absurd (omega arith)
get_elem?-length_le (row ∷ rows) (suc i) h = get_elem?-length_le rows i (omega arith)

-- The answer of a search upwards from `i`: the first row at or after it that is shown.
abbrev pub IsNext : List Row → ℕ → Option ℕ → Type 0
IsNext rows i none = (k : ℕ) → i ≤ k → shown_at rows k ≡ false
IsNext rows i (some j) =
    (i ≤ j) × (shown_at rows j ≡ true) × ((k : ℕ) → i ≤ k → k < j → shown_at rows k ≡ false)

IsNext-pass :
    (rows : List Row) (i : ℕ) (o : Option ℕ)
    → shown_at rows i ≡ false
    → IsNext rows (i + 1) o
    → IsNext rows i o
IsNext-pass rows i none e h = λ k le. elim (dec_lt i k) [
  | yes lt ↦ h k (omega arith)
  | no ge ↦ let same : k ≡ i = omega arith in rw same e
]
IsNext-pass rows i (some j) e h = (
  omega arith,
  h.1,
  λ k le lt. elim (dec_lt i k) [
    | yes past ↦ h.2 k (omega arith) lt
    | no ge ↦ let same : k ≡ i = omega arith in rw same e
  ],
)

nav_next_from-IsNext :
    (fuel : ℕ) (rows : List Row) (i : ℕ)
    → length rows < fuel + i
    → IsNext rows i (nav_next_from fuel rows i)
unfolding nav_next_from
nav_next_from-IsNext zero rows i h = λ k le. ap row_shown (get_elem?-length_le rows k (omega arith))
nav_next_from-IsNext (suc fuel) rows i h = elim (Option-cases (get_elem? rows i)) [
  | inl e ↦ rw (e, nav_next_from) (λ k le. ap row_shown (get_elem?-none_of_le rows i k e le))
  | inr (row, e) ↦
      rw (e, nav_next_from)
        (elim (Bool-cases (is_block row.display)) [
          | inl on ↦ rw on (omega arith, ap row_shown e ∙ on, λ k le lt. absurd (omega arith))
          | inr off ↦ rw off (
              IsNext-pass rows i _ (ap row_shown e ∙ off)
                (nav_next_from-IsNext fuel rows (i + 1) (omega arith)))
        ])
]

-- For every page and index, `NavNext` answers the first row at or after the index that is shown,
-- and answers nothing exactly where no row there is shown.
pub nav_next-IsNext : (rows : List Row) (i : ℕ) → IsNext rows i (nav_next rows i)
nav_next-IsNext rows i = nav_next_from-IsNext (suc (length rows)) rows i (omega arith)

-- The answer of a search downwards from a row of the page: the last row at or before it.
abbrev pub IsPrev : List Row → ℕ → Option ℕ → Type 0
IsPrev rows i none = (k : ℕ) → k ≤ i → shown_at rows k ≡ false
IsPrev rows i (some j) =
    (j ≤ i) × (shown_at rows j ≡ true) × ((k : ℕ) → j < k → k ≤ i → shown_at rows k ≡ false)

IsPrev-pass :
    (rows : List Row) (i : ℕ) (o : Option ℕ)
    → shown_at rows (suc i) ≡ false
    → IsPrev rows i o
    → IsPrev rows (suc i) o
IsPrev-pass rows i none e h = λ k le. elim (dec_lt k (suc i)) [
  | yes lt ↦ h k (omega arith)
  | no ge ↦ let same : k ≡ suc i = omega arith in rw same e
]
IsPrev-pass rows i (some j) e h = (
  omega arith,
  h.1,
  λ k lt le. elim (dec_lt k (suc i)) [
    | yes past ↦ h.2 k lt (omega arith)
    | no ge ↦ let same : k ≡ suc i = omega arith in rw same e
  ],
)

IsPrev-zero :
    (rows : List Row) (b : Bool) → shown_at rows 0 ≡ b → IsPrev rows 0 (if b then some 0 else none)
IsPrev-zero rows true e = (omega arith, e, λ k lt le. absurd (omega arith))
IsPrev-zero rows false e = λ k le. let same : k ≡ 0 = omega arith in rw same e

-- From an index of the page, `NavPrev` answers the last row at or before the index that is shown,
-- and answers nothing exactly where no row there is shown.
pub nav_prev_from-IsPrev :
    (rows : List Row) (i : ℕ) → i < length rows → IsPrev rows i (nav_prev_from rows i)
unfolding nav_prev_from
nav_prev_from-IsPrev rows zero h = IsPrev-zero rows _ refl
nav_prev_from-IsPrev rows (suc i) h = elim (Option-cases (get_elem? rows (suc i))) [
  | inl e ↦ absurd (not_past rows (suc i) e h)
  | inr (row, e) ↦
      rw (e, nav_prev_from)
        (elim (Bool-cases (is_block row.display)) [
          | inl on ↦ rw on (omega arith, ap row_shown e ∙ on, λ k lt le. absurd (omega arith))
          | inr off ↦ rw off (
              IsPrev-pass rows i _ (ap row_shown e ∙ off)
                (nav_prev_from-IsPrev rows i (omega arith)))
        ])
]
  where
    not_past : (rows : List Row) (i : ℕ) → get_elem? rows i ≡ none → i < length rows → ⊥
    not_past [] i e lt = omega arith
    not_past (row ∷ rows) zero e lt = cc
    not_past (row ∷ rows) (suc i) e lt = not_past rows i e (omega arith)
