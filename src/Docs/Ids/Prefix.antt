-- ===== src/Docs/Ids/Prefix.antt =====
-- The identifiers keep prefixes: a converted query is a prefix of a converted name exactly when the
-- query is a prefix of the name.
use database_system_swe.Base.{
  ℕ, zero, suc, ◌⊎◌, ◌/◌, ◌%◌, ◌≤◌, ◌<◌, Bool, true, false, ◌&&◌, [], ◌∷◌, ◌++◌, ◌≡◌, refl, ◌∙◌,
  sym, ap, arith, nat_beq, nat_beq_iff, if◌then◌else◌, All,
}
use mathlib.Core.List.{append_assoc, append-nil}
use mathlib.Core.Path.{ap₂}
use database_system_swe.Docs.Text.{Text, text_eq, take, hex_digit, hex_rounds, to_hex}
use database_system_swe.Docs.Ids.{is_plain, escape_unit, convert_from, convert_to_id, has_prefix}

-- A text begins with another.
abbrev pub starts : Text → Text → Bool
starts [] t = true
starts (c ∷ s) [] = false
starts (c ∷ s) (d ∷ t) = nat_beq c d && starts s t

has_prefix-starts : (s t : Text) → has_prefix s t ≡ starts s t
unfolding take
has_prefix-starts [] t = ground arith
has_prefix-starts (c ∷ s) [] = ground arith
has_prefix-starts (c ∷ s) (d ∷ t) = ground (arith, has_prefix-starts s t, nat_beq_iff c d)

hex_rounds-two :
    (r n : ℕ)
    → 16 ≤ n
    → n < 256
    → hex_rounds (suc (suc r)) n ≡ hex_digit (n / 16) ∷ hex_digit (n % 16) ∷ []
unfolding hex_rounds
hex_rounds-two r n lo hi = let inner : n / 16 < 16 = omega arith in ground arith

to_hex-one : (c : ℕ) → c < 16 → to_hex c ≡ hex_digit c ∷ []
unfolding hex_rounds
to_hex-one zero h = refl
to_hex-one (suc c) h = ground arith

to_hex-two : (c : ℕ) → 16 ≤ c → c < 256 → to_hex c ≡ hex_digit (c / 16) ∷ hex_digit (c % 16) ∷ []
to_hex-two zero lo hi = absurd (omega arith)
to_hex-two (suc zero) lo hi = absurd (omega arith)
to_hex-two (suc (suc c)) lo hi = hex_rounds-two c (suc (suc c)) lo hi

-- A unit is kept, or written as an underscore and two digits.
escape_unit-form :
    (c : ℕ)
    → c < 65536
    → escape_unit c
      ≡ (if is_plain c then c ∷ [] else b'_' ∷ hex_digit (c / 16) ∷ hex_digit (c % 16) ∷ [])
unfolding escape_unit
escape_unit-form c h = ground (arith, to_hex-one c, to_hex-two c)

hex_digit-eq : (a b : ℕ) → a < 16 → b < 16 → nat_beq (hex_digit a) (hex_digit b) ≡ nat_beq a b
hex_digit-eq a b ha hb = ground arith

starts-escape_unit :
    (c d : ℕ) (x y : Text)
    → c < 65536
    → d < 65536
    → starts (escape_unit c ++ x) (escape_unit d ++ y) ≡ nat_beq c d && starts x y
starts-escape_unit c d x y hc hd =
    let hi : (c / 16 < 16) ⊎ (256 ≤ c) = omega arith in
    ground (
      arith,
      escape_unit-form c hc,
      escape_unit-form d hd,
      hex_digit-eq (c / 16) (d / 16),
      hex_digit-eq (c % 16) (d % 16),
    )

-- The text that the loop adds, without its accumulator.
escaped : Text → Text
escaped [] = []
escaped (c ∷ s) = escape_unit c ++ escaped s

convert_from-escaped : (result s : Text) → convert_from result s ≡ result ++ escaped s
unfolding convert_from escaped
convert_from-escaped result [] = simp append-nil
convert_from-escaped result (c ∷ s) =
    convert_from-escaped (result ++ escape_unit c) s
    ∙ append_assoc result (escape_unit c) (escaped s)

abbrev pub Units : Text → Type 0
Units = All (λ c. c < 65536)

escaped-starts : (s t : Text) → Units s → Units t → starts (escaped s) (escaped t) ≡ starts s t
unfolding escaped
escaped-starts [] t hs ht = refl
escaped-starts (c ∷ s) [] hs ht = ground (arith, escape_unit-form c hs.0)
escaped-starts (c ∷ s) (d ∷ t) hs ht =
    starts-escape_unit c d (escaped s) (escaped t) hs.0 ht.0
    ∙ ap (λ b. nat_beq c d && b) (escaped-starts s t hs.1 ht.1)

-- For texts of 16-bit units: the test that a search makes between the converted query and a
-- converted name says exactly whether the query itself is a prefix of the name.
pub prefix-convert_to_id :
    (s t : Text) → Units s → Units t → has_prefix (convert_to_id s) (convert_to_id t) ≡ starts s t
prefix-convert_to_id s t hs ht =
    has_prefix-starts (convert_to_id s) (convert_to_id t)
    ∙ ap₂ starts (convert_from-escaped [] s) (convert_from-escaped [] t)
    ∙ escaped-starts s t hs ht

starts-both : (s t : Text) → starts s t ≡ true → starts t s ≡ true → s ≡ t
starts-both [] [] h k = refl
starts-both [] (d ∷ t) h k = cc
starts-both (c ∷ s) [] h k = cc
starts-both (c ∷ s) (d ∷ t) h k = ground (arith, nat_beq_iff c d, starts-both s t)

starts_self : (s : Text) → starts s s ≡ true
starts_self [] = refl
starts_self (c ∷ s) = ground (arith, starts_self s)

-- Texts of 16-bit units with the same identifier are the same text.
pub convert_to_id-injective :
    (s t : Text) → Units s → Units t → convert_to_id s ≡ convert_to_id t → s ≡ t
convert_to_id-injective s t hs ht e =
    let one : starts (escaped s) (escaped t) ≡ true = rw same (starts_self (escaped t)) in
    let two : starts (escaped t) (escaped s) ≡ true = rw same (starts_self (escaped t)) in
    starts-both s t (sym (escaped-starts s t hs ht) ∙ one) (sym (escaped-starts t s ht hs) ∙ two)
  where
    same : escaped s ≡ escaped t
    same = sym (convert_from-escaped [] s) ∙ e ∙ convert_from-escaped [] t
