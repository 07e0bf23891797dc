-- ===== src/Docs/Text.antt =====
-- The texts of html/search/search.js: a text is the list of its UTF-16 code units.
use Prim.Native.Char.{code}
use database_system_swe.Base.{
  ℕ, zero, suc, ◌/◌, ◌%◌, ◌+◌, String, Bool, true, false, ◌&&◌, List, [], ◌∷◌, ◌++◌, ◌≡◌, ◌↔◌,
  arith, ltb, nat_beq, nat_beq_iff, if◌then◌else◌, Key,
}

abbrev pub Text : Type 0
Text = List ℕ

-- The code units of a literal.
abbrev pub text : String → Text
text String.[] = []
text (String.◌∷◌ c rest) = code c ∷ text rest

abbrev pub text_beq : Text → Text → Bool
text_beq [] [] = true
text_beq [] (d ∷ t) = false
text_beq (c ∷ s) [] = false
text_beq (c ∷ s) (d ∷ t) = nat_beq c d && text_beq s t

pub text_beq_iff : (s t : Text) → (text_beq s t ≡ true) ↔ (s ≡ t)
text_beq_iff [] [] = ground arith
text_beq_iff [] (d ∷ t) = ground arith
text_beq_iff (c ∷ s) [] = ground arith
text_beq_iff (c ∷ s) (d ∷ t) = ground (arith, nat_beq_iff c d, text_beq_iff s t)

instance abbrev pub text_eq : Key Text
text_eq = record { same = text_beq; same_iff = text_beq_iff }

abbrev pub space : ℕ
space = 32

abbrev pub is_blank : Text → Bool
is_blank [] = true
is_blank (c ∷ s) = false

-- `s.replace(/^ +/, "")`
unfoldable pub strip_leading : Text → Text
strip_leading [] = []
strip_leading (c ∷ s) = if nat_beq c space then strip_leading s else c ∷ s

-- `s.replace(/ +$/, "")`
unfoldable pub strip_trailing : Text → Text
strip_trailing [] = []
strip_trailing (c ∷ s) =
    let rest = strip_trailing s in if nat_beq c space && is_blank rest then [] else c ∷ rest

-- `s.replace(/ +/g, "")`
unfoldable pub remove_spaces : Text → Text
remove_spaces [] = []
remove_spaces (c ∷ s) = let rest = remove_spaces s in if nat_beq c space then rest else c ∷ rest

-- `s.substr(0, n)`
unfoldable pub take : ℕ → Text → Text
take zero s = []
take (suc n) [] = []
take (suc n) (c ∷ s) = c ∷ take n s

-- A digit of `toString(16)`.
abbrev pub hex_digit : ℕ → ℕ
hex_digit n = if ltb n 10 then 48 + n else 87 + n

-- `n.toString(16)`: each round takes one digit off, so `n` rounds are more than enough.
unfoldable pub hex_rounds : ℕ → ℕ → Text
hex_rounds zero n = hex_digit n ∷ []
hex_rounds (suc rounds) n =
    let high = hex_rounds rounds (n / 16) in
    if ltb n 16 then hex_digit n ∷ [] else high ++ hex_digit (n % 16) ∷ []

abbrev pub to_hex : ℕ → Text
to_hex n = hex_rounds n n
