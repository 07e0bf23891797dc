-- ===== src/Parse/Lexer.antt =====
-- src/main/java/simpledb/parse/Lexer.java over the tokens that Java's StreamTokenizer makes of a text,
-- from the current one on; at the end there is none. BadSyntaxException is `none`.
use database_system_swe.Base.{
  string_eq, ℕ, ℤ, Bool, true, false, ◌||◌, not, Option, none, some, List, [], ◌∷◌, String, ◌==◌,
  nat_beq, if◌then◌else◌,
}

-- A word in lower case, a number rounded to an int, a string in single quotes, or another character.
pub data Token : Type 0 where
  word : String → Token
  number : ℤ → Token
  quoted : List ℕ → Token
  delim : ℕ → Token

abbrev pub keywords : List String
keywords =
    "select" ∷ "from" ∷ "where" ∷ "and" ∷ "insert" ∷ "into" ∷ "values" ∷ "delete" ∷ "update" ∷ "set"
    ∷ "create" ∷ "table" ∷ "int" ∷ "varchar" ∷ "view" ∷ "as" ∷ "index" ∷ "on" ∷ []

abbrev pub contains_word : String → List String → Bool
contains_word w [] = false
contains_word w (k ∷ words) = k == w || contains_word w words

unfoldable pub is_keyword : String → Bool
is_keyword w = contains_word w keywords

abbrev pub match_delim : ℕ → List Token → Bool
match_delim d (delim c ∷ ts) = nat_beq d c
match_delim d ts = false

abbrev pub match_int_constant : List Token → Bool
match_int_constant (number n ∷ ts) = true
match_int_constant ts = false

abbrev pub match_string_constant : List Token → Bool
match_string_constant (quoted s ∷ ts) = true
match_string_constant ts = false

abbrev pub match_keyword : String → List Token → Bool
match_keyword w (word v ∷ ts) = v == w
match_keyword w ts = false

abbrev pub match_id : List Token → Bool
match_id (word w ∷ ts) = not (is_keyword w)
match_id ts = false

abbrev pub eat_delim : ℕ → List Token → Option (List Token)
eat_delim d (delim c ∷ ts) = if nat_beq d c then some ts else none
eat_delim d ts = none

abbrev pub eat_int_constant : List Token → Option (ℤ × List Token)
eat_int_constant (number n ∷ ts) = some (n, ts)
eat_int_constant ts = none

abbrev pub eat_string_constant : List Token → Option (List ℕ × List Token)
eat_string_constant (quoted s ∷ ts) = some (s, ts)
eat_string_constant ts = none

abbrev pub eat_keyword : String → List Token → Option (List Token)
eat_keyword w (word v ∷ ts) = if v == w then some ts else none
eat_keyword w ts = none

abbrev pub eat_id : List Token → Option (String × List Token)
eat_id (word w ∷ ts) = if not (is_keyword w) then some (w, ts) else none
eat_id ts = none
