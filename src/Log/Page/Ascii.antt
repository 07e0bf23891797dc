-- ===== src/Log/Page/Ascii.antt =====
-- The strings of src/main/java/simpledb/file/Page.java: `getString` and `setString`, whose CHARSET is
-- US_ASCII. A string is the list of its UTF-16 code units.
use database_system_swe.Base.{
  ℕ, ◌<◌, Bool, true, false, ◌&&◌, Option, some, List, All, [], ◌∷◌, ◌≡◌, refl, ap, ◌∙◌, arith, leb,
  ltb, if◌then◌else◌,
}
use database_system_swe.Log.Page.{Page, get_bytes, set_bytes, ◌>>=◌}

-- The halves of a character beyond 16 bits.
abbrev pub is_high : ℕ → Bool
is_high c = leb 55296 c && ltb c 56320

abbrev pub is_low : ℕ → Bool
is_low c = leb 56320 c && ltb c 57344

-- `String.getBytes(US_ASCII)`: a character that has no byte becomes a question mark.
unfoldable pub encode : List ℕ → List ℕ
encode [] = []
encode (c ∷ []) = (if ltb c 128 then c else b'?') ∷ []
encode (c ∷ d ∷ s) = elim (ltb c 128) [
  | true ↦ c ∷ encode (d ∷ s)
  | false ↦ elim (is_high c && is_low d) [ true ↦ b'?' ∷ encode s | false ↦ b'?' ∷ encode (d ∷ s) ]
]

-- `new String(b, US_ASCII)`: a byte that is no character becomes the replacement character.
unfoldable pub decode : List ℕ → List ℕ
decode [] = []
decode (b ∷ bytes) = (if ltb b 128 then b else 65533) ∷ decode bytes

unfoldable pub get_text : ℕ → Page → Option (List ℕ)
get_text offset p = get_bytes offset p >>= λ b. some (decode b)

unfoldable pub set_text : ℕ → List ℕ → Page → Option Page
set_text offset s p = set_bytes offset (encode s) p

abbrev pub IsAscii : List ℕ → Type 0
IsAscii s = All (λ c. c < 128) s

pub encode-IsAscii : (s : List ℕ) → IsAscii s → encode s ≡ s
unfolding encode
encode-IsAscii [] ascii = refl
encode-IsAscii (c ∷ []) ascii = ground (arith, ascii.0)
encode-IsAscii (c ∷ d ∷ s) (lt, ascii) =
    let small : ltb c 128 ≡ true = ground (arith, lt) in
    rw (encode, small) (ap (λ l. c ∷ l) (encode-IsAscii (d ∷ s) ascii))

pub decode-IsAscii : (s : List ℕ) → IsAscii s → decode s ≡ s
unfolding decode
decode-IsAscii [] ascii = refl
decode-IsAscii (c ∷ s) (lt, ascii) =
    let small : ltb c 128 ≡ true = ground (arith, lt) in
    rw small (ap (λ l. c ∷ l) (decode-IsAscii s ascii))

pub set_text-IsAscii :
    (i : ℕ) (s : List ℕ) (p : Page) → IsAscii s → set_text i s p ≡ set_bytes i s p
unfolding set_text
set_text-IsAscii i s p ascii = ap (λ b. set_bytes i b p) (encode-IsAscii s ascii)

pub get_text-IsAscii :
    (i : ℕ) (s : List ℕ) (p : Page) → IsAscii s → get_bytes i p ≡ some s → get_text i p ≡ some s
unfolding get_text
get_text-IsAscii i s p ascii e =
    ap (λ o. o >>= λ b. some (decode b)) e ∙ ap some (decode-IsAscii s ascii)
