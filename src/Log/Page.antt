-- ===== src/Log/Page.antt =====
-- src/main/java/simpledb/file/Page.java: the bytes of a block, each from 0 to 255. An access outside
-- the page is an exception, `none`.
pub mod Access
pub mod Within
pub mod Ascii
use database_system_swe.Base.{
  ℕ, zero, suc, ◌+◌, ◌-◌, ◌*◌, ◌/◌, ◌%◌, ◌^◌, ℤ, pos, negsuc, Bool, true, false, ◌&&◌, Option, none,
  some, List, [], ◌∷◌, length, leb, ltb, if◌then◌else◌,
}

pub record Page : Type 0 where
  pub size : ℕ
  pub byte : ℕ → ℕ

infixl 5 ◌>>=◌
abbrev pub ◌>>=◌ {ℓ κ} : {A : Type ℓ} {B : Type κ} → Option A → (A → Option B) → Option B
none >>= f = none
some a >>= f = f a

-- A new page has zeros.
abbrev pub new_page : ℕ → Page
new_page size = record { size = size; byte = λ i. 0 }

abbrev pub nth : List ℕ → ℕ → ℕ
nth [] i = 0
nth (b ∷ bytes) zero = b
nth (b ∷ bytes) (suc i) = nth bytes i

-- `ByteBuffer.put`, inside the page.
unfoldable pub put : ℕ → List ℕ → Page → Page
put offset bytes p = record p {
  byte = λ i.
      if leb offset i && ltb i (offset + length bytes) then nth bytes (i - offset) else p.byte i;
}

unfoldable pub take_bytes : ℕ → ℕ → Page → List ℕ
take_bytes offset zero p = []
take_bytes offset (suc n) p = p.byte offset ∷ take_bytes (suc offset) n p

-- The four bytes of an `int`, the highest one first, and the `int` of four bytes.
abbrev pub word : ℤ → ℕ
word (pos n) = n % 2 ^ 32
word (negsuc n) = 2 ^ 32 - 1 - n % 2 ^ 32

abbrev pub word_bytes : ℕ → List ℕ
word_bytes w = (w / 2 ^ 24 % 256) ∷ (w / 2 ^ 16 % 256) ∷ (w / 2 ^ 8 % 256) ∷ (w % 256) ∷ []

abbrev pub signed : ℕ → ℤ
signed w = if ltb w (2 ^ 31) then pos w else negsuc (2 ^ 32 - 1 - w)

abbrev pub in_page : ℕ → ℕ → Page → Bool
in_page offset n p = leb (offset + n) p.size

unfoldable pub get_int : ℕ → Page → Option ℤ
get_int offset p =
    if in_page offset 4 p
    then some (
        signed (
          p.byte offset * 2 ^ 24
          + p.byte (offset + 1) * 2 ^ 16
          + p.byte (offset + 2) * 2 ^ 8
          + p.byte (offset + 3)))
    else none

unfoldable pub set_int : ℕ → ℤ → Page → Option Page
set_int offset n p = if in_page offset 4 p then some (put offset (word_bytes (word n)) p) else none

-- The bytes after their length, which must not be negative.
abbrev pub get_counted : ℕ → ℤ → Page → Option (List ℕ)
get_counted offset (pos n) p = if in_page offset n p then some (take_bytes offset n p) else none
get_counted offset (negsuc n) p = none

unfoldable pub get_bytes : ℕ → Page → Option (List ℕ)
get_bytes offset p = get_int offset p >>= λ n. get_counted (offset + 4) n p

abbrev pub put_checked : ℕ → List ℕ → Page → Option Page
put_checked offset b p = if in_page offset (length b) p then some (put offset b p) else none

unfoldable pub set_bytes : ℕ → List ℕ → Page → Option Page
set_bytes offset b p = set_int offset (pos (length b)) p >>= λ p'. put_checked (offset + 4) b p'
