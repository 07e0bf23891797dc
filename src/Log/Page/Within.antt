-- ===== src/Log/Page/Within.antt =====
-- The bytes of src/main/java/simpledb/file/Page.java that a write leaves as they are.
use database_system_swe.Base.{
  ℕ, ◌+◌, ◌*◌, ◌^◌, ◌<◌, ◌≤◌, ℤ, pos, negsuc, some, List, length, ◌≡◌, ◌⊎◌, inl, inr, refl, arith,
}
use database_system_swe.Log.Page.{
  Page, signed, put, word, word_bytes, get_int, set_int, get_bytes, set_bytes,
}
use database_system_swe.Log.Page.Access.{
  get_int-same, get_int-put, get_int-put_after, put-SameFrom, set_bytes-put, get_bytes-put,
}

-- The page with an int of 31 bits in it.
abbrev pub with_int : ℕ → ℕ → Page → Page
with_int offset n p = put offset (word_bytes n) p

pub set_int_lem :
    (offset n : ℕ) (p : Page)
    → n < 2 ^ 31
    → offset + 4 ≤ p.size
    → set_int offset (pos n) p ≡ some (with_int offset n p)
unfolding set_int
set_int_lem offset n p h le = ground (arith, h, le)

-- An int that does not overlap stays.
pub get_int-with_int_apart :
    (j offset n : ℕ) (p : Page)
    → (j + 4 ≤ offset) ⊎ (offset + 4 ≤ j)
    → get_int j (with_int offset n p) ≡ get_int j p
get_int-with_int_apart j offset n p (inl h) = get_int-put_after j offset (word_bytes n) p h
get_int-with_int_apart j offset n p (inr h) =
    get_int-same (offset + 4) j p (with_int offset n p)
      (put-SameFrom (offset + 4) offset (word_bytes n) p (omega arith)) h

pub get_int_inside :
    (offset : ℕ) (p : Page) → offset + 4 ≤ p.size → (n : ℤ) × (get_int offset p ≡ some n)
unfolding get_int
get_int_inside offset p le = (
  signed (
      p.byte offset * 2 ^ 24
      + p.byte (offset + 1) * 2 ^ 16
      + p.byte (offset + 2) * 2 ^ 8
      + p.byte (offset + 3)),
  ground (arith, le),
)

pub with_int-byte :
    (offset n : ℕ) (p : Page) (i : ℕ)
    → (i < offset) ⊎ (offset + 4 ≤ i)
    → (with_int offset n p).byte i ≡ p.byte i
unfolding put
with_int-byte offset n p i (inl h) = ground (arith, h)
with_int-byte offset n p i (inr h) = ground (arith, h)

pub with_int_size : (offset n : ℕ) (p : Page) → (with_int offset n p).size ≡ p.size
unfolding put
with_int_size offset n p = refl

-- An integer of 32 bits.
abbrev pub IsInt : ℤ → Type 0
IsInt (pos n) = n < 2 ^ 31
IsInt (negsuc n) = n < 2 ^ 31

-- The page with an integer in it.
abbrev pub with_word : ℕ → ℤ → Page → Page
with_word offset v p = put offset (word_bytes (word v)) p

pub set_int-with_word :
    (offset : ℕ) (v : ℤ) (p : Page)
    → offset + 4 ≤ p.size
    → set_int offset v p ≡ some (with_word offset v p)
unfolding set_int
set_int-with_word offset v p le = ground (arith, le)

pub get_int-with_word :
    (offset : ℕ) (v : ℤ) (p : Page)
    → IsInt v
    → offset + 4 ≤ p.size
    → get_int offset (with_word offset v p) ≡ some v
unfolding get_int put
get_int-with_word offset (pos n) p h le = ground (arith, h, le)
get_int-with_word offset (negsuc n) p h le = ground (arith, h, le)

pub with_word-byte :
    (offset : ℕ) (v : ℤ) (p : Page) (i : ℕ)
    → (i < offset) ⊎ (offset + 4 ≤ i)
    → (with_word offset v p).byte i ≡ p.byte i
unfolding put
with_word-byte offset v p i (inl h) = ground (arith, h)
with_word-byte offset v p i (inr h) = ground (arith, h)

-- The page with the bytes and their length in it.
abbrev pub with_bytes : ℕ → List ℕ → Page → Page
with_bytes offset b p = put (offset + 4) b (with_int offset (length b) p)

pub set_bytes-with_bytes :
    (offset : ℕ) (b : List ℕ) (p : Page)
    → length b < 2 ^ 31
    → offset + 4 + length b ≤ p.size
    → set_bytes offset b p ≡ some (with_bytes offset b p)
set_bytes-with_bytes offset b p h le =
    set_bytes-put offset b p (with_int offset (length b) p)
      (set_int_lem offset (length b) p h (omega arith))
      (omega (arith, with_int_size offset (length b) p))

pub get_bytes-with_bytes :
    (offset : ℕ) (b : List ℕ) (p : Page)
    → length b < 2 ^ 31
    → offset + 4 + length b ≤ p.size
    → get_bytes offset (with_bytes offset b p) ≡ some b
get_bytes-with_bytes offset b p h le =
    get_bytes-put offset b (with_int offset (length b) p)
      (get_int-put offset (length b) p h (omega arith))
      (omega (arith, with_int_size offset (length b) p))

pub with_bytes-byte :
    (offset : ℕ) (b : List ℕ) (p : Page) (i : ℕ)
    → (i < offset) ⊎ (offset + 4 + length b ≤ i)
    → (with_bytes offset b p).byte i ≡ p.byte i
unfolding put
with_bytes-byte offset b p i (inl h) = ground (arith, h)
with_bytes-byte offset b p i (inr h) = ground (arith, h)

pub with_word_size : (offset : ℕ) (v : ℤ) (p : Page) → (with_word offset v p).size ≡ p.size
unfolding put
with_word_size offset v p = refl

pub with_bytes_size : (offset : ℕ) (b : List ℕ) (p : Page) → (with_bytes offset b p).size ≡ p.size
unfolding put
with_bytes_size offset b p = refl

-- An int whose four bytes stay.
pub get_int-bytes :
    (offset : ℕ) (p p' : Page)
    → p'.size ≡ p.size
    → ((i : ℕ) → offset ≤ i → i < offset + 4 → p'.byte i ≡ p.byte i)
    → get_int offset p' ≡ get_int offset p
unfolding get_int
get_int-bytes offset p p' size same = ground (
  arith,
  size,
  same offset (omega arith) (omega arith),
  same (offset + 1) (omega arith) (omega arith),
  same (offset + 2) (omega arith) (omega arith),
  same (offset + 3) (omega arith) (omega arith),
)
