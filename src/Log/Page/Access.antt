-- ===== src/Log/Page/Access.antt =====
-- What src/main/java/simpledb/file/Page.java reads after it has written.
use database_system_swe.Base.{
  ℕ, zero, suc, ◌+◌, ◌^◌, ◌<◌, ◌≤◌, ℤ, pos, negsuc, Option, none, some, List, [], ◌∷◌, length, ◌≡◌,
  refl, ap, ◌∙◌, arith,
}
use database_system_swe.Log.Page.{
  Page, nth, put, take_bytes, word, word_bytes, get_int, set_int, get_counted, get_bytes, set_bytes,
  ◌>>=◌,
}

-- Two pages that are the same from an offset on.
pub record SameFrom (start : ℕ) (p p' : Page) : Type 0 where
  pub size : p'.size ≡ p.size
  pub byte : (i : ℕ) → start ≤ i → p'.byte i ≡ p.byte i

take_bytes-same :
    (start offset n : ℕ) (p p' : Page)
    → SameFrom start p p'
    → start ≤ offset
    → take_bytes offset n p' ≡ take_bytes offset n p
unfolding take_bytes
take_bytes-same start offset zero p p' s h = refl
take_bytes-same start offset (suc n) p p' s h =
    ground (arith, s.byte offset h, take_bytes-same start (suc offset) n p p' s)

pub get_int-same :
    (start offset : ℕ) (p p' : Page)
    → SameFrom start p p'
    → start ≤ offset
    → get_int offset p' ≡ get_int offset p
unfolding get_int
get_int-same start offset p p' s h =
    ground
      (arith, s.size, s.byte offset, s.byte (offset + 1), s.byte (offset + 2), s.byte (offset + 3))

counted-same :
    (start offset : ℕ) (o : Option ℤ) (p p' : Page)
    → SameFrom start p p'
    → start ≤ offset
    → (o >>= λ n. get_counted offset n p') ≡ (o >>= λ n. get_counted offset n p)
counted-same start offset none p p' s h = refl
counted-same start offset (some (pos n)) p p' s h =
    ground (arith, s.size, take_bytes-same start offset n p p' s h)
counted-same start offset (some (negsuc n)) p p' s h = refl

pub get_bytes-same :
    (start offset : ℕ) (p p' : Page)
    → SameFrom start p p'
    → start ≤ offset
    → get_bytes offset p' ≡ get_bytes offset p
unfolding get_bytes
get_bytes-same start offset p p' s h =
    ap (λ o. o >>= λ n. get_counted (offset + 4) n p') (get_int-same start offset p p' s h)
    ∙ counted-same start (offset + 4) (get_int offset p) p p' s (omega arith)

pub put-SameFrom :
    (start offset : ℕ) (b : List ℕ) (p : Page)
    → offset + length b ≤ start
    → SameFrom start p (put offset b p)
unfolding put
put-SameFrom start offset b p h = record { size = refl; byte = λ i le. ground (arith, h, le) }

-- The bytes of a list from a position on.
slice : ℕ → ℕ → List ℕ → List ℕ
slice i zero b = []
slice i (suc k) b = nth b i ∷ slice (suc i) k b

slice-cons : (i k x : ℕ) (b : List ℕ) → slice (suc i) k (x ∷ b) ≡ slice i k b
unfolding slice
slice-cons i zero x b = refl
slice-cons i (suc k) x b = ap (λ t. nth b i ∷ t) (slice-cons (suc i) k x b)

slice_all : (b : List ℕ) → slice 0 (length b) b ≡ b
unfolding slice
slice_all [] = refl
slice_all (x ∷ b) = ap (λ t. x ∷ t) (slice-cons 0 (length b) x b ∙ slice_all b)

take_bytes-slice :
    (offset i k : ℕ) (b : List ℕ) (p : Page)
    → i + k ≡ length b
    → take_bytes (offset + i) k (put offset b p) ≡ slice i k b
unfolding take_bytes slice put
take_bytes-slice offset i zero b p e = refl
take_bytes-slice offset i (suc k) b p e = ground (arith, e, take_bytes-slice offset (suc i) k b p)

take_bytes-put :
    (offset : ℕ) (b : List ℕ) (p : Page) → take_bytes offset (length b) (put offset b p) ≡ b
take_bytes-put offset b p =
    ap (λ (o : ℕ). take_bytes o (length b) (put offset b p)) (omega arith)
    ∙ take_bytes-slice offset 0 (length b) b p (omega arith)
    ∙ slice_all b

pub get_int-put :
    (offset n : ℕ) (p : Page)
    → n < 2 ^ 31
    → offset + 4 ≤ p.size
    → get_int offset (put offset (word_bytes n) p) ≡ some (pos n)
unfolding get_int put
get_int-put offset n p h le = ground (arith, h, le)

pub get_int-put_after :
    (offset start : ℕ) (b : List ℕ) (p : Page)
    → offset + 4 ≤ start
    → get_int offset (put start b p) ≡ get_int offset p
unfolding get_int put
get_int-put_after offset start b p h = ground (arith, h)

-- An int of 32 bits that is set inside the page is read back.
pub get_int-set_int :
    (offset n : ℕ) (p : Page)
    → n < 2 ^ 31
    → offset + 4 ≤ p.size
    → (p' : Page) × (set_int offset (pos n) p ≡ some p')
      × (get_int offset p' ≡ some (pos n))
      × SameFrom (offset + 4) p p'
unfolding set_int
get_int-set_int offset n p h le = (
  put offset (word_bytes (word (pos n))) p,
  ground (arith, h, le),
  ground (arith, h, get_int-put offset n p),
  put-SameFrom (offset + 4) offset (word_bytes (word (pos n))) p (omega arith),
)

SameFrom-trans :
    (start start' : ℕ) (p p' p'' : Page)
    → start ≤ start'
    → SameFrom start p p'
    → SameFrom start' p' p''
    → SameFrom start' p p''
SameFrom-trans start start' p p' p'' le s t = record {
  size = t.size ∙ s.size;
  byte = λ i h. t.byte i h ∙ s.byte i (omega arith);
}

get_counted-put :
    (offset : ℕ) (b : List ℕ) (p : Page)
    → offset + length b ≤ p.size
    → get_counted offset (pos (length b)) (put offset b p) ≡ some b
unfolding put
get_counted-put offset b p le = ground (arith, le, take_bytes-put offset b p)

pub get_bytes-put :
    (offset : ℕ) (b : List ℕ) (p : Page)
    → get_int offset p ≡ some (pos (length b))
    → offset + 4 + length b ≤ p.size
    → get_bytes offset (put (offset + 4) b p) ≡ some b
unfolding get_bytes
get_bytes-put offset b p g le =
    ap (λ o. o >>= λ n. get_counted (offset + 4) n (put (offset + 4) b p))
      (get_int-put_after offset (offset + 4) b p (omega arith) ∙ g)
    ∙ get_counted-put (offset + 4) b p le

pub set_bytes-put :
    (offset : ℕ) (b : List ℕ) (p p1 : Page)
    → set_int offset (pos (length b)) p ≡ some p1
    → offset + 4 + length b ≤ p1.size
    → set_bytes offset b p ≡ some (put (offset + 4) b p1)
unfolding set_bytes
set_bytes-put offset b p p1 e le = rw e (ground (arith, le))

-- Bytes that are set inside the page are read back, and what is behind them stays.
pub get_bytes-set_bytes :
    (offset : ℕ) (b : List ℕ) (p : Page)
    → length b < 2 ^ 31
    → offset + 4 + length b ≤ p.size
    → (p' : Page) × (set_bytes offset b p ≡ some p')
      × (get_bytes offset p' ≡ some b)
      × SameFrom (offset + 4 + length b) p p'
get_bytes-set_bytes offset b p h le =
    let (p1, e1, g1, s1) = get_int-set_int offset (length b) p h (omega arith) in
    let le1 : offset + 4 + length b ≤ p1.size = omega (arith, s1.size) in
    (
      put (offset + 4) b p1,
      set_bytes-put offset b p p1 e1 le1,
      get_bytes-put offset b p1 g1 le1,
      SameFrom-trans (offset + 4) (offset + 4 + length b) p p1 (put (offset + 4) b p1) (omega arith)
          s1 (put-SameFrom (offset + 4 + length b) (offset + 4) b p1 (omega arith)),
    )
