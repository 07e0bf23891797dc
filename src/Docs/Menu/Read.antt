-- ===== src/Docs/Menu/Read.antt =====
-- A reader of the text that `makeTree` of html/menu.js writes.
use database_system_swe.Base.{
  ℕ, zero, suc, Bool, true, false, Option, none, some, [], ◌∷◌, ◌++◌, ◌≡◌, refl, arith, nat_beq,
  if◌then◌else◌,
}
use database_system_swe.Docs.Text.{Text, text}
use database_system_swe.Docs.Menu.{Menu, Items, leaf, children, nil, item}

infixl 5 ◌>>=◌
abbrev ◌>>=◌ {ℓ κ} : {A : Type ℓ} {B : Type κ} → Option A → (A → Option B) → Option B
none >>= f = none
some a >>= f = f a

-- The rest of a text after an expected beginning.
unfoldable pub after : Text → Text → Option Text
after [] s = some s
after (c ∷ expected) [] = none
after (c ∷ expected) (d ∷ s) = let rest = after expected s in if nat_beq c d then rest else none

-- What stands before the first mark, and what follows it.
unfoldable pub until : ℕ → Text → Option (Text × Text)
until mark [] = none
until mark (c ∷ s) =
    let later = until mark s in
    if nat_beq c mark then some ([], s) else later >>= λ r. some (c ∷ r.0, r.1)

-- A text without the mark.
unfoldable pub lacks : ℕ → Text → Bool
lacks mark [] = true
lacks mark (c ∷ s) = let rest = lacks mark s in if nat_beq c mark then false else rest

pub after-append : (expected s : Text) → after expected (expected ++ s) ≡ some s
unfolding after
after-append [] s = refl
after-append (c ∷ expected) s = ground (arith, after-append expected s)

pub until-append :
    (mark : ℕ) (a s : Text) → lacks mark a ≡ true → until mark (a ++ mark ∷ s) ≡ some (a, s)
unfolding until lacks
until-append mark [] s h = ground arith
until-append mark (c ∷ a) s h = ground (arith, h, until-append mark a s)

-- A menu from the beginning of a text, and the rest.
unfoldable mutual
  pub read_tree : ℕ → Text → Text → Option (Menu × Text)
  read_tree zero rel_path s = none
  read_tree (suc fuel) rel_path s = elim (after (text "<ul>") s) [
    | none ↦ some (leaf, s)
    | some inside ↦ read_items fuel rel_path inside >>= λ r. some (children r.0, r.1)
  ]

  pub read_items : ℕ → Text → Text → Option (Items × Text)
  read_items zero rel_path s = none
  read_items (suc fuel) rel_path s = elim (after (text "</ul>") s) [
    | some rest ↦ some (nil, rest)
    | none ↦ after (text "<li><a href=\"" ++ rel_path) s >>= λ s1. until b'"' s1 >>= λ url.
        after (text ">") url.1 >>= λ s2. until b'<' s2 >>= λ title.
        after (text "/a>") title.1 >>= λ s3. read_tree fuel rel_path s3 >>= λ below.
        after (text "</li>") below.1 >>= λ s4.
        read_items fuel rel_path s4 >>= λ more. some (item title.0 url.0 below.0 more.0, more.1)
  ]
