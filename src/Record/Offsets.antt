-- ===== src/Record/Offsets.antt =====
-- Where src/main/java/simpledb/record/Layout.java places the fields of a schema.
use database_system_swe.Base.{
  string_eq, ◌==◌, ℕ, ◌+◌, ◌*◌, ◌^◌, ◌<◌, ◌≤◌, Option, none, some, List, All, [], ◌∷◌, ◌++◌, String,
  ◌≡◌, ◌≢◌, ◌⊎◌, inl, inr, refl, sym, ap, subst, ◌∙◌, arith, Bool-cases,
}
use database_system_swe.Base.Assoc.{lookup, insert, lookup-insert}
use database_system_swe.Log.Page.{◌>>=◌}
use database_system_swe.Record.Layout.{
  FieldInfo, Schema, Layout, int32, new_schema, add_field, length_in_bytes, bytes_of, place_fields,
  layout_of,
}

-- The fields of these offsets lie behind the flag and before a position, and do not overlap.
pub record IsPlaced (bytes_per_char : ℕ) (sch : Schema) (offsets : List (String × ℕ)) (last : ℕ)
    : Type 0 where
  pub inside :
      (f : String) (at n : ℕ)
      → lookup f offsets ≡ some at
      → length_in_bytes bytes_per_char sch f ≡ some n
      → (4 ≤ at) × (at + n ≤ last)
  pub apart :
      (f g : String) (at at' n n' : ℕ)
      → f ≢ g
      → lookup f offsets ≡ some at
      → lookup g offsets ≡ some at'
      → length_in_bytes bytes_per_char sch f ≡ some n
      → length_in_bytes bytes_per_char sch g ≡ some n'
      → (at + n ≤ at') ⊎ (at' + n' ≤ at)

-- A map has a value for the name.
abbrev pub IsKnown {ℓ} : {V : Type ℓ} → List (String × V) → String → Type ℓ
IsKnown {V = V} rows f = (v : V) × (lookup f rows ≡ some v)

IsKnown-insert {ℓ} :
    {V : Type ℓ} (new f : String) (v : V) (rows : List (String × V))
    → (f ≡ new) ⊎ IsKnown rows f
    → IsKnown (insert new v rows) f
IsKnown-insert new f v rows known = elim (Bool-cases (new == f)) [
  | inl same ↦ (v, ground (arith, lookup-insert new f v rows, same))
  | inr other ↦ elim known [
    | inl e ↦ absurd (ground (arith, e, other, string_eq.same_iff new f))
    | inr (w, e) ↦ (w, ground (arith, lookup-insert new f v rows, other, e))
  ]
]

-- The rows after an insertion: the new one, or one of the old ones.
insert_cases :
    (new f : String) (v at : ℕ) (rows : List (String × ℕ))
    → lookup f (insert new v rows) ≡ some at
    → ((f ≡ new) × (at ≡ v)) ⊎ (lookup f rows ≡ some at)
insert_cases new f v at rows e = elim (Bool-cases (new == f)) [
  | inl same ↦ inl (
    ground (arith, same, string_eq.same_iff new f),
    ground (arith, e, lookup-insert new f v rows, same),
  )
  | inr other ↦ inr (ground (arith, e, lookup-insert new f v rows, other))
]

abbrev size_of : Option ℕ → ℕ
size_of none = 0
size_of (some n) = n

module _ (bytes_per_char : ℕ) (sch : Schema) where
  -- The size of a field is one.
  same_size :
      (f g : String) (n m : ℕ)
      → f ≡ g
      → length_in_bytes bytes_per_char sch f ≡ some n
      → length_in_bytes bytes_per_char sch g ≡ some m
      → n ≡ m
  same_size f g n m e ef eg =
      let e' = subst (λ (h : String). length_in_bytes bytes_per_char sch h ≡ some n) e ef in
      ground (arith, e', eg)

  insert-IsPlaced :
      (new : String) (n last : ℕ) (offsets : List (String × ℕ))
      → length_in_bytes bytes_per_char sch new ≡ some n
      → 4 ≤ last
      → IsPlaced bytes_per_char sch offsets last
      → IsPlaced bytes_per_char sch (insert new last offsets) (last + n)
  insert-IsPlaced new n last offsets size le p = record {
    inside = λ f at m e em. elim (insert_cases new f last at offsets e) [
      | inl (same, here) ↦
          (omega (arith, here), omega (arith, here, same_size f new m n same em size))
      | inr old ↦ ((p.inside f at m old em).0, omega (arith, (p.inside f at m old em).1))
    ];
    apart = λ f g at at' m m' differ ef eg em em'. elim (insert_cases new f last at offsets ef) [
      | inl (same, here) ↦ elim (insert_cases new g last at' offsets eg) [
        | inl (same', here') ↦ absurd (differ (same ∙ sym same'))
        | inr old' ↦ inr (omega (arith, here, (p.inside g at' m' old' em').1))
      ]
      | inr old ↦ elim (insert_cases new g last at' offsets eg) [
        | inl (same', here') ↦ inl (omega (arith, here', (p.inside f at m old em).1))
        | inr old' ↦ p.apart f g at at' m m' differ old old' em em'
      ]
    ];
  }

  -- The end of the fields with these names, without an overflow.
  abbrev pub end_of : List String → ℕ → ℕ
  end_of [] at = at
  end_of (f ∷ fields) at = end_of fields (at + size_of (length_in_bytes bytes_per_char sch f))

  end_of-grows : (fields : List String) (at : ℕ) → at ≤ end_of fields at
  end_of-grows [] at = omega arith
  end_of-grows (f ∷ fields) at =
      omega (arith, end_of-grows fields (at + size_of (length_in_bytes bytes_per_char sch f)))

  -- The fields that a loop over these names places.
  record Placed (fields : List String) (last : ℕ) (offsets : List (String × ℕ)) : Type 0 where
    result : List (String × ℕ)
    behind : ℕ
    grows : last ≤ behind
    ends : behind ≡ end_of fields last
    places : place_fields bytes_per_char sch fields last offsets ≡ some (result, behind)
    placed : IsPlaced bytes_per_char sch result behind
    keeps : (f : String) → IsKnown offsets f → IsKnown result f
    all : All (λ f. IsKnown result f) fields

  place :
      (fields : List String) (last : ℕ) (offsets : List (String × ℕ))
      → All (λ f. IsKnown sch.info f) fields
      → 4 ≤ last
      → end_of fields last < 2 ^ 32
      → IsPlaced bytes_per_char sch offsets last
      → Placed fields last offsets
  unfolding place_fields
  place [] last offsets known le small p = record {
    result = offsets;
    behind = last;
    grows = omega arith;
    ends = refl;
    places = refl;
    placed = p;
    keeps = λ f k. k;
    all = tt;
  }
  place (f ∷ fields) last offsets ((i, e), known) le small p =
      let n : ℕ = bytes_of bytes_per_char i in
      let size : length_in_bytes bytes_per_char sch f ≡ some n =
        ap (λ o. o >>= λ j. some (bytes_of bytes_per_char j)) e in
      let small' : end_of fields (last + n) < 2 ^ 32 =
        subst (λ (o : Option ℕ). end_of fields (last + size_of o) < 2 ^ 32) size small in
      let no_wrap : int32 (last + n) ≡ last + n = omega (arith, end_of-grows fields (last + n)) in
      let rest : Placed fields (last + n) (insert f last offsets) =
        place fields (last + n) (insert f last offsets) known (omega arith) small'
          (insert-IsPlaced f n last offsets size le p) in
      record {
        result = rest.result;
        behind = rest.behind;
        grows = omega (arith, rest.grows);
        ends = rest.ends ∙ ap (λ o. end_of fields (last + size_of o)) (sym size);
        places =
            ap
              (λ o. o >>= λ m.
                place_fields bytes_per_char sch fields (int32 (last + m)) (insert f last offsets))
              size
            ∙ ap (λ k. place_fields bytes_per_char sch fields k (insert f last offsets)) no_wrap
            ∙ rest.places;
        placed = rest.placed;
        keeps = λ g k. rest.keeps g (IsKnown-insert f g last offsets (inr k));
        all = (rest.keeps f (IsKnown-insert f f last offsets (inl refl)), rest.all);
      }

-- A schema with these columns.
abbrev pub add_columns : List (String × FieldInfo) → Schema → Schema
add_columns [] sch = sch
add_columns (c ∷ cols) sch = add_columns cols (add_field c.0 c.1 sch)

add_field-IsKnown :
    (f : String) (i : FieldInfo) (info : List (String × FieldInfo)) (fields : List String)
    → All (λ g. IsKnown info g) fields
    → All (λ g. IsKnown (insert f i info) g) (fields ++ f ∷ [])
add_field-IsKnown f i info [] known = (IsKnown-insert f f i info (inl refl), tt)
add_field-IsKnown f i info (g ∷ fields) (k, known) =
    (IsKnown-insert f g i info (inr k), add_field-IsKnown f i info fields known)

pub add_columns-IsKnown :
    (cols : List (String × FieldInfo)) (sch : Schema)
    → All (λ g. IsKnown sch.info g) sch.fields
    → All (λ g. IsKnown ((add_columns cols sch).info) g) ((add_columns cols sch).fields)
unfolding add_field
add_columns-IsKnown [] sch known = known
add_columns-IsKnown (c ∷ cols) sch known =
    add_columns-IsKnown cols (add_field c.0 c.1 sch)
      (add_field-IsKnown (c.0) (c.1) sch.info sch.fields known)

layout_of_lem :
    (bytes_per_char : ℕ) (sch : Schema) (placed : List (String × ℕ) × ℕ)
    → place_fields bytes_per_char sch sch.fields 4 [] ≡ some placed
    → layout_of bytes_per_char sch
      ≡ some (record { schema = sch; offsets = placed.0; slotsize = placed.1 })
unfolding layout_of
layout_of_lem bytes_per_char sch placed e = rw e

none_placed : (bytes_per_char : ℕ) (sch : Schema) → IsPlaced bytes_per_char sch [] 4
unfolding lookup
none_placed bytes_per_char sch = record {
  inside = λ f at n e em. absurd (ground (arith, e));
  apart = λ f g at at' n n' differ ef eg em em'. absurd (ground (arith, ef));
}

-- The bytes of a field, and the slot of a schema, without an overflow.
abbrev pub BytesFit : ℕ → String × FieldInfo → Type 0
BytesFit bytes_per_char (f, i) = 4 + i.length * bytes_per_char < 2 ^ 31

-- The layout of these columns needs less than 2^31 bytes.
abbrev pub IsSmall : ℕ → Schema → Type 0
IsSmall bytes_per_char sch =
    All (BytesFit bytes_per_char) sch.info × (end_of bytes_per_char sch sch.fields 4 < 2 ^ 31)

-- The constructor of Layout makes a layout with any schema that was built by adding fields, also
-- where a name was added twice, if no sum of its lengths reaches 2^31: every field has an offset; from
-- there it has its bytes behind the flag and inside the slot, which has at least the bytes of the flag
-- and less than 2^31; and two fields of different names do not overlap.
pub layout_of-IsPlaced :
    (bytes_per_char : ℕ) (cols : List (String × FieldInfo))
    → IsSmall bytes_per_char (add_columns cols new_schema)
    → (l : Layout) × (layout_of bytes_per_char (add_columns cols new_schema) ≡ some l)
      × (l.schema ≡ add_columns cols new_schema)
      × All (λ f. IsKnown l.offsets f) l.schema.fields
      × IsPlaced bytes_per_char l.schema l.offsets l.slotsize
      × (4 ≤ l.slotsize)
      × (l.slotsize < 2 ^ 31)
layout_of-IsPlaced bytes_per_char cols fits =
    let sch : Schema = add_columns cols new_schema in
    let done : Placed bytes_per_char sch sch.fields 4 [] =
      place bytes_per_char sch sch.fields 4 [] (add_columns-IsKnown cols new_schema tt)
        (omega arith) (omega (arith, fits.1)) (none_placed bytes_per_char sch) in
    (
      record { schema = sch; offsets = done.result; slotsize = done.behind },
      layout_of_lem bytes_per_char sch (done.result, done.behind) done.places,
      refl,
      done.all,
      done.placed,
      done.grows,
      omega (arith, fits.1, done.ends),
    )
