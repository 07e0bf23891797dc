-- ===== src/Log/Place.antt =====
-- The end of `append` of src/main/java/simpledb/log/LogMgr.java places a record in the page.
use database_system_swe.Base.{
  ℕ, ◌+◌, ◌-◌, ◌^◌, ◌<◌, ◌≤◌, pos, ◌-ℤ◌, int_ltb, true, false, some, List, [], ◌∷◌, ◌≡◌, sym, subst,
  ◌∙◌, arith, length,
}
use database_system_swe.Log.Page.{Page, set_int, set_bytes}
use database_system_swe.Log.Page.Access.{get_bytes-same, get_bytes-set_bytes, get_int-set_int}
use database_system_swe.Log.Unbounded.{LogMgr, next_lsn, offset_of, append_at}
use database_system_swe.Log.Records.{Record, Holds, IsBlock, IsLog, Holds-same}

-- The page and the position after `append_at`.
record Placed (size : ℕ) (p : Page) (r : Record) (recs : List Record) (i : ℕ) : Type 0 where
  with_record : Page
  final : Page
  placed : set_bytes i r p ≡ some with_record
  bounded : set_int 0 (pos i) with_record ≡ some final
  block : IsBlock size final (r ∷ recs)

place :
    (size : ℕ) (p : Page) (r : Record) (recs : List Record) (b : IsBlock size p recs)
    → size < 2 ^ 31
    → length r + 8 ≤ b.boundary
    → b.boundary ≤ size
    → Placed size p r recs (b.boundary - (length r + 4))
place size p r recs b small fits le =
    let i : ℕ = b.boundary - (length r + 4) in
    let (p1, e1, g1, s1) = get_bytes-set_bytes i r p (omega arith) (omega (arith, b.page_size)) in
    let (p2, e2, g2, s2) =
      get_int-set_int 0 i p1 (omega arith) (omega (arith, b.page_size, s1.size)) in
    let after : i + (4 + length r) ≡ b.boundary = omega arith in
    record {
      with_record = p1;
      final = p2;
      placed = e1;
      bounded = e2;
      block = record {
        boundary = i;
        page_size = s2.size ∙ s1.size ∙ b.page_size;
        reads_boundary = g2;
        above = omega arith;
        holds = (
          omega (arith, s2.size, s1.size, b.page_size),
          get_bytes-same 4 i p1 p2 s2 (omega arith) ∙ g1,
          Holds-same 4 p1 p2 (i + (4 + length r)) recs s2 (omega arith) (
              subst (λ (k : ℕ). Holds p1 k recs) (sym after)
                (Holds-same (i + 4 + length r) p p1 b.boundary recs s1 (omega arith) b.holds)),
        );
      };
    }

pub Holds-le : (p : Page) (i : ℕ) (recs : List Record) → Holds p i recs → i ≤ p.size
Holds-le p i [] e = omega (arith, e)
Holds-le p i (r ∷ recs) (lt, g, rest) = omega arith

pub offset_left :
    (b n : ℕ)
    → n + 4 ≤ b
    → (int_ltb (pos b -ℤ pos n) (pos 4) ≡ false) × (offset_of (pos b -ℤ pos n) ≡ some (b - n))
unfolding ◌-ℤ◌
offset_left b n h = (ground (arith, h), ground (arith, h))

pub offset_short : (b n : ℕ) → b < n + 4 → int_ltb (pos b -ℤ pos n) (pos 4) ≡ true
unfolding ◌-ℤ◌
offset_short b n h = ground (arith, h)

-- The log after `append_at`.
abbrev pub placed_log : LogMgr → Page → LogMgr
placed_log m p = record m { logpage = p; latest_lsn = next_lsn m.latest_lsn }

pub append_at_lem :
    (m : LogMgr) (r : Record) (b i : ℕ) (p1 p2 : Page)
    → offset_of (pos b -ℤ pos (length r + 4)) ≡ some i
    → set_bytes i r m.logpage ≡ some p1
    → set_int 0 (pos i) p1 ≡ some p2
    → append_at (pos b) r m ≡ some (next_lsn m.latest_lsn, placed_log m p2)
unfolding append_at
append_at_lem m r b i p1 p2 o e1 e2 = rw o (rw e1 (rw e2))

-- A record that leaves room for the boundary is placed in the page.
pub IsLog-append_at :
    (m : LogMgr) (r : Record) (recs : List Record) (blocks : List (List Record))
    (l : IsLog m recs blocks)
    → length r + 8 ≤ l.page.boundary
    → (p : Page) × (append_at (pos l.page.boundary) r m
        ≡ some (next_lsn m.latest_lsn, placed_log m p))
      × IsLog (placed_log m p) (r ∷ recs) blocks
IsLog-append_at m r recs blocks l fits =
    let b : ℕ = l.page.boundary in
    let put : Placed m.file.block_size m.logpage r recs (b - (length r + 4)) =
      place m.file.block_size m.logpage r recs l.page l.small fits
        (omega (arith, Holds-le m.logpage b recs l.page.holds, l.page.page_size)) in
    (
      put.final,
      append_at_lem m r b (b - (length r + 4)) put.with_record put.final
          ((offset_left b (length r + 4) (omega arith)).1) put.placed put.bounded,
      record { small = l.small; last = l.last; page = put.block; earlier = l.earlier },
    )
