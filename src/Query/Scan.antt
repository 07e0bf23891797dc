-- ===== src/Query/Scan.antt =====
-- src/main/java/simpledb/query/Scan.java as an interface, and the scans SelectScan.java,
-- ProductScan.java and ProjectScan.java over it. `S` is what moves in a scan: its position.
-- An exception is `none`.
use database_system_swe.Base.{
  ℕ, zero, suc, Bool, true, false, ◌||◌, Option, none, some, List, String, if◌then◌else◌,
}
use database_system_swe.Log.Page.{◌>>=◌}
use database_system_swe.Parse.Data.{Predicate}
use database_system_swe.Parse.Lexer.{contains_word}
use database_system_swe.Query.Predicate.{Values, is_satisfied}

pub record Scan (S : Type 0) : Type 0 where
  pub before_first : S → Option S
  pub next : S → Option (Bool × S)
  pub get_val : S → Values
  pub has_field : String → Bool

module _ {S : Type 0} (s : Scan S) where
  module _ (pred : Predicate) where
    -- The loop of `SelectScan.next`; `none` also where the fuel runs out.
    unfoldable pub next_satisfied : ℕ → S → Option (Bool × S)
    next_satisfied zero p = none
    next_satisfied (suc fuel) p =
        let later = next_satisfied fuel in
        s.next p >>= λ r. elim r.0 [
          | true ↦ is_satisfied pred (s.get_val r.1) >>= λ ok. elim ok [
            | true ↦ some (true, r.1)
            | false ↦ later r.1
          ]
          | false ↦ some (false, r.1)
        ]

    abbrev pub select_scan : ℕ → Scan S
    select_scan fuel = record {
      before_first = s.before_first;
      next = next_satisfied fuel;
      get_val = s.get_val;
      has_field = s.has_field;
    }

  abbrev pub project_scan : List String → Scan S
  project_scan fieldlist = record {
    before_first = s.before_first;
    next = s.next;
    get_val = λ p f. if contains_word f fieldlist then s.get_val p f else none;
    has_field = λ f. contains_word f fieldlist;
  }

module _ {S1 S2 : Type 0} (s1 : Scan S1) (s2 : Scan S2) where
  -- `ProductScan.beforeFirst`, which its constructor calls.
  abbrev pub first_pair : S1 × S2 → Option (S1 × S2)
  first_pair p = s1.before_first p.0 >>= λ p1.
      s1.next p1 >>= λ r1. s2.before_first p.1 >>= λ p2. some (r1.1, p2)

  -- `ProductScan.next`
  unfoldable pub next_pair : S1 × S2 → Option (Bool × (S1 × S2))
  next_pair p = s2.next p.1 >>= λ r2. elim r2.0 [
    | true ↦ some (true, (p.0, r2.1))
    | false ↦ s2.before_first r2.1 >>= λ p2. s2.next p2 >>= λ r. elim r.0 [
      | true ↦ s1.next p.0 >>= λ r1. some (r1.0, (r1.1, r.1))
      | false ↦ some (false, (p.0, r.1))
    ]
  ]

  abbrev pub product_scan : Scan (S1 × S2)
  product_scan = record {
    before_first = first_pair;
    next = next_pair;
    get_val = λ p f. if s1.has_field f then s1.get_val p.0 f else s2.get_val p.1 f;
    has_field = λ f. s1.has_field f || s2.has_field f;
  }
