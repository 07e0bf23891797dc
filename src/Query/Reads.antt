-- ===== src/Query/Reads.antt =====
-- What a scan reads: the records that it comes to, the first one first.
use database_system_swe.Base.{true, false, some, List, [], ◌∷◌, ◌≡◌}
use database_system_swe.Query.Predicate.{Values}
use database_system_swe.Query.Scan.{Scan}

module _ {S : Type 0} (s : Scan S) where
  -- From this position on, `next` comes to these records and ends.
  pub data Gives : S → List Values → Type 0 where
    at_end : (p p' : S) → s.next p ≡ some (false, p') → Gives p []
    at_record :
        (p p' : S) (row : Values) (l : List Values)
        → s.next p ≡ some (true, p')
        → s.get_val p' ≡ row
        → Gives p' l
        → Gives p (row ∷ l)

  -- Wherever it is, `beforeFirst` moves the scan in front of these records.
  abbrev pub Reads : List Values → Type 0
  Reads l = (p : S) → (p' : S) × (s.before_first p ≡ some p') × Gives p' l
