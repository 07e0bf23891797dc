-- ===== src/Query/Reading.antt =====
-- What SelectScan and ProjectScan of src/main/java/simpledb/query read.
use database_system_swe.Base.{
  ℕ, zero, suc, ◌<◌, true, false, Bool-cases, some, List, [], ◌∷◌, map, ◌≡◌, inl, inr, refl, subst,
  ◌∙◌, ap, arith, length, String,
}
use database_system_swe.Parse.Data.{Predicate}
use database_system_swe.Materialize.RecordComparator.{answered}
use database_system_swe.Query.Predicate.{Values, is_satisfied}
use database_system_swe.Query.Scan.{Scan, next_satisfied, select_scan, project_scan}
use database_system_swe.Query.Reads.{Gives, at_end, at_record, Reads}
use database_system_swe.Query.Algebra.{Evaluates, filter_rows, restrict}

module _ {S : Type 0} (s : Scan S) where
  pub project-Gives :
      (fields : List String) (p : S) (l : List Values)
      → Gives s p l
      → Gives (project_scan s fields) p (map (restrict fields) l)
  project-Gives fields p l (at_end p0 p' e) = at_end p p' e
  project-Gives fields p l (at_record p0 p' row l' e row_e g) =
      at_record p p' (restrict fields row) (map (restrict fields) l') e (ap (restrict fields) row_e)
        (project-Gives fields p' l' g)

  pub project-Reads :
      (fields : List String) (l : List Values)
      → Reads s l
      → Reads (project_scan s fields) (map (restrict fields) l)
  project-Reads fields l reads p = let (p', e, g) = reads p in (p', e, project-Gives fields p' l g)

  module _ (pred : Predicate) where
    -- The call of `next` at this position ends, in front of these records that satisfy `pred`.
    data Stops (n : ℕ) : S → List Values → Type 0 where
      stops_at_end : (p p' : S) → next_satisfied s pred n p ≡ some (false, p') → Stops n p []
      stops_at :
          (p p' : S) (row : Values) (l l' : List Values)
          → next_satisfied s pred n p ≡ some (true, p')
          → s.get_val p' ≡ row
          → Gives s p' l
          → Evaluates pred l
          → length l < n
          → filter_rows pred l ≡ l'
          → Stops n p (row ∷ l')

    stop_later :
        (n : ℕ) (p p' : S) (l : List Values)
        → next_satisfied s pred (suc n) p ≡ next_satisfied s pred n p'
        → Stops n p' l
        → Stops (suc n) p l
    stop_later n p p' l later (stops_at_end p0 p1 e) = stops_at_end p p1 (later ∙ e)
    stop_later n p p' l later (stops_at p0 p1 row l0 l' e row_e g ev lt eq) =
        stops_at p p1 row l0 l' (later ∙ e) row_e g ev (omega arith) eq

    skip_one :
        (n : ℕ) (p p' : S) (row : Values)
        → s.next p ≡ some (true, p')
        → s.get_val p' ≡ row
        → is_satisfied pred row ≡ some false
        → next_satisfied s pred (suc n) p ≡ next_satisfied s pred n p'
    unfolding next_satisfied
    skip_one n p p' row e row_e bad = rw e (rw row_e (rw bad refl))

    stop_here :
        (n : ℕ) (p p' : S) (row : Values)
        → s.next p ≡ some (true, p')
        → s.get_val p' ≡ row
        → is_satisfied pred row ≡ some true
        → next_satisfied s pred (suc n) p ≡ some (true, p')
    unfolding next_satisfied
    stop_here n p p' row e row_e good = rw e (rw row_e (rw good refl))

    Gives-Stops :
        (n : ℕ) (p : S) (l : List Values)
        → Gives s p l
        → Evaluates pred l
        → length l < n
        → Stops n p (filter_rows pred l)
    unfolding next_satisfied
    Gives-Stops zero p l g ev lt = absurd (omega arith)
    Gives-Stops (suc n) p l (at_end p0 p' e) ev lt = stops_at_end p p' (rw e refl)
    Gives-Stops (suc n) p l (at_record p0 p' row l' e row_e g) ev lt =
        elim (Bool-cases (answered (is_satisfied pred row))) [
          | inl good ↦ rw good (
              stops_at p p' row l' (filter_rows pred l')
                (stop_here n p p' row e row_e (ev.0 ∙ ap some good)) row_e g ev.1 (omega arith)
                refl)
          | inr bad ↦ rw bad (
              stop_later n p p' (filter_rows pred l')
                (skip_one n p p' row e row_e (ev.0 ∙ ap some bad))
                (Gives-Stops n p' l' g ev.1 (omega arith)))
        ]

    Stops-Gives :
        (fuel : ℕ) (l : List Values) (p : S) → Stops fuel p l → Gives (select_scan s pred fuel) p l
    Stops-Gives fuel [] p (stops_at_end p0 p' e) = at_end p p' e
    Stops-Gives fuel (row ∷ l') p (stops_at p0 p' row0 l l0 e row_e g ev lt eq) =
        at_record p p' row l' e row_e
          (Stops-Gives fuel l' p' (subst (Stops fuel p') eq (Gives-Stops fuel p' l g ev lt)))

    pub select-Gives :
        (fuel : ℕ) (l : List Values) (p : S)
        → Gives s p l
        → Evaluates pred l
        → length l < fuel
        → Gives (select_scan s pred fuel) p (filter_rows pred l)
    select-Gives fuel l p g ev lt =
        Stops-Gives fuel (filter_rows pred l) p (Gives-Stops fuel p l g ev lt)

    pub select-Reads :
        (fuel : ℕ) (l : List Values)
        → Reads s l
        → Evaluates pred l
        → length l < fuel
        → Reads (select_scan s pred fuel) (filter_rows pred l)
    select-Reads fuel l reads ev lt p =
        let (p', e, g) = reads p in (p', e, select-Gives fuel l p' g ev lt)
