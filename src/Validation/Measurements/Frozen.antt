-- ===== src/Validation/Measurements/Frozen.antt =====
-- The measurements of an approved study (backend/production_validation/service.py).
use torq_pro.Prelude.{
  ◌≡◌, refl, ap, sym, subst, ◌∙◌, ℕ, String, Bool, true, false, ◌&&◌, inl, inr, Option, none, some,
  List, [], ◌∷◌, ◌++◌, ◌==◌, string_eq, eqb, eqb-eq, filter-snoc, find, find-passes,
  filter-map_stable, if◌then◌else◌, All-map, All-find, Bool-cases, Option-cases, some-inj, ok,
  Result-cases, arith,
}
use torq_pro.Sqlite.{alone, next_id, fetch, update}
use torq_pro.Sqlite.Laws.{IsKeyed, snoc-IsKeyed, fetch-own, fetch-snoc-kept}
use torq_pro.Validation.Tables.{
  Db, Study, Dataset, Measurement, Reason, superseded_by, study_key, dataset_key, measurement_key,
  in_dataset, next_sequence_number,
}
use torq_pro.Validation.Rules.{Outside, Actor, bind}
use torq_pro.Validation.Measurements.{
  new_measurement, set_invalid, fetch_in_dataset, superseded, check_correction,
}
use torq_pro.Validation.Commands.{Command, run}
use torq_pro.Validation.Measurements.Changes.{IsEditable, MeasurementChange, run-MeasurementChange}

module _ {V : Type 0} where
  -- What is invalidated stands in another dataset.
  invalid_elsewhere :
      (dataset_id id : ℕ) (reason : Reason) (rows : List (Measurement V)) (row : Measurement V)
      → IsKeyed rows
      → fetch id rows ≡ some row
      → eqb row.dataset_id dataset_id ≡ false
      → in_dataset dataset_id (update id (set_invalid reason) rows) ≡ in_dataset dataset_id rows
  unfolding update set_invalid
  invalid_elsewhere dataset_id id reason rows row keyed found other =
      filter-map_stable (λ m. eqb m.dataset_id dataset_id) touch rows
        (All-map (λ r. fetch r.id rows ≡ some r)
          (λ r.
            (eqb (touch r).dataset_id dataset_id ≡ eqb r.dataset_id dataset_id)
            × (eqb r.dataset_id dataset_id ≡ true → touch r ≡ r))
          (λ r own. (same r, apart r own)) rows (fetch-own rows keyed))
    where
      touch : Measurement V → Measurement V
      touch m = if eqb m.id id then set_invalid reason m else m

      same : (r : Measurement V) → eqb (touch r).dataset_id dataset_id ≡ eqb r.dataset_id dataset_id
      same r = elim (Bool-cases (eqb r.id id)) [ inl e ↦ rw e refl | inr e ↦ rw e refl ]

      apart :
          (r : Measurement V)
          → fetch r.id rows ≡ some r
          → eqb r.dataset_id dataset_id ≡ true
          → touch r ≡ r
      apart r own here = elim (Bool-cases (eqb r.id id)) [
        | inr e ↦ rw e refl
        | inl e ↦
            let is_row =
              some-inj row r
                (sym found ∙ subst (λ i. fetch i rows ≡ some r) ((eqb-eq r.id id).0 e) own) in
            cc (sym other ∙ ap (λ m. eqb m.dataset_id dataset_id) is_row ∙ here)
      ]

module _ {M V : Type 0} where
  -- The measurement that an accepted request corrects.
  pub corrected_row :
      (dataset_id id : ℕ) (db : Db M V)
      → IsKeyed db.measurements
      → check_correction dataset_id (some id) db ≡ ok tt
      → (row : Measurement V) × (fetch id db.measurements ≡ some row)
        × (row.dataset_id ≡ dataset_id)
  unfolding check_correction fetch_in_dataset
  corrected_row dataset_id id db keyed h =
      elim (Option-cases (fetch_in_dataset dataset_id id db.measurements)) [
        | inl n ↦ elim (Result-cases (bind id)) [
          | inl (_, b) ↦ cc (rw (check_correction, b, n) at h)
          | inr (x, b) ↦ cc (rw (check_correction, b) at h)
        ]
        | inr (row, f) ↦ (
          row,
          subst (λ i. fetch i db.measurements ≡ some row) (keys row f).0
              (All-find (λ r. fetch r.id db.measurements ≡ some r) test db.measurements row
                (fetch-own db.measurements keyed) f),
          (keys row f).1,
        )
      ]
    where
      test : Measurement V → Bool
      test m = eqb m.id id && eqb m.dataset_id dataset_id

      keys :
          (row : Measurement V)
          → find test db.measurements ≡ some row
          → (row.id ≡ id) × (row.dataset_id ≡ dataset_id)
      keys row f =
          let t = find-passes test db.measurements row f in (ground (arith, t), ground (arith, t))

  -- A dataset that may be edited is none of an approved study.
  editable_elsewhere :
      (dataset_id study_id other : ℕ) (dataset : Dataset V) (study : Study) (db : Db M V)
      → fetch study_id db.studies ≡ some study
      → (study.status == "approved") ≡ true
      → fetch dataset_id db.datasets ≡ some dataset
      → dataset.validation_study_id ≡ study_id
      → IsEditable db other
      → eqb other dataset_id ≡ false
  editable_elsewhere dataset_id study_id other dataset study db fs approved fd belongs h =
      elim (Bool-cases (eqb other dataset_id)) [
        | inr e ↦ e
        | inl e ↦
            let same_dataset = some-inj h.dataset dataset (
              sym h.dataset_found
              ∙ ap (λ i. fetch i db.datasets) ((eqb-eq other dataset_id).0 e)
              ∙ fd) in
            let same_study = some-inj h.study study (
              sym h.study_found
              ∙ ap (λ i. fetch i db.studies)
                  (ap (λ d. d.validation_study_id) same_dataset ∙ belongs)
              ∙ fs) in
            cc (sym h.unapproved ∙ ap (λ s. s.status == "approved") same_study ∙ approved)
      ]

  superseded_elsewhere :
      (dataset_id other : ℕ) (new : Measurement V) (correction : Option ℕ) (db : Db M V)
      → IsKeyed db.measurements
      → new.id ≡ next_id db.measurements
      → new.dataset_id ≡ other
      → check_correction other correction db ≡ ok tt
      → eqb other dataset_id ≡ false
      → in_dataset dataset_id (superseded new.id correction (db.measurements ++ new ∷ []))
        ≡ in_dataset dataset_id db.measurements
  unfolding superseded
  superseded_elsewhere dataset_id other new none db keyed k own c apart =
      filter-snoc (λ m. eqb m.dataset_id dataset_id) db.measurements new ∙ rw (own, apart) refl
  superseded_elsewhere dataset_id other new (some id) db keyed k own c apart =
      let (row, found, at) = corrected_row other id db keyed c in
      invalid_elsewhere dataset_id id (superseded_by new.id) (db.measurements ++ new ∷ []) row
        (snoc-IsKeyed db.measurements new k keyed)
        (fetch-snoc-kept id db.measurements new row k found) (rw at apart)
      ∙ (filter-snoc (λ m. eqb m.dataset_id dataset_id) db.measurements new ∙ rw (own, apart) refl)

module _ {M V : Type 0} ⦃outside : Outside V⦄ where
  -- While a study is approved, none of the modelled calls, with no other writer during it, adds,
  -- corrects or invalidates a measurement of its datasets (the ids of the measurements ascend).
  pub run-frozen :
      (now : ℕ → String) (actor : Actor) (c : Command V) (db : Db M V)
      → (study_id dataset_id : ℕ) (study : Study) (dataset : Dataset V) → IsKeyed db.measurements
      → fetch study_id db.studies ≡ some study
      → (study.status == "approved") ≡ true
      → fetch dataset_id db.datasets ≡ some dataset
      → dataset.validation_study_id ≡ study_id
      → in_dataset dataset_id (run (alone now) actor c db).1.measurements
        ≡ in_dataset dataset_id db.measurements
  unfolding new_measurement
  run-frozen now actor c db study_id dataset_id study dataset keyed fs approved fd belongs =
      go (run (alone now) actor c db).1 (run-MeasurementChange now actor c db)
    where
      apart : (other : ℕ) → IsEditable db other → eqb other dataset_id ≡ false
      apart other =
          editable_elsewhere dataset_id study_id other dataset study db fs approved fd belongs

      go :
          (after : Db M V)
          → MeasurementChange db after
          → in_dataset dataset_id after.measurements ≡ in_dataset dataset_id db.measurements
      go after (MeasurementChange.untouched e) = ap (in_dataset dataset_id) e
      go after (MeasurementChange.recorded other p tool device ts h ok_correction free e) =
          ap (in_dataset dataset_id) e
          ∙ superseded_elsewhere dataset_id other
              (new_measurement other p tool device (next_sequence_number other db.measurements) ts
                (next_id db.measurements))
              p.correction_of_id db keyed refl refl ok_correction (apart other h)
      go after (MeasurementChange.invalidated id row reason found h e) =
          ap (in_dataset dataset_id) e
          ∙ invalid_elsewhere dataset_id id reason db.measurements row keyed found
              (apart row.dataset_id h)
