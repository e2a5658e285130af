-- ===== src/Validation/Measurements/Others.antt =====
-- The tables that a call leaves alone (backend/production_validation/service.py): the measurements
-- by what is not about them, the studies by what is about datasets and measurements.
use torq_pro.Prelude.{
  ◌≡◌, refl, arith, ap, sym, if-some, ℕ, String, inl, inr, Option, none, some, ◌==◌, string_eq,
  option_eq, nat_eq, Bool-cases, Option-cases, Result-cases,
}
use torq_pro.Sqlite.{alone, fetch}
use torq_pro.Joints.Tables.{is_some}
use torq_pro.Validation.Tables.{Db, Study, next_sequence_number, study_key, fetch_dataset_by_code}
use torq_pro.Validation.Rules.{Outside, Actor}
use torq_pro.Validation.Studies.{StudyCreate, StudyPatch, new_study, get_study}
use torq_pro.Validation.Creation
use torq_pro.Validation.Creation.{
  accept_study, insert_study, study_inserted, with_specification, new_specification, fields_written,
}
use torq_pro.Validation.Reviews
use torq_pro.Validation.Reviews.{total_valid}
use torq_pro.Validation.Datasets.{set_started}
use torq_pro.Validation.Datasets
use torq_pro.Validation.Datasets.{
  started, dataset_inserted, insert_dataset, new_dataset, validate_dataset, get_dataset,
  dataset_fields_written, patched_size, is_empty_dataset_patch,
}
use torq_pro.Validation.Rules.{validate_measured_value}
use torq_pro.Validation.Tables.{
  Dataset, Measurement, dataset_key, measurement_key, specification_key,
}
use torq_pro.Validation.Measurements
use torq_pro.Validation.Measurements.{
  MeasurementCreate, assert_study_editable, record_in, resolve_tool_id, check_correction,
  insert_measurement, measurement_inserted, set_invalid, fetch_in_dataset, same_slot, superseded,
  fetch_with_dataset, new_measurement,
}

module _ {M V : Type 0} where
  pub patch_study-kept :
      (now : ℕ → String) (id : ℕ) (p : StudyPatch) (actor : Actor) (db : Db M V)
      → (Creation.patch_study (alone now) id p actor db).1.measurements ≡ db.measurements
  unfolding Creation.patch_study
  patch_study-kept now id p actor db = ground arith

  pub complete-kept :
      (now : ℕ → String) (id : ℕ) (actor : Actor) (db : Db M V)
      → (Reviews.complete_study (alone now) id actor db).1.measurements ≡ db.measurements
  unfolding Reviews.complete_study
  complete-kept now id actor db = ground arith

  pub submit-kept :
      (now : ℕ → String) (id : ℕ) (actor : Actor) (db : Db M V)
      → (Reviews.submit_study (alone now) id actor db).1.measurements ≡ db.measurements
  unfolding Reviews.submit_study
  submit-kept now id actor db = ground arith

  pub approve-kept :
      (now : ℕ → String) (id : ℕ) (actor : Actor) (db : Db M V)
      → (Reviews.approve_study (alone now) id actor db).1.measurements ≡ db.measurements
  unfolding Reviews.approve_study
  approve-kept now id actor db = ground arith

  pub patch_dataset-kept :
      (now : ℕ → String) (id : ℕ) (p : Datasets.DatasetPatch) (actor : Actor) (db : Db M V)
      → (Datasets.patch_dataset (alone now) id p actor db).1.measurements ≡ db.measurements
  unfolding Datasets.patch_dataset
  patch_dataset-kept now id p actor db = ground arith

  pub reject-kept :
      (now : ℕ → String) (id : ℕ) (actor : Actor) (db : Db M V)
      → (Reviews.reject_study (alone now) id actor db).1.measurements ≡ db.measurements
  unfolding Reviews.reject_study
  reject-kept now id actor db = ground arith

  pub archive-kept :
      (now : ℕ → String) (id : ℕ) (actor : Actor) (db : Db M V)
      → (Reviews.archive_study (alone now) id actor db).1.measurements ≡ db.measurements
  unfolding Reviews.archive_study
  archive-kept now id actor db = ground arith

  pub lock-kept :
      (now : ℕ → String) (id : ℕ) (actor : Actor) (db : Db M V)
      → (Datasets.lock_dataset (alone now) id actor db).1.measurements ≡ db.measurements
  unfolding Datasets.lock_dataset
  lock-kept now id actor db = ground arith

  pub patch_dataset-studies :
      (now : ℕ → String) (id : ℕ) (p : Datasets.DatasetPatch) (actor : Actor) (db : Db M V)
      → (Datasets.patch_dataset (alone now) id p actor db).1.studies ≡ db.studies
  unfolding Datasets.patch_dataset
  patch_dataset-studies now id p actor db = ground arith

  pub lock-studies :
      (now : ℕ → String) (id : ℕ) (actor : Actor) (db : Db M V)
      → (Datasets.lock_dataset (alone now) id actor db).1.studies ≡ db.studies
  unfolding Datasets.lock_dataset
  lock-studies now id actor db = ground arith

  pub invalidate-studies :
      (now : ℕ → String) (id : ℕ) (reason : String) (actor : Actor) (db : Db M V)
      → (Measurements.invalidate_record (alone now) id reason actor db).1.studies ≡ db.studies
  unfolding Measurements.invalidate_record
  invalidate-studies now id reason actor db = ground arith

  pub inserted-kept :
      (now : ℕ → String) (id : ℕ) (study : Study) (p : Datasets.DatasetCreate V) (actor : Actor)
      → (o : Option (Dataset V × Db M V)) (db : Db M V)
      → ((q : Dataset V × Db M V) → o ≡ some q → q.1.measurements ≡ db.measurements)
      → (dataset_inserted (alone now) id study p actor o db).1.measurements ≡ db.measurements
  unfolding dataset_inserted
  inserted-kept now id study p actor none db h = refl
  inserted-kept now id study p actor (some (row, after)) db h = ground (arith, h (row, after) refl)

  pub measurement_inserted-studies :
      (now : ℕ → String) (p : MeasurementCreate V) (actor : Actor)
      → (o : Option (Measurement V × Db M V)) (db : Db M V)
      → ((q : Measurement V × Db M V) → o ≡ some q → q.1.studies ≡ db.studies)
      → (measurement_inserted (alone now) p actor o db).1.studies ≡ db.studies
  unfolding measurement_inserted
  measurement_inserted-studies now p actor none db h = refl
  measurement_inserted-studies now p actor (some (row, after)) db h = h (row, after) refl

  pub record_in-studies :
      (now : ℕ → String) (id : ℕ) (p : MeasurementCreate V) (actor : Actor) (db : Db M V)
      → (record_in (alone now) id p actor db).1.studies ≡ db.studies
  unfolding record_in
  record_in-studies now id p actor db = elim (Result-cases (resolve_tool_id p.tool_code db.tools)) [
    | inr (x, t) ↦ rw (record_in, t) refl
    | inl (tool, t) ↦ elim (Result-cases (resolve_tool_id p.measurement_device_code db.tools)) [
      | inr (x, d) ↦ rw (record_in, t, d) refl
      | inl (device, d) ↦ elim (Result-cases (check_correction id p.correction_of_id db)) [
        | inr (x, c) ↦ rw (record_in, t, d, c) refl
        | inl (_, c) ↦
            rw (record_in, t, d, c)
              (measurement_inserted-studies now p actor
                (insert_measurement
                  (new_measurement id p tool device (next_sequence_number id db.measurements)
                    (now 0))
                  db)
                db (λ q i. sym (ap (λ r. r.1.studies) (if-some _ _ q i))))
      ]
    ]
  ]

module _ {M V : Type 0} ⦃outside : Outside V⦄ where
  pub create_dataset-kept :
      (now : ℕ → String) (id : ℕ) (p : Datasets.DatasetCreate V) (actor : Actor) (db : Db M V)
      → (Datasets.create_dataset (alone now) id p actor db).1.measurements ≡ db.measurements
  unfolding Datasets.create_dataset
  create_dataset-kept now id p actor db = elim (Option-cases (fetch id db.studies)) [
    | inl e ↦ rw (Datasets.create_dataset, get_study, e) refl
    | inr (row, e) ↦ elim (Bool-cases (row.status == "approved")) [
      | inl s ↦ rw (Datasets.create_dataset, get_study, e, s) refl
      | inr s ↦ elim (Result-cases (validate_dataset p)) [
        | inr (x, v) ↦ rw (Datasets.create_dataset, get_study, e, s, v) refl
        | inl (_, v) ↦
            elim (Bool-cases (is_some (fetch_dataset_by_code id p.dataset_code db.datasets))) [
              | inl c ↦ rw (Datasets.create_dataset, get_study, e, s, v, c) refl
              | inr c ↦
                  rw (Datasets.create_dataset, get_study, e, s, v, c)
                    (inserted-kept now id row p actor _ db
                      (λ q i. sym (ap (λ r. r.1.measurements) (if-some _ _ q i))))
            ]
      ]
    ]
  ]

  pub study_inserted-kept :
      (now : ℕ → String) (p : StudyCreate V) (actor : Actor) (o : Option (Study × Db M V))
      (db : Db M V)
      → ((q : Study × Db M V) → o ≡ some q → q.1.measurements ≡ db.measurements)
      → (study_inserted (alone now) p actor o db).1.measurements ≡ db.measurements
  unfolding study_inserted
  study_inserted-kept now p actor none db h = refl
  study_inserted-kept now p actor (some (row, after)) db h = h (row, after) refl

  pub create_study-kept :
      (now : ℕ → String) (p : StudyCreate V) (actor : Actor) (db : Db M V)
      → (Creation.create_study (alone now) p actor db).1.measurements ≡ db.measurements
  unfolding Creation.create_study
  create_study-kept now p actor db = elim (Result-cases (accept_study p db)) [
    | inr (x, a) ↦ rw (Creation.create_study, a) refl
    | inl (_, a) ↦
        rw (Creation.create_study, a)
          (study_inserted-kept now p actor (insert_study (new_study p actor (now 0)) db) db
            (λ q i. sym (ap (λ r. r.1.measurements) (if-some _ _ q i))))
  ]

  pub create_record-studies :
      (now : ℕ → String) (id : ℕ) (p : MeasurementCreate V) (actor : Actor) (db : Db M V)
      → (Measurements.create_record (alone now) id p actor db).1.studies ≡ db.studies
  unfolding Measurements.create_record
  create_record-studies now id p actor db = elim (Option-cases (fetch id db.datasets)) [
    | inl e ↦ rw (Measurements.create_record, get_dataset, e) refl
    | inr (dataset, e) ↦ elim (Result-cases (assert_study_editable dataset db)) [
      | inr (x, a) ↦ rw (Measurements.create_record, get_dataset, e, a) refl
      | inl (study, a) ↦ elim (Result-cases (validate_measured_value p.measured_value)) [
        | inr (x, v) ↦ rw (Measurements.create_record, get_dataset, e, a, v) refl
        | inl (_, v) ↦
            rw (Measurements.create_record, get_dataset, e, a, v)
              (record_in-studies now id p actor db)
      ]
    ]
  ]
