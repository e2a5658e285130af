-- ===== src/Validation/Measurements/Changes.antt =====
-- What a call that runs alone has done to the table of measurements, by cases
-- (backend/production_validation/service.py).
use torq_pro.Prelude.{
  ◌≡◌, refl, ℕ, String, false, inl, inr, Option, none, some, [], ◌∷◌, ◌++◌, ◌==◌, string_eq,
  option_eq, nat_eq, find, blank, Bool-cases, Option-cases, ok, Result-cases,
}
use torq_pro.Sqlite.{alone, next_id, fetch, update}
use torq_pro.Validation.Tables.{Db, Study, Reason, given, next_sequence_number, study_key}
use torq_pro.Validation.Rules.{Outside, Actor}
use torq_pro.Validation.Studies.{get_study}
use torq_pro.Validation.Datasets.{get_dataset}
use torq_pro.Validation.Rules.{validate_measured_value}
use torq_pro.Validation.Tables.{
  Dataset, Measurement, dataset_key, measurement_key, specification_key,
}
use torq_pro.Validation.Measurements
use torq_pro.Validation.Measurements.{
  MeasurementCreate, assert_study_editable, record_in, resolve_tool_id, check_correction,
  insert_measurement, measurement_inserted, set_invalid, fetch_in_dataset, same_slot, superseded,
  fetch_with_dataset, new_measurement,
}
use torq_pro.Validation.Commands.{Command, run}
use torq_pro.Validation.Measurements.Others.{
  create_study-kept, patch_study-kept, complete-kept, submit-kept, approve-kept, reject-kept,
  archive-kept, create_dataset-kept, patch_dataset-kept, lock-kept,
}

module _ {M V : Type 0} where
  -- A dataset whose study is not approved; the measurement that is corrected stands in it.
  pub record IsEditable (db : Db M V) (dataset_id : ℕ) : Type 0 where
    pub dataset : Dataset V
    pub study : Study
    pub dataset_found : fetch dataset_id db.datasets ≡ some dataset
    pub study_found : fetch dataset.validation_study_id db.studies ≡ some study
    pub unapproved : (study.status == "approved") ≡ false

  pub data MeasurementChange (db after : Db M V) : Type 0 where
    untouched : after.measurements ≡ db.measurements → MeasurementChange db after
    recorded :
        (dataset_id : ℕ) (p : MeasurementCreate V) (tool_id device_id : Option ℕ) (ts : String)
        → IsEditable db dataset_id
        → check_correction dataset_id p.correction_of_id db ≡ ok tt
        → find
            (λ old. same_slot old (
              new_measurement dataset_id p tool_id device_id
                (next_sequence_number dataset_id db.measurements)
                ts
                (next_id db.measurements)))
            db.measurements
          ≡ none
        → after.measurements
          ≡ superseded (next_id db.measurements) p.correction_of_id (
              db.measurements
              ++ new_measurement dataset_id p tool_id device_id
                  (next_sequence_number dataset_id db.measurements)
                  ts
                  (next_id db.measurements)
                ∷ [])
        → MeasurementChange db after
    invalidated :
        (record_id : ℕ) (row : Measurement V) (reason : Reason)
        → fetch record_id db.measurements ≡ some row
        → IsEditable db row.dataset_id
        → after.measurements ≡ update record_id (set_invalid reason) db.measurements
        → MeasurementChange db after

  editable :
      (dataset_id : ℕ) (dataset : Dataset V) (study : Study) (db : Db M V)
      → fetch dataset_id db.datasets ≡ some dataset
      → assert_study_editable dataset db ≡ ok study
      → IsEditable db dataset_id
  unfolding assert_study_editable
  editable dataset_id dataset study db e a =
      elim (Option-cases (fetch dataset.validation_study_id db.studies)) [
        | inl n ↦ cc (rw (assert_study_editable, get_study, n) at a)
        | inr (s, f) ↦ elim (Bool-cases (s.status == "approved")) [
          | inl t ↦ cc (rw (assert_study_editable, get_study, f, t) at a)
          | inr t ↦ record {
            dataset = dataset;
            study = s;
            dataset_found = e;
            study_found = f;
            unapproved = t;
          }
        ]
      ]

  invalidate-MeasurementChange :
      (now : ℕ → String) (id : ℕ) (reason : String) (actor : Actor) (db : Db M V)
      → MeasurementChange db (Measurements.invalidate_record (alone now) id reason actor db).1
  unfolding Measurements.invalidate_record fetch_with_dataset
  invalidate-MeasurementChange now id reason actor db =
      elim (Option-cases (fetch id db.measurements)) [
        | inl e ↦
            rw (Measurements.invalidate_record, fetch_with_dataset, e)
              (MeasurementChange.untouched refl)
        | inr (row, e) ↦ elim (Option-cases (fetch row.dataset_id db.datasets)) [
          | inl d ↦
              rw (Measurements.invalidate_record, fetch_with_dataset, e, d)
                (MeasurementChange.untouched refl)
          | inr (dataset, d) ↦ elim (Result-cases (assert_study_editable dataset db)) [
            | inr (x, a) ↦
                rw (Measurements.invalidate_record, fetch_with_dataset, e, d, a)
                  (MeasurementChange.untouched refl)
            | inl (study, a) ↦ elim (Bool-cases (blank reason)) [
              | inl b ↦
                  rw (Measurements.invalidate_record, fetch_with_dataset, e, d, a, b)
                    (MeasurementChange.untouched refl)
              | inr b ↦
                  rw (Measurements.invalidate_record, fetch_with_dataset, e, d, a, b)
                    (MeasurementChange.invalidated id row (given reason) e
                      (editable row.dataset_id dataset study db d a) refl)
            ]
          ]
        ]
      ]

  record_in-MeasurementChange :
      (now : ℕ → String) (dataset_id : ℕ) (p : MeasurementCreate V) (actor : Actor) (db : Db M V)
      → IsEditable db dataset_id
      → MeasurementChange db (record_in (alone now) dataset_id p actor db).1
  unfolding record_in new_measurement measurement_inserted
  record_in-MeasurementChange now dataset_id p actor db h =
      elim (Result-cases (resolve_tool_id p.tool_code db.tools)) [
        | inr (x, t) ↦ rw (record_in, t) (MeasurementChange.untouched refl)
        | inl (tool, t) ↦ elim (Result-cases (resolve_tool_id p.measurement_device_code db.tools)) [
          | inr (x, d) ↦ rw (record_in, t, d) (MeasurementChange.untouched refl)
          | inl (device, d) ↦
              elim (Result-cases (check_correction dataset_id p.correction_of_id db)) [
                | inr (x, c) ↦ rw (record_in, t, d, c) (MeasurementChange.untouched refl)
                | inl (_, c) ↦
                    elim (Option-cases (
                      find
                        (λ old. same_slot old (
                          new_measurement dataset_id p tool device
                            (next_sequence_number dataset_id db.measurements) (now 0)
                            (next_id db.measurements)))
                        db.measurements)) [
                          | inl f ↦
                              rw (record_in, t, d, c, new_measurement, h.dataset_found, f)
                                (MeasurementChange.recorded dataset_id p tool device (now 0) h c f
                                  refl)
                          | inr (old, f) ↦
                              rw (record_in, t, d, c, new_measurement, h.dataset_found, f)
                                (MeasurementChange.untouched refl)
                        ]
              ]
        ]
      ]

module _ {M V : Type 0} ⦃outside : Outside V⦄ where
  create_record-MeasurementChange :
      (now : ℕ → String) (id : ℕ) (p : MeasurementCreate V) (actor : Actor) (db : Db M V)
      → MeasurementChange db (Measurements.create_record (alone now) id p actor db).1
  unfolding Measurements.create_record
  create_record-MeasurementChange now id p actor db = elim (Option-cases (fetch id db.datasets)) [
    | inl e ↦ rw (Measurements.create_record, get_dataset, e) (MeasurementChange.untouched refl)
    | inr (dataset, e) ↦ elim (Result-cases (assert_study_editable dataset db)) [
      | inr (x, a) ↦
          rw (Measurements.create_record, get_dataset, e, a) (MeasurementChange.untouched refl)
      | inl (study, a) ↦ elim (Result-cases (validate_measured_value p.measured_value)) [
        | inr (x, v) ↦
            rw (Measurements.create_record, get_dataset, e, a, v) (MeasurementChange.untouched refl)
        | inl (_, v) ↦
            rw (Measurements.create_record, get_dataset, e, a, v)
              (record_in-MeasurementChange now id p actor db (editable id dataset study db e a))
      ]
    ]
  ]

  pub run-MeasurementChange :
      (now : ℕ → String) (actor : Actor) (c : Command V) (db : Db M V)
      → MeasurementChange db (run (alone now) actor c db).1
  unfolding run
  run-MeasurementChange now actor (Command.create_study p) db =
      MeasurementChange.untouched (create_study-kept now p actor db)
  run-MeasurementChange now actor (Command.patch_study i p) db =
      MeasurementChange.untouched (patch_study-kept now i p actor db)
  run-MeasurementChange now actor (Command.complete_study i) db =
      MeasurementChange.untouched (complete-kept now i actor db)
  run-MeasurementChange now actor (Command.submit_study i) db =
      MeasurementChange.untouched (submit-kept now i actor db)
  run-MeasurementChange now actor (Command.approve_study i) db =
      MeasurementChange.untouched (approve-kept now i actor db)
  run-MeasurementChange now actor (Command.reject_study i) db =
      MeasurementChange.untouched (reject-kept now i actor db)
  run-MeasurementChange now actor (Command.archive_study i) db =
      MeasurementChange.untouched (archive-kept now i actor db)
  run-MeasurementChange now actor (Command.create_dataset i p) db =
      MeasurementChange.untouched (create_dataset-kept now i p actor db)
  run-MeasurementChange now actor (Command.patch_dataset i p) db =
      MeasurementChange.untouched (patch_dataset-kept now i p actor db)
  run-MeasurementChange now actor (Command.lock_dataset i) db =
      MeasurementChange.untouched (lock-kept now i actor db)
  run-MeasurementChange now actor (Command.create_record i p) db =
      create_record-MeasurementChange now i p actor db
  run-MeasurementChange now actor (Command.invalidate_record i r) db =
      invalidate-MeasurementChange now i r actor db
