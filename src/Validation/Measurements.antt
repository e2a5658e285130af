-- ===== src/Validation/Measurements.antt =====
-- The measurements of a dataset (backend/production_validation/service.py, records).
pub mod Others
pub mod Changes
pub mod Frozen
pub mod Validity
pub mod Runs
use torq_pro.Prelude.{
  ℕ, ℤ, ◌+◌, String, Bool, true, false, ◌&&◌, ◌||◌, not, Option, none, some, List, [], ◌∷◌, ◌++◌,
  map, HasEq, ◌==◌, string_eq, option_eq, nat_eq, eqb, ltb, filter, find, if◌then◌else◌, Result, ok,
  err, ◌>>=◌, ◌>>◌, guard, blank,
}
use torq_pro.Sqlite.{World, next_id, fetch, update}
use torq_pro.Joints.Tables
use torq_pro.Joints.Tables.{Detail, has_id, is_some, joint_key, revision_key}
use torq_pro.Validation.Tables.{
  Db, Study, CalculationRevision, Tool, Limits, Origin, Circumstances, Reason, given, superseded_by,
  Specification, Dataset, Measurement, ValidationError, not_found, conflict, validation_data,
  locked, state_transition, integrity_error, type_error, study_key, specification_key,
  calculation_revision_key, dataset_key, measurement_key, in_study, in_dataset, count_records,
  count_valid, next_sequence_number, fetch_study_by_code, fetch_dataset_by_code,
}
use torq_pro.Validation.Rules.{
  Outside, Actor, bind, may_become, require_role, validate_study_type, validate_spec_limits,
  validate_unit_present, validate_characteristic_type, validate_subgroup_size,
  validate_measured_value,
}
use torq_pro.Revisions.Sorting.{sorted}
use torq_pro.Validation.Studies.{Answer, Reply, get_study, audit}
use torq_pro.Validation.Datasets.{get_dataset}

-- `MeasurementRecordCreate`
pub record MeasurementCreate (V : Type 0) : Type 0 where
  pub sample_id : String
  pub measured_value : V
  pub circumstances : Circumstances V
  pub tool_code : Option String
  pub measurement_device_code : Option String
  pub correction_of_id : Option ℕ

module _ {V : Type 0} where
  unfoldable pub new_measurement :
      ℕ → MeasurementCreate V → Option ℕ → Option ℕ → ℕ → String → ℕ → Measurement V
  new_measurement dataset_id p tool_id device_id sequence_number ts id = record {
    id = id;
    dataset_id = dataset_id;
    sequence_number = sequence_number;
    sample_id = p.sample_id;
    measured_value = p.measured_value;
    circumstances = p.circumstances;
    tool_id = tool_id;
    measurement_device_id = device_id;
    is_valid = true;
    invalid_reason = none;
    correction_of_id = p.correction_of_id;
    created_at = ts;
  }

  -- `SET is_valid=0,invalid_reason=?`
  unfoldable pub set_invalid : Reason → Measurement V → Measurement V
  set_invalid reason row = record row { is_valid = false; invalid_reason = some reason }

  -- The corrected measurement is no longer valid.
  unfoldable pub superseded : ℕ → Option ℕ → List (Measurement V) → List (Measurement V)
  unfolding update set_invalid
  superseded record_id none rows = rows
  superseded record_id (some id) rows = update id (set_invalid (superseded_by record_id)) rows

  -- `WHERE id=? AND dataset_id=?`
  unfoldable pub fetch_in_dataset : ℕ → ℕ → List (Measurement V) → Option (Measurement V)
  unfolding find
  fetch_in_dataset dataset_id id rows = find (λ m. eqb m.id id && eqb m.dataset_id dataset_id) rows

  abbrev pub same_slot : Measurement V → Measurement V → Bool
  same_slot a b = eqb a.dataset_id b.dataset_id && eqb a.sequence_number b.sequence_number

-- `_resolve_tool_id`; an empty code is none.
unfoldable pub resolve_tool_id : Option String → List Tool → Result ValidationError (Option ℕ)
unfolding find
resolve_tool_id none tools = ok none
resolve_tool_id (some tool_code) tools =
    if tool_code == "" then ok none else elim (find (λ t. t.tool_code == tool_code) tools) [
      | none ↦ err (not_found "tool_reference")
      | some tool ↦ ok (some tool.id)
    ]

module _ {M V : Type 0} where
  -- `_assert_study_editable`
  unfoldable pub assert_study_editable : Dataset V → Db M V → Result ValidationError Study
  unfolding get_study
  assert_study_editable dataset db = get_study dataset.validation_study_id db >>= λ study.
      if study.status == "approved"
      then err (locked "cannot add measurements to an approved study")
      else if dataset.is_locked
      then err (locked "dataset is locked; no new measurements can be added")
      else ok study

  -- The measurement that the request corrects stands in the dataset.
  unfoldable pub check_correction : ℕ → Option ℕ → Db M V → Result ValidationError (Unit {0})
  unfolding fetch_in_dataset bind
  check_correction dataset_id none db = ok tt
  check_correction dataset_id (some id) db =
      bind id
      >> guard (is_some (fetch_in_dataset dataset_id id db.measurements))
          (not_found "measurement_record")

  -- `INSERT INTO measurement_records` with its foreign key and
  -- `UNIQUE(dataset_id, sequence_number)`; `none` is an IntegrityError. The tools and the corrected
  -- measurement were just read, and none is ever deleted.
  unfoldable pub insert_measurement : (ℕ → Measurement V) → Db M V → Option (Measurement V × Db M V)
  unfolding next_id fetch find
  insert_measurement build db =
      let row = build (next_id db.measurements) in
      if is_some (fetch row.dataset_id db.datasets)
        && not (is_some (find (λ old. same_slot old row) db.measurements))
      then some (row, record db { measurements = db.measurements ++ row ∷ [] })
      else none

  unfoldable pub measurement_inserted :
      World (Db M V)
      → MeasurementCreate V
      → Actor
      → Option (Measurement V × Db M V)
      → Db M V
      → Reply M V
  unfolding superseded fetch
  measurement_inserted w p actor none db = (err integrity_error, db)
  measurement_inserted w p actor (some (row, inserted)) db =
      let after = record inserted {
        measurements = superseded row.id p.correction_of_id inserted.measurements;
      } in
      (
        ok (Answer.measurement (fetch row.id after.measurements)),
        audit actor.id "measurement_record_create" (Detail.row_id row.id) (w.now 1) after,
      )

  -- The second transaction, up to the insert.
  unfoldable pub record_in : World (Db M V) → ℕ → MeasurementCreate V → Actor → Db M V → Reply M V
  unfolding resolve_tool_id check_correction next_sequence_number insert_measurement new_measurement
      measurement_inserted
  record_in w dataset_id p actor db = elim (resolve_tool_id p.tool_code db.tools) [
    | err e ↦ (err e, db)
    | ok tool_id ↦ elim (resolve_tool_id p.measurement_device_code db.tools) [
      | err e ↦ (err e, db)
      | ok device_id ↦ elim (check_correction dataset_id p.correction_of_id db) [
        | err e ↦ (err e, db)
        | ok _ ↦
            let n = next_sequence_number dataset_id db.measurements in
            let before = w.gap 2 db in
            measurement_inserted w p actor
              (insert_measurement (new_measurement dataset_id p tool_id device_id n (w.now 0))
                before)
              before
      ]
    ]
  ]

  unfoldable pub list_records : ℕ → Db M V → Result ValidationError (List (Measurement V))
  unfolding get_dataset filter sorted
  list_records dataset_id db = get_dataset dataset_id db >>= λ _. ok (
      sorted (λ a b. ltb a.sequence_number b.sequence_number)
        (in_dataset dataset_id db.measurements))

  -- The dataset that the row belongs to, read with it.
  unfoldable pub fetch_with_dataset : ℕ → Db M V → Result ValidationError (Dataset V)
  unfolding fetch
  fetch_with_dataset record_id db = elim (fetch record_id db.measurements) [
    | none ↦ err (not_found "measurement_record")
    | some row ↦ elim (fetch row.dataset_id db.datasets) [
      | none ↦ err type_error
      | some dataset ↦ ok dataset
    ]
  ]

  unfoldable pub invalidate_record : World (Db M V) → ℕ → String → Actor → Db M V → Reply M V
  unfolding fetch_with_dataset assert_study_editable blank update set_invalid fetch
  invalidate_record w record_id reason actor db = elim (fetch_with_dataset record_id db) [
    | err e ↦ (err e, db)
    | ok dataset ↦
        let checked = w.gap 0 db in
        elim (assert_study_editable dataset checked) [
          | err e ↦ (err e, checked)
          | ok _ ↦
              if blank reason
              then (err (validation_data "invalid_reason is required"), checked)
              else let before = w.gap 1 checked in
                let after = record before {
                  measurements = update record_id (set_invalid (given reason)) before.measurements;
                } in
                (
                  ok (Answer.measurement (fetch record_id after.measurements)),
                  audit actor.id "measurement_record_invalidate" (Detail.row_id record_id) (w.now 0)
                      after,
                )
        ]
  ]

module _ {M V : Type 0} ⦃outside : Outside V⦄ where
  unfoldable pub create_record :
      World (Db M V) → ℕ → MeasurementCreate V → Actor → Db M V → Reply M V
  unfolding get_dataset assert_study_editable validate_measured_value record_in
  create_record w dataset_id p actor db = elim (get_dataset dataset_id db) [
    | err e ↦ (err e, db)
    | ok dataset ↦
        let checked = w.gap 0 db in
        elim (assert_study_editable dataset checked) [
          | err e ↦ (err e, checked)
          | ok _ ↦ elim (validate_measured_value p.measured_value) [
            | err e ↦ (err e, checked)
            | ok _ ↦ record_in w dataset_id p actor (w.gap 1 checked)
          ]
        ]
  ]
