-- ===== src/Validation/Routes.antt =====
-- The routes of production validation that write, and their mapping of the exceptions
-- (backend/api/routes/production_validation.py). FastAPI validates the bodies before them.
use torq_pro.Prelude.{
  ℕ, String, Option, none, some, if◌then◌else◌, List, string_eq, option_eq, nat_eq, Result, ok, err,
}
use torq_pro.Sqlite.{World, is_bindable}
use torq_pro.Validation.Tables.{
  Db, Study, Dataset, Measurement, ValidationError, not_found, conflict, validation_data, locked,
  state_transition, integrity_error, type_error, overflow_error, study_key, dataset_key,
  measurement_key,
}
use torq_pro.Validation.Rules.{Outside, Actor}
use torq_pro.Validation.Studies.{Answer, Reply, StudyCreate, StudyPatch, get_study, list_studies}
use torq_pro.Validation.Creation
use torq_pro.Validation.Reviews
use torq_pro.Validation.Datasets
use torq_pro.Validation.Datasets.{DatasetCreate, DatasetPatch}
use torq_pro.Validation.Measurements
use torq_pro.Validation.Measurements.{MeasurementCreate}
use torq_pro.Validation.Commands.{Command}
use torq_pro.Validation.Creation.{
  check_references, check_joint, check_revision, check_calculation, validate_study, accept_study,
  insert_study,
}
use torq_pro.Validation.Datasets.{validate_dataset, get_dataset, new_dataset}
use torq_pro.Validation.Measurements.{
  record_in, resolve_tool_id, check_correction, new_measurement, same_slot, assert_study_editable,
}

-- What the client gets: the value, an `HTTPException`, or the 500 of an exception that nothing
-- caught.
pub data Response (A : Type 0) : Type 0 where
  value : A → Response A
  refused : ℕ → ValidationError → Response A
  crashed : ValidationError → Response A

module _ {A : Type 0} where
  unfoldable pub refusal : ValidationError → Response A
  refusal (not_found m) = refused 404 (not_found m)
  refusal (conflict m) = refused 409 (conflict m)
  refusal (locked m) = refused 400 (locked m)
  refusal (state_transition m) = refused 400 (state_transition m)
  refusal (validation_data m) = refused 422 (validation_data m)
  refusal integrity_error = crashed integrity_error
  refusal type_error = crashed type_error
  refusal overflow_error = crashed overflow_error

  -- `_handle`
  unfoldable pub handle : Result ValidationError A → Response A
  unfolding refusal
  handle (ok a) = value a
  handle (err e) = refusal e

module _ {A S : Type 0} where
  -- The id of a path stands in the first statement of its operation, before any check or write;
  -- `approve_study` and `reject_study`, which check the role before it, bind the id themselves.
  abbrev pub bound_first : ℕ → S → Response A × S → Response A × S
  bound_first id db rest = if is_bindable id then rest else (crashed overflow_error, db)

module _ {A : Type 0} where
  abbrev pub bound_read : ℕ → Response A → Response A
  bound_read id rest = if is_bindable id then rest else crashed overflow_error

module _ {M V : Type 0} where
  abbrev pub handled : Reply M V → Response (Answer V) × Db M V
  handled (result, db) = (handle result, db)

module _ {M V : Type 0} ⦃outside : Outside V⦄ where
  unfoldable pub create_validation_study :
      World (Db M V) → Actor → StudyCreate V → Db M V → Response (Answer V) × Db M V
  unfolding Creation.create_study handle
  create_validation_study w u x db = handled (Creation.create_study w x u db)

  unfoldable pub patch_validation_study :
      World (Db M V) → Actor → ℕ → StudyPatch → Db M V → Response (Answer V) × Db M V
  unfolding Creation.patch_study handle is_bindable
  patch_validation_study w u study_id x db =
      bound_first study_id db (handled (Creation.patch_study w study_id x u db))

  unfoldable pub complete_validation_study :
      World (Db M V) → Actor → ℕ → Db M V → Response (Answer V) × Db M V
  unfolding Reviews.complete_study handle is_bindable
  complete_validation_study w u study_id db =
      bound_first study_id db (handled (Reviews.complete_study w study_id u db))

  unfoldable pub submit_validation_study :
      World (Db M V) → Actor → ℕ → Db M V → Response (Answer V) × Db M V
  unfolding Reviews.submit_study handle is_bindable
  submit_validation_study w u study_id db =
      bound_first study_id db (handled (Reviews.submit_study w study_id u db))

  unfoldable pub approve_validation_study :
      World (Db M V) → Actor → ℕ → Db M V → Response (Answer V) × Db M V
  unfolding Reviews.approve_study handle
  approve_validation_study w u study_id db = handled (Reviews.approve_study w study_id u db)

  unfoldable pub reject_validation_study :
      World (Db M V) → Actor → ℕ → Db M V → Response (Answer V) × Db M V
  unfolding Reviews.reject_study handle
  reject_validation_study w u study_id db = handled (Reviews.reject_study w study_id u db)

  unfoldable pub archive_validation_study :
      World (Db M V) → Actor → ℕ → Db M V → Response (Answer V) × Db M V
  unfolding Reviews.archive_study handle is_bindable
  archive_validation_study w u study_id db =
      bound_first study_id db (handled (Reviews.archive_study w study_id u db))

  unfoldable pub create_measurement_dataset :
      World (Db M V) → Actor → ℕ → DatasetCreate V → Db M V → Response (Answer V) × Db M V
  unfolding Datasets.create_dataset handle is_bindable
  create_measurement_dataset w u study_id x db =
      bound_first study_id db (handled (Datasets.create_dataset w study_id x u db))

  unfoldable pub patch_measurement_dataset :
      World (Db M V) → Actor → ℕ → DatasetPatch → Db M V → Response (Answer V) × Db M V
  unfolding Datasets.patch_dataset handle is_bindable
  patch_measurement_dataset w u dataset_id x db =
      bound_first dataset_id db (handled (Datasets.patch_dataset w dataset_id x u db))

  unfoldable pub lock_measurement_dataset :
      World (Db M V) → Actor → ℕ → Db M V → Response (Answer V) × Db M V
  unfolding Datasets.lock_dataset handle is_bindable
  lock_measurement_dataset w u dataset_id db =
      bound_first dataset_id db (handled (Datasets.lock_dataset w dataset_id u db))

  unfoldable pub create_measurement_record :
      World (Db M V) → Actor → ℕ → MeasurementCreate V → Db M V → Response (Answer V) × Db M V
  unfolding Measurements.create_record handle is_bindable
  create_measurement_record w u dataset_id x db =
      bound_first dataset_id db (handled (Measurements.create_record w dataset_id x u db))

  unfoldable pub invalidate_measurement_record :
      World (Db M V) → Actor → ℕ → String → Db M V → Response (Answer V) × Db M V
  unfolding Measurements.invalidate_record handle is_bindable
  invalidate_measurement_record w u record_id invalid_reason db =
      bound_first record_id db
        (handled (Measurements.invalidate_record w record_id invalid_reason u db))

  -- The route of a call.
  unfoldable pub route : World (Db M V) → Actor → Command V → Db M V → Response (Answer V) × Db M V
  unfolding create_validation_study patch_validation_study complete_validation_study
      submit_validation_study approve_validation_study reject_validation_study
      archive_validation_study create_measurement_dataset patch_measurement_dataset
      lock_measurement_dataset create_measurement_record invalidate_measurement_record
  route w u (Command.create_study p) db = create_validation_study w u p db
  route w u (Command.patch_study i p) db = patch_validation_study w u i p db
  route w u (Command.complete_study i) db = complete_validation_study w u i db
  route w u (Command.submit_study i) db = submit_validation_study w u i db
  route w u (Command.approve_study i) db = approve_validation_study w u i db
  route w u (Command.reject_study i) db = reject_validation_study w u i db
  route w u (Command.archive_study i) db = archive_validation_study w u i db
  route w u (Command.create_dataset i p) db = create_measurement_dataset w u i p db
  route w u (Command.patch_dataset i p) db = patch_measurement_dataset w u i p db
  route w u (Command.lock_dataset i) db = lock_measurement_dataset w u i db
  route w u (Command.create_record i p) db = create_measurement_record w u i p db
  route w u (Command.invalidate_record i reason) db = invalidate_measurement_record w u i reason db

module _ {M V : Type 0} where
  unfoldable pub list_validation_studies : Option ℕ → Option String → Db M V → Response (List Study)
  unfolding list_studies is_bindable
  list_validation_studies none status db = value (list_studies none status db)
  list_validation_studies (some project_id) status db =
      bound_read project_id (value (list_studies (some project_id) status db))

  unfoldable pub get_validation_study : ℕ → Db M V → Response Study
  unfolding get_study handle is_bindable
  get_validation_study study_id db = bound_read study_id (handle (get_study study_id db))

  unfoldable pub list_measurement_datasets : ℕ → Db M V → Response (List (Dataset V))
  unfolding Datasets.list_datasets handle is_bindable
  list_measurement_datasets study_id db =
      bound_read study_id (handle (Datasets.list_datasets study_id db))

  unfoldable pub get_measurement_dataset : ℕ → Db M V → Response (Dataset V)
  unfolding get_dataset handle is_bindable
  get_measurement_dataset dataset_id db = bound_read dataset_id (handle (get_dataset dataset_id db))

  unfoldable pub list_measurement_records : ℕ → Db M V → Response (List (Measurement V))
  unfolding Measurements.list_records handle is_bindable
  list_measurement_records dataset_id db =
      bound_read dataset_id (handle (Measurements.list_records dataset_id db))
