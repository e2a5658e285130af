-- ===== src/Validation/Datasets.antt =====
-- The datasets of a study (backend/production_validation/service.py, datasets).
use torq_pro.Prelude.{
  ℕ, ℤ, String, Bool, true, false, ◌&&◌, ◌||◌, not, Option, none, some, List, [], ◌∷◌, ◌++◌, ◌==◌,
  string_eq, option_eq, nat_eq, filter, if◌then◌else◌, Result, ok, err, ◌>>=◌, ◌>>◌,
}
use torq_pro.Sqlite.{World, next_id, fetch, update}
use torq_pro.Joints.Tables.{Detail, is_some, joint_key, revision_key}
use torq_pro.Validation.Tables.{
  Db, Study, Limits, Dataset, ValidationError, not_found, conflict, locked, integrity_error,
  overflow_error, study_key, specification_key, calculation_revision_key, dataset_key,
  measurement_key, in_study, fetch_dataset_by_code,
}
use torq_pro.Validation.Rules.{
  Outside, Actor, is_bindable_size, validate_spec_limits, validate_unit_present,
  validate_characteristic_type, validate_subgroup_size,
}
use torq_pro.Validation.Studies.{Answer, Reply, get_study, audit, patched}

-- `MeasurementDatasetCreate`
pub record DatasetCreate (V : Type 0) : Type 0 where
  pub dataset_code : String
  pub name : String
  pub characteristic_type : String
  pub limits : Limits V
  pub sampling_strategy : Option String
  pub subgroup_size : Option ℤ
  pub metadata_json : Option String

-- `MeasurementDatasetPatch`: of each field, whether it is set, and to what.
pub record DatasetPatch : Type 0 where
  pub name : Option (Option String)
  pub sampling_strategy : Option (Option String)
  pub subgroup_size : Option (Option ℤ)
  pub metadata_json : Option (Option String)

abbrev pub or_else {ℓ} : {A : Type ℓ} → Option A → A → Option A
or_else none a = some a
or_else (some b) a = some b

-- `status='data_collection',started_at=COALESCE(started_at,?)`
unfoldable pub set_started : String → String → Study → Study
set_started started_at updated_at row = record row {
  status = "data_collection";
  started_at = or_else row.started_at started_at;
  updated_at = some updated_at;
}

abbrev pub patched_size : Option (Option ℤ) → Option ℤ
patched_size none = none
patched_size (some size) = size

-- `not fields`
abbrev pub is_empty_dataset_patch : DatasetPatch → Bool
is_empty_dataset_patch p = not (
    is_some p.name
    || is_some p.sampling_strategy
    || is_some p.subgroup_size
    || is_some p.metadata_json)

module _ {V : Type 0} where
  unfoldable pub new_dataset : ℕ → DatasetCreate V → ℕ → Dataset V
  new_dataset study_id p id = record {
    id = id;
    validation_study_id = study_id;
    dataset_code = p.dataset_code;
    name = p.name;
    characteristic_type = p.characteristic_type;
    limits = p.limits;
    sampling_strategy = p.sampling_strategy;
    subgroup_size = p.subgroup_size;
    source_type = none;
    source_filename = none;
    source_checksum = none;
    imported_at = none;
    imported_by = none;
    is_locked = false;
    version = 1;
    metadata_json = p.metadata_json;
  }

  unfoldable pub set_dataset_fields : DatasetPatch → Option String → Dataset V → Dataset V
  set_dataset_fields p name row = record row {
    name = patched name row.name;
    sampling_strategy = patched p.sampling_strategy row.sampling_strategy;
    subgroup_size = patched p.subgroup_size row.subgroup_size;
    metadata_json = patched p.metadata_json row.metadata_json;
  }

  unfoldable pub set_locked : Dataset V → Dataset V
  set_locked row = record row { is_locked = true }

module _ {V : Type 0} ⦃outside : Outside V⦄ where
  unfoldable pub validate_dataset : DatasetCreate V → Result ValidationError (Unit {0})
  unfolding validate_characteristic_type validate_spec_limits validate_unit_present
      validate_subgroup_size
  validate_dataset p = do
    validate_characteristic_type p.characteristic_type
    validate_spec_limits p.limits.lower_spec_limit p.limits.upper_spec_limit p.limits.target_value
    validate_unit_present p.limits.unit
    validate_subgroup_size p.subgroup_size

module _ {M V : Type 0} where
  unfoldable pub get_dataset : ℕ → Db M V → Result ValidationError (Dataset V)
  unfolding fetch
  get_dataset dataset_id db = elim (fetch dataset_id db.datasets) [
    | none ↦ err (not_found "measurement_dataset")
    | some row ↦ ok row
  ]

  unfoldable pub list_datasets : ℕ → Db M V → Result ValidationError (List (Dataset V))
  unfolding get_study filter
  list_datasets study_id db = get_study study_id db >>= λ _. ok (in_study study_id db.datasets)

  -- `INSERT INTO measurement_datasets` with its foreign key and
  -- `UNIQUE(validation_study_id, dataset_code)`; `none` is the OverflowError of a size that sqlite3
  -- cannot bind, or an IntegrityError.
  unfoldable pub insert_dataset : (ℕ → Dataset V) → Db M V → Option (Dataset V × Db M V)
  unfolding next_id fetch fetch_dataset_by_code
  insert_dataset build db =
      let row = build (next_id db.datasets) in
      if is_bindable_size row.subgroup_size
        && (is_some (fetch row.validation_study_id db.studies)
            && not (
                is_some
                  (fetch_dataset_by_code row.validation_study_id row.dataset_code db.datasets)))
      then some (row, record db { datasets = db.datasets ++ row ∷ [] })
      else none

  -- A study that was a draft when it was read starts to collect data.
  unfoldable pub started : World (Db M V) → ℕ → Study → Db M V → Db M V
  unfolding update set_started
  started w study_id study db =
      if study.status == "draft"
      then record db { studies = update study_id (set_started (w.now 0) (w.now 1)) db.studies }
      else db

  unfoldable pub dataset_inserted :
      World (Db M V)
      → ℕ
      → Study
      → DatasetCreate V
      → Actor
      → Option (Dataset V × Db M V)
      → Db M V
      → Reply M V
  unfolding started fetch
  dataset_inserted w study_id study p actor none db =
      (err (if is_bindable_size p.subgroup_size then integrity_error else overflow_error), db)
  dataset_inserted w study_id study p actor (some (row, after)) db = (
    ok (Answer.dataset (fetch row.id after.datasets)),
    audit actor.id "measurement_dataset_create" (Detail.code p.dataset_code)
        (w.now (if study.status == "draft" then 2 else 0)) (started w study_id study after),
  )

  abbrev pub dataset_answered : ℕ → Option ℕ → String → String → Db M V → Reply M V
  dataset_answered dataset_id actor_id action ts db = (
    ok (Answer.dataset (fetch dataset_id db.datasets)),
    audit actor_id action (Detail.row_id dataset_id) ts db,
  )

  abbrev pub update_dataset : ℕ → (Dataset V → Dataset V) → Db M V → Db M V
  update_dataset dataset_id f db = record db { datasets = update dataset_id f db.datasets }

  -- `name=NULL` is refused by the table.
  unfoldable pub dataset_fields_written :
      World (Db M V) → ℕ → DatasetPatch → Actor → Option (Option String) → Db M V → Reply M V
  unfolding update set_dataset_fields fetch
  dataset_fields_written w dataset_id p actor (some none) db =
      if is_some (fetch dataset_id db.datasets)
      then (err integrity_error, db)
      else dataset_answered dataset_id actor.id "measurement_dataset_patch" (w.now 0) db
  dataset_fields_written w dataset_id p actor none db =
      dataset_answered dataset_id actor.id "measurement_dataset_patch" (w.now 0)
        (update_dataset dataset_id (set_dataset_fields p none) db)
  dataset_fields_written w dataset_id p actor (some (some name)) db =
      dataset_answered dataset_id actor.id "measurement_dataset_patch" (w.now 0)
        (update_dataset dataset_id (set_dataset_fields p (some name)) db)

  unfoldable pub patch_dataset : World (Db M V) → ℕ → DatasetPatch → Actor → Db M V → Reply M V
  unfolding get_dataset validate_subgroup_size dataset_fields_written
  patch_dataset w dataset_id p actor db = elim (get_dataset dataset_id db) [
    | err e ↦ (err e, db)
    | ok dataset ↦
        if dataset.is_locked
        then (err (locked "dataset is locked and cannot be modified"), db)
        else elim (validate_subgroup_size (patched_size p.subgroup_size)) [
          | err e ↦ (err e, db)
          | ok _ ↦
              if is_empty_dataset_patch p
              then (ok (Answer.dataset (some dataset)), db)
              else if is_bindable_size (patched_size p.subgroup_size)
              then dataset_fields_written w dataset_id p actor p.name (w.gap 0 db)
              else (err overflow_error, w.gap 0 db)
        ]
  ]

  unfoldable pub lock_dataset : World (Db M V) → ℕ → Actor → Db M V → Reply M V
  unfolding get_dataset update set_locked fetch
  lock_dataset w dataset_id actor db = elim (get_dataset dataset_id db) [
    | err e ↦ (err e, db)
    | ok dataset ↦
        if dataset.is_locked
        then (ok (Answer.dataset (some dataset)), db)
        else dataset_answered dataset_id actor.id "measurement_dataset_lock" (w.now 0)
            (update_dataset dataset_id set_locked (w.gap 0 db))
  ]

module _ {M V : Type 0} ⦃outside : Outside V⦄ where
  unfoldable pub create_dataset : World (Db M V) → ℕ → DatasetCreate V → Actor → Db M V → Reply M V
  unfolding get_study validate_dataset fetch_dataset_by_code insert_dataset new_dataset
      dataset_inserted
  create_dataset w study_id p actor db = elim (get_study study_id db) [
    | err e ↦ (err e, db)
    | ok study ↦
        if study.status == "approved"
        then (err (locked "cannot add a dataset to an approved study"), db)
        else elim (validate_dataset p) [
          | err e ↦ (err e, db)
          | ok _ ↦
              let now_on = w.gap 0 db in
              if is_some (fetch_dataset_by_code study_id p.dataset_code now_on.datasets)
              then (err (conflict "dataset_code already used in this study"), now_on)
              else let before = w.gap 1 now_on in
                dataset_inserted w study_id study p actor
                  (insert_dataset (new_dataset study_id p) before) before
        ]
  ]
