-- ===== src/Validation/Caught.antt =====
-- What the operations of production validation never raise (backend/production_validation/service.py).
use torq_pro.Prelude.{
  ◌≡◌, refl, ℕ, String, Bool, true, false, inl, inr, Option, none, some, string_eq, option_eq,
  nat_eq, eqb, All, All-find, Option-cases, Result, ok, err, arith,
}
use torq_pro.Sqlite.{alone, fetch, is_bindable}
use torq_pro.Joints.Tables.{is_some}
use torq_pro.Validation.Tables.{
  Db, Dataset, Measurement, ValidationError, integrity_error, type_error, overflow_error, study_key,
  dataset_key, measurement_key,
}
use torq_pro.Validation.Rules.{Actor, bind, is_bindable_size}
use torq_pro.Validation.Studies.{StudyPatch}
use torq_pro.Validation.Creation
use torq_pro.Validation.Reviews
use torq_pro.Validation.Datasets
use torq_pro.Validation.Datasets.{DatasetCreate, DatasetPatch}
use torq_pro.Validation.Measurements
use torq_pro.Validation.Measurements.{MeasurementCreate}

-- The exceptions that the routes catch.
abbrev pub is_domain : ValidationError → Bool
is_domain integrity_error = false
is_domain type_error = false
is_domain overflow_error = false
is_domain _ = true

abbrev pub is_caught : {A : Type 0} → Result ValidationError A → Bool
is_caught (ok a) = true
is_caught (err e) = is_domain e

-- A field that is set to null.
abbrev pub is_null : Option (Option String) → Bool
is_null none = false
is_null (some none) = true
is_null (some (some s)) = false

module _ {M V : Type 0} where
  pub submit-caught :
      (now : ℕ → String) (id : ℕ) (actor : Actor) (db : Db M V)
      → is_caught (Reviews.submit_study (alone now) id actor db).0 ≡ true
  unfolding Reviews.submit_study
  submit-caught now id actor db = ground arith

  pub complete-caught :
      (now : ℕ → String) (id : ℕ) (actor : Actor) (db : Db M V)
      → is_caught (Reviews.complete_study (alone now) id actor db).0 ≡ true
  unfolding Reviews.complete_study
  complete-caught now id actor db = ground arith

  pub approve-caught :
      (now : ℕ → String) (id : ℕ) (actor : Actor) (db : Db M V)
      → is_bindable id ≡ true
      → is_caught (Reviews.approve_study (alone now) id actor db).0 ≡ true
  unfolding Reviews.approve_study bind
  approve-caught now id actor db b = ground arith

  pub reject-caught :
      (now : ℕ → String) (id : ℕ) (actor : Actor) (db : Db M V)
      → is_bindable id ≡ true
      → is_caught (Reviews.reject_study (alone now) id actor db).0 ≡ true
  unfolding Reviews.reject_study bind
  reject-caught now id actor db b = ground arith

  pub archive-caught :
      (now : ℕ → String) (id : ℕ) (actor : Actor) (db : Db M V)
      → is_caught (Reviews.archive_study (alone now) id actor db).0 ≡ true
  unfolding Reviews.archive_study
  archive-caught now id actor db = ground arith

  pub lock-caught :
      (now : ℕ → String) (id : ℕ) (actor : Actor) (db : Db M V)
      → is_caught (Datasets.lock_dataset (alone now) id actor db).0 ≡ true
  unfolding Datasets.lock_dataset
  lock-caught now id actor db = ground arith

  fields_written-caught :
      (now : ℕ → String) (id : ℕ) (p : StudyPatch) (actor : Actor) (name : Option (Option String))
      (db : Db M V)
      → is_null name ≡ false
      → is_caught (Creation.fields_written (alone now) id p actor name db).0 ≡ true
  unfolding Creation.fields_written
  fields_written-caught now id p actor none db h = refl
  fields_written-caught now id p actor (some none) db h = cc
  fields_written-caught now id p actor (some (some n)) db h = refl

  pub patch_study-caught :
      (now : ℕ → String) (id : ℕ) (p : StudyPatch) (actor : Actor) (db : Db M V)
      → is_null p.name ≡ false
      → is_caught (Creation.patch_study (alone now) id p actor db).0 ≡ true
  unfolding Creation.patch_study
  patch_study-caught now id p actor db h =
      ground (arith, fields_written-caught now id p actor p.name db h)

  dataset_fields_written-caught :
      (now : ℕ → String) (id : ℕ) (p : DatasetPatch) (actor : Actor) (name : Option (Option String))
      (db : Db M V)
      → is_null name ≡ false
      → is_caught (Datasets.dataset_fields_written (alone now) id p actor name db).0 ≡ true
  unfolding Datasets.dataset_fields_written
  dataset_fields_written-caught now id p actor none db h = refl
  dataset_fields_written-caught now id p actor (some none) db h = cc
  dataset_fields_written-caught now id p actor (some (some n)) db h = refl

  pub patch_dataset-caught :
      (now : ℕ → String) (id : ℕ) (p : DatasetPatch) (actor : Actor) (db : Db M V)
      → is_null p.name ≡ false
      → is_bindable_size (Datasets.patched_size p.subgroup_size) ≡ true
      → is_caught (Datasets.patch_dataset (alone now) id p actor db).0 ≡ true
  unfolding Datasets.patch_dataset
  patch_dataset-caught now id p actor db h b =
      ground (arith, dataset_fields_written-caught now id p actor p.name db h)

  pub editable-caught :
      (d : Dataset V) (db : Db M V) → is_caught (Measurements.assert_study_editable d db) ≡ true
  unfolding Measurements.assert_study_editable
  editable-caught d db = ground arith

  pub invalidate-caught :
      (now : ℕ → String) (id : ℕ) (reason : String) (actor : Actor) (db : Db M V)
      → All (λ m. is_some (fetch m.dataset_id db.datasets) ≡ true) db.measurements
      → is_caught (Measurements.invalidate_record (alone now) id reason actor db).0 ≡ true
  unfolding Measurements.invalidate_record fetch
  invalidate-caught now id reason actor db h = elim (Option-cases (fetch id db.measurements)) [
    | inl e ↦ rw (Measurements.invalidate_record, Measurements.fetch_with_dataset, e) refl
    | inr (row, e) ↦ elim (Option-cases (fetch row.dataset_id db.datasets)) [
      | inl d ↦ cc (rw d at (owned row e))
      | inr (dataset, d) ↦
          rw (Measurements.invalidate_record, Measurements.fetch_with_dataset, e, d)
            (ground (arith, editable-caught dataset db))
    ]
  ]
    where
      owned :
          (row : Measurement V)
          → fetch id db.measurements ≡ some row
          → is_some (fetch row.dataset_id db.datasets) ≡ true
      owned row e =
          All-find (λ m. is_some (fetch m.dataset_id db.datasets) ≡ true) (λ m. eqb m.id id)
            db.measurements row h e
