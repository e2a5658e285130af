-- ===== src/Validation/Studies/Effects.antt =====
-- What every call that runs alone has done to the table of studies
-- (backend/production_validation/service.py).
use torq_pro.Prelude.{
  ◌≡◌, refl, ap, if-some, subst, ℕ, String, inl, inr, Option, none, some, List, [], ◌∷◌, ◌++◌, ◌==◌,
  string_eq, option_eq, nat_eq, Bool-cases, Option-cases, Result-cases,
}
use torq_pro.Sqlite.{alone, next_id, fetch, update}
use torq_pro.Sqlite.Laws.{update-snoc}
use torq_pro.Joints.Tables.{is_some}
use torq_pro.Validation.Tables.{Db, Study, study_key, fetch_dataset_by_code}
use torq_pro.Validation.Rules.{Outside, Actor, is_bindable_size, may_become}
use torq_pro.Validation.Studies.{
  StudyCreate, StudyPatch, new_study, set_specification, set_fields, is_empty_patch, get_study,
}
use torq_pro.Validation.Creation
use torq_pro.Validation.Creation.{
  accept_study, insert_study, study_inserted, with_specification, new_specification, fields_written,
}
use torq_pro.Validation.Datasets.{set_started}
use torq_pro.Validation.Datasets
use torq_pro.Validation.Datasets.{
  started, dataset_inserted, insert_dataset, new_dataset, validate_dataset, get_dataset,
  dataset_fields_written, patched_size, is_empty_dataset_patch,
}
use torq_pro.Validation.Tables.{dataset_key, measurement_key, specification_key}
use torq_pro.Validation.Commands.{Command, run}
use torq_pro.Validation.Measurements.Others.{
  patch_dataset-studies, lock-studies, create_record-studies, invalidate-studies,
}
use torq_pro.Validation.Studies.Changes.{
  fixed_part, StudyChange, complete-StudyChange, submit-StudyChange, archive-StudyChange,
  reject-StudyChange, approve-StudyChange,
}

patched_change :
    (id : ℕ) (p : StudyPatch) (name : Option String) (ts : String) (row : Study) (rows : List Study)
    → fetch id rows ≡ some row
    → StudyChange rows (update id (set_fields p name ts) rows)
unfolding set_fields fixed_part
patched_change id p name ts row rows e =
    StudyChange.moved id (set_fields p name ts) row e (λ s. refl)
      (record { fixed = refl; status = inl refl; approval = inl (refl, refl) }) refl

module _ {M V : Type 0} where
  fields_written-StudyChange :
      (now : ℕ → String) (id : ℕ) (p : StudyPatch) (actor : Actor) (name : Option (Option String))
      → (row : Study) (db : Db M V) → fetch id db.studies ≡ some row
      → StudyChange db.studies (fields_written (alone now) id p actor name db).1.studies
  unfolding fields_written
  fields_written-StudyChange now id p actor none row db e =
      patched_change id p none (now 0) row db.studies e
  fields_written-StudyChange now id p actor (some none) row db e =
      rw (fields_written, e) (StudyChange.kept refl)
  fields_written-StudyChange now id p actor (some (some n)) row db e =
      patched_change id p (some n) (now 0) row db.studies e

  patch-StudyChange :
      (now : ℕ → String) (id : ℕ) (p : StudyPatch) (actor : Actor) (db : Db M V)
      → StudyChange db.studies (Creation.patch_study (alone now) id p actor db).1.studies
  unfolding Creation.patch_study
  patch-StudyChange now id p actor db = elim (Option-cases (fetch id db.studies)) [
    | inl e ↦ rw (Creation.patch_study, get_study, e) (StudyChange.kept refl)
    | inr (row, e) ↦ elim (Bool-cases (row.status == "approved")) [
      | inl s ↦ rw (Creation.patch_study, get_study, e, s) (StudyChange.kept refl)
      | inr s ↦ elim (Bool-cases (is_empty_patch p)) [
        | inl n ↦ rw (Creation.patch_study, get_study, e, s, n) (StudyChange.kept refl)
        | inr n ↦
            rw (Creation.patch_study, get_study, e, s, n)
              (fields_written-StudyChange now id p actor p.name row db e)
      ]
    ]
  ]

  -- The start of the collection of data.
  started-StudyChange :
      (now : ℕ → String) (id : ℕ) (row : Study) (rows : List Study) (db : Db M V)
      → db.studies ≡ rows
      → fetch id rows ≡ some row
      → StudyChange rows (started (alone now) id row db).studies
  unfolding started set_started fixed_part may_become
  started-StudyChange now id row rows db same e = elim (Bool-cases (row.status == "draft")) [
    | inr s ↦ rw (started, s) (StudyChange.kept same)
    | inl s ↦
        rw (started, s)
          (StudyChange.moved id (set_started (now 0) (now 1)) row e (λ s. refl)
            (record {
              fixed = refl;
              status = inr (
                  ap (λ t. may_become t "data_collection")
                    ((string_eq.matches_iff row.status "draft").0 s));
              approval = inl (refl, refl);
            })
            (ap (update id (set_started (now 0) (now 1))) same))
  ]

module _ {M V : Type 0} ⦃outside : Outside V⦄ where
  inserted-StudyChange :
      (now : ℕ → String) (p : StudyCreate V) (actor : Actor) (db : Db M V)
      → StudyChange db.studies
          (study_inserted
            (alone now)
            p
            actor
            (some (
              new_study p actor (now 0) (next_id db.studies),
              record db {
                studies = db.studies ++ new_study p actor (now 0) (next_id db.studies) ∷ [];
              },
            ))
            db).1.studies
  unfolding study_inserted with_specification new_study set_specification
  inserted-StudyChange now p actor db =
      StudyChange.added
        (set_specification (next_id db.specifications)
          (new_study p actor (now 0) (next_id db.studies)))
        refl refl
        (update-snoc (set_specification (next_id db.specifications)) db.studies
          (new_study p actor (now 0) (next_id db.studies)) refl)

  create-StudyChange :
      (now : ℕ → String) (p : StudyCreate V) (actor : Actor) (db : Db M V)
      → StudyChange db.studies (Creation.create_study (alone now) p actor db).1.studies
  unfolding Creation.create_study insert_study study_inserted
  create-StudyChange now p actor db = elim (Result-cases (accept_study p db)) [
    | inr (x, a) ↦ rw (Creation.create_study, a) (StudyChange.kept refl)
    | inl (_, a) ↦ elim (Option-cases (insert_study (new_study p actor (now 0)) db)) [
      | inl i ↦ rw (Creation.create_study, a, i) (StudyChange.kept refl)
      | inr (inserted, i) ↦
          rw (Creation.create_study, a, i)
            (subst
              (λ q.
                StudyChange db.studies (study_inserted (alone now) p actor (some q) db).1.studies)
              (if-some _ _ inserted i) (inserted-StudyChange now p actor db))
    ]
  ]

  create_dataset-StudyChange :
      (now : ℕ → String) (id : ℕ) (p : Datasets.DatasetCreate V) (actor : Actor) (db : Db M V)
      → StudyChange db.studies (Datasets.create_dataset (alone now) id p actor db).1.studies
  unfolding Datasets.create_dataset dataset_inserted new_dataset
  create_dataset-StudyChange now id p actor db = elim (Option-cases (fetch id db.studies)) [
    | inl e ↦ rw (Datasets.create_dataset, get_study, e) (StudyChange.kept refl)
    | inr (row, e) ↦ elim (Bool-cases (row.status == "approved")) [
      | inl s ↦ rw (Datasets.create_dataset, get_study, e, s) (StudyChange.kept refl)
      | inr s ↦ elim (Result-cases (validate_dataset p)) [
        | inr (x, v) ↦ rw (Datasets.create_dataset, get_study, e, s, v) (StudyChange.kept refl)
        | inl (_, v) ↦
            elim (Bool-cases (is_some (fetch_dataset_by_code id p.dataset_code db.datasets))) [
              | inl c ↦ rw (Datasets.create_dataset, get_study, e, s, v, c) (StudyChange.kept refl)
              | inr c ↦ elim (Bool-cases (is_bindable_size p.subgroup_size)) [
                | inr b ↦
                    rw (Datasets.create_dataset, get_study, e, s, v, c, new_dataset, b)
                      (StudyChange.kept refl)
                | inl b ↦
                    rw (Datasets.create_dataset, get_study, e, s, v, c, new_dataset, e, b)
                      (started-StudyChange now id row db.studies
                        (record db {
                          datasets = db.datasets ++ new_dataset id p (next_id db.datasets) ∷ [];
                        })
                        refl e)
              ]
            ]
      ]
    ]
  ]

  pub run-StudyChange :
      (now : ℕ → String) (actor : Actor) (c : Command V) (db : Db M V)
      → StudyChange db.studies (run (alone now) actor c db).1.studies
  unfolding run
  run-StudyChange now actor (Command.create_study p) db = create-StudyChange now p actor db
  run-StudyChange now actor (Command.patch_study i p) db = patch-StudyChange now i p actor db
  run-StudyChange now actor (Command.complete_study i) db = complete-StudyChange now i actor db
  run-StudyChange now actor (Command.submit_study i) db = submit-StudyChange now i actor db
  run-StudyChange now actor (Command.approve_study i) db = approve-StudyChange now i actor db
  run-StudyChange now actor (Command.reject_study i) db = reject-StudyChange now i actor db
  run-StudyChange now actor (Command.archive_study i) db = archive-StudyChange now i actor db
  run-StudyChange now actor (Command.create_dataset i p) db =
      create_dataset-StudyChange now i p actor db
  run-StudyChange now actor (Command.patch_dataset i p) db =
      StudyChange.kept (patch_dataset-studies now i p actor db)
  run-StudyChange now actor (Command.lock_dataset i) db =
      StudyChange.kept (lock-studies now i actor db)
  run-StudyChange now actor (Command.create_record i p) db =
      StudyChange.kept (create_record-studies now i p actor db)
  run-StudyChange now actor (Command.invalidate_record i r) db =
      StudyChange.kept (invalidate-studies now i r actor db)
