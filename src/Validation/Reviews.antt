-- ===== src/Validation/Reviews.antt =====
-- The lifecycle of a study: complete, submit, approve, reject and archive
-- (backend/production_validation/service.py).
use torq_pro.Prelude.{
  ℕ, ◌+◌, not, List, [], ◌∷◌, ◌==◌, string_eq, option_eq, nat_eq, ltb, filter, if◌then◌else◌, ok,
  err, ◌>>◌,
}
use torq_pro.Sqlite.{World, fetch, update}
use torq_pro.Joints.Tables.{joint_key, revision_key}
use torq_pro.Validation.Tables.{
  Db, Dataset, Measurement, validation_data, state_transition, study_key, specification_key,
  calculation_revision_key, dataset_key, measurement_key, in_study, count_records,
}
use torq_pro.Validation.Rules.{Actor, bind, may_become, require_role}
use torq_pro.Validation.Studies.{
  Reply, set_status, set_completed, set_approved, get_study, update_study, study_answered,
}

module _ {V : Type 0} where
  -- the loop over the datasets of the study
  unfoldable pub total_valid : List (Dataset V) → List (Measurement V) → ℕ
  unfolding count_records
  total_valid [] measurements = 0
  total_valid (d ∷ ds) measurements = count_records d.id measurements + total_valid ds measurements

module _ {M V : Type 0} where
  unfoldable pub complete_study : World (Db M V) → ℕ → Actor → Db M V → Reply M V
  unfolding get_study may_become total_valid filter update set_completed fetch
  complete_study w study_id actor db = elim (get_study study_id db) [
    | err e ↦ (err e, db)
    | ok study ↦
        if not (may_become study.status "completed")
        then (err (state_transition "cannot complete a study in this status"), db)
        else let before = w.gap 0 db in
          if ltb (total_valid (in_study study_id before.datasets) before.measurements) 1
          then (
            err (
                validation_data "study cannot be completed without at least one valid measurement"),
            before,
          )
          else study_answered study_id actor.id "validation_study_complete" (w.now 1)
              (update_study study_id (set_completed (w.now 0)) before)
  ]

  unfoldable pub submit_study : World (Db M V) → ℕ → Actor → Db M V → Reply M V
  unfolding get_study may_become update set_status fetch
  submit_study w study_id actor db = elim (get_study study_id db) [
    | err e ↦ (err e, db)
    | ok study ↦
        if not (may_become study.status "under_review")
        then (err (state_transition "cannot submit a study in this status"), db)
        else study_answered study_id actor.id "validation_study_submit" (w.now 1)
            (update_study study_id (set_status "under_review" (w.now 0)) (w.gap 0 db))
  ]

  unfoldable pub approve_study : World (Db M V) → ℕ → Actor → Db M V → Reply M V
  unfolding require_role bind get_study may_become update set_approved fetch
  approve_study w study_id actor db =
      elim ((require_role actor >> bind study_id) >> get_study study_id db) [
        | err e ↦ (err e, db)
        | ok study ↦
            if not (may_become study.status "approved")
            then (err (state_transition "cannot approve a study in this status"), db)
            else if study.created_by == actor.id
            then (err (validation_data "an approver cannot approve their own study"), db)
            else study_answered study_id actor.id "validation_study_approve" (w.now 1)
                (update_study study_id (set_approved actor.id (w.now 0)) (w.gap 0 db))
      ]

  unfoldable pub reject_study : World (Db M V) → ℕ → Actor → Db M V → Reply M V
  unfolding require_role bind get_study may_become update set_status fetch
  reject_study w study_id actor db =
      elim ((require_role actor >> bind study_id) >> get_study study_id db) [
        | err e ↦ (err e, db)
        | ok study ↦
            if not (may_become study.status "rejected")
            then (err (state_transition "cannot reject a study in this status"), db)
            else study_answered study_id actor.id "validation_study_reject" (w.now 1)
                (update_study study_id (set_status "rejected" (w.now 0)) (w.gap 0 db))
      ]

  unfoldable pub archive_study : World (Db M V) → ℕ → Actor → Db M V → Reply M V
  unfolding get_study may_become update set_status fetch
  archive_study w study_id actor db = elim (get_study study_id db) [
    | err e ↦ (err e, db)
    | ok study ↦
        if not (may_become study.status "archived")
        then (err (state_transition "cannot archive a study in this status"), db)
        else study_answered study_id actor.id "validation_study_archive" (w.now 1)
            (update_study study_id (set_status "archived" (w.now 0)) (w.gap 0 db))
  ]
