-- ===== src/Validation/Creation.antt =====
-- The creation and the patch of a study (`create_study` and `patch_study` of
-- backend/production_validation/service.py).
use torq_pro.Prelude.{
  ℕ, String, ◌&&◌, not, Option, none, some, [], ◌∷◌, ◌++◌, ◌==◌, string_eq, option_eq, nat_eq, eqb,
  if◌then◌else◌, Result, ok, err, ◌>>◌, guard,
}
use torq_pro.Sqlite.{World, next_id, fetch, update}
use torq_pro.Joints.Tables
use torq_pro.Joints.Tables.{Detail, has_id, is_some, joint_key, revision_key}
use torq_pro.Validation.Tables.{
  Db, Study, CalculationRevision, Specification, ValidationError, not_found, conflict,
  validation_data, locked, integrity_error, study_key, specification_key, calculation_revision_key,
  dataset_key, measurement_key, fetch_study_by_code,
}
use torq_pro.Validation.Rules.{
  Outside, Actor, bind, validate_study_type, validate_spec_limits, validate_unit_present,
}
use torq_pro.Validation.Studies.{
  Answer, Reply, StudyCreate, StudyPatch, new_study, set_specification, set_fields, is_empty_patch,
  get_study, audit, update_study, study_answered,
}

module _ {V : Type 0} where
  unfoldable pub check_joint :
      StudyCreate V → Option Tables.Joint → Result ValidationError (Unit {0})
  check_joint p none = err (not_found "joint")
  check_joint p (some joint) =
      guard (eqb joint.project_id p.project_id)
        (validation_data "joint.project_id must equal validation_study.project_id")

  unfoldable pub check_calculation :
      StudyCreate V → Option CalculationRevision → Result ValidationError (Unit {0})
  check_calculation p none = err (not_found "calculation_revision")
  check_calculation p (some revision) = guard (eqb revision.calculation_id p.calculation_id) (
      validation_data
        "calculation_revision.calculation_id must equal validation_study.calculation_id")

module _ {M V : Type 0} where
  unfoldable pub check_revision :
      StudyCreate V → Option (Tables.Revision M) → Result ValidationError (Unit {0})
  check_revision p none = err (not_found "joint_revision")
  check_revision p (some revision) =
      guard (eqb revision.joint_id p.joint_id)
        (validation_data "joint_revision.joint_id must equal validation_study.joint_id")

  -- The rows that a study refers to, as `create_study` reads them.
  unfoldable pub check_references : StudyCreate V → Db M V → Result ValidationError (Unit {0})
  unfolding fetch check_joint check_revision check_calculation bind
  check_references p db = do
    bind p.project_id
    guard (has_id p.project_id db.joint_tables.projects) (not_found "project")
    bind p.joint_id
    check_joint p (fetch p.joint_id db.joint_tables.joints)
    bind p.joint_revision_id
    check_revision p (fetch p.joint_revision_id db.joint_tables.revisions)
    bind p.calculation_id
    guard (has_id p.calculation_id db.calculations) (not_found "calculation")
    bind p.calculation_revision_id
    check_calculation p (fetch p.calculation_revision_id db.calculation_revisions)

  -- `INSERT INTO validation_studies` with its foreign keys; `none` is an IntegrityError.
  unfoldable pub insert_study : (ℕ → Study) → Db M V → Option (Study × Db M V)
  unfolding next_id fetch fetch_study_by_code
  insert_study build db =
      let row = build (next_id db.studies) in
      if has_id row.project_id db.joint_tables.projects
        && (is_some (fetch row.joint_id db.joint_tables.joints)
            && (is_some (fetch row.joint_revision_id db.joint_tables.revisions)
                && (has_id row.calculation_id db.calculations
                    && (is_some (fetch row.calculation_revision_id db.calculation_revisions)
                        && not (is_some (fetch_study_by_code row.study_code db.studies))))))
      then some (row, record db { studies = db.studies ++ row ∷ [] })
      else none

module _ {V : Type 0} ⦃outside : Outside V⦄ where
  unfoldable pub new_specification : StudyCreate V → ℕ → String → ℕ → Specification V
  new_specification p study_id ts id = record {
    id = id;
    validation_study_id = study_id;
    limits = p.limits;
    origin = p.origin;
    calculation_snapshot_id = p.calculation_revision_id;
    created_at = ts;
    snapshot_hash = outside.snapshot_hash study_id p.limits p.origin p.calculation_revision_id;
  }

  unfoldable pub validate_study : StudyCreate V → Result ValidationError (Unit {0})
  unfolding validate_study_type validate_spec_limits validate_unit_present
  validate_study p = do
    validate_study_type p.study_type
    validate_spec_limits p.limits.lower_spec_limit p.limits.upper_spec_limit p.limits.target_value
    validate_unit_present p.limits.unit

module _ {M V : Type 0} ⦃outside : Outside V⦄ where
  -- The specification of the study just inserted, in the same transaction.
  unfoldable pub with_specification : StudyCreate V → String → Study × Db M V → Study × Db M V
  unfolding new_specification next_id update set_specification
  with_specification p ts (row, db) =
      let specification = new_specification p row.id ts (next_id db.specifications) in
      (
        set_specification specification.id row,
        update_study row.id (set_specification specification.id)
            (record db { specifications = db.specifications ++ specification ∷ [] }),
      )

  -- All that precedes the insert.
  unfoldable pub accept_study : StudyCreate V → Db M V → Result ValidationError (Unit {0})
  unfolding validate_study check_references fetch_study_by_code
  accept_study p db = do
    validate_study p
    check_references p db
    guard (not (is_some (fetch_study_by_code p.study_code db.studies)))
        (conflict "study_code already exists")

  unfoldable pub study_inserted :
      World (Db M V) → StudyCreate V → Actor → Option (Study × Db M V) → Db M V → Reply M V
  unfolding with_specification fetch
  study_inserted w p actor none db = (err integrity_error, db)
  study_inserted w p actor (some inserted) db =
      let (row, after) = with_specification p (w.now 0) inserted in
      (
        ok (Answer.study (fetch row.id after.studies)),
        audit actor.id "validation_study_create" (Detail.code p.study_code) (w.now 1) after,
      )

  unfoldable pub create_study : World (Db M V) → StudyCreate V → Actor → Db M V → Reply M V
  unfolding accept_study insert_study new_study study_inserted
  create_study w p actor db = elim (accept_study p db) [
    | err e ↦ (err e, db)
    | ok _ ↦
        let before = w.gap 0 db in
        study_inserted w p actor (insert_study (new_study p actor (w.now 0)) before) before
  ]

module _ {M V : Type 0} where
  -- `name=NULL` is refused by the table.
  unfoldable pub fields_written :
      World (Db M V) → ℕ → StudyPatch → Actor → Option (Option String) → Db M V → Reply M V
  unfolding update set_fields fetch
  fields_written w study_id p actor (some none) db =
      if is_some (fetch study_id db.studies)
      then (err integrity_error, db)
      else study_answered study_id actor.id "validation_study_patch" (w.now 1) db
  fields_written w study_id p actor none db =
      study_answered study_id actor.id "validation_study_patch" (w.now 1)
        (update_study study_id (set_fields p none (w.now 0)) db)
  fields_written w study_id p actor (some (some name)) db =
      study_answered study_id actor.id "validation_study_patch" (w.now 1)
        (update_study study_id (set_fields p (some name) (w.now 0)) db)

  unfoldable pub patch_study : World (Db M V) → ℕ → StudyPatch → Actor → Db M V → Reply M V
  unfolding get_study fields_written
  patch_study w study_id p actor db = elim (get_study study_id db) [
    | err e ↦ (err e, db)
    | ok study ↦
        if study.status == "approved"
        then (err (locked "an approved validation study cannot be modified"), db)
        else if is_empty_patch p
        then (ok (Answer.study (some study)), db)
        else fields_written w study_id p actor p.name (w.gap 0 db)
  ]
