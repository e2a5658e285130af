-- ===== src/Validation/Studies.antt =====
-- The studies (backend/production_validation/service.py, studies, over repository.py). An operation
-- reads before it writes: what others write in between is an argument, as are the successive
-- readings of the clock.
pub mod Changes
pub mod Effects
pub mod History
use torq_pro.Prelude.{
  ℕ, ◌+◌, String, Bool, true, false, ◌&&◌, ◌||◌, not, Option, none, some, List, [], ◌∷◌, ◌++◌, map,
  HasEq, ◌==◌, string_eq, option_eq, nat_eq, eqb, ltb, filter, find, if◌then◌else◌, Result, ok, err,
  ◌>>=◌, ◌>>◌, guard,
}
use torq_pro.Sqlite.{World, next_id, fetch, update}
use torq_pro.Joints.Tables
use torq_pro.Joints.Tables.{Detail, has_id, is_some, joint_key, revision_key}
use torq_pro.Validation.Tables.{
  Db, Study, CalculationRevision, Limits, Origin, Specification, Dataset, Measurement,
  ValidationError, not_found, conflict, validation_data, locked, state_transition, integrity_error,
  study_key, specification_key, calculation_revision_key, in_study, count_records,
  fetch_study_by_code,
}
use torq_pro.Validation.Rules.{
  Outside, Actor, may_become, require_role, validate_study_type, validate_spec_limits,
  validate_unit_present,
}

-- What an operation returns: the row, or None where it is gone.
pub data Answer (V : Type 0) : Type 0 where
  study : Option Study → Answer V
  dataset : Option (Dataset V) → Answer V
  measurement : Option (Measurement V) → Answer V

abbrev pub Reply : Type 0 → Type 0 → Type 0
Reply M V = Result ValidationError (Answer V) × Db M V

-- `ValidationStudyCreate`
pub record StudyCreate (V : Type 0) : Type 0 where
  pub study_code : String
  pub name : String
  pub description : Option String
  pub study_type : String
  pub project_id : ℕ
  pub joint_id : ℕ
  pub joint_revision_id : ℕ
  pub calculation_id : ℕ
  pub calculation_revision_id : ℕ
  pub source : Option String
  pub notes : Option String
  pub limits : Limits V
  pub origin : Origin

-- `ValidationStudyPatch`: of each field, whether it is set, and to what.
pub record StudyPatch : Type 0 where
  pub name : Option (Option String)
  pub description : Option (Option String)
  pub notes : Option (Option String)
  pub source : Option (Option String)

unfoldable pub new_study : {V : Type 0} → StudyCreate V → Actor → String → ℕ → Study
new_study p actor ts id = record {
  id = id;
  study_code = p.study_code;
  name = p.name;
  description = p.description;
  study_type = p.study_type;
  status = "draft";
  project_id = p.project_id;
  joint_id = p.joint_id;
  joint_revision_id = p.joint_revision_id;
  calculation_id = p.calculation_id;
  calculation_revision_id = p.calculation_revision_id;
  specification_id = none;
  created_by = actor.id;
  created_at = ts;
  updated_at = some ts;
  started_at = none;
  completed_at = none;
  approved_at = none;
  approved_by = none;
  source = p.source;
  notes = p.notes;
  version = 1;
}

-- `SET status=?,updated_at=?`
unfoldable pub set_status : String → String → Study → Study
set_status status ts row = record row { status = status; updated_at = some ts }

unfoldable pub set_completed : String → Study → Study
set_completed ts row = record row {
  status = "completed";
  completed_at = some ts;
  updated_at = some ts;
}

unfoldable pub set_approved : Option ℕ → String → Study → Study
set_approved actor_id ts row = record row {
  status = "approved";
  approved_at = some ts;
  approved_by = actor_id;
  updated_at = some ts;
}

unfoldable pub set_specification : ℕ → Study → Study
set_specification specification_id row = record row { specification_id = some specification_id }

abbrev pub patched {ℓ} : {A : Type ℓ} → Option A → A → A
patched none old = old
patched (some new) old = new

-- `SET {sets},updated_at=?`; a name that is set to null violates NOT NULL.
unfoldable pub set_fields : StudyPatch → Option String → String → Study → Study
set_fields p name ts row = record row {
  name = patched name row.name;
  description = patched p.description row.description;
  notes = patched p.notes row.notes;
  source = patched p.source row.source;
  updated_at = some ts;
}

-- `not fields`
abbrev pub is_empty_patch : StudyPatch → Bool
is_empty_patch p =
    not (is_some p.name || is_some p.description || is_some p.notes || is_some p.source)

module _ {M V : Type 0} where
  unfoldable pub get_study : ℕ → Db M V → Result ValidationError Study
  unfolding fetch
  get_study study_id db = elim (fetch study_id db.studies) [
    | none ↦ err (not_found "validation_study")
    | some row ↦ ok row
  ]

  -- `list_studies`, by descending id
  unfoldable pub list_studies : Option ℕ → Option String → Db M V → List Study
  unfolding filter
  list_studies project_id status db = reversed (
      filter (λ s. matches_filter status s.status)
        (filter (λ s. matches_filter project_id s.project_id) db.studies))
    where
      matches_filter : {A : Type 0} → ⦃e : HasEq A⦄ → Option A → A → Bool
      matches_filter none v = true
      matches_filter (some w) v = v == w

      reversed : List Study → List Study
      reversed [] = []
      reversed (x ∷ xs) = reversed xs ++ x ∷ []

  -- `audit` (backend/app.py)
  abbrev pub audit : Option ℕ → String → Detail → String → Db M V → Db M V
  audit user_id action detail ts db = record db {
    joint_tables = Tables.audit user_id action detail ts db.joint_tables;
  }

  abbrev pub update_study : ℕ → (Study → Study) → Db M V → Db M V
  update_study study_id f db = record db { studies = update study_id f db.studies }

  -- the end of an operation on a study
  abbrev pub study_answered : ℕ → Option ℕ → String → String → Db M V → Reply M V
  study_answered study_id actor_id action ts db = (
    ok (Answer.study (fetch study_id db.studies)),
    audit actor_id action (Detail.row_id study_id) ts db,
  )
