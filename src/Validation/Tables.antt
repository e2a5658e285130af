-- ===== src/Validation/Tables.antt =====
-- The tables of production validation (backend/production_validation/repository.py) beside those of
-- the joints, and the module's exceptions (exceptions.py).
use torq_pro.Prelude.{
  ℕ, ℤ, ◌+◌, String, Bool, ◌&&◌, Option, List, [], ◌∷◌, ◌==◌, string_eq, option_eq, eqb, find,
  filter, if◌then◌else◌,
}
use torq_pro.Sqlite.{HasKey, max_of}
use torq_pro.Joints.Tables

-- `validation_studies`
pub record Study : Type 0 where
  pub id : ℕ
  pub study_code : String
  pub name : String
  pub description : Option String
  pub study_type : String
  pub status : String
  pub project_id : ℕ
  pub joint_id : ℕ
  pub joint_revision_id : ℕ
  pub calculation_id : ℕ
  pub calculation_revision_id : ℕ
  pub specification_id : Option ℕ
  pub created_by : Option ℕ
  pub created_at : String
  pub updated_at : Option String
  pub started_at : Option String
  pub completed_at : Option String
  pub approved_at : Option String
  pub approved_by : Option ℕ
  pub source : Option String
  pub notes : Option String
  pub version : ℕ

-- `calculation_revisions`, as far as the module reads it
pub record CalculationRevision : Type 0 where
  pub id : ℕ
  pub calculation_id : ℕ

-- `tool_references`, as far as the module reads it
pub record Tool : Type 0 where
  pub id : ℕ
  pub tool_code : String

-- The columns of a specification that a study and a dataset share; `V` is the type of the floats.
pub record Limits (V : Type 0) : Type 0 where
  pub characteristic_name : String
  pub unit : String
  pub nominal_value : Option V
  pub lower_spec_limit : V
  pub upper_spec_limit : V
  pub target_value : Option V

-- What a specification says of its origin.
pub record Origin : Type 0 where
  pub source_standard : Option String
  pub source_document : Option String
  pub source_revision : Option String
  pub rule_pack_version : Option String

-- `specification_snapshots`
pub record Specification (V : Type 0) : Type 0 where
  pub id : ℕ
  pub validation_study_id : ℕ
  pub limits : Limits V
  pub origin : Origin
  pub calculation_snapshot_id : ℕ
  pub created_at : String
  pub snapshot_hash : String

-- `measurement_datasets`
pub record Dataset (V : Type 0) : Type 0 where
  pub id : ℕ
  pub validation_study_id : ℕ
  pub dataset_code : String
  pub name : String
  pub characteristic_type : String
  pub limits : Limits V
  pub sampling_strategy : Option String
  pub subgroup_size : Option ℤ
  pub source_type : Option String
  pub source_filename : Option String
  pub source_checksum : Option String
  pub imported_at : Option String
  pub imported_by : Option ℕ
  pub is_locked : Bool
  pub version : ℕ
  pub metadata_json : Option String

-- What a measurement says of where and how it was taken.
pub record Circumstances (V : Type 0) : Type 0 where
  pub subgroup_id : Option String
  pub measured_at : Option String
  pub production_date : Option String
  pub shift : Option String
  pub batch_number : Option String
  pub lot_number : Option String
  pub serial_number : Option String
  pub part_number : Option String
  pub station : Option String
  pub line : Option String
  pub machine : Option String
  pub operator_reference : Option String
  pub environment_temperature : Option V
  pub environment_humidity : Option V
  pub comment : Option String

-- A text of `invalid_reason` before it is formatted: as given, or `superseded by correction record N`.
pub data Reason : Type 0 where
  given : String → Reason
  superseded_by : ℕ → Reason

-- `measurement_records`
pub record Measurement (V : Type 0) : Type 0 where
  pub id : ℕ
  pub dataset_id : ℕ
  pub sequence_number : ℕ
  pub sample_id : String
  pub measured_value : V
  pub circumstances : Circumstances V
  pub tool_id : Option ℕ
  pub measurement_device_id : Option ℕ
  pub is_valid : Bool
  pub invalid_reason : Option Reason
  pub correction_of_id : Option ℕ
  pub created_at : String

pub data ValidationError : Type 0 where
  not_found : String → ValidationError
  conflict : String → ValidationError
  validation_data : String → ValidationError
  locked : String → ValidationError
  state_transition : String → ValidationError
  -- `sqlite3.IntegrityError`, which the module does not catch
  integrity_error : ValidationError
  -- the TypeError of `dict(None)`
  type_error : ValidationError
  -- the OverflowError of sqlite3 on an integer of 2^63 or more
  overflow_error : ValidationError

instance abbrev pub study_key : HasKey Study
study_key = record { key = λ r. r.id }

instance abbrev pub calculation_revision_key : HasKey CalculationRevision
calculation_revision_key = record { key = λ r. r.id }

instance abbrev pub specification_key : {V : Type 0} → HasKey (Specification V)
specification_key = record { key = λ r. r.id }

instance abbrev pub dataset_key : {V : Type 0} → HasKey (Dataset V)
dataset_key = record { key = λ r. r.id }

instance abbrev pub measurement_key : {V : Type 0} → HasKey (Measurement V)
measurement_key = record { key = λ r. r.id }

-- The whole database; `joint_tables` holds the projects, the joints and the audit log. Its integers
-- are 64-bit in SQLite. An integer of a body that sqlite3 cannot bind is refused where a statement
-- is to bind it; the ids of paths stand in the first statement, and the routes test them.
pub record Db (M V : Type 0) : Type 0 where
  pub joint_tables : Tables.Db M
  pub calculations : List ℕ
  pub calculation_revisions : List CalculationRevision
  pub tools : List Tool
  pub studies : List Study
  pub specifications : List (Specification V)
  pub datasets : List (Dataset V)
  pub measurements : List (Measurement V)

module _ {V : Type 0} where
  abbrev pub in_study : ℕ → List (Dataset V) → List (Dataset V)
  in_study study_id rows = filter (λ d. eqb d.validation_study_id study_id) rows

  abbrev pub in_dataset : ℕ → List (Measurement V) → List (Measurement V)
  in_dataset dataset_id rows = filter (λ m. eqb m.dataset_id dataset_id) rows

  -- `next_sequence_number`
  unfoldable pub next_sequence_number : ℕ → List (Measurement V) → ℕ
  unfolding max_of filter
  next_sequence_number dataset_id rows =
      max_of (λ m. m.sequence_number) (in_dataset dataset_id rows) + 1

  -- `fetch_dataset_by_code`
  unfoldable pub fetch_dataset_by_code : ℕ → String → List (Dataset V) → Option (Dataset V)
  unfolding find
  fetch_dataset_by_code study_id dataset_code rows =
      find (λ d. eqb d.validation_study_id study_id && (d.dataset_code == dataset_code)) rows

  abbrev pub count_valid : List (Measurement V) → ℕ
  count_valid [] = 0
  count_valid (m ∷ ms) = let rest = count_valid ms in if m.is_valid then rest + 1 else rest

  -- `count_records`, whose second value this is
  unfoldable pub count_records : ℕ → List (Measurement V) → ℕ
  unfolding filter
  count_records dataset_id rows = count_valid (in_dataset dataset_id rows)

-- `fetch_study_by_code`
unfoldable pub fetch_study_by_code : String → List Study → Option Study
unfolding find
fetch_study_by_code study_code rows = find (λ s. s.study_code == study_code) rows
