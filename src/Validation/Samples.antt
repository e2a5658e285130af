-- ===== src/Validation/Samples.antt =====
-- A study of the joint of Joints/Samples, and runs of production validation on it.
use torq_pro.Prelude.{
  ◌≡◌, refl, ℕ, String, Bool, true, ltb, leb, none, some, List, [], ◌∷◌, map, Option, err,
}
use torq_pro.Governance.Samples.{json_text}
use torq_pro.Sqlite.{alone}
use torq_pro.Joints.Samples.{clock, with_revision}
use torq_pro.Validation.Tables.{Db, Limits, integrity_error}
use torq_pro.Validation.Rules.{Outside, Actor}
use torq_pro.Validation.Studies.{StudyCreate}
use torq_pro.Validation.Datasets.{DatasetCreate}
use torq_pro.Validation.Measurements.{MeasurementCreate}
use torq_pro.Validation.Commands.{Command, run, replay}

-- Floats that are whole numbers.
instance abbrev pub whole : Outside ℕ
whole = record {
  less = ltb;
  at_most = leb;
  is_finite = λ v. true;
  snapshot_hash = λ study_id limits origin calculation. "hash";
}

abbrev pub author : Actor
author = record { id = some 1; role = some "engineer" }

abbrev pub reviewer : Actor
reviewer = record { id = some 2; role = some "admin" }

abbrev pub empty : Db String ℕ
empty = record {
  joint_tables = with_revision;
  calculations = 5 ∷ [];
  calculation_revisions = record { id = 6; calculation_id = 5 } ∷ [];
  tools = [];
  studies = [];
  specifications = [];
  datasets = [];
  measurements = [];
}

abbrev pub limits : Limits ℕ
limits = record {
  characteristic_name = "torque";
  unit = "Nm";
  nominal_value = some 12;
  lower_spec_limit = 10;
  upper_spec_limit = 14;
  target_value = some 12;
}

abbrev pub study_request : StudyCreate ℕ
study_request = record {
  study_code = "S-1";
  name = "capability";
  description = none;
  study_type = "torque_validation";
  project_id = 1;
  joint_id = 1;
  joint_revision_id = 1;
  calculation_id = 5;
  calculation_revision_id = 6;
  source = none;
  notes = none;
  limits = limits;
  origin = record {
    source_standard = none;
    source_document = none;
    source_revision = none;
    rule_pack_version = none;
  };
}

abbrev pub dataset_request : DatasetCreate ℕ
dataset_request = record {
  dataset_code = "D-1";
  name = "line 1";
  characteristic_type = "tightening_torque";
  limits = limits;
  sampling_strategy = none;
  subgroup_size = none;
  metadata_json = none;
}

abbrev pub measured : ℕ → Option ℕ → MeasurementCreate ℕ
measured value correction_of_id = record {
  sample_id = "P-1";
  measured_value = value;
  circumstances = record {
    subgroup_id = none;
    measured_at = none;
    production_date = none;
    shift = none;
    batch_number = none;
    lot_number = none;
    serial_number = none;
    part_number = none;
    station = none;
    line = none;
    machine = none;
    operator_reference = none;
    environment_temperature = none;
    environment_humidity = none;
    comment = none;
  };
  tool_code = none;
  measurement_device_code = none;
  correction_of_id = correction_of_id;
}

abbrev pub collection : List ((ℕ → String) × Actor × Command ℕ)
collection =
    (clock, author, Command.create_study study_request)
    ∷ (clock, author, Command.create_dataset 1 dataset_request)
    ∷ (clock, author, Command.create_record 1 (measured 120 none))
    ∷ (clock, author, Command.create_record 1 (measured 12 (some 1)))
    ∷ []

abbrev pub review : List ((ℕ → String) × Actor × Command ℕ)
review =
    (clock, author, Command.complete_study 1)
    ∷ (clock, author, Command.submit_study 1)
    ∷ (clock, author, Command.approve_study 1)
    ∷ (clock, reviewer, Command.approve_study 1)
    ∷ []

abbrev pub collected : Db String ℕ
collected = replay collection empty

abbrev pub approved : Db String ℕ
approved = replay review collected

abbrev pub view : Db String ℕ → List String × List (ℕ × Bool)
view db =
    (map (λ s. s.status) db.studies, map (λ m. (m.sequence_number, m.is_valid)) db.measurements)

collected_runs : view collected ≡ ("data_collection" ∷ [], (1, Bool.false) ∷ (2, true) ∷ [])
unfolding replay
collected_runs = refl

approved_runs : view approved ≡ ("approved" ∷ [], (1, Bool.false) ∷ (2, true) ∷ [])
unfolding replay
approved_runs = refl

-- Once an approved study is archived, its measurements can be changed again.
archived_edited_runs :
    view (
      replay
        ((clock, author, Command.archive_study 1)
          ∷ (clock, author, Command.create_record 1 (measured 13 none))
          ∷ (clock, author, Command.invalidate_record 2 "wrong")
          ∷ [])
        approved)
    ≡ ("archived" ∷ [], (1, Bool.false) ∷ (2, Bool.false) ∷ (3, true) ∷ [])
unfolding replay
archived_edited_runs = refl

-- A patch that sets the name to null.
null_name_runs :
    (run
      (alone clock)
      author
      (Command.patch_study 1
        (record { name = some none; description = none; notes = none; source = none }))
      collected).0
    ≡ err integrity_error
unfolding run replay
null_name_runs = refl
