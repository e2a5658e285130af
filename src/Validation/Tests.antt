-- ===== src/Validation/Tests.antt =====
-- The theorems on production validation at the study of Samples.
use torq_pro.Prelude.{◌≡◌, refl, ℕ, none, some, All}
use torq_pro.Sqlite.{alone, fetch, is_bindable}
use torq_pro.Sqlite.Laws.{IsKeyed}
use torq_pro.Joints.Samples.{clock}
use torq_pro.Validation.Tables.{
  Study, Dataset, overflow_error, study_key, dataset_key, measurement_key, in_dataset,
}
use torq_pro.Validation.Commands.{Command, run, replay}
use torq_pro.Validation.Studies.History.{
  StudyContinues, replay-StudyContinues, IsFair, replay-IsFair,
}
use torq_pro.Validation.Measurements.Frozen.{run-frozen}
use torq_pro.Validation.Measurements.Validity.{IsConsistent}
use torq_pro.Validation.Measurements.Runs.{replay-IsConsistent}
use torq_pro.Prelude.{◌↔◌, ok}
use torq_pro.Validation.Studies.{Answer}
use torq_pro.Validation.Reviews.{complete_study}
use torq_pro.Validation.Completion.{HasValid, complete_iff}
use torq_pro.Validation.Routes.{route, lock_measurement_dataset, crashed}
use torq_pro.Validation.Samples
use torq_pro.Prelude.{Bool}
use torq_pro.Validation.Samples.{
  whole, author, empty, collection, review, collected, approved, measured,
}

empty-IsConsistent : IsConsistent empty.measurements
empty-IsConsistent = record { ids = tt; slots = tt; marked = tt; corrections = tt }

replay-IsConsistent_example : IsConsistent (replay collection empty).measurements
replay-IsConsistent_example = replay-IsConsistent collection empty empty-IsConsistent

replay-IsFair_example :
    IsKeyed (replay review collected).studies × All IsFair (replay review collected).studies
replay-IsFair_example = replay-IsFair review collected (replay-IsFair collection empty (tt, tt))

-- the one study, once it collects data
abbrev collected_study : Study
collected_study = record {
  id = 1;
  study_code = "S-1";
  name = "capability";
  description = none;
  study_type = "torque_validation";
  status = "data_collection";
  project_id = 1;
  joint_id = 1;
  joint_revision_id = 1;
  calculation_id = 5;
  calculation_revision_id = 6;
  specification_id = some 1;
  created_by = some 1;
  created_at = "2026-01-01T00:00:00+00:00";
  updated_at = some "2026-01-01T00:00:00+00:00";
  started_at = some "2026-01-01T00:00:00+00:00";
  completed_at = none;
  approved_at = none;
  approved_by = none;
  source = none;
  notes = none;
  version = 1;
}

replay-StudyContinues_example :
    (next : Study) × (fetch 1 (replay review collected).studies ≡ some next)
    × StudyContinues collected_study next
unfolding replay fetch
replay-StudyContinues_example = replay-StudyContinues review collected 1 collected_study refl

abbrev approved_study : Study
approved_study = record collected_study {
  status = "approved";
  completed_at = some "2026-01-01T00:00:00+00:00";
  approved_at = some "2026-01-01T00:00:00+00:00";
  approved_by = some 2;
}

abbrev approved_dataset : Dataset ℕ
approved_dataset = record {
  id = 1;
  validation_study_id = 1;
  dataset_code = "D-1";
  name = "line 1";
  characteristic_type = "tightening_torque";
  limits = Samples.limits;
  sampling_strategy = none;
  subgroup_size = none;
  source_type = none;
  source_filename = none;
  source_checksum = none;
  imported_at = none;
  imported_by = none;
  is_locked = Bool.false;
  version = 1;
  metadata_json = none;
}

run-frozen_example :
    in_dataset 1
      (run
        (alone clock)
        author
        (Command.create_record 1 (measured 13 none))
        approved).1.measurements
    ≡ in_dataset 1 approved.measurements
unfolding replay fetch
run-frozen_example =
    run-frozen clock author (Command.create_record 1 (measured 13 none)) approved 1 1 approved_study
      approved_dataset
      (replay-IsConsistent review collected
        (replay-IsConsistent collection empty empty-IsConsistent)).ids
      refl refl refl refl

unbindable_id :
    (route (alone clock) author (Command.lock_dataset 9223372036854775808) collected).0
    ≡ crashed overflow_error
unfolding route lock_measurement_dataset is_bindable
unbindable_id = refl

complete_iff_example :
    ((a : Answer ℕ) × ((complete_study (alone clock) 1 author collected).0 ≡ ok a)) ↔ (
      (s : Study) × (fetch 1 collected.studies ≡ some s)
      × (s.status ≡ "data_collection")
      × HasValid 1 collected.datasets collected.measurements)
complete_iff_example = complete_iff clock 1 author collected
