-- ===== src/Validation/Commands.antt =====
-- The operations of production validation that write, as a type of commands
-- (backend/production_validation/service.py). `import_csv_records` is not among them.
use torq_pro.Prelude.{ℕ, String, List, [], ◌∷◌}
use torq_pro.Sqlite.{World, alone}
use torq_pro.Validation.Tables.{Db}
use torq_pro.Validation.Rules.{Outside, Actor}
use torq_pro.Validation.Studies.{Reply, StudyCreate, StudyPatch}
use torq_pro.Validation.Creation
use torq_pro.Validation.Reviews
use torq_pro.Validation.Datasets
use torq_pro.Validation.Datasets.{DatasetCreate, DatasetPatch}
use torq_pro.Validation.Measurements
use torq_pro.Validation.Measurements.{MeasurementCreate}

pub data Command (V : Type 0) : Type 0 where
  create_study : StudyCreate V → Command V
  patch_study : ℕ → StudyPatch → Command V
  complete_study submit_study approve_study reject_study archive_study : ℕ → Command V
  create_dataset : ℕ → DatasetCreate V → Command V
  patch_dataset : ℕ → DatasetPatch → Command V
  lock_dataset : ℕ → Command V
  create_record : ℕ → MeasurementCreate V → Command V
  invalidate_record : ℕ → String → Command V

module _ {M V : Type 0} ⦃outside : Outside V⦄ where
  unfoldable pub run : World (Db M V) → Actor → Command V → Db M V → Reply M V
  unfolding Creation.create_study Creation.patch_study Reviews.complete_study Reviews.submit_study
      Reviews.approve_study Reviews.reject_study Reviews.archive_study Datasets.create_dataset
      Datasets.patch_dataset Datasets.lock_dataset Measurements.create_record
      Measurements.invalidate_record
  run w actor (create_study p) db = Creation.create_study w p actor db
  run w actor (patch_study id p) db = Creation.patch_study w id p actor db
  run w actor (complete_study id) db = Reviews.complete_study w id actor db
  run w actor (submit_study id) db = Reviews.submit_study w id actor db
  run w actor (approve_study id) db = Reviews.approve_study w id actor db
  run w actor (reject_study id) db = Reviews.reject_study w id actor db
  run w actor (archive_study id) db = Reviews.archive_study w id actor db
  run w actor (create_dataset id p) db = Datasets.create_dataset w id p actor db
  run w actor (patch_dataset id p) db = Datasets.patch_dataset w id p actor db
  run w actor (lock_dataset id) db = Datasets.lock_dataset w id actor db
  run w actor (create_record id p) db = Measurements.create_record w id p actor db
  run w actor (invalidate_record id reason) db = Measurements.invalidate_record w id reason actor db

  -- Calls one after the other, each by a user and with its own readings of the clock.
  unfoldable pub replay : List ((ℕ → String) × Actor × Command V) → Db M V → Db M V
  unfolding run
  replay [] db = db
  replay ((now, actor, c) ∷ cs) db = replay cs (run (alone now) actor c db).1
