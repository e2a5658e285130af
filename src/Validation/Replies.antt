-- ===== src/Validation/Replies.antt =====
-- The replies of the routes of production validation
-- (backend/api/routes/production_validation.py over backend/production_validation/service.py).
use torq_pro.Prelude.{◌≡◌, ℕ, Bool, true, false, string_eq, option_eq, nat_eq, Option, none, some}
use torq_pro.Validation.Tables.{study_key, dataset_key, measurement_key}
use torq_pro.Validation.Rules.{is_bindable_size}
use torq_pro.Validation.Datasets.{patched_size}
use torq_pro.Validation.Commands.{Command}
use torq_pro.Validation.Caught.{is_null}
use torq_pro.Validation.Inserted.{HasBindable, is_bindable_id}
use torq_pro.Validation.Routes.{Response, value, refused}

module _ {V : Type 0} where
  -- No patch of the call sets a name to null.
  abbrev pub HasNoNull : Command V → Type 0
  HasNoNull (Command.patch_study id p) = is_null p.name ≡ false
  HasNoNull (Command.patch_dataset id p) = is_null p.name ≡ false
  HasNoNull _ = Unit

abbrev pub crashes : {A : Type 0} → Response A → Bool
crashes (value a) = false
crashes (refused code e) = false
crashes _ = true

module _ {V : Type 0} where
  -- The id of the path; a new study has none.
  abbrev pub path_id : Command V → Option ℕ
  path_id (Command.create_study p) = none
  path_id (Command.patch_study id p) = some id
  path_id (Command.complete_study id) = some id
  path_id (Command.submit_study id) = some id
  path_id (Command.approve_study id) = some id
  path_id (Command.reject_study id) = some id
  path_id (Command.archive_study id) = some id
  path_id (Command.create_dataset id p) = some id
  path_id (Command.patch_dataset id p) = some id
  path_id (Command.lock_dataset id) = some id
  path_id (Command.create_record id p) = some id
  path_id (Command.invalidate_record id reason) = some id

  -- sqlite3 can bind the integers of the body.
  abbrev pub HasBindableBody : Command V → Type 0
  HasBindableBody (Command.create_study p) = HasBindable p
  HasBindableBody (Command.create_dataset id p) = is_bindable_size p.subgroup_size ≡ true
  HasBindableBody (Command.patch_dataset id p) =
      is_bindable_size (patched_size p.subgroup_size) ≡ true
  HasBindableBody (Command.create_record id p) = is_bindable_id p.correction_of_id ≡ true
  HasBindableBody _ = Unit
