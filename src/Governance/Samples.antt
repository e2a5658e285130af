-- ===== src/Governance/Samples.antt =====
-- Sample requests and stores for the tests.
use torq_pro.Prelude.{String, none, some, List, [], ◌∷◌, string_eq, Bool, false, blank}
use torq_pro.Governance.Enums.{LifecycleGroup}
use torq_pro.Governance.Events.{Metadata, Event}
use torq_pro.Governance.File
use torq_pro.Governance.File.{Stored, Content, WriteEnd, Disk}
use torq_pro.Governance.File.Refines.{file_store}
use torq_pro.Governance.Errors.{Outcome}
use torq_pro.Governance.Timestamps.{is_valid_utc_iso8601}
use torq_pro.Governance.Commands.{Arguments}
use torq_pro.Governance.Api.{
  Command, run_command, run, submit_review, approve_review, reject_review, resolve_resolution,
  waive_resolution,
}

-- Metadata as its JSON text.
instance abbrev pub json_text : Metadata String
json_text = record { same = string_eq; empty = "{}" }

abbrev pub sample_arguments : String → String → String → String → Arguments String
sample_arguments aggregate type decision key = record {
  aggregate_id = aggregate;
  aggregate_type = type;
  decision_id = decision;
  idempotency_key = key;
  occurred_at = "2026-01-05T08:30:00Z";
  metadata = none;
  event_id = none;
}

abbrev pub submit : Command String
submit = submit_review (sample_arguments "A1" "formula" "D1" "K1") "ayse" (some "first issue")

abbrev pub approve : Command String
approve = approve_review (sample_arguments "A1" "formula" "D2" "K2") "mehmet" none

abbrev pub reject : Command String
reject = reject_review (sample_arguments "A1" "formula" "D3" "K3") "mehmet" (some "wrong unit")

abbrev pub submitted : Event String
submitted = record {
  event_id = "u1";
  aggregate_id = "A1";
  aggregate_type = "formula";
  lifecycle_group = LifecycleGroup.review;
  previous_status = "draft";
  new_status = "under_review";
  decision_id = "D1";
  idempotency_key = "K1";
  actor = some "ayse";
  occurred_at = "2026-01-05T08:30:00Z";
  review_comment = none;
  change_reason = some "first issue";
  revision_no = none;
  supersedes_id = none;
  superseded_by_id = none;
  metadata = "{}";
}

abbrev pub approved : Event String
approved = record {
  event_id = "u2";
  aggregate_id = "A1";
  aggregate_type = "formula";
  lifecycle_group = LifecycleGroup.review;
  previous_status = "under_review";
  new_status = "approved";
  decision_id = "D2";
  idempotency_key = "K2";
  actor = some "mehmet";
  occurred_at = "2026-01-05T08:30:00Z";
  review_comment = none;
  change_reason = none;
  revision_no = none;
  supersedes_id = none;
  superseded_by_id = none;
  metadata = "{}";
}

abbrev pub rejected : Event String
rejected = record {
  event_id = "u3";
  aggregate_id = "A1";
  aggregate_type = "formula";
  lifecycle_group = LifecycleGroup.review;
  previous_status = "under_review";
  new_status = "rejected";
  decision_id = "D3";
  idempotency_key = "K3";
  actor = some "mehmet";
  occurred_at = "2026-01-05T08:30:00Z";
  review_comment = some "wrong unit";
  change_reason = none;
  revision_no = none;
  supersedes_id = none;
  superseded_by_id = none;
  metadata = "{}";
}

-- A waiver of a washer resolution, under a type that nobody owns.
abbrev pub stray : Command String
stray = waive_resolution (sample_arguments "W7" "note" "D8" "K8") "guest" none

-- The decision of the washer workflow on the same resolution.
abbrev pub owned : Command String
owned = resolve_resolution (sample_arguments "W7" "washer_resolution" "D9" "K9") "washer" none

abbrev pub waived : Event String
waived = record {
  event_id = "u8";
  aggregate_id = "W7";
  aggregate_type = "note";
  lifecycle_group = LifecycleGroup.resolution;
  previous_status = "open";
  new_status = "waived";
  decision_id = "D8";
  idempotency_key = "K8";
  actor = some "guest";
  occurred_at = "2026-01-05T08:30:00Z";
  review_comment = none;
  change_reason = none;
  revision_no = none;
  supersedes_id = none;
  superseded_by_id = none;
  metadata = "{}";
}

abbrev pub disk_of : List (Event String) → Disk String
disk_of events = record { content = Content.payload (stored events); locks = []; write_ends = [] }
  where
    stored : List (Event String) → List (Stored String)
    stored [] = []
    stored (e ∷ es) = Stored.object e ∷ stored es

abbrev pub no_file : Disk String
no_file = record { content = Content.missing; locks = []; write_ends = [] }

-- A submitted review in a file whose lock cannot be opened once.
abbrev pub unlockable : Disk String
unlockable = record (disk_of (submitted ∷ [])) { locks = false ∷ [] }

-- A command on a file; to unfold this is to unfold all that such a run computes with.
unfoldable pub run_file :
    Command String → String → Disk String → Outcome (Event String × Bool) × Disk String
unfolding run run_command File.append File.all_events File.events_for_aggregate
    File.find_by_decision_id File.find_by_idempotency_key is_valid_utc_iso8601 blank
run_file = run file_store
