-- ===== src/Governance/ReadTests.antt =====
-- The read routes at the samples, and runs of them.
use torq_pro.Prelude.{◌≡◌, refl, String, none, some, List, [], ◌∷◌, ◌++◌, length}
use torq_pro.Governance.Enums.{LifecycleGroup}
use torq_pro.Governance.Events.{Event}
use torq_pro.Governance.File.Refines.{file_store}
use torq_pro.Governance.Api.{run_command}
use torq_pro.Governance.Api.Reads.{
  View, shown, Latest, of_group, governance_status, governance_history, get_governance_store,
}
use torq_pro.Governance.Api.Views.{recorded_is_shown}
use torq_pro.Governance.Samples.{json_text, approve, submitted, approved, disk_of, run_file}

unknown_aggregate :
    governance_status file_store "A2" "formula" (disk_of (submitted ∷ [])) ≡ View.refused 404
unfolding governance_status run_file
unknown_aggregate = refl

unconfigured_store :
    get_governance_store (some " ") (governance_history file_store "A1" "formula" (disk_of []))
    ≡ View.refused 503
unfolding get_governance_store
unconfigured_store = refl

-- The status route asks for an event of the type, and then shows the latest of any type.
other_type_shown :
    governance_status file_store "A1" "formula"
      (disk_of (submitted ∷ record approved { aggregate_type = "material" } ∷ []))
    ≡ shown (record {
      review = some (record approved { aggregate_type = "material" });
      publication = none;
      resolution = none;
    })
unfolding governance_status run_file
other_type_shown = refl

recorded_is_shown_example :
    (v : Latest String) × (earlier : List (Event String)) × (governance_status file_store "A1"
        "formula"
        (run_command file_store approve "u2" (disk_of (submitted ∷ []))).1
      ≡ shown v)
    × (of_group LifecycleGroup.review v ≡ some approved)
    × (governance_history file_store "A1" "formula"
          (run_command file_store approve "u2" (disk_of (submitted ∷ []))).1
        ≡ shown (record {
          events = earlier ++ approved ∷ [];
          total_events = length (earlier ++ approved ∷ []);
        }))
unfolding run_file run_command
recorded_is_shown_example =
    recorded_is_shown file_store approve "u2" (disk_of (submitted ∷ [])) (submitted ∷ []) approved
      refl refl
