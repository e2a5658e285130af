-- ===== src/Governance/Tests.antt =====
-- The theorems on the governance service at concrete inputs, and runs of the service.
use text.Mathlib.TextEquality.{eq_iff}
use mathlib.Core.Option
use torq_pro.Prelude.{
  ◌≤◌, String, ◌≡◌, ◌≢◌, ◌↔◌, refl, ap, true, false, some, List, [], ◌∷◌, ◌++◌, arith, inl, inr, ok,
  err, length, All,
}
use torq_pro.Governance.Enums.{LifecycleGroup, review_of, resolution_of}
use torq_pro.Governance.Errors.{
  store_error, invalid_transition, idempotency_conflict, duplicate_decision,
}
use torq_pro.Governance.Events.{Event, with_decision}
use torq_pro.Governance.Requests.{normalize_request, event_request}
use torq_pro.Governance.File
use torq_pro.Governance.File.{Disk, WriteEnd, append}
use torq_pro.Governance.File.Refines.{file_store, append-adds}
use torq_pro.Governance.Service.{event_history, effective_status, decide}
use torq_pro.Governance.Service.Plan.{known_key, status_on}
use torq_pro.Governance.Service.Permits.{permits}
use torq_pro.Governance.Service.Log.{Log, start, grow}
use torq_pro.Governance.Api.{Command, submit_review, is_externally_owned, run, run_command}
use torq_pro.Governance.Api.Engine.{transition_of, validator_of}
use torq_pro.Governance.Api.Runs.{IsSound, replay, replay-IsSound, replay-grows}
use torq_pro.Governance.Api.Retries.{retimed, retry_returns_event}
use torq_pro.Governance.Api.Lifecycles.{
  is_terminal, length-event_history, terminal_is_final, run-frame,
}
use torq_pro.Governance.Api.Conflicts.{reused_key_conflicts, reused_decision_refused}
use torq_pro.Governance.Api.Races.{overlapped, overlapped-not-Log}
use torq_pro.Governance.Api.Ownership.{run_command-IsUnowned, owner_locked_out}
use torq_pro.Governance.Api.Acceptance.{accepts, validator_of-accepts}
use torq_pro.Governance.Samples.{
  json_text, sample_arguments, submit, approve, reject, submitted, approved, rejected, stray, owned,
  waived, disk_of, no_file, unlockable, run_file,
}

submit_creates :
    run file_store submit "u1" no_file ≡ (ok (submitted, true), disk_of (submitted ∷ []))
unfolding run_file
submit_creates = refl

approve_creates :
    run file_store approve "u2" (disk_of (submitted ∷ []))
    ≡ (ok (approved, true), disk_of (submitted ∷ approved ∷ []))
unfolding run_file
approve_creates = refl

-- A draft cannot be approved.
approve_draft :
    (run file_store approve "u2" no_file).0 ≡ err (invalid_transition "review" "draft" "approved")
unfolding run_file
approve_draft = refl

-- A write that does not go through leaves the file.
failed_write :
    run file_store submit "u1" (record no_file { write_ends = WriteEnd.persist_fails ∷ [] })
    ≡ (err (store_error "failed to persist governance event"), no_file)
unfolding run_file
failed_write = refl

submitted-Log : Log (submitted ∷ [])
unfolding run_file known_key with_decision permits status_on review_of
submitted-Log =
    grow [] submitted (start refl)
      (record {
        fresh_key = refl;
        fresh_decision = refl;
        continues = refl;
        permitted = refl;
        stamped = refl;
      })
      refl

submitted_readable : File.all_events (disk_of (submitted ∷ [])) ≡ ok (submitted ∷ [])
unfolding run_file
submitted_readable = refl

abbrev submitted-IsSound : IsSound file_store (disk_of (submitted ∷ []))
submitted-IsSound = record {
  events = submitted ∷ [];
  readable = submitted_readable;
  log = submitted-Log;
}

unlockable_readable : File.all_events unlockable ≡ ok (submitted ∷ [])
unfolding run_file
unlockable_readable = refl

abbrev unlockable-IsSound : IsSound file_store unlockable
unlockable-IsSound = record {
  events = submitted ∷ [];
  readable = unlockable_readable;
  log = submitted-Log;
}

retry_returns_event_example :
    let s' = replay file_store ((approve, "u2") ∷ []) (run file_store submit "u1" no_file).1 in
    run file_store (retimed "2027-01-01T00:00:00Z" (some "u9") submit) "u3" s'
    ≡ (ok (submitted, false), s')
unfolding run_file
retry_returns_event_example =
    retry_returns_event file_store submit "u1" no_file [] submitted true ((approve, "u2") ∷ [])
      "2027-01-01T00:00:00Z" (some "u9") "u3" refl (λ e. ground (arith, eq_iff "K1" "", e)) refl

replay-IsSound_example :
    IsSound file_store
      (replay file_store ((approve, "u2") ∷ (reject, "u3") ∷ []) (disk_of (submitted ∷ [])))
replay-IsSound_example =
    replay-IsSound file_store ((approve, "u2") ∷ (reject, "u3") ∷ []) (disk_of (submitted ∷ []))
      submitted-IsSound

replay-grows_example :
    (more : List (Event String)) × (File.all_events
        (replay file_store ((approve, "u2") ∷ []) (disk_of (submitted ∷ [])))
      ≡ ok ((submitted ∷ []) ++ more))
unfolding run_file
replay-grows_example =
    replay-grows file_store ((approve, "u2") ∷ []) (submitted ∷ []) (disk_of (submitted ∷ [])) refl

terminal_is_final_example :
    event_history file_store "A1" (some LifecycleGroup.review) (
      replay file_store
        ((reject, "u3") ∷ (submit, "u4") ∷ [])
        (disk_of (submitted ∷ approved ∷ [])))
    ≡ event_history file_store "A1"
        (some LifecycleGroup.review)
        (disk_of (submitted ∷ approved ∷ []))
unfolding run_file effective_status is_terminal review_of
terminal_is_final_example =
    terminal_is_final file_store ((reject, "u3") ∷ (submit, "u4") ∷ []) "A1" LifecycleGroup.review
      (disk_of (submitted ∷ approved ∷ [])) (submitted ∷ approved ∷ []) "approved" refl refl refl

length-event_history_example : length {A = Event String} (submitted ∷ []) ≤ 2
unfolding run_file event_history
length-event_history_example =
    length-event_history file_store "A1" LifecycleGroup.review (disk_of (submitted ∷ []))
      (submitted ∷ []) submitted-IsSound refl

run-frame_example :
    event_history file_store "W7"
      (some LifecycleGroup.resolution)
      (run file_store submit "u1" (disk_of (waived ∷ []))).1
    ≡ event_history file_store "W7" (some LifecycleGroup.resolution) (disk_of (waived ∷ []))
unfolding run_file transition_of
run-frame_example =
    run-frame file_store submit "u1" "W7" LifecycleGroup.resolution (disk_of (waived ∷ []))
      (waived ∷ []) refl (inr (λ e. cc))

-- Another actor under the key of the submission.
abbrev impostor : Command String
impostor = submit_review (sample_arguments "A1" "formula" "D1" "K1") "zeynep" (some "first issue")

reused_key_conflicts_example :
    run file_store impostor "u5" (disk_of (submitted ∷ []))
    ≡ (err (idempotency_conflict "K1"), disk_of (submitted ∷ []))
unfolding run_file transition_of normalize_request event_request
reused_key_conflicts_example =
    reused_key_conflicts file_store impostor "u5" (disk_of (submitted ∷ [])) submitted
      submitted-IsSound (inl refl) (λ e. ground (arith, eq_iff "K1" "", e)) refl
      (λ e. ground (arith, eq_iff "ayse" "zeynep", ap (λ r. Option.get_or r.actor "") e))

-- The decision of the submission under a new key.
abbrev resent : Command String
resent = submit_review (sample_arguments "A1" "formula" "D1" "K7") "ayse" (some "first issue")

reused_decision_refused_example :
    run file_store resent "u5" (disk_of (submitted ∷ []))
    ≡ (err (duplicate_decision "D1"), disk_of (submitted ∷ []))
unfolding run_file transition_of known_key
reused_decision_refused_example =
    reused_decision_refused file_store resent "u5" (disk_of (submitted ∷ [])) submitted
      submitted-IsSound (inl refl) refl refl

overlapped-not-Log_example :
    (File.all_events (overlapped file_store approve reject "u2" "u3" (disk_of (submitted ∷ [])))
      ≡ ok (((submitted ∷ []) ++ approved ∷ []) ++ rejected ∷ []))
    × (approved.previous_status ≡ rejected.previous_status)
    × ¬ Log (((submitted ∷ []) ++ approved ∷ []) ++ rejected ∷ [])
unfolding run_file decide transition_of validator_of
overlapped-not-Log_example =
    overlapped-not-Log file_store approve reject "u2" "u3" (disk_of (submitted ∷ []))
      (submitted ∷ []) approved rejected approved rejected refl refl refl refl refl refl refl

run_command-IsUnowned_example :
    (more : List (Event String)) × (File.all_events
        (run_command file_store owned "u9" (disk_of (submitted ∷ []))).1
      ≡ ok ((submitted ∷ []) ++ more))
    × All (λ e. is_externally_owned e.aggregate_type ≡ false) more
unfolding run_file
run_command-IsUnowned_example =
    run_command-IsUnowned file_store owned "u9" (disk_of (submitted ∷ [])) (submitted ∷ []) refl

owner_locked_out_example :
    (run file_store owned "u9" (run_command file_store stray "u8" no_file).1).0 ≢ ok (waived, true)
unfolding run_file transition_of is_terminal resolution_of
owner_locked_out_example =
    owner_locked_out file_store stray owned "u8" "u9" no_file [] waived waived refl refl refl refl
      refl

validator_of-accepts_example :
    (validator_of approve "under_review" ≡ ok tt) ↔ (accepts approve "under_review" ≡ true)
validator_of-accepts_example = validator_of-accepts approve "under_review"

append-adds_example :
    File.all_events (append approved (disk_of (submitted ∷ []))).1
    ≡ ok ((submitted ∷ []) ++ approved ∷ [])
unfolding run_file
append-adds_example =
    append-adds approved (disk_of (submitted ∷ [])) (submitted ∷ []) approved refl refl refl
