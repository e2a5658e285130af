-- ===== src/Governance/File.antt =====
-- The file-backed event store (`FileGovernanceEventStore` of backend/governance/store.py). A file is
-- kept as what `read_text` and `json.loads` make of it; each write is told in advance whether the
-- operating system will let it through.
pub mod Refines
use torq_pro.Prelude.{
  String, ◌≡◌, refl, Bool, true, false, Option, none, some, List, [], ◌∷◌, ◌++◌, arith,
  if◌then◌else◌, ◌==◌, string_eq, Result, ok, err, ◌>>=◌, ◌>>◌, filter, find,
}
use torq_pro.Governance.Errors.{
  GovernanceError, Outcome, store_error, corruption_error, os_error, unicode_error,
}
use torq_pro.Governance.Timestamps.{is_valid_utc_iso8601}
use torq_pro.Governance.Events.{Event, for_aggregate, with_decision, with_key}
use torq_pro.Governance.Contract.{EventStore}

-- An element of the `events` array: an object with an event's fields, or anything else.
pub data Stored (M : Type 0) : Type 0 where
  object : Event M → Stored M
  damaged : Stored M

pub data Content (M : Type 0) : Type 0 where
  missing unreadable undecodable blank_text malformed wrong_shape : Content M
  payload : List (Stored M) → Content M

-- How the next write ends: `mkstemp` fails, a text of the event has no UTF-8 encoding (a lone
-- surrogate), writing or `os.replace` fails, or it goes through.
pub data WriteEnd : Type 0 where
  prepare_fails encode_fails persist_fails goes_through : WriteEnd

-- The file; whether the lock file of the next appends can be opened, and the ends of the writes to
-- come. Past its list every lock opens, and every write goes through.
pub record Disk (M : Type 0) : Type 0 where
  pub content : Content M
  pub locks : List Bool
  pub write_ends : List WriteEnd

module _ {M : Type 0} where
  -- `_read_raw`
  unfoldable pub read_raw : Content M → Outcome (List (Stored M))
  read_raw Content.missing = ok []
  read_raw Content.unreadable = err (store_error "failed to read the governance event store")
  read_raw Content.undecodable = err (unicode_error "the text is not UTF-8")
  read_raw Content.blank_text = ok []
  read_raw Content.malformed =
      err (corruption_error "governance event store content is not valid JSON")
  read_raw Content.wrong_shape =
      err (corruption_error "governance event store content does not have the expected shape")
  read_raw (Content.payload stored) = ok stored

  -- The write with its end: the file and the ends of the writes after it.
  written :
      List WriteEnd → List (Stored M) → Content M → Outcome (Unit {0}) × Content M × List WriteEnd
  written [] stored old = (ok tt, Content.payload stored, [])
  written (WriteEnd.goes_through ∷ r) stored old = (ok tt, Content.payload stored, r)
  written (WriteEnd.prepare_fails ∷ r) stored old =
      (err (store_error "failed to prepare governance event store write"), old, r)
  written (WriteEnd.encode_fails ∷ r) stored old =
      (err (unicode_error "surrogates not allowed"), old, r)
  written (WriteEnd.persist_fails ∷ r) stored old =
      (err (store_error "failed to persist governance event"), old, r)

  on_disk : List Bool → Outcome (Unit {0}) × Content M × List WriteEnd → Outcome (Unit {0}) × Disk M
  on_disk locks (done, content, ends) =
      (done, record { content = content; locks = locks; write_ends = ends })

  -- `_write_raw_atomic`: the old complete content or the new complete content.
  unfoldable pub write_raw_atomic : List (Stored M) → Disk M → Outcome (Unit {0}) × Disk M
  unfolding written on_disk
  write_raw_atomic stored disk = on_disk disk.locks (written disk.write_ends stored disk.content)

  -- `GovernanceEvent.model_validate(raw)`
  unfoldable pub model_validate : Stored M → Outcome (Event M)
  model_validate Stored.damaged =
      err (corruption_error "governance event store contains a record that failed validation")
  model_validate (Stored.object e) =
      if is_valid_utc_iso8601 e.occurred_at
      then ok e
      else err (corruption_error "governance event store contains a record that failed validation")

  unfoldable pub validate_all : List (Stored M) → Outcome (List (Event M))
  unfolding model_validate
  validate_all [] = ok []
  validate_all (raw ∷ rest) = model_validate raw >>= λ e. validate_all rest >>= λ es. ok (e ∷ es)

  unfoldable pub all_events : Disk M → Outcome (List (Event M))
  unfolding read_raw validate_all
  all_events disk = read_raw disk.content >>= validate_all

  unfoldable pub events_for_aggregate : String → Disk M → Outcome (List (Event M))
  unfolding all_events for_aggregate
  events_for_aggregate aggregate_id disk =
      all_events disk >>= λ events. ok (for_aggregate aggregate_id events)

  unfoldable pub find_by_decision_id : String → Disk M → Outcome (Option (Event M))
  unfolding all_events with_decision
  find_by_decision_id decision_id disk =
      all_events disk >>= λ events. ok (with_decision decision_id events)

  unfoldable pub find_by_idempotency_key : String → Disk M → Outcome (Option (Event M))
  unfolding all_events with_key
  find_by_idempotency_key idempotency_key disk =
      if idempotency_key == ""
      then ok none
      else all_events disk >>= λ events. ok (with_key idempotency_key events)

  returning : Event M → Outcome (Unit {0}) × Disk M → Outcome (Event M) × Disk M
  returning e (done, disk) = ((done >> ok e), disk)

  appended : Event M → Outcome (List (Stored M)) → Disk M → Outcome (Event M) × Disk M
  unfolding returning write_raw_atomic
  appended e (err x) disk = (err x, disk)
  appended e (ok stored) disk = returning e (write_raw_atomic (stored ++ Stored.object e ∷ []) disk)

  -- `_locked`, whose `mkdir` and `open` stand in no `try`.
  locked : List Bool → Disk M → Result (Disk M) (Disk M)
  locked [] disk = ok disk
  locked (true ∷ r) disk = ok (record disk { locks = r })
  locked (false ∷ r) disk = err (record disk { locks = r })

  unfoldable pub append : Event M → Disk M → Outcome (Event M) × Disk M
  unfolding read_raw appended locked
  append e disk = elim (locked disk.locks disk) [
    | err after ↦ (err (os_error "the lock file"), after)
    | ok held ↦ appended e (read_raw held.content) held
  ]
