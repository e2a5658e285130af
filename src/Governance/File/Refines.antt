-- ===== src/Governance/File/Refines.antt =====
-- The file-backed store keeps the contract of the abstract event store.
use torq_pro.Prelude.{
  String, ◌≡◌, refl, ap, ◌∙◌, true, none, List, [], ◌∷◌, ◌++◌, arith, ok, err, ◌>>=◌, Result-cases,
  inl, inr, ◌||◌, ◌==◌, string_eq, if◌then◌else◌,
}
use torq_pro.Governance.Errors.{GovernanceError, Outcome, is_store_error, is_file_error}
use torq_pro.Governance.Timestamps.{is_valid_utc_iso8601}
use torq_pro.Governance.Events.{Event, for_aggregate, with_decision, with_key}
use torq_pro.Governance.Contract.{EventStore}
use torq_pro.Governance.File.{
  Stored, Content, Disk, read_raw, written, on_disk, locked, model_validate, validate_all,
  all_events, events_for_aggregate, find_by_decision_id, find_by_idempotency_key, append,
}

module _ {M : Type 0} where
  validate_all-snoc :
      (e : Event M) (stored : List (Stored M))
      → is_valid_utc_iso8601 e.occurred_at ≡ true
      → validate_all (stored ++ Stored.object e ∷ [])
        ≡ (validate_all stored >>= λ es. ok (es ++ e ∷ []))
  unfolding validate_all model_validate
  validate_all-snoc e [] v = rw v
  validate_all-snoc e (raw ∷ rest) v =
      rw (validate_all-snoc e rest v) (joined (model_validate raw) (validate_all rest))
    where
      joined :
          (r : Outcome (Event M)) (rs : Outcome (List (Event M)))
          → (r >>= λ x. (rs >>= λ es. ok (es ++ e ∷ [])) >>= λ es. ok (x ∷ es))
            ≡ ((r >>= λ x. rs >>= λ es. ok (x ∷ es)) >>= λ es. ok (es ++ e ∷ []))
      joined (ok x) (ok es) = refl
      joined (ok x) (err y) = refl
      joined (err y) rs = refl

  -- An append that raises leaves the file as it was.
  pub content-append_err :
      (e : Event M) (disk : Disk M) (x : GovernanceError)
      → (append e disk).0 ≡ err x
      → (append e disk).1.content ≡ disk.content
  unfolding append written on_disk locked
  content-append_err e disk x h = ground arith

  -- An append that returns has written the stored objects and then the event.
  pub content-append_ok :
      (e : Event M) (disk : Disk M) (stored : List (Stored M)) (r : Event M)
      → read_raw disk.content ≡ ok stored
      → (append e disk).0 ≡ ok r
      → (append e disk).1.content ≡ Content.payload (stored ++ Stored.object e ∷ [])
  unfolding append written on_disk locked
  content-append_ok e disk stored r h = ground arith

  pub append-raises :
      (e : Event M) (disk : Disk M) (x : GovernanceError)
      → (append e disk).0 ≡ err x
      → is_store_error x || is_file_error x ≡ true
  unfolding append written on_disk locked read_raw
  append-raises e disk x h = ground arith

  pub append-keeps :
      (e : Event M) (disk : Disk M) (x : GovernanceError)
      → (append e disk).0 ≡ err x
      → all_events (append e disk).1 ≡ all_events disk
  unfolding all_events
  append-keeps e disk x h = ap (λ c. read_raw c >>= validate_all) (content-append_err e disk x h)

  pub append-adds :
      (e : Event M) (disk : Disk M) (events : List (Event M)) (r : Event M)
      → is_valid_utc_iso8601 e.occurred_at ≡ true
      → all_events disk ≡ ok events
      → (append e disk).0 ≡ ok r
      → all_events (append e disk).1 ≡ ok (events ++ e ∷ [])
  unfolding all_events
  append-adds e disk events r v h done = elim (Result-cases (read_raw disk.content)) [
    | inl (stored, read) ↦ rw (content-append_ok e disk stored r read done) (
        validate_all-snoc e stored v
        ∙ ap (λ (t : Outcome (List (Event M))). t >>= λ es. ok (es ++ e ∷ [])) (rw read at h))
    | inr (y, read) ↦ cc (rw read at h)
  ]

  pub events_for_aggregate_lem :
      (a : String) (disk : Disk M)
      → events_for_aggregate a disk ≡ (all_events disk >>= λ events. ok (for_aggregate a events))
  unfolding events_for_aggregate
  events_for_aggregate_lem a disk = refl

  pub find_by_decision_id_lem :
      (d : String) (disk : Disk M)
      → find_by_decision_id d disk ≡ (all_events disk >>= λ events. ok (with_decision d events))
  unfolding find_by_decision_id
  find_by_decision_id_lem d disk = refl

  pub find_by_idempotency_key_lem :
      (k : String) (disk : Disk M)
      → find_by_idempotency_key k disk
        ≡ (if k == "" then ok none else (all_events disk >>= λ events. ok (with_key k events)))
  unfolding find_by_idempotency_key
  find_by_idempotency_key_lem k disk = refl

  -- The file-backed store, with the contract's laws proved.
  abbrev pub file_store : EventStore M
  file_store = record {
    State = Disk M;
    append = append;
    all_events = all_events;
    events_for_aggregate = events_for_aggregate;
    find_by_decision_id = find_by_decision_id;
    find_by_idempotency_key = find_by_idempotency_key;
    events_for_aggregate_lem = events_for_aggregate_lem;
    find_by_decision_id_lem = find_by_decision_id_lem;
    find_by_idempotency_key_lem = find_by_idempotency_key_lem;
    append-raises = append-raises;
    append-keeps = append-keeps;
    append-adds = append-adds;
  }
