-- ===== src/Governance/Requests.antt =====
-- The arguments of a transition, and the projection of them that idempotency compares
-- (`_normalize_request` and `_event_matches_request` of backend/governance/service.py).
pub mod Equality
use torq_pro.Prelude.{
  String, ◌≡◌, ◌↔◌, refl, Bool, true, ◌&&◌, Option, none, some, HasEq, ◌==◌, string_eq, option_eq,
  int_eq, ℤ, arith,
}
use torq_pro.Governance.Enums.{LifecycleGroup, group_eq, group_beq_iff}
use torq_pro.Governance.Events.{Metadata, Event}

-- The keyword arguments of `_execute_transition` but for the store and the closure.
pub record Transition (M : Type 0) : Type 0 where
  pub aggregate_id : String
  pub aggregate_type : String
  pub lifecycle_group : LifecycleGroup
  pub decision_id : String
  pub idempotency_key : String
  pub new_status : String
  pub occurred_at : String
  pub actor : Option String
  pub review_comment : Option String
  pub change_reason : Option String
  pub revision_no : Option ℤ
  pub supersedes_id : Option String
  pub superseded_by_id : Option String
  pub metadata : Option M
  pub event_id : Option String

-- The dict that `_normalize_request` builds.
pub record Request (M : Type 0) : Type 0 where
  pub aggregate_id : String
  pub aggregate_type : String
  pub lifecycle_group : LifecycleGroup
  pub decision_id : String
  pub new_status : String
  pub actor : Option String
  pub review_comment : Option String
  pub change_reason : Option String
  pub revision_no : Option ℤ
  pub supersedes_id : Option String
  pub superseded_by_id : Option String
  pub metadata : M

module _ {M : Type 0} ⦃meta : Metadata M⦄ where
  -- `metadata or {}`; the only falsy dict is `{}` itself
  abbrev pub or_empty : Option M → M
  or_empty none = meta.empty
  or_empty (some m) = m

  unfoldable pub normalize_request : Transition M → Request M
  normalize_request t = record {
    aggregate_id = t.aggregate_id;
    aggregate_type = t.aggregate_type;
    lifecycle_group = t.lifecycle_group;
    decision_id = t.decision_id;
    new_status = t.new_status;
    actor = t.actor;
    review_comment = t.review_comment;
    change_reason = t.change_reason;
    revision_no = t.revision_no;
    supersedes_id = t.supersedes_id;
    superseded_by_id = t.superseded_by_id;
    metadata = or_empty t.metadata;
  }

  -- `==` of two such dicts, key by key
  unfoldable pub same_request : Request M → Request M → Bool
  same_request a b =
      (a.aggregate_id == b.aggregate_id)
      && (a.aggregate_type == b.aggregate_type)
      && (a.lifecycle_group == b.lifecycle_group)
      && (a.decision_id == b.decision_id)
      && (a.new_status == b.new_status)
      && (a.actor == b.actor)
      && (a.review_comment == b.review_comment)
      && (a.change_reason == b.change_reason)
      && (a.revision_no == b.revision_no)
      && (a.supersedes_id == b.supersedes_id)
      && (a.superseded_by_id == b.superseded_by_id)
      && meta.same.matches a.metadata b.metadata

-- The dict that `_event_matches_request` builds from an event.
unfoldable pub event_request : {M : Type 0} → Event M → Request M
event_request e = record {
  aggregate_id = e.aggregate_id;
  aggregate_type = e.aggregate_type;
  lifecycle_group = e.lifecycle_group;
  decision_id = e.decision_id;
  new_status = e.new_status;
  actor = e.actor;
  review_comment = e.review_comment;
  change_reason = e.change_reason;
  revision_no = e.revision_no;
  supersedes_id = e.supersedes_id;
  superseded_by_id = e.superseded_by_id;
  metadata = e.metadata;
}

module _ {M : Type 0} ⦃meta : Metadata M⦄ where
  unfoldable pub event_matches_request : Event M → Request M → Bool
  unfolding same_request event_request
  event_matches_request e normalized = same_request (event_request e) normalized
