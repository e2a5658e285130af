-- ===== src/Governance/Requests/Equality.antt =====
-- Two requests are the same exactly if they agree in every key.
use text.Mathlib.TextEquality.{eq_iff}
use torq_pro.Prelude.{
  ◌≡◌, refl, true, string_eq, option_eq, option_matches_iff, int_eq, arith, matches_refl,
}
use torq_pro.Governance.Enums.{group_eq, group_beq_iff}
use torq_pro.Governance.Events.{Metadata}
use torq_pro.Governance.Requests.{Request, same_request}

module _ {M : Type 0} ⦃meta : Metadata M⦄ where
  pub same_request_refl : (a : Request M) → same_request a a ≡ true
  unfolding same_request
  same_request_refl a = ground (
    arith,
    matches_refl a.aggregate_id,
    matches_refl a.aggregate_type,
    matches_refl a.lifecycle_group,
    matches_refl a.decision_id,
    matches_refl a.new_status,
    matches_refl a.actor,
    matches_refl a.review_comment,
    matches_refl a.change_reason,
    matches_refl a.revision_no,
    matches_refl a.supersedes_id,
    matches_refl a.superseded_by_id,
    (meta.same.matches_iff a.metadata a.metadata).1 refl,
  )

  -- Requests that compare as equal agree in every key.
  pub same_request-eq : (a b : Request M) → same_request a b ≡ true → a ≡ b
  unfolding same_request
  same_request-eq a b h i = record {
    aggregate_id = (eq_iff a.aggregate_id b.aggregate_id).0 (ground arith) i;
    aggregate_type = (eq_iff a.aggregate_type b.aggregate_type).0 (ground arith) i;
    lifecycle_group = (group_beq_iff a.lifecycle_group b.lifecycle_group).0 (ground arith) i;
    decision_id = (eq_iff a.decision_id b.decision_id).0 (ground arith) i;
    new_status = (eq_iff a.new_status b.new_status).0 (ground arith) i;
    actor = (option_matches_iff a.actor b.actor).0 (ground arith) i;
    review_comment = (option_matches_iff a.review_comment b.review_comment).0 (ground arith) i;
    change_reason = (option_matches_iff a.change_reason b.change_reason).0 (ground arith) i;
    revision_no = (option_matches_iff a.revision_no b.revision_no).0 (ground arith) i;
    supersedes_id = (option_matches_iff a.supersedes_id b.supersedes_id).0 (ground arith) i;
    superseded_by_id =
        (option_matches_iff a.superseded_by_id b.superseded_by_id).0 (ground arith) i;
    metadata = (meta.same.matches_iff a.metadata b.metadata).0 (ground arith) i;
  }
