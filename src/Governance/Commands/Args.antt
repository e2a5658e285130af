-- ===== src/Governance/Commands/Args.antt =====
-- The keyword arguments that all nine commands take.
use torq_pro.Prelude.{String, Option}

pub record Arguments (M : Type 0) : Type 0 where
  pub aggregate_id : String
  pub aggregate_type : String
  pub decision_id : String
  pub idempotency_key : String
  pub occurred_at : String
  pub metadata : Option M
  pub event_id : Option String
