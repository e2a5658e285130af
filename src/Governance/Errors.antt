-- ===== src/Governance/Errors.antt =====
-- The exceptions that a governance call may raise (backend/governance/exceptions.py), with the
-- arguments that they carry, and the two that come from outside: `ReviewStatus(text)` on an unknown
-- text (ValueError) and a model field that does not validate (pydantic's ValidationError). An OSError
-- and a UnicodeError (a ValueError) of the store's file are `os_error` and `unicode_error`.
use torq_pro.Prelude.{String, Bool, true, false, List, Result}

pub data GovernanceError : Type 0 where
  invalid_transition : String → String → String → GovernanceError
  missing_required_field : String → List String → GovernanceError
  store_error : String → GovernanceError
  corruption_error : String → GovernanceError
  idempotency_conflict : String → GovernanceError
  duplicate_decision : String → GovernanceError
  aggregate_not_found : String → String → GovernanceError
  value_error : String → GovernanceError
  validation_error : String → GovernanceError
  os_error : String → GovernanceError
  unicode_error : String → GovernanceError

-- A call that returns a value or raises.
abbrev pub Outcome : Type 0 → Type 0
Outcome A = Result GovernanceError A

-- `GovernanceStoreError` and its subclass `GovernanceCorruptionError`
abbrev pub is_store_error : GovernanceError → Bool
is_store_error (store_error _) = true
is_store_error (corruption_error _) = true
is_store_error _ = false

-- What a store's file may raise that the store does not turn into one of its own.
abbrev pub is_file_error : GovernanceError → Bool
is_file_error (os_error _) = true
is_file_error (unicode_error _) = true
is_file_error _ = false
