-- ===== src/Validation/Rules.antt =====
-- The enumerations and the validators of production validation
-- (backend/production_validation/enums.py, validators.py).
use torq_pro.Prelude.{
  ℕ, ℤ, pos, negsuc, String, Bool, true, false, ◌&&◌, not, Option, none, some, List, [], ◌∷◌, ◌==◌,
  string_eq, eqb, contains, blank, if◌then◌else◌, Result, ok, err, guard, ◌>>◌,
}
use torq_pro.Validation.Tables.{Limits, Origin, ValidationError, validation_data, overflow_error}
use torq_pro.Sqlite.{is_bindable}

-- What the module uses of Python's floats, and of `json.dumps` and `sha256`: the tests `<` and `<=`,
-- whether a float is neither NaN nor infinite, and the hash of a specification's payload.
pub record Outside (V : Type 0) : Type 0 where
  pub less : V → V → Bool
  pub at_most : V → V → Bool
  pub is_finite : V → Bool
  pub snapshot_hash : ℕ → Limits V → Origin → ℕ → String

-- The signed-in user, as a dict with the keys `id` and `role`
pub record Actor : Type 0 where
  pub id : Option ℕ
  pub role : Option String

-- An integer of a request, bound to a parameter of a statement.
unfoldable pub bind : ℕ → Result ValidationError (Unit {0})
unfolding is_bindable
bind n = guard (is_bindable n) overflow_error

-- Whether sqlite3 can bind a `subgroup_size`.
abbrev pub is_bindable_size : Option ℤ → Bool
is_bindable_size none = true
is_bindable_size (some (pos n)) = is_bindable n
is_bindable_size (some (negsuc n)) = is_bindable n

unfoldable pub study_types : List String
study_types =
    "short_term_capability" ∷ "long_term_performance" ∷ "torque_validation" ∷ "preload_validation"
    ∷ "residual_torque" ∷ "breakaway_torque" ∷ "audit_measurement" ∷ "prototype_validation"
    ∷ "serial_production_validation" ∷ []

unfoldable pub study_transitions : List (String × List String)
study_transitions =
    ("draft", "data_collection" ∷ "archived" ∷ [])
    ∷ ("data_collection", "completed" ∷ "archived" ∷ [])
    ∷ ("completed", "under_review" ∷ "archived" ∷ [])
    ∷ ("under_review", "approved" ∷ "rejected" ∷ "archived" ∷ [])
    ∷ ("approved", "archived" ∷ [])
    ∷ ("rejected", "data_collection" ∷ "archived" ∷ [])
    ∷ ("archived", [])
    ∷ []

-- `STUDY_TRANSITIONS.get(status, set())`
unfoldable pub targets : String → List (String × List String) → List String
targets status [] = []
targets status ((s, ts) ∷ rest) =
    let others = targets status rest in if s == status then ts else others

-- `to in STUDY_TRANSITIONS.get(status, set())`
unfoldable pub may_become : String → String → Bool
unfolding targets study_transitions contains
may_become status to = contains to (targets status study_transitions)

unfoldable pub characteristic_types : List String
characteristic_types =
    "tightening_torque" ∷ "residual_torque" ∷ "breakaway_torque" ∷ "preload" ∷ "angle"
    ∷ "friction_coefficient" ∷ "dimension" ∷ "custom" ∷ []

unfoldable pub approval_roles : List String
approval_roles = "admin" ∷ "engineer" ∷ []

-- `_require_role`
unfoldable pub require_role : Actor → Result ValidationError (Unit {0})
unfolding approval_roles contains
require_role actor = elim actor.role [
  | none ↦ err (validation_data "actor role is not authorized for this operation")
  | some role ↦
      guard (contains role approval_roles)
        (validation_data "actor role is not authorized for this operation")
]

unfoldable pub validate_study_type : String → Result ValidationError (Unit {0})
unfolding study_types contains
validate_study_type study_type =
    guard (contains study_type study_types) (validation_data "unknown study_type")

unfoldable pub validate_characteristic_type : String → Result ValidationError (Unit {0})
unfolding characteristic_types contains
validate_characteristic_type characteristic_type =
    guard (contains characteristic_type characteristic_types)
      (validation_data "unknown characteristic_type")

unfoldable pub validate_unit_present : String → Result ValidationError (Unit {0})
unfolding blank
validate_unit_present unit =
    guard (not (blank unit)) (validation_data "dataset unit must not be empty")

abbrev pub is_positive : ℤ → Bool
is_positive (pos n) = not (eqb n 0)
is_positive (negsuc n) = false

unfoldable pub validate_subgroup_size : Option ℤ → Result ValidationError (Unit {0})
validate_subgroup_size none = ok tt
validate_subgroup_size (some size) =
    guard (is_positive size) (validation_data "subgroup_size must be a positive integer")

module _ {V : Type 0} ⦃outside : Outside V⦄ where
  abbrev pub within : V → V → Option V → Bool
  within lower upper none = true
  within lower upper (some target) = outside.at_most lower target && outside.at_most target upper

  unfoldable pub validate_spec_limits : V → V → Option V → Result ValidationError (Unit {0})
  validate_spec_limits lower upper target =
      guard (outside.less lower upper)
        (validation_data "lower_spec_limit must be smaller than upper_spec_limit")
      >> guard (within lower upper target)
          (validation_data "target_value must fall within [lower_spec_limit, upper_spec_limit]")

  -- A float is what pydantic has made of the field.
  unfoldable pub validate_measured_value : V → Result ValidationError (Unit {0})
  validate_measured_value value =
      guard (outside.is_finite value)
        (validation_data "measured_value must be a finite number (NaN/Infinity rejected)")
