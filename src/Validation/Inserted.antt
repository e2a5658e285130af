-- ===== src/Validation/Inserted.antt =====
-- The inserts of production validation after their checks
-- (backend/production_validation/service.py).
use torq_pro.Prelude.{
  ◌≡◌, refl, ap, sym, ◌∙◌, ℕ, ◌≤◌, String, Bool, true, false, inl, inr, Option, none, some, List,
  ◌==◌, string_eq, option_eq, nat_eq, eqb, find, find-fails, All-map, Bool-cases, Option-cases,
  Result, ok, err, Result-cases, arith,
}
use torq_pro.Sqlite.{alone, next_id, fetch, max_of, is_bindable}
use torq_pro.Sqlite.Laws.{max_of-selected, numbered_apart}
use torq_pro.Joints.Tables.{is_some}
use torq_pro.Validation.Tables.{
  Db, Study, Dataset, Measurement, ValidationError, study_key, dataset_key, measurement_key,
  fetch_dataset_by_code, fetch_study_by_code, next_sequence_number, in_dataset,
}
use torq_pro.Validation.Rules.{Outside, Actor, bind, is_bindable_size}
use torq_pro.Validation.Studies.{new_study, StudyCreate, get_study}
use torq_pro.Validation.Creation
use torq_pro.Validation.Datasets
use torq_pro.Validation.Datasets.{DatasetCreate, DatasetPatch}
use torq_pro.Validation.Measurements
use torq_pro.Validation.Measurements.{MeasurementCreate}
use torq_pro.Validation.Creation.{
  check_references, check_joint, check_revision, check_calculation, validate_study, accept_study,
  insert_study,
}
use torq_pro.Validation.Rules.{validate_measured_value}
use torq_pro.Validation.Datasets.{validate_dataset, get_dataset, new_dataset}
use torq_pro.Validation.Measurements.{
  record_in, resolve_tool_id, check_correction, new_measurement, same_slot, assert_study_editable,
}
use torq_pro.Validation.Tables.{Tool}
use torq_pro.Validation.Caught.{is_domain, is_caught, editable-caught}

raised-caught :
    {A : Type 0} (r : Result ValidationError A) (e : ValidationError)
    → r ≡ err e
    → is_caught r ≡ true
    → is_domain e ≡ true
raised-caught r e h c = sym (ap is_caught h) ∙ c

tool-caught :
    (code : Option String) (tools : List Tool) → is_caught (resolve_tool_id code tools) ≡ true
unfolding resolve_tool_id
tool-caught none tools = refl
tool-caught (some code) tools = ground arith

module _ {V : Type 0} where
  -- sqlite3 can bind every id of the body.
  abbrev pub HasBindable : StudyCreate V → Type 0
  HasBindable p =
      (is_bindable p.project_id ≡ true)
      × (is_bindable p.joint_id ≡ true)
      × (is_bindable p.joint_revision_id ≡ true)
      × (is_bindable p.calculation_id ≡ true)
      × (is_bindable p.calculation_revision_id ≡ true)

  -- The next number of a dataset is taken by none of its measurements.
  slot_free :
      (dataset_id : ℕ) (p : MeasurementCreate V) (tool device : Option ℕ) (ts : String) (id : ℕ)
      (rows : List (Measurement V))
      → find
          (λ old.
            same_slot old (
              new_measurement dataset_id p tool device
                (next_sequence_number dataset_id rows)
                ts
                id))
          rows
        ≡ none
  unfolding new_measurement next_sequence_number
  slot_free dataset_id p tool device ts id rows =
      find-fails
        (λ old.
          same_slot old
            (new_measurement dataset_id p tool device (next_sequence_number dataset_id rows) ts id))
        rows
        (All-map
          (λ m.
            eqb m.dataset_id dataset_id ≡ true
            → m.sequence_number ≤ max_of (λ x. x.sequence_number) (in_dataset dataset_id rows))
          (λ old.
            same_slot old (
              new_measurement dataset_id p tool device (next_sequence_number dataset_id rows) ts id)
            ≡ false)
          (λ m below. numbered_apart m.dataset_id dataset_id m.sequence_number _ below) rows
          (max_of-selected (λ m. eqb m.dataset_id dataset_id) (λ m. m.sequence_number) rows))

-- An id that is given can be bound.
abbrev pub is_bindable_id : Option ℕ → Bool
is_bindable_id none = true
is_bindable_id (some id) = is_bindable id

module _ {M V : Type 0} where
  correction-caught :
      (dataset_id : ℕ) (c : Option ℕ) (db : Db M V)
      → is_bindable_id c ≡ true
      → is_caught (check_correction dataset_id c db) ≡ true
  unfolding check_correction bind
  correction-caught dataset_id none db b = refl
  correction-caught dataset_id (some id) db b = ground arith

  record_in-caught :
      (now : ℕ → String) (id : ℕ) (p : MeasurementCreate V) (actor : Actor) (dataset : Dataset V)
      (db : Db M V)
      → fetch id db.datasets ≡ some dataset
      → is_bindable_id p.correction_of_id ≡ true
      → is_caught (record_in (alone now) id p actor db).0 ≡ true
  unfolding record_in new_measurement
  record_in-caught now id p actor dataset db found b =
      elim (Result-cases (resolve_tool_id p.tool_code db.tools)) [
        | inr (x, t) ↦ rw (record_in, t) (raised-caught _ x t (tool-caught p.tool_code db.tools))
        | inl (tool, t) ↦ elim (Result-cases (resolve_tool_id p.measurement_device_code db.tools)) [
          | inr (x, d) ↦
              rw (record_in, t, d)
                (raised-caught _ x d (tool-caught p.measurement_device_code db.tools))
          | inl (device, d) ↦ elim (Result-cases (check_correction id p.correction_of_id db)) [
            | inr (x, c) ↦
                rw (record_in, t, d, c)
                  (raised-caught _ x c (correction-caught id p.correction_of_id db b))
            | inl (_, c) ↦
                rw
                  (
                    record_in,
                    t,
                    d,
                    c,
                    new_measurement,
                    found,
                    slot_free id p tool device (now 0) (next_id db.measurements) db.measurements,
                  )
                  refl
          ]
        ]
      ]

module _ {V : Type 0} ⦃outside : Outside V⦄ where
  measured-caught : (v : V) → is_caught (validate_measured_value v) ≡ true
  unfolding validate_measured_value
  measured-caught v = ground arith

  dataset-caught : (p : DatasetCreate V) → is_caught (validate_dataset p) ≡ true
  unfolding validate_dataset
  dataset-caught p = ground arith

  study-caught : (p : StudyCreate V) → is_caught (validate_study p) ≡ true
  unfolding validate_study
  study-caught p = ground arith

module _ {M V : Type 0} ⦃outside : Outside V⦄ where
  pub create_record-caught :
      (now : ℕ → String) (id : ℕ) (p : MeasurementCreate V) (actor : Actor) (db : Db M V)
      → is_bindable_id p.correction_of_id ≡ true
      → is_caught (Measurements.create_record (alone now) id p actor db).0 ≡ true
  unfolding Measurements.create_record
  create_record-caught now id p actor db b = elim (Option-cases (fetch id db.datasets)) [
    | inl e ↦ rw (Measurements.create_record, get_dataset, e) refl
    | inr (dataset, e) ↦ elim (Result-cases (assert_study_editable dataset db)) [
      | inr (x, a) ↦
          rw (Measurements.create_record, get_dataset, e, a)
            (raised-caught _ x a (editable-caught dataset db))
      | inl (study, a) ↦ elim (Result-cases (validate_measured_value p.measured_value)) [
        | inr (x, v) ↦
            rw (Measurements.create_record, get_dataset, e, a, v)
              (raised-caught _ x v (measured-caught p.measured_value))
        | inl (_, v) ↦
            rw (Measurements.create_record, get_dataset, e, a, v)
              (record_in-caught now id p actor dataset db e b)
      ]
    ]
  ]

  pub create_dataset-caught :
      (now : ℕ → String) (id : ℕ) (p : DatasetCreate V) (actor : Actor) (db : Db M V)
      → is_bindable_size p.subgroup_size ≡ true
      → is_caught (Datasets.create_dataset (alone now) id p actor db).0 ≡ true
  unfolding Datasets.create_dataset new_dataset
  create_dataset-caught now id p actor db b = elim (Option-cases (fetch id db.studies)) [
    | inl e ↦ rw (Datasets.create_dataset, get_study, e) refl
    | inr (row, e) ↦ elim (Bool-cases (row.status == "approved")) [
      | inl s ↦ rw (Datasets.create_dataset, get_study, e, s) refl
      | inr s ↦ elim (Result-cases (validate_dataset p)) [
        | inr (x, v) ↦
            rw (Datasets.create_dataset, get_study, e, s, v)
              (raised-caught _ x v (dataset-caught p))
        | inl (_, v) ↦
            elim (Bool-cases (is_some (fetch_dataset_by_code id p.dataset_code db.datasets))) [
              | inl c ↦ rw (Datasets.create_dataset, get_study, e, s, v, c) refl
              | inr c ↦ rw (Datasets.create_dataset, get_study, e, s, v, c, new_dataset, b, e) refl
            ]
      ]
    ]
  ]

module _ {M V : Type 0} where
  references-caught :
      (p : StudyCreate V) (db : Db M V) → HasBindable p → is_caught (check_references p db) ≡ true
  unfolding check_references bind
  references-caught p db (project, joint, revision, calculation, calculation_revision) =
      rw (check_references, bind, project, joint, revision, calculation, calculation_revision)
        (ground arith)

  -- What the checks let through is inserted.
  references_stored :
      (p : StudyCreate V) (actor : Actor) (ts : String) (db : Db M V)
      → check_references p db ≡ ok tt
      → is_some (fetch_study_by_code p.study_code db.studies) ≡ false
      → is_some (insert_study (new_study p actor ts) db) ≡ true
  unfolding check_references insert_study new_study
  references_stored p actor ts db h c = ground (arith, h, c)

module _ {M V : Type 0} ⦃outside : Outside V⦄ where
  study_inserted-caught :
      (now : ℕ → String) (p : StudyCreate V) (actor : Actor) (o : Option (Study × Db M V))
      (db : Db M V)
      → is_some o ≡ true
      → is_caught (Creation.study_inserted (alone now) p actor o db).0 ≡ true
  unfolding Creation.study_inserted
  study_inserted-caught now p actor none db h = cc
  study_inserted-caught now p actor (some (row, after)) db h = refl

  pub create_study-caught :
      (now : ℕ → String) (p : StudyCreate V) (actor : Actor) (db : Db M V)
      → HasBindable p
      → is_caught (Creation.create_study (alone now) p actor db).0 ≡ true
  unfolding Creation.create_study accept_study
  create_study-caught now p actor db b = elim (Result-cases (validate_study p)) [
    | inr (x, v) ↦
        rw (Creation.create_study, accept_study, v) (raised-caught _ x v (study-caught p))
    | inl (_, v) ↦ elim (Result-cases (check_references p db)) [
      | inr (x, r) ↦
          rw (Creation.create_study, accept_study, v, r)
            (raised-caught _ x r (references-caught p db b))
      | inl (_, r) ↦ elim (Bool-cases (is_some (fetch_study_by_code p.study_code db.studies))) [
        | inl c ↦ rw (Creation.create_study, accept_study, v, r, c) refl
        | inr c ↦
            rw (Creation.create_study, accept_study, v, r, c)
              (study_inserted-caught now p actor (insert_study (new_study p actor (now 0)) db) db
                (references_stored p actor (now 0) db r c))
      ]
    ]
  ]
