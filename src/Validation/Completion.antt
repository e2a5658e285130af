-- ===== src/Validation/Completion.antt =====
-- When a study can be completed (`complete_study` of backend/production_validation/service.py).
use torq_pro.Prelude.{
  ◌≡◌, ◌↔◌, refl, sym, ℕ, ◌≤◌, String, true, false, ◌⊎◌, inl, inr, some, List, [], ◌∷◌, ◌==◌,
  string_eq, eqb, eqb-eq, ltb, filter, contains, Bool-cases, Option-cases, ok, arith,
}
use torq_pro.Sqlite.{alone, fetch, update}
use torq_pro.Validation.Tables.{Db, Study, Dataset, Measurement, study_key, in_study, count_records}
use torq_pro.Validation.Rules.{Actor, may_become, targets, study_transitions}
use torq_pro.Validation.Studies.{Answer, get_study, set_completed}
use torq_pro.Validation.Reviews.{total_valid, complete_study}

-- Some element of the list.
abbrev pub Any : {A : Type 0} → (A → Type 0) → List A → Type 0
Any P [] = ⊥
Any P (x ∷ xs) = P x ⊎ Any P xs

module _ {V : Type 0} where
  abbrev pub IsValidIn : ℕ → Measurement V → Type 0
  IsValidIn dataset_id m = (m.dataset_id ≡ dataset_id) × (m.is_valid ≡ true)

  -- A dataset of the study has a valid measurement.
  abbrev pub HasValid : ℕ → List (Dataset V) → List (Measurement V) → Type 0
  HasValid study_id datasets measurements =
      Any (λ d. (d.validation_study_id ≡ study_id) × Any (IsValidIn d.id) measurements) datasets

  count-Any :
      (dataset_id : ℕ) (ms : List (Measurement V))
      → 1 ≤ count_records dataset_id ms
      → Any (IsValidIn dataset_id) ms
  unfolding count_records filter
  count-Any dataset_id [] h = omega (arith, h)
  count-Any dataset_id (m ∷ ms) h = elim (Bool-cases (eqb m.dataset_id dataset_id)) [
    | inr e ↦ inr (count-Any dataset_id ms (rw (count_records, filter, e) at h))
    | inl e ↦ elim (Bool-cases m.is_valid) [
      | inl v ↦ inl ((eqb-eq m.dataset_id dataset_id).0 e, v)
      | inr v ↦ inr (count-Any dataset_id ms (rw (count_records, filter, e, v) at h))
    ]
  ]

  Any-count :
      (dataset_id : ℕ) (ms : List (Measurement V))
      → Any (IsValidIn dataset_id) ms
      → 1 ≤ count_records dataset_id ms
  unfolding count_records filter
  Any-count dataset_id [] a = elim a [ ]
  Any-count dataset_id (m ∷ ms) (inl (e, v)) =
      rw ((eqb-eq m.dataset_id dataset_id).1 e, v) (omega arith)
  Any-count dataset_id (m ∷ ms) (inr a) = ground (arith, Any-count dataset_id ms a)

  total-HasValid :
      (study_id : ℕ) (ds : List (Dataset V)) (ms : List (Measurement V))
      → 1 ≤ total_valid (in_study study_id ds) ms
      → HasValid study_id ds ms
  unfolding total_valid filter
  total-HasValid study_id [] ms h = omega (arith, h)
  total-HasValid study_id (d ∷ ds) ms h = elim (Bool-cases (eqb d.validation_study_id study_id)) [
    | inr e ↦ inr (total-HasValid study_id ds ms (rw (filter, e) at h))
    | inl e ↦ elim (Bool-cases (ltb (count_records d.id ms) 1)) [
      | inr c ↦
          inl ((eqb-eq d.validation_study_id study_id).0 e, count-Any d.id ms (ground (arith, c)))
      | inl c ↦
          inr
            (total-HasValid study_id ds ms (ground (arith, c, (rw (filter, e, total_valid) at h))))
    ]
  ]

  HasValid-total :
      (study_id : ℕ) (ds : List (Dataset V)) (ms : List (Measurement V))
      → HasValid study_id ds ms
      → 1 ≤ total_valid (in_study study_id ds) ms
  unfolding total_valid filter
  HasValid-total study_id [] ms a = elim a [ ]
  HasValid-total study_id (d ∷ ds) ms (inl (e, a)) =
      rw ((eqb-eq d.validation_study_id study_id).1 e) (omega (arith, Any-count d.id ms a))
  HasValid-total study_id (d ∷ ds) ms (inr a) = ground (arith, HasValid-total study_id ds ms a)

completed_from : (s : String) → may_become s "completed" ≡ true → s ≡ "data_collection"
unfolding may_become targets study_transitions contains
completed_from s h = elim (Bool-cases ("data_collection" == s)) [
  | inl e ↦ sym ((string_eq.matches_iff "data_collection" s).0 e)
  | inr e ↦ let bad : true ≡ false = ground (arith, e, h) in cc bad
]

module _ {M V : Type 0} where
  -- Completing a study, with no other writer during it, succeeds exactly if the study is stored, it
  -- collects data, and one of its datasets has a valid measurement.
  pub complete_iff :
      (now : ℕ → String) (id : ℕ) (actor : Actor) (db : Db M V)
      → ((a : Answer V) × ((complete_study (alone now) id actor db).0 ≡ ok a)) ↔ (
          (s : Study) × (fetch id db.studies ≡ some s)
          × (s.status ≡ "data_collection")
          × HasValid id db.datasets db.measurements)
  unfolding complete_study may_become
  complete_iff now id actor db = (to, from)
    where
      to :
          ((a : Answer V) × ((complete_study (alone now) id actor db).0 ≡ ok a))
          → (s : Study) × (fetch id db.studies ≡ some s)
            × (s.status ≡ "data_collection")
            × HasValid id db.datasets db.measurements
      to (a, h) = elim (Option-cases (fetch id db.studies)) [
        | inl e ↦ cc (rw (complete_study, get_study, e) at h)
        | inr (s, e) ↦ elim (Bool-cases (may_become s.status "completed")) [
          | inr m ↦ cc (rw (complete_study, get_study, e, m) at h)
          | inl m ↦
              elim (Bool-cases (ltb (total_valid (in_study id db.datasets) db.measurements) 1)) [
                | inl v ↦ cc (rw (complete_study, get_study, e, m, v) at h)
                | inr v ↦ (
                  s,
                  e,
                  completed_from s.status m,
                  total-HasValid id db.datasets db.measurements (ground (arith, v)),
                )
              ]
        ]
      ]

      from :
          ((s : Study) × (fetch id db.studies ≡ some s)
            × (s.status ≡ "data_collection")
            × HasValid id db.datasets db.measurements)
          → (a : Answer V) × ((complete_study (alone now) id actor db).0 ≡ ok a)
      from (s, e, c, v) =
          let enough : ltb (total_valid (in_study id db.datasets) db.measurements) 1 ≡ false =
            ground (arith, HasValid-total id db.datasets db.measurements v) in
          let allowed : may_become s.status "completed" ≡ true = rw c refl in
          (
            Answer.study (fetch id (update id (set_completed (now 0)) db.studies)),
            rw (complete_study, get_study, e, allowed, enough) refl,
          )
