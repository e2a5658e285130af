-- ===== src/Validation/Measurements/Validity.antt =====
-- The invariant of the table of measurements (backend/production_validation/service.py).
use torq_pro.Prelude.{
  ◌≡◌, refl, ◌∙◌, ℕ, false, not, ◌⊎◌, inl, inr, Option, none, some, List, [], ◌∷◌, ◌++◌, eqb,
  eqb-eq, if◌then◌else◌, All, All-image, Ordered, Ordered-image, Bool-cases, arith,
}
use torq_pro.Sqlite.{next_id, fetch, update}
use torq_pro.Sqlite.Laws.{IsKeyed, update-IsKeyed, fetch-update, fetch-snoc-kept}
use torq_pro.Joints.Tables.{is_some}
use torq_pro.Validation.Tables.{Measurement, Reason, measurement_key}
use torq_pro.Validation.Measurements.{set_invalid, same_slot}

module _ {V : Type 0} where
  -- A measurement has a reason exactly if it is not valid.
  abbrev pub IsMarked : Measurement V → Type 0
  IsMarked m = is_some m.invalid_reason ≡ not m.is_valid

  -- What a measurement of the dataset corrects is an invalid measurement of the dataset.
  abbrev pub CorrectionOf : List (Measurement V) → ℕ → Option ℕ → Type 0
  CorrectionOf rows dataset_id none = Unit
  CorrectionOf rows dataset_id (some id) =
      (x : Measurement V) × (fetch id rows ≡ some x)
      × (x.dataset_id ≡ dataset_id)
      × (x.is_valid ≡ false)

  pub record IsConsistent (rows : List (Measurement V)) : Type 0 where
    pub ids : IsKeyed rows
    pub slots : Ordered (λ a b. same_slot a b ≡ false) rows
    pub marked : All IsMarked rows
    pub corrections : All (λ m. CorrectionOf rows m.dataset_id m.correction_of_id) rows

  -- A correction that will be one once the measurement `id` is invalid.
  abbrev pub Pending : ℕ → List (Measurement V) → Measurement V → Type 0
  Pending id rows m =
      CorrectionOf rows m.dataset_id m.correction_of_id
      ⊎ ((m.correction_of_id ≡ some id)
          × ((x : Measurement V) × (fetch id rows ≡ some x) × (x.dataset_id ≡ m.dataset_id)))

  module _ (id : ℕ) (reason : Reason) where
    touch : Measurement V → Measurement V
    unfolding set_invalid
    touch m = if eqb m.id id then set_invalid reason m else m

    touch-dataset : (m : Measurement V) → (touch m).dataset_id ≡ m.dataset_id
    unfolding touch
    touch-dataset m = ground arith

    touch-number : (m : Measurement V) → (touch m).sequence_number ≡ m.sequence_number
    unfolding touch
    touch-number m = ground arith

    touch-correction : (m : Measurement V) → (touch m).correction_of_id ≡ m.correction_of_id
    unfolding touch
    touch-correction m = ground arith

    touch-IsMarked : (m : Measurement V) → IsMarked m → IsMarked (touch m)
    unfolding touch
    touch-IsMarked m h = elim (Bool-cases (eqb m.id id)) [
      | inl e ↦ rw (touch, e) refl
      | inr e ↦ rw (touch, e) h
    ]

    invalid_at :
        (rows : List (Measurement V)) (x : Measurement V) (dataset_id : ℕ)
        → fetch id rows ≡ some x
        → x.dataset_id ≡ dataset_id
        → CorrectionOf (update id (set_invalid reason) rows) dataset_id (some id)
    unfolding set_invalid
    invalid_at rows x dataset_id found at = (
      set_invalid reason x,
      fetch-update id (set_invalid reason) (λ r. refl) id rows
          ∙ rw (found, (eqb-eq id id).1 refl) refl,
      at,
      refl,
    )

    kept_correction :
        (rows : List (Measurement V)) (dataset_id : ℕ) (c : Option ℕ)
        → CorrectionOf rows dataset_id c
        → CorrectionOf (update id (set_invalid reason) rows) dataset_id c
    unfolding set_invalid
    kept_correction rows dataset_id none h = tt
    kept_correction rows dataset_id (some c) (x, found, at, invalid) =
        elim (Bool-cases (eqb c id)) [
          | inl t ↦ (
            set_invalid reason x,
            fetch-update id (set_invalid reason) (λ r. refl) c rows ∙ rw (t, found) refl,
            at,
            refl,
          )
          | inr t ↦
              (x, fetch-update id (set_invalid reason) (λ r. refl) c rows ∙ rw t found, at, invalid)
        ]

    settled :
        (rows : List (Measurement V)) (m : Measurement V)
        → Pending id rows m
        → CorrectionOf (update id (set_invalid reason) rows) m.dataset_id m.correction_of_id
    settled rows m (inl h) = kept_correction rows m.dataset_id m.correction_of_id h
    settled rows m (inr (e, (x, found, at))) = rw e (invalid_at rows x m.dataset_id found at)

    pub invalid-IsConsistent :
        (rows : List (Measurement V))
        → IsKeyed rows
        → Ordered (λ a b. same_slot a b ≡ false) rows
        → All IsMarked rows
        → All (Pending id rows) rows
        → IsConsistent (update id (set_invalid reason) rows)
    unfolding update touch
    invalid-IsConsistent rows ids slots marked pending = record {
      ids = update-IsKeyed id (set_invalid reason) (λ r. refl) rows ids;
      slots =
          Ordered-image touch (λ a b. same_slot a b ≡ false) (λ a b. same_slot a b ≡ false)
            (λ a b e. rw (touch-dataset a, touch-dataset b, touch-number a, touch-number b) e) rows
            slots;
      marked = All-image touch IsMarked IsMarked touch-IsMarked rows marked;
      corrections =
          All-image touch (Pending id rows)
            (λ m.
              CorrectionOf (update id (set_invalid reason) rows) m.dataset_id m.correction_of_id)
            (λ m p. rw (touch-dataset m, touch-correction m) (settled rows m p)) rows pending;
    }

  pub snoc_correction :
      (rows : List (Measurement V)) (new : Measurement V) (dataset_id : ℕ) (c : Option ℕ)
      → new.id ≡ next_id rows
      → CorrectionOf rows dataset_id c
      → CorrectionOf (rows ++ new ∷ []) dataset_id c
  snoc_correction rows new dataset_id none k h = tt
  snoc_correction rows new dataset_id (some c) k (x, found, at, invalid) =
      (x, fetch-snoc-kept c rows new x k found, at, invalid)
