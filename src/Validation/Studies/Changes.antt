-- ===== src/Validation/Studies/Changes.antt =====
-- What a call that runs alone has done to the table of studies, by cases
-- (backend/production_validation/service.py).
use torq_pro.Prelude.{
  ◌≡◌, refl, ℕ, String, true, false, ◌⊎◌, inl, inr, none, some, List, [], ◌∷◌, ◌++◌, ◌==◌,
  string_eq, option_eq, nat_eq, ltb, ◌>>◌, Bool-cases, Option-cases, Result-cases,
}
use torq_pro.Sqlite.{alone, next_id, fetch, update}
use torq_pro.Validation.Tables.{Db, Study, study_key, in_study}
use torq_pro.Validation.Rules.{Actor, bind, may_become, require_role}
use torq_pro.Validation.Studies.{set_status, set_completed, set_approved, get_study}
use torq_pro.Validation.Reviews
use torq_pro.Validation.Reviews.{total_valid}

-- What no call changes of a study.
unfoldable pub fixed_part : Study → Study
fixed_part s = record s {
  name = "";
  description = none;
  status = "";
  updated_at = none;
  started_at = none;
  completed_at = none;
  approved_at = none;
  approved_by = none;
  source = none;
  notes = none;
}

-- The status stays, or it moves along the table of transitions.
abbrev pub IsStep : String → String → Type 0
IsStep s t = (t ≡ s) ⊎ (may_become s t ≡ true)

-- One update of a study: an approval that it writes is by another than the creator.
pub record Advances (row next : Study) : Type 0 where
  pub fixed : fixed_part next ≡ fixed_part row
  pub status : IsStep row.status next.status
  pub approval :
      ((next.approved_at ≡ row.approved_at) × (next.approved_by ≡ row.approved_by))
      ⊎ ((next.created_by == next.approved_by) ≡ false)

pub data StudyChange (rows later : List Study) : Type 0 where
  kept : later ≡ rows → StudyChange rows later
  added :
      (row : Study)
      → row.id ≡ next_id rows
      → row.approved_at ≡ none
      → later ≡ rows ++ row ∷ []
      → StudyChange rows later
  moved :
      (id : ℕ) (f : Study → Study) (row : Study)
      → fetch id rows ≡ some row
      → ((s : Study) → (f s).id ≡ s.id)
      → Advances row (f row)
      → later ≡ update id f rows
      → StudyChange rows later

-- An update of the status along the table.
status-Advances :
    (row : Study) (status ts : String)
    → may_become row.status status ≡ true
    → Advances row (set_status status ts row)
unfolding set_status fixed_part
status-Advances row status ts m = record {
  fixed = refl;
  status = inr m;
  approval = inl (refl, refl);
}

module _ {M V : Type 0} where
  pub complete-StudyChange :
      (now : ℕ → String) (id : ℕ) (actor : Actor) (db : Db M V)
      → StudyChange db.studies (Reviews.complete_study (alone now) id actor db).1.studies
  unfolding Reviews.complete_study set_completed fixed_part
  complete-StudyChange now id actor db = elim (Option-cases (fetch id db.studies)) [
    | inl e ↦ rw (Reviews.complete_study, get_study, e) (StudyChange.kept refl)
    | inr (row, e) ↦ elim (Bool-cases (may_become row.status "completed")) [
      | inr m ↦ rw (Reviews.complete_study, get_study, e, m) (StudyChange.kept refl)
      | inl m ↦ elim (Bool-cases (ltb (total_valid (in_study id db.datasets) db.measurements) 1)) [
        | inl v ↦ rw (Reviews.complete_study, get_study, e, m, v) (StudyChange.kept refl)
        | inr v ↦
            rw (Reviews.complete_study, get_study, e, m, v)
              (StudyChange.moved id (set_completed (now 0)) row e (λ s. refl)
                (record { fixed = refl; status = inr m; approval = inl (refl, refl) }) refl)
      ]
    ]
  ]

  pub submit-StudyChange :
      (now : ℕ → String) (id : ℕ) (actor : Actor) (db : Db M V)
      → StudyChange db.studies (Reviews.submit_study (alone now) id actor db).1.studies
  unfolding Reviews.submit_study set_status
  submit-StudyChange now id actor db = elim (Option-cases (fetch id db.studies)) [
    | inl e ↦ rw (Reviews.submit_study, get_study, e) (StudyChange.kept refl)
    | inr (row, e) ↦ elim (Bool-cases (may_become row.status "under_review")) [
      | inr m ↦ rw (Reviews.submit_study, get_study, e, m) (StudyChange.kept refl)
      | inl m ↦
          rw (Reviews.submit_study, get_study, e, m)
            (StudyChange.moved id (set_status "under_review" (now 0)) row e (λ s. refl)
              (status-Advances row "under_review" (now 0) m) refl)
    ]
  ]

  pub archive-StudyChange :
      (now : ℕ → String) (id : ℕ) (actor : Actor) (db : Db M V)
      → StudyChange db.studies (Reviews.archive_study (alone now) id actor db).1.studies
  unfolding Reviews.archive_study set_status
  archive-StudyChange now id actor db = elim (Option-cases (fetch id db.studies)) [
    | inl e ↦ rw (Reviews.archive_study, get_study, e) (StudyChange.kept refl)
    | inr (row, e) ↦ elim (Bool-cases (may_become row.status "archived")) [
      | inr m ↦ rw (Reviews.archive_study, get_study, e, m) (StudyChange.kept refl)
      | inl m ↦
          rw (Reviews.archive_study, get_study, e, m)
            (StudyChange.moved id (set_status "archived" (now 0)) row e (λ s. refl)
              (status-Advances row "archived" (now 0) m) refl)
    ]
  ]

  pub reject-StudyChange :
      (now : ℕ → String) (id : ℕ) (actor : Actor) (db : Db M V)
      → StudyChange db.studies (Reviews.reject_study (alone now) id actor db).1.studies
  unfolding Reviews.reject_study set_status
  reject-StudyChange now id actor db = elim (Result-cases (require_role actor >> bind id)) [
    | inr (x, r) ↦ rw (Reviews.reject_study, r) (StudyChange.kept refl)
    | inl (_, r) ↦ elim (Option-cases (fetch id db.studies)) [
      | inl e ↦ rw (Reviews.reject_study, r, get_study, e) (StudyChange.kept refl)
      | inr (row, e) ↦ elim (Bool-cases (may_become row.status "rejected")) [
        | inr m ↦ rw (Reviews.reject_study, r, get_study, e, m) (StudyChange.kept refl)
        | inl m ↦
            rw (Reviews.reject_study, r, get_study, e, m)
              (StudyChange.moved id (set_status "rejected" (now 0)) row e (λ s. refl)
                (status-Advances row "rejected" (now 0) m) refl)
      ]
    ]
  ]

  pub approve-StudyChange :
      (now : ℕ → String) (id : ℕ) (actor : Actor) (db : Db M V)
      → StudyChange db.studies (Reviews.approve_study (alone now) id actor db).1.studies
  unfolding Reviews.approve_study set_approved fixed_part
  approve-StudyChange now id actor db = elim (Result-cases (require_role actor >> bind id)) [
    | inr (x, r) ↦ rw (Reviews.approve_study, r) (StudyChange.kept refl)
    | inl (_, r) ↦ elim (Option-cases (fetch id db.studies)) [
      | inl e ↦ rw (Reviews.approve_study, r, get_study, e) (StudyChange.kept refl)
      | inr (row, e) ↦ elim (Bool-cases (may_become row.status "approved")) [
        | inr m ↦ rw (Reviews.approve_study, r, get_study, e, m) (StudyChange.kept refl)
        | inl m ↦ elim (Bool-cases (row.created_by == actor.id)) [
          | inl o ↦ rw (Reviews.approve_study, r, get_study, e, m, o) (StudyChange.kept refl)
          | inr o ↦
              rw (Reviews.approve_study, r, get_study, e, m, o)
                (StudyChange.moved id (set_approved actor.id (now 0)) row e (λ s. refl)
                  (record { fixed = refl; status = inr m; approval = inr o }) refl)
        ]
      ]
    ]
  ]
