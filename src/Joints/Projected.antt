-- ===== src/Joints/Projected.antt =====
-- The adapter of joint revisions (backend/governance/adapters/joint_revision.py) over the tables of
-- the joint service.
use torq_pro.Prelude.{
  ◌≡◌, refl, ap, subst, ◌∙◌, ℕ, inl, inr, some, List, [], ◌∷◌, map, pos, int_eq, ◌==◌, string_eq,
  nat_eq, eqb, find, All-find, arith,
}
use mathlib.Core.Option
use torq_pro.Sqlite.{fetch}
use torq_pro.Sqlite.Laws.{fetch-key}
use torq_pro.Joints.Tables.{Revision, Db, revision_key}
use torq_pro.Joints.Invariant.{IsSound, IsProper}
use torq_pro.Revisions.Source.{Row, Field}
use torq_pro.Revisions.Projection.{
  ProjectionOutcome, outcome_value, status_map, project_joint_revision, project_status,
}
use torq_pro.Revisions.Projection.Tables.{table_service, Found-project}

module _ {M : Type 0} where
  -- The columns that the adapter reads.
  abbrev pub as_row : Revision M → Row
  as_row r = record { id = pos r.id; joint_id = pos r.joint_id; status = Field.text r.status }

  abbrev pub stored_rows : Db M → List Row
  stored_rows db = map as_row db.revisions

  find-as_row :
      (id : ℕ) (rows : List (Revision M))
      → find (λ x. x.id == pos id) (map as_row rows) ≡ Option.map as_row (fetch id rows)
  unfolding find fetch
  find-as_row id [] = refl
  find-as_row id (r ∷ rs) = ground (arith, find-as_row id rs)

  supported_status :
      (id : ℕ) (r : Revision M)
      → IsProper r
      → (project_status (pos id) (Field.text r.status)).outcome
        ≡ outcome_value ProjectionOutcome.supported
  unfolding project_status status_map outcome_value
  supported_status id r (IsProper.open_draft s n) = rw s refl
  supported_status id r (IsProper.in_review s n) = rw s refl
  supported_status id r (IsProper.reviewed (inl s) _ _) = rw s refl
  supported_status id r (IsProper.reviewed (inr s) _ _) = rw s refl

  -- Over sound joint tables the adapter supports every stored revision: under its id it answers
  -- with the outcome "supported", and with the status that is stored.
  pub project-stored :
      (db : Db M) (id : ℕ) (row : Revision M)
      → IsSound db
      → fetch id db.revisions ≡ some row
      → (project_joint_revision (table_service (some (stored_rows db))) (pos id)
          ≡ project_status (pos id) (Field.text row.status))
        × ((project_status (pos id) (Field.text row.status)).outcome
            ≡ outcome_value ProjectionOutcome.supported)
  unfolding fetch
  project-stored db id row h found =
      let own = fetch-key id db.revisions row found in
      (
        subst
            (λ i.
              project_joint_revision (table_service (some (stored_rows db))) (pos i)
              ≡ project_status (pos i) (Field.text row.status))
            own
            (Found-project (stored_rows db) (as_row row) (
              find-as_row row.id db.revisions
              ∙ ap (Option.map as_row) (ap (λ i. fetch i db.revisions) own ∙ found))),
        supported_status id row
            (All-find IsProper (λ r. eqb r.id id) db.revisions row h.proper found),
      )
