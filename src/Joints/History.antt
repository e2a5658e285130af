-- ===== src/Joints/History.antt =====
-- What later calls leave of a stored revision (backend/joints/service.py).
use torq_pro.Prelude.{
  ◌≡◌, refl, ap, sym, subst, ◌∙◌, ℕ, String, Bool, ◌⊎◌, inl, inr, none, some, List, [], ◌∷◌, ◌++◌,
  string_eq, option_eq, nat_eq, eqb, eqb-eq, find, if◌then◌else◌, All, All-map, All-find, some-inj,
  find-map_stable, find-snoc, Bool-cases,
}
use torq_pro.Governance.Events.{Metadata}
use torq_pro.Sqlite.{alone, fetch, update}
use torq_pro.Sqlite.Laws.{IsKeyed, fetch-own}
use torq_pro.Joints.Tables.{Revision, Db, joint_key, revision_key}
use torq_pro.Joints.Service.{set_submitted, set_approved, set_rejected}
use torq_pro.Joints.Commands.{Command, run, replay}
use torq_pro.Joints.Changes.{Change, run-Change}
use torq_pro.Joints.Invariant.{IsSound}
use torq_pro.Joints.Runs.{Change-IsSound}

abbrev pub IsDecided : String → Type 0
IsDecided s = (s ≡ "approved") ⊎ (s ≡ "rejected")

-- One step of a revision's lifecycle.
pub data Step (s t : String) : Type 0 where
  submit : s ≡ "draft" → t ≡ "review" → Step s t
  decide : s ≡ "review" → IsDecided t → Step s t

-- Any number of steps.
pub data Onward : String → String → Type 0 where
  stay : {s : String} → Onward s s
  step : {s u t : String} → Step s u → Onward u t → Onward s t

Onward-trans : {s t u : String} → Onward s t → Onward t u → Onward s u
Onward-trans Onward.stay q = q
Onward-trans (Onward.step a p) q = Onward.step a (Onward-trans p q)

undecided_before : {s t : String} → Step s t → IsDecided s → ⊥
undecided_before (Step.submit e _) (inl d) = cc
undecided_before (Step.submit e _) (inr d) = cc
undecided_before (Step.decide e _) (inl d) = cc
undecided_before (Step.decide e _) (inr d) = cc

module _ {M : Type 0} where
  -- A revision without its status and what its review writes.
  unfoldable pub fixed_part : Revision M → Revision M
  fixed_part r = record r {
    status = "";
    submitted_at = none;
    reviewed_by = none;
    reviewed_at = none;
    approved_at = none;
  }

  -- The row `next` is the row `row` some calls later: only its status and its review may differ,
  -- the status moves on, and a decided row is not written again.
  pub record Continues (row next : Revision M) : Type 0 where
    pub fixed : fixed_part next ≡ fixed_part row
    pub status : Onward row.status next.status
    pub final : IsDecided row.status → next ≡ row

  pub Continues-refl : (r : Revision M) → Continues r r
  Continues-refl r = record { fixed = refl; status = Onward.stay; final = λ d. refl }

  pub Continues-trans : (a b c : Revision M) → Continues a b → Continues b c → Continues a c
  Continues-trans a b c p q = record {
    fixed = q.fixed ∙ p.fixed;
    status = Onward-trans p.status q.status;
    final = λ d. q.final (subst IsDecided (ap (λ r. r.status) (sym (p.final d))) d) ∙ p.final d;
  }

  step-Continues :
      (row next : Revision M)
      → fixed_part next ≡ fixed_part row
      → Step row.status next.status
      → Continues row next
  step-Continues row next e s = record {
    fixed = e;
    status = Onward.step s Onward.stay;
    final = λ d. elim (undecided_before s d) [ ];
  }

  -- A test that reads only what stays.
  abbrev pub IsStable : (Revision M → Bool) → Type 0
  IsStable p = (row next : Revision M) → Continues row next → p next ≡ p row

  -- What is found before is found after, further on.
  abbrev pub Keeps : List (Revision M) → List (Revision M) → Type 0
  Keeps rows later =
      (p : Revision M → Bool)
      → IsStable p
      → (row : Revision M) → find p rows ≡ some row
      → (next : Revision M) × (find p later ≡ some next) × Continues row next

  Keeps-refl : (rows : List (Revision M)) → Keeps rows rows
  Keeps-refl rows p stable row found = (row, found, Continues-refl row)

  Keeps-snoc : (rows : List (Revision M)) (new : Revision M) → Keeps rows (rows ++ new ∷ [])
  Keeps-snoc rows new p stable row found =
      (row, find-snoc p rows new ∙ rw found refl, Continues-refl row)

  Keeps-update :
      (revision_id : ℕ) (f : Revision M → Revision M) (rows : List (Revision M)) (rev : Revision M)
      → IsKeyed rows
      → fetch revision_id rows ≡ some rev
      → Continues rev (f rev)
      → Keeps rows (update revision_id f rows)
  unfolding update
  Keeps-update revision_id f rows rev keyed e c p stable row found = (
    touch row,
    find-map_stable p touch rows row
        (All-map (λ r. Continues r (touch r)) (λ r. p (touch r) ≡ p r) (λ r q. stable r (touch r) q)
          rows steps)
        found,
    All-find (λ r. Continues r (touch r)) p rows row steps found,
  )
    where
      touch : Revision M → Revision M
      touch r = if eqb r.id revision_id then f r else r

      step : (r : Revision M) → fetch r.id rows ≡ some r → Continues r (touch r)
      step r own = elim (Bool-cases (eqb r.id revision_id)) [
        | inl t ↦ rw t (
            subst (λ x. Continues x (f x))
              (some-inj rev r
                (sym e ∙ subst (λ i. fetch i rows ≡ some r) ((eqb-eq r.id revision_id).0 t) own))
              c)
        | inr t ↦ rw t (Continues-refl r)
      ]

      steps : All (λ r. Continues r (touch r)) rows
      steps =
          All-map (λ r. fetch r.id rows ≡ some r) (λ r. Continues r (touch r)) step rows
            (fetch-own rows keyed)

module _ {M : Type 0} ⦃meta : Metadata M⦄ where
  Change-Keeps :
      (db after : Db M) → Change db after → IsSound db → Keeps db.revisions after.revisions
  unfolding set_submitted set_approved set_rejected fixed_part
  Change-Keeps db after (Change.unchanged ej er) h = rw er (Keeps-refl db.revisions)
  Change-Keeps db after (Change.joint_added r ts clash ej er) h = rw er (Keeps-refl db.revisions)
  Change-Keeps db after (Change.joint_closed i a u ej er) h = rw er (Keeps-refl db.revisions)
  Change-Keeps db after (Change.revision_added r ts row found live clash ej er) h =
      rw er (Keeps-snoc db.revisions _)
  Change-Keeps db after (Change.submitted i rev ts found s ej er) h = rw er (
      Keeps-update i (set_submitted ts) db.revisions rev h.revision_ids found (
        step-Continues rev (set_submitted ts rev) refl
          (Step.submit ((string_eq.matches_iff rev.status "draft").0 s) refl)))
  Change-Keeps db after (Change.approved i rev actor_id ts found s other ej er) h = rw er (
      Keeps-update i (set_approved actor_id ts) db.revisions rev h.revision_ids found (
        step-Continues rev (set_approved actor_id ts rev) refl
          (Step.decide ((string_eq.matches_iff rev.status "review").0 s) (inl refl))))
  Change-Keeps db after (Change.rejected i rev actor_id ts found s other ej er) h = rw er (
      Keeps-update i (set_rejected actor_id ts) db.revisions rev h.revision_ids found (
        step-Continues rev (set_rejected actor_id ts rev) refl
          (Step.decide ((string_eq.matches_iff rev.status "review").0 s) (inr refl))))

  pub replay-Keeps :
      (calls : List ((ℕ → String) × Command M)) (db : Db M)
      → IsSound db
      → Keeps db.revisions (replay calls db).revisions
  unfolding replay
  replay-Keeps [] db h p stable row found = (row, found, Continues-refl row)
  replay-Keeps ((now, c) ∷ cs) db h p stable row found =
      let next = (run (alone now) c db).1 in
      let change = run-Change now c db in
      let (mid, at_mid, first) = Change-Keeps db next change h p stable row found in
      let (last, at_last, rest) =
        replay-Keeps cs next (Change-IsSound db next change h) p stable mid at_mid in
      (last, at_last, Continues-trans row mid last first rest)

  -- From sound tables and through calls that run one after the other, a stored revision stays under
  -- its id with its joint, number, snapshot, summary, author and key; its status only moves from
  -- draft to review and from review to approved or rejected; once it is decided, nothing of it
  -- changes. Overlapping calls are not covered.
  pub replay-Continues :
      (calls : List ((ℕ → String) × Command M)) (db : Db M) (id : ℕ) (row : Revision M)
      → IsSound db
      → fetch id db.revisions ≡ some row
      → (next : Revision M) × (fetch id (replay calls db).revisions ≡ some next)
        × Continues row next
  unfolding fetch fixed_part
  replay-Continues calls db id row h found =
      replay-Keeps calls db h (λ r. eqb r.id id) (λ row next c. ap (λ r. eqb r.id id) c.fixed) row
        found
