-- ===== src/Joints/Updates.antt =====
-- What an update of one revision leaves of the invariant (backend/joints/service.py).
use torq_pro.Prelude.{
  ◌≡◌, ap, sym, subst, ◌∙◌, ℕ, true, false, inl, inr, Option, none, some, List, string_eq,
  option_eq, nat_eq, eqb, if◌then◌else◌, All, All-image, All-both, some-inj, eqb-eq, ◌≢◌, Ordered,
  Ordered-image, Bool-cases, arith,
}
use torq_pro.Sqlite.{fetch, update}
use torq_pro.Sqlite.Laws.{IsKeyed, fetch-update, fetch-own}
use torq_pro.Joints.Tables.{Joint, Revision, joint_key, revision_key, is_some, revision_clash}
use torq_pro.Joints.Creation.{of_joint}
use torq_pro.Joints.Invariant.{Numbered, IsProper, CurrentOf, of_joint-map-Numbered}

module _ {M : Type 0} where
  -- What an update of a revision leaves alone.
  pub record KeepsIdentity (f : Revision M → Revision M) : Type 0 where
    pub id : (r : Revision M) → (f r).id ≡ r.id
    pub joint_id : (r : Revision M) → (f r).joint_id ≡ r.joint_id
    pub revision_no : (r : Revision M) → (f r).revision_no ≡ r.revision_no
    pub key : (r : Revision M) → (f r).idempotency_key ≡ r.idempotency_key

  -- The invariant's parts that an update of one revision keeps by itself.
  module _ (revision_id : ℕ) (f : Revision M → Revision M) (keeps : KeepsIdentity f)
      (rows : List (Revision M)) where
    touched : Revision M → Revision M
    touched r = if eqb r.id revision_id then f r else r

    touched-joint_id : (r : Revision M) → (touched r).joint_id ≡ r.joint_id
    unfolding touched
    touched-joint_id r = ground (arith, keeps.joint_id r)

    touched-revision_no : (r : Revision M) → (touched r).revision_no ≡ r.revision_no
    unfolding touched
    touched-revision_no r = ground (arith, keeps.revision_no r)

    touched-key : (r : Revision M) → (touched r).idempotency_key ≡ r.idempotency_key
    unfolding touched
    touched-key r = ground (arith, keeps.key r)

    pub update-Numbered :
        (joint_id : ℕ)
        → Numbered 0 (of_joint joint_id rows)
        → Numbered 0 (of_joint joint_id (update revision_id f rows))
    unfolding update touched
    update-Numbered joint_id h =
        of_joint-map-Numbered touched touched-joint_id touched-revision_no 0 joint_id rows h

    pub update-revision_keys :
        Ordered (λ a b. revision_clash a b ≡ false) rows
        → Ordered (λ a b. revision_clash a b ≡ false) (update revision_id f rows)
    unfolding update touched revision_clash
    update-revision_keys h =
        Ordered-image touched (λ a b. revision_clash a b ≡ false)
          (λ a b. revision_clash a b ≡ false)
          (λ a b e.
            rw
              (
                touched-joint_id a,
                touched-joint_id b,
                touched-revision_no a,
                touched-revision_no b,
                touched-key a,
                touched-key b,
              )
              e)
          rows h

    pub update-owned :
        (joints : List Joint)
        → All (λ r. is_some (fetch r.joint_id joints) ≡ true) rows
        → All (λ r. is_some (fetch r.joint_id joints) ≡ true) (update revision_id f rows)
    unfolding update touched
    update-owned joints h =
        All-image touched (λ r. is_some (fetch r.joint_id joints) ≡ true)
          (λ r. is_some (fetch r.joint_id joints) ≡ true) (λ r e. rw (touched-joint_id r) e) rows h

    pub update-proper :
        ((r : Revision M) → fetch revision_id rows ≡ some r → IsProper r → IsProper (f r))
        → IsKeyed rows
        → All IsProper rows
        → All IsProper (update revision_id f rows)
    unfolding update touched
    update-proper g keyed h =
        All-image touched (λ r. (fetch r.id rows ≡ some r) × IsProper r) IsProper step rows
          (All-both (λ r. fetch r.id rows ≡ some r) IsProper rows (fetch-own rows keyed) h)
      where
        step : (r : Revision M) → (fetch r.id rows ≡ some r) × IsProper r → IsProper (touched r)
        step r p = elim (Bool-cases (eqb r.id revision_id)) [
          | inl e ↦
              rw (touched, e)
                (g r (subst (λ i. fetch i rows ≡ some r) ((eqb-eq r.id revision_id).0 e) p.0) p.1)
          | inr e ↦ rw (touched, e) p.1
        ]

    -- A joint whose current revision is another keeps it.
    pub update-current :
        (rev : Revision M)
        → fetch revision_id rows ≡ some rev
        → rev.status ≢ "approved"
        → (joint_id : ℕ) (c : Option ℕ) → CurrentOf rows joint_id c
        → CurrentOf (update revision_id f rows) joint_id c
    update-current rev e undecided joint_id none h = tt
    update-current rev e undecided joint_id (some id) (r, found, approved, own) =
        elim (Bool-cases (eqb id revision_id)) [
          | inl t ↦
              elim (undecided (
                subst (λ x. x.status ≡ "approved")
                  (some-inj r rev
                    (sym found ∙ ap (λ i. fetch i rows) ((eqb-eq id revision_id).0 t) ∙ e))
                  approved)) [ ]
          | inr t ↦ (r, fetch-update revision_id f keeps.id id rows ∙ rw t found, approved, own)
        ]
