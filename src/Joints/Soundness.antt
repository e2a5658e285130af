-- ===== src/Joints/Soundness.antt =====
-- What an update of a joint or of a revision leaves of their invariant (backend/joints/service.py).
use torq_pro.Prelude.{
  ◌≡◌, ◌≢◌, refl, ap, sym, subst, ◌∙◌, ℕ, true, false, inl, inr, Option, none, some, List,
  string_eq, option_eq, nat_eq, eqb, eqb-eq, if◌then◌else◌, All-map, All-image, some-inj,
  Ordered-image, Bool-cases, arith,
}
use mathlib.Core.Option
use torq_pro.Sqlite.{fetch, update}
use torq_pro.Sqlite.Laws.{update-IsKeyed, fetch-update}
use torq_pro.Joints.Tables.{Joint, Revision, joint_key, revision_key, is_some, joint_clash}
use torq_pro.Joints.Invariant.{IsProper, CurrentOf, AreSound}
use torq_pro.Joints.Updates.{
  KeepsIdentity, update-Numbered, update-revision_keys, update-owned, update-proper, update-current,
}

module _ {M : Type 0} where
  -- An update of one revision keeps the invariant, if it leaves alone what identifies the row and
  -- what it makes of the row is proper; the revision is not yet approved.
  pub revised-AreSound :
      (revision_id : ℕ) (f : Revision M → Revision M)
      → KeepsIdentity f
      → (joints : List Joint) (rows : List (Revision M)) (rev : Revision M)
      → fetch revision_id rows ≡ some rev
      → rev.status ≢ "approved"
      → (IsProper rev → IsProper (f rev))
      → AreSound joints rows
      → AreSound joints (update revision_id f rows)
  revised-AreSound revision_id f keeps joints rows rev e undecided g h = record {
    joint_ids = h.joint_ids;
    joint_codes = h.joint_codes;
    revision_ids = update-IsKeyed revision_id f keeps.id rows h.revision_ids;
    revision_keys = update-revision_keys revision_id f keeps rows h.revision_keys;
    numbered = λ joint_id. update-Numbered revision_id f keeps rows joint_id (h.numbered joint_id);
    owned = update-owned revision_id f keeps rows joints h.owned;
    proper =
        update-proper revision_id f keeps rows
          (λ r found p.
            subst (λ x. IsProper x → IsProper (f x)) (some-inj rev r (sym e ∙ found)) g p)
          h.revision_ids h.proper;
    current =
        All-map (λ j. CurrentOf rows j.id j.current_revision_id)
          (λ j. CurrentOf (update revision_id f rows) j.id j.current_revision_id)
          (λ j c.
            update-current revision_id f keeps rows rev e undecided j.id j.current_revision_id c)
          joints h.current;
  }

-- What an update of a joint leaves alone.
pub record KeepsJoint (g : Joint → Joint) : Type 0 where
  pub id : (j : Joint) → (g j).id ≡ j.id
  pub project_id : (j : Joint) → (g j).project_id ≡ j.project_id
  pub joint_code : (j : Joint) → (g j).joint_code ≡ j.joint_code

is_some-map : {A B : Type 0} (f : A → B) (o : Option A) → is_some (Option.map f o) ≡ is_some o
is_some-map f none = refl
is_some-map f (some a) = refl

module _ {M : Type 0} where
  -- An update of one joint keeps the invariant, if the current revision that it sets is one.
  pub touched-AreSound :
      (joint_id : ℕ) (g : Joint → Joint)
      → KeepsJoint g
      → (joints : List Joint) (rows : List (Revision M))
      → ((j : Joint)
          → j.id ≡ joint_id
          → CurrentOf rows j.id j.current_revision_id
          → CurrentOf rows j.id (g j).current_revision_id)
      → AreSound joints rows
      → AreSound (update joint_id g joints) rows
  unfolding update joint_clash
  touched-AreSound joint_id g keeps joints rows current h = record {
    joint_ids = update-IsKeyed joint_id g keeps.id joints h.joint_ids;
    joint_codes =
        Ordered-image touch (λ a b. joint_clash a b ≡ false) (λ a b. joint_clash a b ≡ false)
          (λ a b e. rw (project a, project b, code a, code b) e) joints h.joint_codes;
    revision_ids = h.revision_ids;
    revision_keys = h.revision_keys;
    numbered = h.numbered;
    owned =
        All-map (λ r. is_some (fetch r.joint_id joints) ≡ true)
          (λ r. is_some (fetch r.joint_id (update joint_id g joints)) ≡ true)
          (λ r e.
            ap is_some (fetch-update joint_id g keeps.id r.joint_id joints) ∙ still r.joint_id e)
          rows h.owned;
    proper = h.proper;
    current =
        All-image touch (λ j. CurrentOf rows j.id j.current_revision_id)
          (λ j. CurrentOf rows j.id j.current_revision_id) kept joints h.current;
  }
    where
      touch : Joint → Joint
      touch j = if eqb j.id joint_id then g j else j

      project : (j : Joint) → (touch j).project_id ≡ j.project_id
      project j = ground (arith, keeps.project_id j)

      code : (j : Joint) → (touch j).joint_code ≡ j.joint_code
      code j = ground (arith, keeps.joint_code j)

      still :
          (i : ℕ)
          → is_some (fetch i joints) ≡ true
          → is_some (if eqb i joint_id then Option.map g (fetch i joints) else fetch i joints)
            ≡ true
      still i e = elim (Bool-cases (eqb i joint_id)) [
        | inl t ↦ rw t (is_some-map g (fetch i joints) ∙ e)
        | inr t ↦ rw t e
      ]

      kept :
          (j : Joint)
          → CurrentOf rows j.id j.current_revision_id
          → CurrentOf rows (touch j).id (touch j).current_revision_id
      kept j c = elim (Bool-cases (eqb j.id joint_id)) [
        | inl t ↦ rw (t, keeps.id j) (current j ((eqb-eq j.id joint_id).0 t) c)
        | inr t ↦ rw t c
      ]
