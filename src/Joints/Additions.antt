-- ===== src/Joints/Additions.antt =====
-- What an insert into a joint table leaves of the invariant (backend/joints/service.py).
use torq_pro.Prelude.{
  ◌≡◌, refl, ap, ℕ, String, true, false, ◌⊎◌, inl, inr, Option, none, some, List, [], ◌∷◌, ◌++◌,
  string_eq, option_eq, nat_eq, All, All-map, All-append, Ordered-snoc, Option-cases,
}
use torq_pro.Governance.Events.{Metadata}
use torq_pro.Sqlite.{next_id, fetch}
use torq_pro.Sqlite.Laws.{snoc-IsKeyed, fetch-snoc-kept}
use torq_pro.Joints.Tables.{
  Joint, Revision, Db, joint_key, revision_key, is_some, joint_clash, revision_clash,
}
use torq_pro.Joints.Service.{JointRequest, RevisionRequest, new_joint}
use torq_pro.Joints.Creation.{next_revision_no, new_revision}
use torq_pro.Joints.Invariant.{
  IsProper, CurrentOf, AreSound, IsSound, next_revision_no-length, of_joint-snoc-Numbered,
}

module _ {M : Type 0} where
  pub joint_added-AreSound :
      (r : JointRequest) (ts : String) (joints : List Joint) (rows : List (Revision M))
      → All (λ old. joint_clash old (new_joint r ts (next_id joints)) ≡ false) joints
      → AreSound joints rows
      → AreSound (joints ++ new_joint r ts (next_id joints) ∷ []) rows
  unfolding new_joint
  joint_added-AreSound r ts joints rows clash h = record {
    joint_ids = snoc-IsKeyed joints new refl h.joint_ids;
    joint_codes = Ordered-snoc (λ a b. joint_clash a b ≡ false) joints new clash h.joint_codes;
    revision_ids = h.revision_ids;
    revision_keys = h.revision_keys;
    numbered = h.numbered;
    owned =
        All-map (λ r. is_some (fetch r.joint_id joints) ≡ true)
          (λ r. is_some (fetch r.joint_id (joints ++ new ∷ [])) ≡ true)
          (λ r e. still r.joint_id (Option-cases (fetch r.joint_id joints)) e) rows h.owned;
    proper = h.proper;
    current =
        All-append (λ j. CurrentOf rows j.id j.current_revision_id) joints (new ∷ []) h.current
          (tt, tt);
  }
    where
      new : Joint
      new = new_joint r ts (next_id joints)

      still :
          (i : ℕ)
          → (fetch i joints ≡ none) ⊎ ((j : Joint) × (fetch i joints ≡ some j))
          → is_some (fetch i joints) ≡ true
          → is_some (fetch i (joints ++ new ∷ [])) ≡ true
      still i (inl n) e = cc (rw n at e)
      still i (inr (j, f)) e = ap is_some (fetch-snoc-kept i joints new j refl f)

module _ {M : Type 0} ⦃meta : Metadata M⦄ where
  pub revision_added-AreSound :
      (r : RevisionRequest M) (ts : String) (row : Joint) (db : Db M)
      → fetch r.joint_id db.joints ≡ some row
      → All
          (λ old.
            revision_clash old
              (new_revision r (next_revision_no r.joint_id db) ts (next_id db.revisions))
            ≡ false)
          db.revisions
      → IsSound db
      → AreSound db.joints (
          db.revisions
          ++ new_revision r (next_revision_no r.joint_id db) ts (next_id db.revisions) ∷ [])
  unfolding new_revision
  revision_added-AreSound r ts row db found clash h = record {
    joint_ids = h.joint_ids;
    joint_codes = h.joint_codes;
    revision_ids = snoc-IsKeyed db.revisions new refl h.revision_ids;
    revision_keys =
        Ordered-snoc (λ a b. revision_clash a b ≡ false) db.revisions new clash h.revision_keys;
    numbered = λ joint_id.
        of_joint-snoc-Numbered joint_id db.revisions new (h.numbered joint_id)
          (next_revision_no-length r.joint_id db (h.numbered r.joint_id));
    owned =
        All-append (λ r. is_some (fetch r.joint_id db.joints) ≡ true) db.revisions (new ∷ [])
          h.owned (ap is_some found, tt);
    proper =
        All-append IsProper db.revisions (new ∷ []) h.proper (IsProper.open_draft refl refl, tt);
    current =
        All-map (λ j. CurrentOf db.revisions j.id j.current_revision_id)
          (λ j. CurrentOf (db.revisions ++ new ∷ []) j.id j.current_revision_id)
          (λ j c. kept j.id j.current_revision_id c) db.joints h.current;
  }
    where
      new : Revision M
      new = new_revision r (next_revision_no r.joint_id db) ts (next_id db.revisions)

      kept :
          (joint_id : ℕ) (c : Option ℕ)
          → CurrentOf db.revisions joint_id c
          → CurrentOf (db.revisions ++ new ∷ []) joint_id c
      kept joint_id none h = tt
      kept joint_id (some id) (x, f, approved, own) =
          (x, fetch-snoc-kept id db.revisions new x refl f, approved, own)
