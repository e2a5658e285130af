-- ===== src/Joints/Invariant.antt =====
-- The invariant of the joint tables (backend/joints/service.py over backend/joints/schema.py).
use torq_pro.Prelude.{
  ◌≡◌, refl, ap, subst, eqb-eq, ◌∙◌, ℕ, suc, ◌+◌, true, false, ◌⊎◌, inl, inr, Option, none, some,
  List, [], ◌∷◌, ◌++◌, map, ◌==◌, string_eq, option_eq, nat_eq, eqb, filter, length, if◌then◌else◌,
  All, Ordered, Bool-cases, arith, filter-snoc,
}
use torq_pro.Sqlite.{fetch, max_of}
use torq_pro.Sqlite.Laws.{IsKeyed}
use torq_pro.Joints.Tables.{
  Joint, Revision, Db, joint_key, revision_key, is_some, joint_clash, revision_clash,
}
use torq_pro.Joints.Creation.{of_joint, next_revision_no}

module _ {M : Type 0} where
  -- The numbers of the rows go up by one from `k + 1`.
  abbrev pub Numbered : ℕ → List (Revision M) → Type 0
  Numbered k [] = Unit
  Numbered k (r ∷ rs) = (r.revision_no ≡ suc k) × Numbered (suc k) rs

  -- What the status of a revision says of its review: a draft or a revision in review has none, and
  -- the reviewer of any other is not its author.
  pub data IsProper (r : Revision M) : Type 0 where
    open_draft : r.status ≡ "draft" → r.reviewed_at ≡ none → IsProper r
    in_review : r.status ≡ "review" → r.reviewed_at ≡ none → IsProper r
    reviewed :
        (r.status ≡ "approved") ⊎ (r.status ≡ "rejected")
        → is_some r.reviewed_at ≡ true
        → (r.created_by == r.reviewed_by) ≡ false
        → IsProper r

  -- The current revision of a joint is an approved one of its own.
  abbrev pub CurrentOf : List (Revision M) → ℕ → Option ℕ → Type 0
  CurrentOf rows joint_id none = Unit
  CurrentOf rows joint_id (some id) =
      (r : Revision M) × (fetch id rows ≡ some r)
      × (r.status ≡ "approved")
      × (r.joint_id ≡ joint_id)

  pub record AreSound (joints : List Joint) (revisions : List (Revision M)) : Type 0 where
    pub joint_ids : IsKeyed joints
    pub joint_codes : Ordered (λ a b. joint_clash a b ≡ false) joints
    pub revision_ids : IsKeyed revisions
    pub revision_keys : Ordered (λ a b. revision_clash a b ≡ false) revisions
    pub numbered : (joint_id : ℕ) → Numbered 0 (of_joint joint_id revisions)
    pub owned : All (λ r. is_some (fetch r.joint_id joints) ≡ true) revisions
    pub proper : All IsProper revisions
    pub current : All (λ j. CurrentOf revisions j.id j.current_revision_id) joints

  abbrev pub IsSound : Db M → Type 0
  IsSound db = AreSound db.joints db.revisions

  max_of-Numbered :
      (k : ℕ) (r : Revision M) (rs : List (Revision M))
      → Numbered k (r ∷ rs)
      → max_of (λ r. r.revision_no) (r ∷ rs) ≡ k + length (r ∷ rs)
  unfolding max_of
  max_of-Numbered k r [] h = ground arith
  max_of-Numbered k r (s ∷ ss) h = ground (arith, max_of-Numbered (suc k) s ss h.1)

  -- The next number of a joint is the number of its revisions plus one.
  pub next_revision_no-length :
      (joint_id : ℕ) (db : Db M)
      → Numbered 0 (of_joint joint_id db.revisions)
      → next_revision_no joint_id db ≡ length (of_joint joint_id db.revisions) + 1
  unfolding next_revision_no
  next_revision_no-length joint_id db h = go (of_joint joint_id db.revisions) h
    where
      go :
          (rows : List (Revision M))
          → Numbered 0 rows
          → max_of (λ r. r.revision_no) rows + 1 ≡ length rows + 1
      go [] h = refl
      go (r ∷ rs) h = ap (λ n. n + 1) (max_of-Numbered 0 r rs h ∙ omega arith)

  Numbered-snoc :
      (k : ℕ) (rows : List (Revision M)) (r : Revision M)
      → Numbered k rows
      → r.revision_no ≡ k + length rows + 1
      → Numbered k (rows ++ r ∷ [])
  Numbered-snoc k [] r h e = (e ∙ omega arith, tt)
  Numbered-snoc k (x ∷ xs) r h e = (h.0, Numbered-snoc (suc k) xs r h.1 (e ∙ omega arith))

  pub of_joint-snoc-Numbered :
      (joint_id : ℕ) (rows : List (Revision M)) (r : Revision M)
      → Numbered 0 (of_joint joint_id rows)
      → r.revision_no ≡ length (of_joint r.joint_id rows) + 1
      → Numbered 0 (of_joint joint_id (rows ++ r ∷ []))
  of_joint-snoc-Numbered joint_id rows r h e =
      rw (filter-snoc (λ r. eqb r.joint_id joint_id) rows r)
        (split (Bool-cases (eqb r.joint_id joint_id)))
    where
      split :
          (eqb r.joint_id joint_id ≡ true) ⊎ (eqb r.joint_id joint_id ≡ false)
          → Numbered 0 (
              if eqb r.joint_id joint_id
              then of_joint joint_id rows ++ r ∷ []
              else of_joint joint_id rows)
      split (inl t) = rw t (
          Numbered-snoc 0 (of_joint joint_id rows) r h (
            subst (λ j. r.revision_no ≡ length (of_joint j rows) + 1)
              ((eqb-eq r.joint_id joint_id).0 t) e
            ∙ omega arith))
      split (inr t) = rw t h

  pub of_joint-map-Numbered :
      (g : Revision M → Revision M)
      → ((r : Revision M) → (g r).joint_id ≡ r.joint_id)
      → ((r : Revision M) → (g r).revision_no ≡ r.revision_no)
      → (k joint_id : ℕ) (rows : List (Revision M)) → Numbered k (of_joint joint_id rows)
      → Numbered k (of_joint joint_id (map g rows))
  unfolding filter
  of_joint-map-Numbered g joint number k joint_id [] h = tt
  of_joint-map-Numbered g joint number k joint_id (r ∷ rs) h =
      elim (Bool-cases (eqb r.joint_id joint_id)) [
        | inl t ↦
            rw (joint r, t)
              (
                number r ∙ (rw (filter, t) at h).0,
                of_joint-map-Numbered g joint number (suc k) joint_id rs (rw (filter, t) at h).1,
              )
        | inr t ↦
            rw (joint r, t)
              (of_joint-map-Numbered g joint number k joint_id rs (rw (filter, t) at h))
      ]
