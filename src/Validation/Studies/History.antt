-- ===== src/Validation/Studies/History.antt =====
-- What later calls leave of a study (backend/production_validation/service.py).
use torq_pro.Prelude.{
  ◌≡◌, refl, ap, sym, subst, ◌∙◌, ℕ, String, true, false, ◌⊎◌, inl, inr, none, some, List, [], ◌∷◌,
  ◌==◌, string_eq, option_eq, nat_eq, eqb, eqb-eq, All, All-append, Bool-cases, some-inj,
}
use torq_pro.Sqlite.{alone, fetch}
use torq_pro.Sqlite.Laws.{
  IsKeyed, snoc-IsKeyed, update-IsKeyed, fetch-update, fetch-snoc-kept, All-update,
}
use torq_pro.Validation.Tables.{Db, Study, study_key}
use torq_pro.Validation.Rules.{Outside, Actor, may_become}
use torq_pro.Validation.Commands.{Command, run, replay}
use torq_pro.Validation.Studies.Changes.{fixed_part, IsStep, Advances, StudyChange}
use torq_pro.Validation.Studies.Effects.{run-StudyChange}

-- Any number of steps along the table of transitions.
pub data Reaches : String → String → Type 0 where
  stay : {s : String} → Reaches s s
  step : {s u t : String} → may_become s u ≡ true → Reaches u t → Reaches s t

Reaches-trans : {s t u : String} → Reaches s t → Reaches t u → Reaches s u
Reaches-trans Reaches.stay q = q
Reaches-trans (Reaches.step m p) q = Reaches.step m (Reaches-trans p q)

step_of : (s t : String) → IsStep s t → Reaches s t
step_of s t (inl e) = subst (λ u. Reaches s u) (sym e) Reaches.stay
step_of s t (inr m) = Reaches.step m Reaches.stay

-- The study `next` is the study `row` some calls later.
pub record StudyContinues (row next : Study) : Type 0 where
  pub fixed : fixed_part next ≡ fixed_part row
  pub status : Reaches row.status next.status

StudyContinues-refl : (s : Study) → StudyContinues s s
StudyContinues-refl s = record { fixed = refl; status = Reaches.stay }

StudyContinues-trans :
    (a b c : Study) → StudyContinues a b → StudyContinues b c → StudyContinues a c
StudyContinues-trans a b c p q = record {
  fixed = q.fixed ∙ p.fixed;
  status = Reaches-trans p.status q.status;
}

-- The approver of a study is not its creator.
abbrev pub IsFair : Study → Type 0
IsFair s = (s.approved_at ≡ none) ⊎ ((s.created_by == s.approved_by) ≡ false)

advanced-IsFair : (row next : Study) → Advances row next → IsFair row → IsFair next
unfolding fixed_part
advanced-IsFair row next a h = go a.approval h
  where
    author : next.created_by ≡ row.created_by
    author = ap (λ s. s.created_by) a.fixed

    go :
        ((next.approved_at ≡ row.approved_at) × (next.approved_by ≡ row.approved_by))
          ⊎ ((next.created_by == next.approved_by) ≡ false)
        → IsFair row
        → IsFair next
    go (inr f) h = inr f
    go (inl (at, by)) (inl n) = inl (at ∙ n)
    go (inl (at, by)) (inr f) = inr (rw (author, by) f)

-- One change keeps the ids, and no approver of a study is its creator.
pub StudyChange-keeps :
    (rows later : List Study)
    → StudyChange rows later
    → IsKeyed rows × All IsFair rows
    → IsKeyed later × All IsFair later
StudyChange-keeps rows later (StudyChange.kept e) h = rw e h
StudyChange-keeps rows later (StudyChange.added row k n e) h =
    rw e (snoc-IsKeyed rows row k h.0, All-append IsFair rows (row ∷ []) h.1 (inl n, tt))
StudyChange-keeps rows later (StudyChange.moved id f row found keys a e) h = rw e (
  update-IsKeyed id f keys rows h.0,
  All-update id f keys IsFair rows row h.0 found (advanced-IsFair row (f row) a) h.1,
)

StudyChange-continues :
    (rows later : List Study) (id : ℕ) (row : Study)
    → StudyChange rows later
    → fetch id rows ≡ some row
    → (next : Study) × (fetch id later ≡ some next) × StudyContinues row next
StudyChange-continues rows later id row (StudyChange.kept e) found =
    (row, rw e found, StudyContinues-refl row)
StudyChange-continues rows later id row (StudyChange.added new k n e) found =
    (row, rw e (fetch-snoc-kept id rows new row k found), StudyContinues-refl row)
StudyChange-continues rows later id row (StudyChange.moved i f s at keys a e) found =
    elim (Bool-cases (eqb id i)) [
      | inr t ↦ (row, rw e (fetch-update i f keys id rows ∙ rw t found), StudyContinues-refl row)
      | inl t ↦
          let same =
            some-inj s row (sym at ∙ ap (λ j. fetch j rows) (sym ((eqb-eq id i).0 t)) ∙ found) in
          (
            f row,
            rw e (fetch-update i f keys id rows ∙ rw (t, found) refl),
            subst (λ x. StudyContinues x (f x)) same
                (record { fixed = a.fixed; status = step_of s.status (f s).status a.status }),
          )
    ]

module _ {M V : Type 0} ⦃outside : Outside V⦄ where
  -- Through modelled calls that run one after the other, a stored study stays under its id with its
  -- code, its type, the joint, the calculation and the specification that it was made for, and its
  -- creator; its status only moves along the table of transitions. Overlapping calls are not
  -- covered.
  pub replay-StudyContinues :
      (calls : List ((ℕ → String) × Actor × Command V)) (db : Db M V) (id : ℕ) (row : Study)
      → fetch id db.studies ≡ some row
      → (next : Study) × (fetch id (replay calls db).studies ≡ some next) × StudyContinues row next
  unfolding replay
  replay-StudyContinues [] db id row found = (row, found, StudyContinues-refl row)
  replay-StudyContinues ((now, actor, c) ∷ cs) db id row found =
      let after = (run (alone now) actor c db).1 in
      let (mid, at_mid, first) =
        StudyChange-continues db.studies after.studies id row (run-StudyChange now actor c db)
          found in
      let (last, at_last, rest) = replay-StudyContinues cs after id mid at_mid in
      (last, at_last, StudyContinues-trans row mid last first rest)

  -- No sequence of modelled calls, each without another writer, approves a study in the name of its
  -- creator: if the ids of the studies ascend and every approver is another than the creator, both
  -- hold after the calls.
  pub replay-IsFair :
      (calls : List ((ℕ → String) × Actor × Command V)) (db : Db M V)
      → IsKeyed db.studies × All IsFair db.studies
      → IsKeyed (replay calls db).studies × All IsFair (replay calls db).studies
  unfolding replay
  replay-IsFair [] db h = h
  replay-IsFair ((now, actor, c) ∷ cs) db h =
      let after = (run (alone now) actor c db).1 in
      replay-IsFair cs after
        (StudyChange-keeps db.studies after.studies (run-StudyChange now actor c db) h)
