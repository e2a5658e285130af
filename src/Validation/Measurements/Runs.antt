-- ===== src/Validation/Measurements/Runs.antt =====
-- The table of measurements under the calls that the service makes one after the other
-- (backend/production_validation/service.py).
use torq_pro.Prelude.{
  ◌≡◌, refl, sym, ◌∙◌, ℕ, String, false, inl, inr, Option, none, some, List, [], ◌∷◌, ◌++◌, find,
  find-none, All-map, All-append, Ordered-snoc, ok,
}
use torq_pro.Sqlite.{alone, next_id}
use torq_pro.Sqlite.Laws.{snoc-IsKeyed, fetch-snoc-kept}
use torq_pro.Validation.Tables.{
  Db, Measurement, superseded_by, measurement_key, next_sequence_number,
}
use torq_pro.Validation.Rules.{Outside, Actor}
use torq_pro.Validation.Measurements.{new_measurement, same_slot, superseded, check_correction}
use torq_pro.Validation.Commands.{Command, run, replay}
use torq_pro.Validation.Measurements.Changes.{MeasurementChange, run-MeasurementChange}
use torq_pro.Validation.Measurements.Frozen.{corrected_row}
use torq_pro.Validation.Measurements.Validity.{
  IsMarked, CorrectionOf, IsConsistent, Pending, invalid-IsConsistent, snoc_correction,
}

module _ {M V : Type 0} where
  -- A new valid measurement in a free slot, and the one that it corrects made invalid.
  recorded-IsConsistent :
      (dataset_id : ℕ) (new : Measurement V) (c : Option ℕ) (db : Db M V)
      → new.id ≡ next_id db.measurements
      → new.dataset_id ≡ dataset_id
      → new.correction_of_id ≡ c
      → IsMarked new
      → find (λ old. same_slot old new) db.measurements ≡ none
      → check_correction dataset_id c db ≡ ok tt
      → IsConsistent db.measurements
      → IsConsistent (superseded new.id c (db.measurements ++ new ∷ []))
  unfolding superseded
  recorded-IsConsistent dataset_id new none db k own correction m free accepted h = record {
    ids = snoc-IsKeyed db.measurements new k h.ids;
    slots =
        Ordered-snoc (λ a b. same_slot a b ≡ false) db.measurements new
          (find-none (λ old. same_slot old new) db.measurements free) h.slots;
    marked = All-append IsMarked db.measurements (new ∷ []) h.marked (m, tt);
    corrections =
        All-append (λ x. CorrectionOf (db.measurements ++ new ∷ []) x.dataset_id x.correction_of_id)
          db.measurements (new ∷ [])
          (All-map (λ x. CorrectionOf db.measurements x.dataset_id x.correction_of_id)
            (λ x. CorrectionOf (db.measurements ++ new ∷ []) x.dataset_id x.correction_of_id)
            (λ x. snoc_correction db.measurements new x.dataset_id x.correction_of_id k)
            db.measurements h.corrections)
          (rw correction tt, tt);
  }
  recorded-IsConsistent dataset_id new (some id) db k own correction m free accepted h =
      let (row, found, at) = corrected_row dataset_id id db h.ids accepted in
      invalid-IsConsistent id (superseded_by new.id) (db.measurements ++ new ∷ [])
        (snoc-IsKeyed db.measurements new k h.ids)
        (Ordered-snoc (λ a b. same_slot a b ≡ false) db.measurements new
          (find-none (λ old. same_slot old new) db.measurements free) h.slots)
        (All-append IsMarked db.measurements (new ∷ []) h.marked (m, tt))
        (All-append (Pending id (db.measurements ++ new ∷ [])) db.measurements (new ∷ [])
          (All-map (λ x. CorrectionOf db.measurements x.dataset_id x.correction_of_id)
            (Pending id (db.measurements ++ new ∷ []))
            (λ x p. inl (snoc_correction db.measurements new x.dataset_id x.correction_of_id k p))
            db.measurements h.corrections)
          (
            inr (
              correction,
              (row, fetch-snoc-kept id db.measurements new row k found, at ∙ sym own),
            ),
            tt,
          ))

  MeasurementChange-IsConsistent :
      (db after : Db M V)
      → MeasurementChange db after
      → IsConsistent db.measurements
      → IsConsistent after.measurements
  unfolding new_measurement
  MeasurementChange-IsConsistent db after (MeasurementChange.untouched e) h = rw e h
  MeasurementChange-IsConsistent db after
        (MeasurementChange.recorded d p tool device ts x accepted free e) h =
      rw e (
        recorded-IsConsistent d
          (new_measurement d p tool device (next_sequence_number d db.measurements) ts
            (next_id db.measurements))
          p.correction_of_id db refl refl refl refl free accepted h)
  MeasurementChange-IsConsistent db after (MeasurementChange.invalidated id row reason found x e)
        h =
      rw e (
        invalid-IsConsistent id reason db.measurements h.ids h.slots h.marked (
          All-map (λ m. CorrectionOf db.measurements m.dataset_id m.correction_of_id)
            (Pending id db.measurements) (λ m p. inl p) db.measurements h.corrections))

module _ {M V : Type 0} ⦃outside : Outside V⦄ where
  -- No sequence of modelled calls, each without another writer, leaves the measurements
  -- inconsistent: ids ascend, no two measurements of a dataset share a sequence number, a
  -- measurement has a reason for being invalid exactly if it is not valid, and what a measurement
  -- corrects is an invalid one of the same dataset.
  pub replay-IsConsistent :
      (calls : List ((ℕ → String) × Actor × Command V)) (db : Db M V)
      → IsConsistent db.measurements
      → IsConsistent (replay calls db).measurements
  unfolding replay
  replay-IsConsistent [] db h = h
  replay-IsConsistent ((now, actor, c) ∷ cs) db h =
      replay-IsConsistent cs (run (alone now) actor c db).1 (
        MeasurementChange-IsConsistent db (run (alone now) actor c db).1
          (run-MeasurementChange now actor c db) h)
