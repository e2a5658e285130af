-- ===== src/Revisions/Export/Reading/Roundtrip.antt =====
-- The reader of comma-separated values on what the export writes
-- (backend/governance/joint_revision_csv.py).
use torq_pro.Prelude.{
  ◌≡◌, refl, ap, sym, ◌∙◌, ℕ, Bool, true, false, ◌||◌, List, [], ◌∷◌, ◌++◌, map, arith, inl, inr,
  Bool-cases, eqb, append-nil, append_assoc,
}
use torq_pro.Revisions.Projection.{JointRevisionProjection}
use torq_pro.Revisions.Export.{
  csv_columns, projection_to_row, is_special, needs_quotes, doubled, write_field, write_rest,
  write_row, write_rows, build_csv_text,
}
use torq_pro.Revisions.Export.Reading.{Mode, Reader, at, unquoted, step_in, run, read_csv}

run-append : (r : Reader) (xs ys : List ℕ) → run r (xs ++ ys) ≡ run (run r xs) ys
unfolding run
run-append r [] ys = refl
run-append r (x ∷ xs) ys = run-append (step_in r.mode r x) xs ys

or-inv : (a b : Bool) → a || b ≡ false → (a ≡ false) × (b ≡ false)
or-inv true b h = cc
or-inv false b h = (refl, h)

unquoted-plain :
    (r : Reader) (c : ℕ)
    → is_special c ≡ false
    → unquoted r c ≡ at Mode.plain (r.field ++ c ∷ []) r.row r.rows
unfolding unquoted is_special
unquoted-plain r c h = ground arith

special-quote : (c : ℕ) → is_special c ≡ false → eqb c 34 ≡ false
unfolding is_special
special-quote c h = ground arith

run-plain :
    (cs acc : List ℕ) (row : List (List ℕ)) (rows : List (List (List ℕ)))
    → needs_quotes cs ≡ false
    → run (at Mode.plain acc row rows) cs ≡ at Mode.plain (acc ++ cs) row rows
unfolding run needs_quotes
run-plain [] acc row rows h = ap (λ f. at Mode.plain f row rows) (sym (append-nil acc))
run-plain (c ∷ cs) acc row rows h =
    let (first, rest) = or-inv (is_special c) (needs_quotes cs) h in
    ap (λ s. run s cs) (unquoted-plain (at Mode.plain acc row rows) c first)
    ∙ run-plain cs (acc ++ c ∷ []) row rows rest
    ∙ ap (λ f. at Mode.plain f row rows) (append_assoc acc (c ∷ []) cs)

step_in-quoted :
    (r : Reader) (c : ℕ)
    → eqb c 34 ≡ false
    → step_in Mode.quoted r c ≡ at Mode.quoted (r.field ++ c ∷ []) r.row r.rows
unfolding step_in
step_in-quoted r c h = rw (step_in, h) refl

eqb→eq : (a b : ℕ) → eqb a b ≡ true → b ≡ a
eqb→eq a b h = ground arith

run-quoted :
    (cs acc : List ℕ) (row : List (List ℕ)) (rows : List (List (List ℕ)))
    → run (at Mode.quoted acc row rows) (doubled cs) ≡ at Mode.quoted (acc ++ cs) row rows
unfolding run doubled
run-quoted [] acc row rows = ap (λ f. at Mode.quoted f row rows) (sym (append-nil acc))
run-quoted (c ∷ cs) acc row rows = elim (Bool-cases (eqb c 34)) [
  | inl e ↦
      rw (doubled, e)
        (run-quoted cs (acc ++ 34 ∷ []) row rows
          ∙ ap (λ f. at Mode.quoted f row rows) (append_assoc acc (34 ∷ []) cs)
          ∙ ap (λ k. at Mode.quoted (acc ++ k ∷ cs) row rows) (eqb→eq c 34 e))
  | inr e ↦
      rw (doubled, e)
        (ap (λ s. run s (doubled cs)) (step_in-quoted (at Mode.quoted acc row rows) c e)
          ∙ run-quoted cs (acc ++ c ∷ []) row rows
          ∙ ap (λ f. at Mode.quoted f row rows) (append_assoc acc (c ∷ []) cs))
]

-- A reader at the end of a field: a comma or a line end makes it the row's next field.
record Ends (field : List ℕ) (row : List (List ℕ)) (rows : List (List (List ℕ))) (r : Reader)
    : Type 0 where
  comma : step_in r.mode r 44 ≡ at Mode.fresh [] (row ++ field ∷ []) rows
  line : run r (13 ∷ 10 ∷ []) ≡ at Mode.fresh [] [] (rows ++ (row ++ field ∷ []) ∷ [])

plain-Ends :
    (field : List ℕ) (row : List (List ℕ)) (rows : List (List (List ℕ)))
    → Ends field row rows (at Mode.plain field row rows)
unfolding run
plain-Ends field row rows = record { comma = refl; line = refl }

closing-Ends :
    (field : List ℕ) (row : List (List ℕ)) (rows : List (List (List ℕ)))
    → Ends field row rows (at Mode.closing field row rows)
unfolding run
closing-Ends field row rows = record { comma = refl; line = refl }

fresh-Ends :
    (row : List (List ℕ)) (rows : List (List (List ℕ)))
    → Ends [] row rows (at Mode.fresh [] row rows)
unfolding run
fresh-Ends row rows = record { comma = refl; line = refl }

run-quoted_field :
    (field : List ℕ) (row : List (List ℕ)) (rows : List (List (List ℕ)))
    → run (at Mode.fresh [] row rows) (34 ∷ (doubled field ++ 34 ∷ []))
      ≡ at Mode.closing field row rows
unfolding run
run-quoted_field field row rows =
    run-append (at Mode.quoted [] row rows) (doubled field) (34 ∷ [])
    ∙ ap (λ s. run s (34 ∷ [])) (run-quoted field [] row rows)

run-plain_field :
    (c : ℕ) (cs : List ℕ) (row : List (List ℕ)) (rows : List (List (List ℕ)))
    → needs_quotes (c ∷ cs) ≡ false
    → run (at Mode.fresh [] row rows) (c ∷ cs) ≡ at Mode.plain (c ∷ cs) row rows
unfolding run needs_quotes
run-plain_field c cs row rows h =
    let (first, rest) = or-inv (is_special c) (needs_quotes cs) h in
    rw (run, step_in, special-quote c first)
      (ap (λ s. run s cs) (unquoted-plain (at Mode.fresh [] row rows) c first)
        ∙ run-plain cs (c ∷ []) row rows rest)

write_field-Ends :
    (field : List ℕ) (row : List (List ℕ)) (rows : List (List (List ℕ)))
    → Ends field row rows (run (at Mode.fresh [] row rows) (write_field field))
unfolding write_field run
write_field-Ends [] row rows = fresh-Ends row rows
write_field-Ends (c ∷ cs) row rows = elim (Bool-cases (needs_quotes (c ∷ cs))) [
  | inl e ↦ rw (write_field, e, run-quoted_field (c ∷ cs) row rows) (closing-Ends (c ∷ cs) row rows)
  | inr e ↦ rw (write_field, e, run-plain_field c cs row rows e) (plain-Ends (c ∷ cs) row rows)
]

write_rest-run :
    (fields : List (List ℕ)) (field : List ℕ) (row : List (List ℕ)) (rows : List (List (List ℕ)))
    (r : Reader)
    → Ends field row rows r
    → run r (write_rest fields) ≡ at Mode.fresh [] [] (rows ++ (row ++ field ∷ fields) ∷ [])
unfolding write_rest run
write_rest-run [] field row rows r e = e.line
write_rest-run (next ∷ fields) field row rows r e =
    ap (λ s. run s (write_field next ++ write_rest fields)) e.comma
    ∙ run-append (at Mode.fresh [] (row ++ field ∷ []) rows) (write_field next) (write_rest fields)
    ∙ write_rest-run fields next (row ++ field ∷ []) rows _
        (write_field-Ends next (row ++ field ∷ []) rows)
    ∙ ap (λ all. at Mode.fresh [] [] (rows ++ all ∷ []))
        (append_assoc row (field ∷ []) (next ∷ fields))

write_row-run :
    (field : List ℕ) (fields : List (List ℕ)) (rows : List (List (List ℕ)))
    → run (at Mode.fresh [] [] rows) (write_row (field ∷ fields))
      ≡ at Mode.fresh [] [] (rows ++ (field ∷ fields) ∷ [])
unfolding write_row
write_row-run field fields rows =
    run-append (at Mode.fresh [] [] rows) (write_field field) (write_rest fields)
    ∙ write_rest-run fields field [] rows _ (write_field-Ends field [] rows)

projections-run :
    (ps : List JointRevisionProjection) (rows : List (List (List ℕ)))
    → run (at Mode.fresh [] [] rows) (write_rows (map projection_to_row ps))
      ≡ at Mode.fresh [] [] (rows ++ map projection_to_row ps)
unfolding write_rows projection_to_row run
projections-run [] rows = ap (at Mode.fresh [] []) (sym (append-nil rows))
projections-run (p ∷ ps) rows =
    run-append (at Mode.fresh [] [] rows) (write_row (projection_to_row p))
      (write_rows (map projection_to_row ps))
    ∙ ap (λ s. run s (write_rows (map projection_to_row ps))) (write_row-run _ _ rows)
    ∙ projections-run ps (rows ++ projection_to_row p ∷ [])
    ∙ ap (at Mode.fresh [] [])
        (append_assoc rows (projection_to_row p ∷ []) (map projection_to_row ps))

-- The text of the export reads back as the header, then the row of each projection in order.
pub read_csv-build_csv_text :
    (ps : List JointRevisionProjection)
    → read_csv (build_csv_text ps) ≡ csv_columns ∷ map projection_to_row ps
unfolding read_csv build_csv_text csv_columns write_rows
read_csv-build_csv_text ps =
    ap (λ r. r.rows)
      (run-append (at Mode.fresh [] [] []) (write_row csv_columns)
          (write_rows (map projection_to_row ps))
        ∙ ap (λ s. run s (write_rows (map projection_to_row ps))) (write_row-run _ _ [])
        ∙ projections-run ps (csv_columns ∷ []))
