-- ===== src/Revisions/Export/Bytes.antt =====
-- The bytes of the export and its text (backend/governance/joint_revision_csv.py).
use torq_pro.Prelude.{
  ◌≡◌, refl, ap, ◌∙◌, ℕ, zero, suc, ◌+◌, ◌-◌, ◌*◌, ◌/◌, ◌%◌, ◌<◌, ◌≤◌, true, false, List, [], ◌∷◌,
  ◌++◌, arith, inl, inr, Bool-cases, if◌then◌else◌, ltb, eqb, map,
}
use torq_pro.Revisions.Projection.{JointRevisionProjection}
use torq_pro.Revisions.Export.{
  utf8, encode, serialize_csv, build_csv_text, csv_columns, projection_to_row,
}
use torq_pro.Revisions.Export.Reading.{read_csv}
use torq_pro.Revisions.Export.Reading.Roundtrip.{read_csv-build_csv_text}

-- A UTF-8 decoder: `due` bytes of a code point are still to come, and `acc` is what came.
unfoldable pub decode : ℕ → ℕ → List ℕ → List ℕ
decode due acc [] = []
decode zero acc (b ∷ bs) = elim (ltb b 0x80) [
  | true ↦ b ∷ decode 0 0 bs
  | false ↦ elim (ltb b 224) [
    | true ↦ decode 1 (b - 192) bs
    | false ↦ elim (ltb b 240) [ true ↦ decode 2 (b - 224) bs | false ↦ decode 3 (b - 240) bs ]
  ]
]
decode (suc zero) acc (b ∷ bs) = (acc * 64 + (b - 128)) ∷ decode 0 0 bs
decode (suc (suc n)) acc (b ∷ bs) = decode (suc n) (acc * 64 + (b - 128)) bs

ltb-no : (a b : ℕ) → b ≤ a → ltb a b ≡ false
ltb-no a b h = ground arith

ltb-yes : (a b : ℕ) → a < b → ltb a b ≡ true
ltb-yes a b h = ground arith

two : (c : ℕ) → c < 2048 → (192 + c / 64 - 192) * 64 + (128 + c % 64 - 128) ≡ c
two c h = omega arith

three :
    (c : ℕ)
    → ((224 + c / 4096 - 224) * 64 + (128 + c / 64 % 64 - 128)) * 64 + (128 + c % 64 - 128) ≡ c
three c = omega arith

four :
    (c : ℕ)
    → (((240 + c / 262144 - 240) * 64 + (128 + c / 4096 % 64 - 128)) * 64
            + (128 + c / 64 % 64 - 128))
          * 64
        + (128 + c % 64 - 128)
      ≡ c
four c = omega arith

decode-utf8 : (c : ℕ) (rest : List ℕ) → decode 0 0 (utf8 c ++ rest) ≡ c ∷ decode 0 0 rest
unfolding decode utf8
decode-utf8 c rest = elim (Bool-cases (ltb c 0x80)) [
  | inl e ↦ rw (utf8, e, decode, e) refl
  | inr e ↦ elim (Bool-cases (ltb c 0x800)) [
    | inl f ↦
        rw
          (
            utf8,
            e,
            f,
            decode,
            ltb-no (192 + c / 64) 0x80 (omega arith),
            ltb-yes (192 + c / 64) 224 (ground arith),
          )
          (ap (λ k. k ∷ decode 0 0 rest) (two c (ground arith)))
    | inr f ↦ elim (Bool-cases (ltb c 0x10000)) [
      | inl g ↦
          rw
            (
              utf8,
              e,
              f,
              g,
              decode,
              ltb-no (224 + c / 4096) 0x80 (omega arith),
              ltb-no (224 + c / 4096) 224 (omega arith),
              ltb-yes (224 + c / 4096) 240 (ground arith),
            )
            (ap (λ k. k ∷ decode 0 0 rest) (three c))
      | inr g ↦
          rw
            (
              utf8,
              e,
              f,
              g,
              decode,
              ltb-no (240 + c / 262144) 0x80 (omega arith),
              ltb-no (240 + c / 262144) 224 (omega arith),
              ltb-no (240 + c / 262144) 240 (omega arith),
            )
            (ap (λ k. k ∷ decode 0 0 rest) (four c))
    ]
  ]
]

decode-encode : (cs : List ℕ) → decode 0 0 (encode cs) ≡ cs
unfolding encode decode
decode-encode [] = refl
decode-encode (c ∷ cs) = decode-utf8 c (encode cs) ∙ ap (λ r. c ∷ r) (decode-encode cs)

-- A byte-order mark at the start is no part of the text.
unfoldable pub without_mark : List ℕ → List ℕ
without_mark [] = []
without_mark (c ∷ cs) = if eqb c 0xfeff then cs else c ∷ cs

serialize_csv-decode :
    (ps : List JointRevisionProjection)
    → without_mark (decode 0 0 (serialize_csv ps)) ≡ build_csv_text ps
unfolding serialize_csv without_mark decode
serialize_csv-decode ps = decode-encode (build_csv_text ps)

-- The bytes of the export, decoded and read as comma-separated values, are the header, then the row of
-- each projection in order.
pub read_csv-serialize_csv :
    (ps : List JointRevisionProjection)
    → read_csv (without_mark (decode 0 0 (serialize_csv ps)))
      ≡ csv_columns ∷ map projection_to_row ps
read_csv-serialize_csv ps = ap read_csv (serialize_csv-decode ps) ∙ read_csv-build_csv_text ps
