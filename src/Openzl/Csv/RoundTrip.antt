-- ===== src/Openzl/Csv/RoundTrip.antt =====
-- `t_csv_inv` of bench/openzl_bench.py behind `t_csv`.
use mathlib.Core.List.{append-nil, append_assoc}
use engine_motor.Prelude.{
  ℕ, zero, suc, ◌+◌, ◌<◌, ◌≡◌, refl, sym, ap, ap₂, subst, ◌∙◌, inl, inr, ◌⊎◌, Bool, true, false,
  some, List, [], ◌∷◌, ◌++◌, map, arith, length, drop, get_or, drop-cons, drop_all, ◌||◌, ◌==◌, ltb,
  Bool-cases, if◌then◌else◌,
}
use engine_motor.Openzl.Csv.{
  varint, ends_with, without_last, split, join, any_ragged, zip_columns, write_all_lengths,
  write_all_fields, flag, encode_lines, t_csv, fields_of, lines_of, decode_body, t_csv_inv,
}
use engine_motor.Openzl.Csv.Varint.{varint-append, ler-varint}
use engine_motor.Openzl.Csv.Lines.{join-split, map-join-split, without_last-append}
use engine_motor.Openzl.Csv.Columns.{
  flat, all_lengths, concat, write_all_lengths-eq, write_all_fields-eq, ler_all-all_lengths,
  cut-concat, length-flat, get_or-flat,
}

-- A table that is not ragged has `cols` fields in each line.
width_of :
    (cols : ℕ) (linhas : List (List (List ℕ))) (r : ℕ)
    → any_ragged cols linhas ≡ false
    → r < length linhas
    → length (get_or linhas r []) ≡ cols
unfolding any_ragged
width_of cols [] r h hr = absurd (omega arith)
width_of cols (l ∷ linhas) zero h hr = ground arith
width_of cols (l ∷ linhas) (suc r) h hr = width_of cols linhas r (ground arith) (omega arith)

abbrev ending : ℕ → List ℕ
ending final = if final == 0 then [] else 10 ∷ []

module _ (delim cols : ℕ) (linhas : List (List (List ℕ)))
    (even : any_ragged cols linhas ≡ false) where
  abbrev campos : List (List ℕ)
  campos = flat (zip_columns linhas cols 0)

  fields_of-eq :
      (r left c : ℕ)
      → c + left ≡ cols
      → r < length linhas
      → fields_of campos (length linhas) r left c ≡ drop c (get_or linhas r [])
  unfolding fields_of
  fields_of-eq r zero c e hr =
      sym (drop_all c (get_or linhas r []) (omega (arith, width_of cols linhas r even hr)))
  fields_of-eq r (suc left) c e hr =
      rw (get_or-flat linhas cols 0 c r (omega arith) hr, start)
        (ap (λ t. get_or (get_or linhas r []) c [] ∷ t)
            (fields_of-eq r left (c + 1) (omega arith) hr
              ∙ ap (λ k. drop k (get_or linhas r [])) next)
          ∙ sym
              (drop-cons c (get_or linhas r []) [] (omega (arith, width_of cols linhas r even hr))))
    where
      start : 0 + c ≡ c
      start = omega arith

      next : c + 1 ≡ suc c
      next = omega arith

  lines_of-eq :
      (left r : ℕ)
      → r + left ≡ length linhas
      → lines_of delim campos (length linhas) cols left r ≡ map (join delim) (drop r linhas)
  unfolding lines_of
  lines_of-eq zero r e = sym (ap (map (join delim)) (drop_all r linhas (omega arith)))
  lines_of-eq (suc left) r e =
      ap₂ ◌∷◌ (ap (join delim) (fields_of-eq r cols 0 (omega arith) (omega arith)))
        (lines_of-eq left (r + 1) (omega arith) ∙ ap (λ k. map (join delim) (drop k linhas)) next)
      ∙ sym (ap (map (join delim)) (drop-cons r linhas [] (omega arith)))
    where
      next : r + 1 ≡ suc r
      next = omega arith

  decode_body-eq :
      (final : ℕ)
      → decode_body delim final
          (varint (length linhas) [] ++ varint cols [] ++ all_lengths campos ++ concat campos)
        ≡ some (join 10 (map (join delim) linhas) ++ ending final)
  unfolding decode_body
  decode_body-eq final = rw (
    append_assoc (varint (length linhas) [] ++ varint cols []) (all_lengths campos) (concat campos),
    append_assoc (varint (length linhas) []) (varint cols []) (all_lengths campos ++ concat campos),
    ler-varint (length linhas) (varint cols [] ++ (all_lengths campos ++ concat campos)),
    ler-varint cols (all_lengths campos ++ concat campos),
    ← length-flat linhas cols 0,
    ler_all-all_lengths campos (concat campos),
    cut-concat campos,
    lines_of-eq (length linhas) 0 (omega arith),
  )

-- What `encode_lines` writes, where it writes anything.
written :
    (delim cols : ℕ) (final : Bool) (linhas : List (List (List ℕ)))
    → write_all_fields (zip_columns linhas cols 0) (
        write_all_lengths
          (zip_columns linhas cols 0)
          (varint cols (varint (length linhas) (0x43 ∷ delim ∷ flag final ∷ []))))
      ≡ 0x43
        ∷ delim
        ∷ flag final
        ∷ (varint (length linhas) []
            ++ varint cols []
            ++ all_lengths (flat (zip_columns linhas cols 0))
            ++ concat (flat (zip_columns linhas cols 0)))
written delim cols final linhas = rw (
  write_all_fields-eq,
  write_all_lengths-eq,
  varint-append cols (varint (length linhas) (0x43 ∷ delim ∷ flag final ∷ [])),
  varint-append (length linhas) (0x43 ∷ delim ∷ flag final ∷ []),
)

abbrev newline : Bool → List ℕ
newline final = if final then 10 ∷ [] else []

ending-flag : (final : Bool) → ending (flag final) ≡ newline final
ending-flag true = refl
ending-flag false = refl

-- Where a table is accepted, decoding gives its lines joined again.
t_csv_inv-encode_lines :
    (delim : ℕ) (final : Bool) (linhas : List (List (List ℕ))) {y : List ℕ}
    → encode_lines delim final linhas ≡ some y
    → t_csv_inv y ≡ some (join 10 (map (join delim) linhas) ++ newline final)
unfolding encode_lines
t_csv_inv-encode_lines delim final linhas {y} h = elim (Bool-cases refused) [
  | inl yes_refused ↦ cc (rw yes_refused at h)
  | inr accepted ↦
      let even : any_ragged cols linhas ≡ false = ground arith in
      let fits : payload ≡ y = cc (rw accepted at h) in
      subst (λ t. t_csv_inv t ≡ some (join 10 (map (join delim) linhas) ++ newline final))
        (sym (written delim cols final linhas) ∙ fits)
        (unfold t_csv_inv in
          decode_body-eq delim cols linhas even (flag final)
          ∙ ap (λ t. some (join 10 (map (join delim) linhas) ++ t)) (ending-flag final))
]
  where
    cols : ℕ
    cols = length (get_or linhas 0 [])

    payload : List ℕ
    payload = write_all_fields (zip_columns linhas cols 0) (
        write_all_lengths (zip_columns linhas cols 0)
          (varint cols (varint (length linhas) (0x43 ∷ delim ∷ flag final ∷ []))))

    refused : Bool
    refused = ltb cols 2 || ltb (length linhas) 4 || any_ragged cols linhas

-- Whenever `t_csv` accepts a byte string, with any one-byte delimiter, `t_csv_inv` gives that byte
-- string back from what `t_csv` wrote.
pub t_csv_inv-t_csv :
    (dados : List ℕ) (delim : ℕ) (y : List ℕ)
    → t_csv dados delim ≡ some y
    → t_csv_inv y ≡ some dados
unfolding t_csv
t_csv_inv-t_csv dados delim y h =
    t_csv_inv-encode_lines delim final (map (split delim) (split 10 corpo)) h ∙ ap some restored
  where
    final : Bool
    final = ends_with 10 dados

    corpo : List ℕ
    corpo = if final then without_last dados else dados

    restored :
        join 10 (map (join delim) (map (split delim) (split 10 corpo))) ++ newline final ≡ dados
    restored =
        rw (map-join-split delim (split 10 corpo), join-split 10 corpo) (whole (Bool-cases final))
      where
        whole : (final ≡ true) ⊎ (final ≡ false) → corpo ++ newline final ≡ dados
        whole (inl e) = rw e (without_last-append 10 dados e)
        whole (inr e) = rw e (append-nil dados)
