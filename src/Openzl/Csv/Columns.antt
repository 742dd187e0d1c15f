-- ===== src/Openzl/Csv/Columns.antt =====
-- The columns of `t_csv` in bench/openzl_bench.py.
use mathlib.Core.List.{append-nil, append_assoc}
use engine_motor.Prelude.{
  ℕ, zero, suc, ◌+◌, ◌*◌, ◌<◌, ◌≡◌, refl, sym, ap, ◌∙◌, some, List, [], ◌∷◌, ◌++◌, map, arith,
  length, get_or, length-append, get_or-append_left, get_or-append_right, take-append, drop-append,
}
use engine_motor.Openzl.Csv.{
  varint, column, zip_columns, write_lengths, write_all_lengths, write_fields, write_all_fields,
  ler_all, cut,
}
use engine_motor.Openzl.Csv.Varint.{varint-append, ler-varint}

-- The lengths and the fields as plain concatenations.
abbrev pub all_lengths : List (List ℕ) → List ℕ
all_lengths [] = []
all_lengths (f ∷ fs) = varint (length f) [] ++ all_lengths fs

write_lengths-eq :
    (c : List (List ℕ)) (saida : List ℕ) → write_lengths c saida ≡ saida ++ all_lengths c
unfolding write_lengths
write_lengths-eq [] saida = sym (append-nil saida)
write_lengths-eq (f ∷ c) saida =
    write_lengths-eq c (varint (length f) saida)
    ∙ ap (λ t. t ++ all_lengths c) (varint-append (length f) saida)
    ∙ append_assoc saida (varint (length f) []) (all_lengths c)

all_lengths-append :
    (xs ys : List (List ℕ)) → all_lengths (xs ++ ys) ≡ all_lengths xs ++ all_lengths ys
all_lengths-append [] ys = refl
all_lengths-append (f ∷ xs) ys =
    ap (λ t. varint (length f) [] ++ t) (all_lengths-append xs ys)
    ∙ sym (append_assoc (varint (length f) []) (all_lengths xs) (all_lengths ys))

abbrev pub flat : List (List (List ℕ)) → List (List ℕ)
flat [] = []
flat (c ∷ cs) = c ++ flat cs

pub write_all_lengths-eq :
    (cs : List (List (List ℕ))) (saida : List ℕ)
    → write_all_lengths cs saida ≡ saida ++ all_lengths (flat cs)
unfolding write_all_lengths
write_all_lengths-eq [] saida = sym (append-nil saida)
write_all_lengths-eq (c ∷ cs) saida =
    write_all_lengths-eq cs (write_lengths c saida)
    ∙ ap (λ t. t ++ all_lengths (flat cs)) (write_lengths-eq c saida)
    ∙ append_assoc saida (all_lengths c) (all_lengths (flat cs))
    ∙ ap (λ t. saida ++ t) (sym (all_lengths-append c (flat cs)))

abbrev pub concat : List (List ℕ) → List ℕ
concat [] = []
concat (f ∷ fs) = f ++ concat fs

concat-append : (xs ys : List (List ℕ)) → concat (xs ++ ys) ≡ concat xs ++ concat ys
concat-append [] ys = refl
concat-append (f ∷ xs) ys =
    ap (λ t. f ++ t) (concat-append xs ys) ∙ sym (append_assoc f (concat xs) (concat ys))

write_fields-eq : (c : List (List ℕ)) (saida : List ℕ) → write_fields c saida ≡ saida ++ concat c
unfolding write_fields
write_fields-eq [] saida = sym (append-nil saida)
write_fields-eq (f ∷ c) saida = write_fields-eq c (saida ++ f) ∙ append_assoc saida f (concat c)

pub write_all_fields-eq :
    (cs : List (List (List ℕ))) (saida : List ℕ)
    → write_all_fields cs saida ≡ saida ++ concat (flat cs)
unfolding write_all_fields
write_all_fields-eq [] saida = sym (append-nil saida)
write_all_fields-eq (c ∷ cs) saida =
    write_all_fields-eq cs (write_fields c saida)
    ∙ ap (λ t. t ++ concat (flat cs)) (write_fields-eq c saida)
    ∙ append_assoc saida (concat c) (concat (flat cs))
    ∙ ap (λ t. saida ++ t) (sym (concat-append c (flat cs)))

pub ler_all-all_lengths :
    (fs : List (List ℕ)) (rest : List ℕ)
    → ler_all (length fs) (all_lengths fs ++ rest) ≡ some (map length fs, rest)
unfolding ler_all
ler_all-all_lengths [] rest = refl
ler_all-all_lengths (f ∷ fs) rest = rw (
  append_assoc (varint (length f) []) (all_lengths fs) rest,
  ler-varint (length f) (all_lengths fs ++ rest),
  ler_all-all_lengths fs rest,
)

pub cut-concat : (fs : List (List ℕ)) → cut (map length fs) (concat fs) ≡ fs
unfolding cut
cut-concat [] = refl
cut-concat (f ∷ fs) = rw (take-append f (concat fs), drop-append f (concat fs), cut-concat fs)

length-column : (c : ℕ) (linhas : List (List (List ℕ))) → length (column c linhas) ≡ length linhas
unfolding column
length-column c [] = refl
length-column c (l ∷ linhas) = ap suc (length-column c linhas)

get_or-column :
    (c r : ℕ) (linhas : List (List (List ℕ)))
    → get_or (column c linhas) r [] ≡ get_or (get_or linhas r []) c []
unfolding column
get_or-column c r [] = refl
get_or-column c zero (l ∷ linhas) = refl
get_or-column c (suc r) (l ∷ linhas) = get_or-column c r linhas

pub length-flat :
    (linhas : List (List (List ℕ))) (left c : ℕ)
    → length (flat (zip_columns linhas left c)) ≡ length linhas * left
unfolding zip_columns
length-flat linhas zero c = omega arith
length-flat linhas (suc left) c = omega (
  arith,
  length-append (column c linhas) (flat (zip_columns linhas left (c + 1))),
  length-column c linhas,
  length-flat linhas left (c + 1),
)

-- Field `r` of column `c + k` stands at place `k * n + r` of the flattened columns.
pub get_or-flat :
    (linhas : List (List (List ℕ))) (left c k r : ℕ)
    → k < left
    → r < length linhas
    → get_or (flat (zip_columns linhas left c)) (k * length linhas + r) []
      ≡ get_or (get_or linhas r []) (c + k) []
unfolding zip_columns
get_or-flat linhas zero c k r hk hr = absurd (omega arith)
get_or-flat linhas (suc left) c zero r hk hr = rw place (
    get_or-append_left (column c linhas) (flat (zip_columns linhas left (c + 1))) r []
      (omega (arith, length-column c linhas))
    ∙ get_or-column c r linhas
    ∙ ap (λ t. get_or (get_or linhas r []) t []) (omega arith))
  where
    place : 0 * length linhas + r ≡ r
    place = omega arith
get_or-flat linhas (suc left) c (suc k) r hk hr = rw place (
    get_or-append_right (column c linhas) rest (k * length linhas + r) []
    ∙ get_or-flat linhas left (c + 1) k r (omega arith) hr
    ∙ ap (λ t. get_or (get_or linhas r []) t []) shift)
  where
    rest : List (List ℕ)
    rest = flat (zip_columns linhas left (c + 1))

    place : suc k * length linhas + r ≡ length (column c linhas) + (k * length linhas + r)
    place = omega (arith, length-column c linhas)

    shift : c + 1 + k ≡ c + suc k
    shift = omega arith
