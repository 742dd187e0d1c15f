-- ===== src/Openzl/Tests.antt =====
-- Runs of the transforms of bench/openzl_bench.py, and their theorems at concrete bytes.
use engine_motor.Prelude.{ℕ, ◌≡◌, refl, none, some, List, [], ◌∷◌}
use engine_motor.Bytes.{words, bytes_of}
use engine_motor.Openzl.{t_delta, t_split, t_split_inv}
use engine_motor.Openzl.Csv.{
  varint, ends_with, without_last, split, any_ragged, zip_columns, write_all_lengths,
  write_all_fields, t_csv, t_csv_inv,
}
use engine_motor.Openzl.Csv.RoundTrip.{t_csv_inv-t_csv}

abbrev sample : List ℕ
sample = 5 ∷ 1 ∷ 3 ∷ 2 ∷ 9 ∷ 1 ∷ 7 ∷ []

delta_run : t_delta sample 2 ≡ 5 ∷ 1 ∷ 254 ∷ 0 ∷ 6 ∷ 255 ∷ 7 ∷ []
unfolding t_delta words bytes_of
delta_run = refl

split_run : t_split sample 2 ≡ 5 ∷ 3 ∷ 9 ∷ 1 ∷ 2 ∷ 1 ∷ 7 ∷ []
unfolding t_split
split_run = refl

split_inv_run : t_split_inv (5 ∷ 3 ∷ 9 ∷ 1 ∷ 2 ∷ 1 ∷ 7 ∷ []) 2 ≡ sample
unfolding t_split_inv
split_inv_run = refl

varint_run : varint 300 [] ≡ 0xac ∷ 0x02 ∷ []
unfolding varint
varint_run = refl

-- "a,b\nc,\n,d\ne,f\n": four lines of two fields.
abbrev table : List ℕ
table = b'a' ∷ 44 ∷ b'b' ∷ 10 ∷ b'c' ∷ 44 ∷ 10 ∷ 44 ∷ b'd' ∷ 10 ∷ b'e' ∷ 44 ∷ b'f' ∷ 10 ∷ []

abbrev encoded : List ℕ
encoded =
    0x43 ∷ 44 ∷ 1 ∷ 4 ∷ 2 ∷ 1 ∷ 1 ∷ 0 ∷ 1 ∷ 1 ∷ 0 ∷ 1 ∷ 1 ∷ b'a' ∷ b'c' ∷ b'e' ∷ b'b' ∷ b'd' ∷ b'f'
    ∷ []

csv_run : t_csv table 44 ≡ some encoded
unfolding t_csv ends_with without_last split any_ragged zip_columns write_all_lengths
    write_all_fields varint
csv_run = refl

-- Three lines are too few, and so is a ragged table.
csv_refused : t_csv (1 ∷ 44 ∷ 2 ∷ 10 ∷ 3 ∷ 44 ∷ 4 ∷ 10 ∷ []) 44 ≡ none
unfolding t_csv ends_with without_last split any_ragged zip_columns
csv_refused = refl

csv_inv_run : t_csv_inv encoded ≡ some table
unfolding t_csv_inv
csv_inv_run = refl

t_csv_inv-t_csv_example : t_csv_inv encoded ≡ some table
t_csv_inv-t_csv_example = t_csv_inv-t_csv table 44 encoded csv_run
