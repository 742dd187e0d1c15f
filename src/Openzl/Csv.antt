-- ===== src/Openzl/Csv.antt =====
-- `varint`, `t_csv` and `t_csv_inv` of bench/openzl_bench.py: tabular text written column by column.
pub mod Varint
pub mod Lines
pub mod Columns
pub mod RoundTrip
use Prim.Native.Nat.{bit_and, bit_or}
use mathlib.Core.List.{flatten}
use engine_motor.Prelude.{
  ℕ, zero, suc, ◌+◌, ◌*◌, ◌/◌, ◌^◌, Bool, true, false, not, ◌&&◌, ◌||◌, Option, none, some, List,
  [], ◌∷◌, ◌++◌, map, length, take, drop, get_or, ltb, ◌==◌, if◌then◌else◌,
}

-- The loop writes seven bits a round; `fuel` bounds the rounds.
unfoldable pub varint_loop : ℕ → ℕ → List ℕ → List ℕ
varint_loop zero v saida = saida
varint_loop (suc fuel) v saida =
    let b = bit_and v 0x7f in
    let v' = v / 128 in
    let more = varint_loop fuel v' (saida ++ bit_or b 0x80 ∷ []) in
    if v' == 0 then saida ++ b ∷ [] else more

-- `v` itself is more rounds than the loop takes.
unfoldable pub varint : ℕ → List ℕ → List ℕ
unfolding varint_loop
varint v saida = varint_loop (suc v) v saida

-- `bs.endswith(bytes([x]))`, and `bs[:-1]`.
unfoldable pub ends_with : ℕ → List ℕ → Bool
ends_with x [] = false
ends_with x (y ∷ []) = y == x
ends_with x (y ∷ z ∷ bs) = ends_with x (z ∷ bs)

unfoldable pub without_last : List ℕ → List ℕ
without_last [] = []
without_last (y ∷ []) = []
without_last (y ∷ z ∷ bs) = y ∷ without_last (z ∷ bs)

-- `bs.split(bytes([d]))` and `bytes([d]).join(parts)`.
abbrev pub put_first : ℕ → List (List ℕ) → List (List ℕ)
put_first x [] = (x ∷ []) ∷ []
put_first x (p ∷ ps) = (x ∷ p) ∷ ps

unfoldable pub split : ℕ → List ℕ → List (List ℕ)
split d [] = [] ∷ []
split d (x ∷ bs) = let rest = split d bs in if x == d then [] ∷ rest else put_first x rest

unfoldable pub join : ℕ → List (List ℕ) → List ℕ
join d [] = []
join d (p ∷ []) = p
join d (p ∷ q ∷ ps) = p ++ d ∷ join d (q ∷ ps)

-- `any(len(l) != cols for l in linhas)`.
unfoldable pub any_ragged : ℕ → List (List (List ℕ)) → Bool
any_ragged cols [] = false
any_ragged cols (l ∷ linhas) = not (length l == cols) || any_ragged cols linhas

-- `zip(*linhas)` of lines with equally many fields: the columns from `c` on, `left` of them.
unfoldable pub column : ℕ → List (List (List ℕ)) → List (List ℕ)
column c linhas = map (λ l. get_or l c []) linhas

unfoldable pub zip_columns : List (List (List ℕ)) → ℕ → ℕ → List (List (List ℕ))
unfolding column
zip_columns linhas zero c = []
zip_columns linhas (suc left) c = column c linhas ∷ zip_columns linhas left (c + 1)

-- The two nested loops: lengths first, then the fields.
unfoldable pub write_lengths : List (List ℕ) → List ℕ → List ℕ
write_lengths [] saida = saida
write_lengths (f ∷ c) saida = write_lengths c (varint (length f) saida)

unfoldable pub write_all_lengths : List (List (List ℕ)) → List ℕ → List ℕ
unfolding write_lengths
write_all_lengths [] saida = saida
write_all_lengths (c ∷ colunas) saida = write_all_lengths colunas (write_lengths c saida)

unfoldable pub write_fields : List (List ℕ) → List ℕ → List ℕ
write_fields [] saida = saida
write_fields (f ∷ c) saida = write_fields c (saida ++ f)

unfoldable pub write_all_fields : List (List (List ℕ)) → List ℕ → List ℕ
unfolding write_fields
write_all_fields [] saida = saida
write_all_fields (c ∷ colunas) saida = write_all_fields colunas (write_fields c saida)

abbrev pub flag : Bool → ℕ
flag final = if final then 1 else 0

-- The container for lines that are already split; `none` is Python's `None`.
unfoldable pub encode_lines : ℕ → Bool → List (List (List ℕ)) → Option (List ℕ)
encode_lines delim final linhas =
    let cols = length (get_or linhas 0 []) in
    let colunas = zip_columns linhas cols 0 in
    if ltb cols 2 || ltb (length linhas) 4 || any_ragged cols linhas
    then none
    else some (
        write_all_fields colunas (
          write_all_lengths colunas
            (varint cols (varint (length linhas) (0x43 ∷ delim ∷ flag final ∷ [])))))

unfoldable pub t_csv : List ℕ → ℕ → Option (List ℕ)
unfolding encode_lines
t_csv dados delim =
    let final = ends_with 10 dados in
    let corpo = if final then without_last dados else dados in
    encode_lines delim final (map (split delim) (split 10 corpo))

-- The closure `ler` over what is left from `p` on; `none` is an IndexError at the end.
unfoldable pub ler_loop : List ℕ → ℕ → ℕ → Option (ℕ × List ℕ)
ler_loop [] v sh = none
ler_loop (b ∷ rest) v sh =
    let v' = bit_or v (bit_and b 0x7f * 2 ^ sh) in
    let more = ler_loop rest v' (sh + 7) in if ltb b 0x80 then some (v', rest) else more

unfoldable pub ler : List ℕ → Option (ℕ × List ℕ)
unfolding ler_loop
ler dados = ler_loop dados 0 0

infixl 5 ◌>>=◌
abbrev pub ◌>>=◌ : {A B : Type 0} → Option A → (A → Option B) → Option B
none >>= f = none
some a >>= f = f a

-- `[ler() for _ in range(n)]`.
unfoldable pub ler_all : ℕ → List ℕ → Option (List ℕ × List ℕ)
unfolding ler
ler_all zero dados = some ([], dados)
ler_all (suc n) dados = do (t, rest) ← ler dados; (ts, rest') ← ler_all n rest; some (t ∷ ts, rest')

-- `for t in tamanhos: campos.append(dados[p : p + t]); p += t`.
unfoldable pub cut : List ℕ → List ℕ → List (List ℕ)
cut [] dados = []
cut (t ∷ tamanhos) dados = take t dados ∷ cut tamanhos (drop t dados)

-- `campos[c * linhas_n + r] for c in range(cols)`, from column `c` on.
unfoldable pub fields_of : List (List ℕ) → ℕ → ℕ → ℕ → ℕ → List (List ℕ)
fields_of campos n r zero c = []
fields_of campos n r (suc left) c = get_or campos (c * n + r) [] ∷ fields_of campos n r left (c + 1)

-- The lines from `r` on, `left` of them.
unfoldable pub lines_of : ℕ → List (List ℕ) → ℕ → ℕ → ℕ → ℕ → List (List ℕ)
unfolding fields_of join
lines_of delim campos n cols zero r = []
lines_of delim campos n cols (suc left) r =
    join delim (fields_of campos n r cols 0) ∷ lines_of delim campos n cols left (r + 1)

-- The body of `t_csv_inv` behind the three bytes of the header.
unfoldable pub decode_body : ℕ → ℕ → List ℕ → Option (List ℕ)
unfolding ler ler_all cut lines_of join
decode_body delim final dados = do
  (n, r1) ← ler dados
  (cols, r2) ← ler r1
  (tamanhos, r3) ← ler_all (n * cols) r2
  let linhas = lines_of delim (cut tamanhos r3) n cols n 0
  some (join 10 linhas ++ (if final == 0 then [] else 10 ∷ []))

unfoldable pub t_csv_inv : List ℕ → Option (List ℕ)
unfolding decode_body
t_csv_inv (magic ∷ delim ∷ final ∷ dados) = decode_body delim final dados
t_csv_inv _ = none
