-- ===== src/Openzl.antt =====
-- The transforms of bench/openzl_bench.py over `array` and `bytearray`: `t_delta`, `t_delta_inv`,
-- `t_split`, `t_split_inv`. A width is one of 1, 2, 4 and 8 there (`CODIGO_ARRAY`).
pub mod Delta
pub mod Split
pub mod Csv
pub mod Cbor
pub mod Blocos
mod Tests
use engine_motor.Prelude.{
  ℕ, zero, suc, ◌+◌, ◌-◌, ◌*◌, ◌/◌, ◌%◌, ◌^◌, List, [], ◌∷◌, ◌++◌, length, drop, take, slice, set,
  get_or, replicate,
}
use engine_motor.Bytes.{words, bytes_of}
use engine_motor.Transform.Arrays.{tabulate}

-- `(a[i] - a[i - 1]) & mascara for i in range(1, n)`, at `i` with `left` rounds left; `m` is
-- `mascara + 1`.
pub t_delta_loop : ℕ → List ℕ → ℕ → ℕ → List ℕ
t_delta_loop m a zero i = []
t_delta_loop m a (suc left) i =
    (get_or a i 0 + m - get_or a (i - 1) 0) % m ∷ t_delta_loop m a left (i + 1)

unfoldable pub t_delta : List ℕ → ℕ → List ℕ
unfolding t_delta_loop
t_delta dados w =
    let n = length dados / w in
    let a = words w n (take (n * w) dados) in
    bytes_of w (take 1 a ++ t_delta_loop (256 ^ w) a (n - 1) 1) ++ drop (n * w) dados

-- `for x in d: acc = (acc + x) & mascara; saida.append(acc)`.
pub t_delta_inv_loop : ℕ → ℕ → List ℕ → List ℕ → List ℕ
t_delta_inv_loop m acc [] saida = saida
t_delta_inv_loop m acc (x ∷ d) saida =
    let acc' = (acc + x) % m in t_delta_inv_loop m acc' d (saida ++ acc' ∷ [])

unfoldable pub t_delta_inv : List ℕ → ℕ → List ℕ
unfolding t_delta_inv_loop
t_delta_inv dados w =
    let n = length dados / w in
    bytes_of w (t_delta_inv_loop (256 ^ w) 0 (words w n (take (n * w) dados)) [])
    ++ drop (n * w) dados

-- `xs[start:stop:step]` with `stop` in range.
unfoldable pub stride : ℕ → ℕ → ℕ → List ℕ → List ℕ
unfolding tabulate
stride start stop step xs =
    tabulate ((stop - start + step - 1) / step) 0 (λ i. get_or xs (i * step + start) 0)

-- `b"".join(dados[p : n * w : w] for p in range(w))`, at `p` with `left` planes left.
unfoldable pub t_split_planes : List ℕ → ℕ → ℕ → ℕ → ℕ → List ℕ
unfolding stride
t_split_planes dados n w zero p = []
t_split_planes dados n w (suc left) p =
    stride p (n * w) w dados ++ t_split_planes dados n w left (p + 1)

unfoldable pub t_split : List ℕ → ℕ → List ℕ
unfolding t_split_planes
t_split dados w = let n = length dados / w in t_split_planes dados n w w 0 ++ drop (n * w) dados

-- `xs[start::step] = values`, one write after the other.
unfoldable pub set_stride : List ℕ → ℕ → ℕ → List ℕ → List ℕ
set_stride xs start step [] = xs
set_stride xs start step (v ∷ values) = set_stride (set xs start v) (start + step) step values

-- `for p in range(w): saida[p : n * w : w] = dados[p * n : (p + 1) * n]`.
unfoldable pub t_split_inv_loop : List ℕ → ℕ → ℕ → ℕ → ℕ → List ℕ → List ℕ
unfolding set_stride
t_split_inv_loop dados n w zero p saida = saida
t_split_inv_loop dados n w (suc left) p saida =
    t_split_inv_loop dados n w left (p + 1)
      (set_stride saida p w (slice (p * n) ((p + 1) * n) dados))

unfoldable pub t_split_inv : List ℕ → ℕ → List ℕ
unfolding t_split_inv_loop
t_split_inv dados w =
    let n = length dados / w in
    take (n * w) (t_split_inv_loop dados n w w 0 (replicate (length dados) 0)) ++ drop (n * w) dados
