-- ===== src/Transform.antt =====
-- The reversible transforms of bench/plano_bloco.py (`delta_apply`, `delta_invert`, `bsplit_apply`,
-- `bsplit_invert`, `aplicar`, `inverter` and the two references) and those of bench/perfil_dataset.py
-- (`aplicar_delta`, `aplicar_bsplit`, `aplicar_transform`), which are the same code.
pub mod Arrays
pub mod Delta
pub mod Split
pub mod Reference
pub mod Inverse
mod Tests
use engine_motor.Prelude.{
  ℕ, zero, suc, ◌+◌, ◌-◌, ◌*◌, ◌/◌, ◌%◌, ◌^◌, List, [], ◌∷◌, ◌++◌, length, drop, take, slice, set,
  get_or, replicate, ◌==◌, if◌then◌else◌,
}
use engine_motor.Bytes.{from_le, to_le, words, bytes_of}
use engine_motor.Transform.Arrays.{reshape, transpose, to_bytes}

-- `np.subtract(a[1:], a[:-1])` on an unsigned type with `m` values: each word less the one before.
unfoldable pub differences : ℕ → ℕ → List ℕ → List ℕ
differences m prev [] = []
differences m prev (x ∷ xs) = (x + m - prev) % m ∷ differences m x xs

-- `d[0] = a[0]`, and the differences behind it.
unfoldable pub delta_words : ℕ → List ℕ → List ℕ
unfolding differences
delta_words m [] = []
delta_words m (x ∷ xs) = x ∷ differences m x xs

unfoldable pub delta_apply : List ℕ → ℕ → List ℕ
delta_apply b w =
    let n = length b / w in
    if n == 0 then b else bytes_of w (delta_words (256 ^ w) (words w n b)) ++ drop (n * w) b

-- `np.cumsum(a, dtype=dt)`: the running sum, which wraps with the type.
unfoldable pub cumsum : ℕ → ℕ → List ℕ → List ℕ
cumsum m acc [] = []
cumsum m acc (x ∷ xs) = let s = (acc + x) % m in s ∷ cumsum m s xs

unfoldable pub delta_invert : List ℕ → ℕ → List ℕ
delta_invert b w =
    let n = length b / w in
    if n == 0 then b else bytes_of w (cumsum (256 ^ w) 0 (words w n b)) ++ drop (n * w) b

-- `frombuffer(...).reshape(n, w)`, transposed and written row by row.
unfoldable pub bsplit_apply : List ℕ → ℕ → List ℕ
bsplit_apply b w =
    let n = length b / w in
    if n == 0 then b else to_bytes (transpose (reshape n w (take (n * w) b))) ++ drop (n * w) b

unfoldable pub bsplit_invert : List ℕ → ℕ → List ℕ
bsplit_invert b w =
    let n = length b / w in
    if n == 0 then b else to_bytes (transpose (reshape w n (take (n * w) b))) ++ drop (n * w) b

-- The two values of `tipo`; the source takes every text but "delta" for the second.
pub data Kind : Type 0 where
  delta bsplit : Kind

unfoldable pub aplicar : List ℕ → Kind → ℕ → List ℕ
aplicar b delta w = delta_apply b w
aplicar b bsplit w = bsplit_apply b w

unfoldable pub inverter : List ℕ → Kind → ℕ → List ℕ
inverter b delta w = delta_invert b w
inverter b bsplit w = bsplit_invert b w

-- The loop of `delta_ref` with `left` rounds left, at word `i`; `out` is what is written so far.
pub delta_ref_loop : List ℕ → ℕ → ℕ → ℕ → ℕ → List ℕ → List ℕ
delta_ref_loop b w zero i prev out = out
delta_ref_loop b w (suc left) i prev out =
    let cur = from_le (slice (i * w) ((i + 1) * w) b) in
    delta_ref_loop b w left (i + 1) cur (out ++ to_le w ((cur + 256 ^ w - prev) % 256 ^ w))

pub delta_ref : List ℕ → ℕ → List ℕ
unfolding delta_ref_loop
delta_ref b w = let n = length b / w in delta_ref_loop b w n 0 0 [] ++ drop (n * w) b

-- `for i in range(n): out[p * n + i] = b[i * w + p]`, with `left` rounds left.
pub bsplit_ref_plane : List ℕ → ℕ → ℕ → ℕ → ℕ → ℕ → List ℕ → List ℕ
bsplit_ref_plane b w n p zero i out = out
bsplit_ref_plane b w n p (suc left) i out =
    bsplit_ref_plane b w n p left (i + 1) (set out (p * n + i) (get_or b (i * w + p) 0))

-- `for p in range(w)`, with `left` rounds left.
pub bsplit_ref_planes : List ℕ → ℕ → ℕ → ℕ → ℕ → List ℕ → List ℕ
unfolding bsplit_ref_plane
bsplit_ref_planes b w n zero p out = out
bsplit_ref_planes b w n (suc left) p out =
    bsplit_ref_planes b w n left (p + 1) (bsplit_ref_plane b w n p n 0 out)

pub bsplit_ref : List ℕ → ℕ → List ℕ
unfolding bsplit_ref_planes
bsplit_ref b w =
    let n = length b / w in
    take (n * w) (bsplit_ref_planes b w n w 0 (replicate (length b) 0)) ++ drop (n * w) b
