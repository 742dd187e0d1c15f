-- ===== src/Transform/Reference.antt =====
-- The byte-by-byte references `delta_ref` and `bsplit_ref` of bench/plano_bloco.py.
use mathlib.Core.List.{append-nil, append_assoc}
use native.Mathlib.Nat.{div-mul-le_self, mul_comm, mul-add-div_right, div-eq_of_lt}
use engine_motor.Prelude.{
  ℕ, zero, suc, ◌+◌, ◌-◌, ◌*◌, ◌/◌, ◌%◌, ◌^◌, ◌≤◌, ◌<◌, ◌≡◌, refl, sym, ap, ap₂, ◌∙◌, inl, inr,
  List, [], ◌∷◌, ◌++◌, arith, true, length, take, drop, set, get_or, replicate, All, length-take,
  length-set, length-replicate, get_or-set_self, get_or-set_ne, get_or-take, drop-drop, ◌==◌,
  Bool-cases,
}
use engine_motor.Bytes.{IsByte, from_le, to_le, words, bytes_of}
use engine_motor.Bytes.Words.{words-lt}
use engine_motor.Transform.{
  differences, delta_words, delta_apply, bsplit_apply, delta_ref, delta_ref_loop, bsplit_ref,
  bsplit_ref_plane, bsplit_ref_planes,
}
use engine_motor.Transform.Arrays.{reshape, transpose, to_bytes, grid_ext, place-lt}

module _ (b : List ℕ) (w : ℕ) where
  -- The loop writes the differences of the words that it has still to read.
  delta_ref_loop-eq :
      (left i prev : ℕ) (out : List ℕ)
      → delta_ref_loop b w left i prev out
        ≡ out ++ bytes_of w (differences (256 ^ w) prev (words w left (drop (i * w) b)))
  unfolding delta_ref_loop bytes_of differences words
  delta_ref_loop-eq zero i prev out = sym (append-nil out)
  delta_ref_loop-eq (suc left) i prev out =
      rw (width, delta_ref_loop-eq left (i + 1) cur (out ++ written), next)
        (append_assoc out written _)
    where
      width : (i + 1) * w - i * w ≡ w
      width = omega arith

      cur : ℕ
      cur = from_le (take w (drop (i * w) b))

      written : List ℕ
      written = to_le w ((cur + 256 ^ w - prev) % 256 ^ w)

      next : drop ((i + 1) * w) b ≡ drop w (drop (i * w) b)
      next = sym (drop-drop w (i * w) b ∙ ap (λ k. drop k b) (omega arith))

-- With no word before the first, its difference is the word itself.
differences-delta_words :
    (m : ℕ) (xs : List ℕ) → All (λ x. x < m) xs → differences m 0 xs ≡ delta_words m xs
unfolding differences delta_words
differences-delta_words m [] h = refl
differences-delta_words m (x ∷ xs) (hx, h) =
    let first : (x + m - 0) % m ≡ x = grind arith in rw first

pub delta_apply-eq-delta_ref : (b : List ℕ) (w : ℕ) → All IsByte b → delta_apply b w ≡ delta_ref b w
unfolding delta_apply delta_ref
delta_apply-eq-delta_ref b w bytes =
    rw (delta_ref_loop-eq b w (length b / w) 0 0 []) (elim (Bool-cases (length b / w == 0)) [
      | inl empty ↦ rw empty (none_read empty)
      | inr full ↦ rw (full, start) (rw (differences-delta_words (256 ^ w) read in_range))
    ])
  where
    start : 0 * w ≡ 0
    start = omega arith

    read : List ℕ
    read = words w (length b / w) b

    in_range : All (λ x. x < 256 ^ w) read
    in_range = words-lt w (length b / w) b bytes (div-mul-le_self (length b) w)

    none_read :
        (length b / w == 0) ≡ true
        → b
          ≡ ([] ++ bytes_of w (differences (256 ^ w) 0 (words w (length b / w) (drop (0 * w) b))))
            ++ drop (length b / w * w) b
    none_read empty =
        let zero_count : length b / w ≡ 0 = ground arith in
        rw (zero_count, start) (unfold bytes_of differences words in refl)

-- Every write of `bsplit_ref` puts into place `x` the byte that belongs there.
module _ (b : List ℕ) (w n : ℕ) where
  abbrev target : ℕ → ℕ
  target x = get_or b (x % n * w + x / n) 0

  abbrev Written : ℕ → List ℕ → Type 0
  Written k out = (x : ℕ) → x < k → get_or out x 0 ≡ target x

  target_at : (p i : ℕ) → i < n → target (p * n + i) ≡ get_or b (i * w + p) 0
  target_at p i h = ap₂ (λ u v. get_or b (u * w + v) 0) column row
    where
      positive : 0 < n
      positive = omega arith

      column : (p * n + i) % n ≡ i
      column = grind arith

      row : (p * n + i) / n ≡ p
      row = mul-add-div_right positive p i ∙ omega (arith, div-eq_of_lt h)

  set-Written :
      (p i : ℕ) (out : List ℕ)
      → i < n
      → p * n + i < length out
      → Written (p * n + i) out
      → Written (p * n + (i + 1)) (set out (p * n + i) (get_or b (i * w + p) 0))
  set-Written p i out hi room done x hx = elim (Bool-cases (x == p * n + i)) [
    | inl here ↦
        let e : x ≡ p * n + i = ground arith in
        rw e
          (get_or-set_self out (p * n + i) (get_or b (i * w + p) 0) 0 room ∙ sym (target_at p i hi))
    | inr other ↦
        get_or-set_ne out (p * n + i) x (get_or b (i * w + p) 0) 0 (λ e. ground arith)
        ∙ done x (ground arith)
  ]

  length-plane :
      (p left i : ℕ) (out : List ℕ) → length (bsplit_ref_plane b w n p left i out) ≡ length out
  unfolding bsplit_ref_plane
  length-plane p zero i out = refl
  length-plane p (suc left) i out =
      length-plane p left (i + 1) (set out (p * n + i) (get_or b (i * w + p) 0))
      ∙ length-set out (p * n + i) (get_or b (i * w + p) 0)

  plane-Written :
      (p left i : ℕ) (out : List ℕ)
      → i + left ≡ n
      → p * n + n ≤ length out
      → Written (p * n + i) out
      → Written (p * n + n) (bsplit_ref_plane b w n p left i out)
  unfolding bsplit_ref_plane
  plane-Written p zero i out e room done = λ x hx. done x (omega arith)
  plane-Written p (suc left) i out e room done =
      plane-Written p left (i + 1) (set out (p * n + i) (get_or b (i * w + p) 0)) (omega arith)
        (omega (arith, length-set out (p * n + i) (get_or b (i * w + p) 0)))
        (set-Written p i out (omega arith) (omega arith) done)

  length-loop :
      (left p : ℕ) (out : List ℕ) → length (bsplit_ref_planes b w n left p out) ≡ length out
  unfolding bsplit_ref_planes
  length-loop zero p out = refl
  length-loop (suc left) p out =
      length-loop left (p + 1) (bsplit_ref_plane b w n p n 0 out) ∙ length-plane p n 0 out

  planes-Written :
      (left p : ℕ) (out : List ℕ)
      → (p + left) * n ≤ length out
      → Written (p * n) out
      → Written ((p + left) * n) (bsplit_ref_planes b w n left p out)
  unfolding bsplit_ref_planes
  planes-Written zero p out room done = λ x hx. done x (omega arith)
  planes-Written (suc left) p out room done =
      let done' : Written (p * n + n) (bsplit_ref_plane b w n p n 0 out) =
        plane-Written p n 0 out (omega arith) (grind arith) (λ x hx. done x (omega arith)) in
      λ x hx.
        planes-Written left (p + 1) (bsplit_ref_plane b w n p n 0 out)
          (omega (arith, length-plane p n 0 out)) (λ y hy. done' y (omega arith)) x (omega arith)

-- The transposed array is what the reference's loops leave in the first `n * w` places.
pub bsplit_apply-eq-bsplit_ref : (b : List ℕ) (w : ℕ) → bsplit_apply b w ≡ bsplit_ref b w
unfolding bsplit_apply bsplit_ref
bsplit_apply-eq-bsplit_ref b w = elim (Bool-cases (length b / w == 0)) [
  | inl empty ↦ rw empty (zero_words (ground arith))
  | inr full ↦ rw full (ap (λ t. t ++ drop (n * w) b) planes)
]
  where
    n : ℕ
    n = length b / w

    fits : n * w ≤ length b
    fits = div-mul-le_self (length b) w

    zero_words :
        n ≡ 0
        → b ≡ take (n * w) (bsplit_ref_planes b w n w 0 (replicate (length b) 0)) ++ drop (n * w) b
    zero_words e = let none : n * w ≡ 0 = omega (arith, ap (λ t. t * w) e) in rw none

    out : List ℕ
    out = bsplit_ref_planes b w n w 0 (replicate (length b) 0)

    size : length out ≡ length b
    size = length-loop b w n w 0 (replicate (length b) 0) ∙ length-replicate (length b) 0

    swapped : w * n ≡ n * w
    swapped = mul_comm w n

    written : (x : ℕ) → x < n * w → get_or out x 0 ≡ get_or b (x % n * w + x / n) 0
    written x hx =
        planes-Written b w n w 0 (replicate (length b) 0)
          (omega (arith, length-replicate {0} (length b) (zero), swapped, fits))
          (λ y hy. absurd (omega arith)) x (omega (arith, swapped))

    planes : to_bytes (transpose (reshape n w (take (n * w) b))) ≡ take (n * w) out
    planes =
        grid_ext w n _ (take (n * w) out)
          (omega (arith, length-take (n * w) out, size, fits, swapped))
          λ k j hk hj.
            let place : k * n + j < n * w = omega (arith, place-lt w n k j hk hj, swapped) in
            let origin : j * w + k < n * w = place-lt n w j k hj hk in
            get_or-take (n * w) (k * n + j) out 0 place
            ∙ written (k * n + j) place
            ∙ target_at b w n k j hj
            ∙ sym (get_or-take (n * w) (j * w + k) b 0 origin)
