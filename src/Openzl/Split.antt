-- ===== src/Openzl/Split.antt =====
-- `t_split` and `t_split_inv` of bench/openzl_bench.py, beside the transforms of
-- bench/plano_bloco.py.
use native.Mathlib.Nat.{
  div-mul-le_self, mul_comm, mul-add-div_right, div-eq_of_lt, mul-le-mul_right,
}
use engine_motor.Prelude.{
  ℕ, zero, suc, ◌+◌, ◌-◌, ◌*◌, ◌/◌, ◌%◌, ◌≤◌, ◌<◌, ◌≡◌, refl, sym, ap, ap₂, subst, ◌∙◌, inl, inr,
  ◌⊎◌, List, [], ◌∷◌, ◌++◌, arith, false, length, take, drop, slice, set, get_or, replicate,
  length-take, length-set, length-replicate, get_or-set_self, get_or-set_ne, get_or-take, drop-cons,
  ◌==◌, Bool-cases,
}
use engine_motor.Transform.{bsplit_apply, bsplit_invert}
use engine_motor.Transform.Arrays.{
  tabulate, grid, reshape, transpose, to_bytes, tabulate_ext, grid_ext, place-lt, row-col, row-lt,
  col-lt,
}
use engine_motor.Transform.Split.{bsplit_invert-bsplit_apply}
use engine_motor.Openzl.{stride, t_split_planes, t_split, set_stride, t_split_inv_loop, t_split_inv}

quotient : (x q w r : ℕ) → x ≡ q * w + r → r < w → x / w ≡ q
quotient x q w r e h =
    let positive : 0 < w = omega arith in
    rw e (mul-add-div_right positive q r ∙ omega (arith, div-eq_of_lt h))

-- `n * w - p` divided by `w` and rounded up.
ceiling : (n w p : ℕ) → p < w → (n * w - p + w - 1) / w ≡ n
ceiling zero w p h = quotient (0 * w - p + w - 1) 0 w (w - 1) (omega arith) (omega arith)
ceiling (suc n) w p h =
    quotient (suc n * w - p + w - 1) (suc n) w (w - 1 - p) (omega arith) (omega arith)

module _ (b : List ℕ) (n w : ℕ) where
  abbrev at : ℕ → ℕ → ℕ
  at p i = get_or (take (n * w) b) (i * w + p) 0

  -- A stride that starts in the first word meets every word once.
  stride_plane : (p : ℕ) → p < w → stride p (n * w) w b ≡ tabulate n 0 (at p)
  unfolding stride
  stride_plane p h = rw (ceiling n w p h) (
      tabulate_ext n 0 _ (at p)
        λ i lo hi. sym (get_or-take (n * w) (i * w + p) b 0 (place-lt n w i p (omega arith) h)))

  planes-eq-grid : (left p : ℕ) → p + left ≡ w → t_split_planes b n w left p ≡ grid left n p at
  unfolding t_split_planes grid
  planes-eq-grid zero p e = refl
  planes-eq-grid (suc left) p e =
      rw (stride_plane p (omega arith), planes-eq-grid left (p + 1) (omega arith))

pub t_split-eq-bsplit_apply : (b : List ℕ) (w : ℕ) → t_split b w ≡ bsplit_apply b w
unfolding t_split bsplit_apply
t_split-eq-bsplit_apply b w =
    rw (planes-eq-grid b n w w 0 (omega arith)) (elim (Bool-cases (n == 0)) [
      | inl empty ↦ rw empty (no_words (ground arith))
      | inr full ↦ rw full
    ])
  where
    n : ℕ
    n = length b / w

    no_words : n ≡ 0 → grid w n 0 (at b n w) ++ drop (n * w) b ≡ b
    no_words e =
        let start : 0 * w ≡ 0 = omega arith in
        let nothing : grid w 0 0 (at b 0 w) ≡ [] =
          grid_ext w 0 (at b 0 w) [] (omega arith) (λ k j hk hj. absurd (omega arith)) in
        rw (e, start) (ap (λ t. t ++ b) nothing)

-- Every write of `t_split_inv` puts into place `x` the byte that belongs there.
module _ (d : List ℕ) (n w : ℕ) where
  abbrev source : ℕ → ℕ
  source x = get_or d (x % w * n + x / w) 0

  -- Planes below `p` are in place, and so are the first `i` bytes of plane `p`.
  abbrev Placed : ℕ → ℕ → List ℕ → Type 0
  Placed p i out =
      (x : ℕ) → x < n * w → (x % w < p) ⊎ ((x % w ≡ p) × (x / w < i)) → get_or out x 0 ≡ source x

  source_at : (p i : ℕ) → p < w → source (i * w + p) ≡ get_or d (p * n + i) 0
  source_at p i h = ap₂ (λ u v. get_or d (u * n + v) 0) column row
    where
      column : (i * w + p) % w ≡ p
      column = grind arith

      row : (i * w + p) / w ≡ i
      row = quotient (i * w + p) i w p refl h

  set-Placed :
      (p i : ℕ) (out : List ℕ)
      → p < w
      → i < n
      → n * w ≤ length out
      → Placed p i out
      → Placed p (i + 1) (set out (i * w + p) (get_or d (p * n + i) 0))
  set-Placed p i out hp hi room done x hx h = elim (Bool-cases (x == i * w + p)) [
    | inl here ↦
        let e : x ≡ i * w + p = ground arith in
        rw e (
          get_or-set_self out (i * w + p) (get_or d (p * n + i) 0) 0
            (omega (arith, place-lt n w i p hi hp))
          ∙ sym (source_at p i hp))
    | inr other ↦
        get_or-set_ne out (i * w + p) x (get_or d (p * n + i) 0) 0 (λ e. ground arith)
        ∙ done x hx (earlier x other h)
  ]
    where
      before : (x : ℕ) → (x == i * w + p) ≡ false → x % w ≡ p → x / w < i + 1 → x / w < i
      before x ne c r = elim (Bool-cases (x / w == i)) [
        | inl e ↦
            let here : x ≡ i * w + p =
              sym (row-col w x) ∙ ap₂ (λ u v. u * w + v) (ground arith) c in
            absurd (ground arith)
        | inr e ↦ ground arith
      ]

      earlier :
          (x : ℕ)
          → (x == i * w + p) ≡ false
          → (x % w < p) ⊎ ((x % w ≡ p) × (x / w < i + 1))
          → (x % w < p) ⊎ ((x % w ≡ p) × (x / w < i))
      earlier x ne (inl h) = inl h
      earlier x ne (inr (c, r)) = inr (c, before x ne c r)

  length-set_stride :
      (out : List ℕ) (start : ℕ) (values : List ℕ)
      → length (set_stride out start w values) ≡ length out
  unfolding set_stride
  length-set_stride out start [] = refl
  length-set_stride out start (v ∷ values) =
      length-set_stride (set out start v) (start + w) values ∙ length-set out start v

  -- One plane, from byte `i` on.
  set_stride-Placed :
      (p left i : ℕ) (out : List ℕ)
      → p < w
      → i + left ≡ n
      → p * n + n ≤ length d
      → n * w ≤ length out
      → Placed p i out
      → Placed p n (set_stride out (i * w + p) w (take left (drop (p * n + i) d)))
  unfolding set_stride
  set_stride-Placed p zero i out hp e fits room done = subst (λ k. Placed p k out) whole done
    where
      whole : i ≡ n
      whole = omega arith
  set_stride-Placed p (suc left) i out hp e fits room done = subst (Placed p n) (sym step) (
      set_stride-Placed p left (i + 1) (set out (i * w + p) v) hp (omega arith) fits
        (omega (arith, length-set out (i * w + p) v))
        (set-Placed p i out hp (omega arith) room done))
    where
      v : ℕ
      v = get_or d (p * n + i) 0

      next : i * w + p + w ≡ (i + 1) * w + p
      next = omega arith

      further : suc (p * n + i) ≡ p * n + (i + 1)
      further = omega arith

      step :
          set_stride out (i * w + p) w (take (suc left) (drop (p * n + i) d))
          ≡ set_stride
              (set out (i * w + p) v)
              ((i + 1) * w + p)
              w
              (take left (drop (p * n + (i + 1)) d))
      step =
          ap (λ t. set_stride out (i * w + p) w (take (suc left) t))
            (drop-cons (p * n + i) d 0 (omega arith))
          ∙ ap₂ (λ s t. set_stride (set out (i * w + p) v) s w (take left (drop t d))) next further

  length-inv_loop :
      (left p : ℕ) (out : List ℕ) → length (t_split_inv_loop d n w left p out) ≡ length out
  unfolding t_split_inv_loop
  length-inv_loop zero p out = refl
  length-inv_loop (suc left) p out =
      length-inv_loop left (p + 1) (set_stride out p w (slice (p * n) ((p + 1) * n) d))
      ∙ length-set_stride out p (slice (p * n) ((p + 1) * n) d)

  inv_loop-Placed :
      (left p : ℕ) (out : List ℕ)
      → p + left ≡ w
      → w * n ≤ length d
      → n * w ≤ length out
      → Placed p 0 out
      → Placed w 0 (t_split_inv_loop d n w left p out)
  unfolding t_split_inv_loop
  inv_loop-Placed zero p out e fits room done = subst (λ k. Placed k 0 out) whole done
    where
      whole : p ≡ w
      whole = omega arith
  inv_loop-Placed (suc left) p out e fits room done =
      let out' = set_stride out p w (slice (p * n) ((p + 1) * n) d) in
      inv_loop-Placed left (p + 1) out' (omega arith) fits
        (omega (arith, length-set_stride out p (slice (p * n) ((p + 1) * n) d)))
        (λ x hx h. plane x hx (merge x hx h))
    where
      suc_le : suc p ≤ w
      suc_le = omega arith

      width : (p + 1) * n - p * n ≡ n
      width = omega arith

      start : 0 * w + p ≡ p
      start = omega arith

      origin : p * n + 0 ≡ p * n
      origin = omega arith

      below : p * n + n ≤ length d
      below = grind (arith, mul-le-mul_right n suc_le)

      plane : Placed p n (set_stride out p w (slice (p * n) ((p + 1) * n) d))
      plane =
          subst (Placed p n)
            (ap₂ (λ s t. set_stride out s w (take n (drop t d))) start origin
              ∙ ap (λ k. set_stride out p w (take k (drop (p * n) d))) (sym width))
            (set_stride-Placed p n 0 out (omega arith) (omega arith) below room done)

      merge :
          (x : ℕ)
          → x < n * w
          → (x % w < p + 1) ⊎ ((x % w ≡ p + 1) × (x / w < 0))
          → (x % w < p) ⊎ ((x % w ≡ p) × (x / w < n))
      merge x hx (inl h) = elim (Bool-cases (x % w == p)) [
        | inl c ↦ inr (ground arith, row-lt n w x hx)
        | inr c ↦ inl (ground arith)
      ]
      merge x hx (inr h) = absurd (omega arith)

pub t_split_inv-eq-bsplit_invert : (b : List ℕ) (w : ℕ) → t_split_inv b w ≡ bsplit_invert b w
unfolding t_split_inv bsplit_invert
t_split_inv-eq-bsplit_invert b w = elim (Bool-cases (n == 0)) [
  | inl empty ↦ rw empty (no_words (ground arith))
  | inr full ↦ rw full (ap (λ t. t ++ drop (n * w) b) (sym rows))
]
  where
    n : ℕ
    n = length b / w

    fits : n * w ≤ length b
    fits = div-mul-le_self (length b) w

    swapped : w * n ≡ n * w
    swapped = mul_comm w n

    out : List ℕ
    out = t_split_inv_loop b n w w 0 (replicate (length b) 0)

    size : length out ≡ length b
    size = length-inv_loop b n w w 0 (replicate (length b) 0) ∙ length-replicate (length b) 0

    no_words : n ≡ 0 → take (n * w) out ++ drop (n * w) b ≡ b
    no_words e = let none_left : n * w ≡ 0 = omega (arith, ap (λ t. t * w) e) in rw none_left

    placed : (x : ℕ) → x < n * w → x % w < w → get_or out x 0 ≡ source b n w x
    placed x hx hc =
        inv_loop-Placed b n w w 0 (replicate (length b) 0) (omega arith)
          (omega (arith, swapped, fits)) (omega (arith, length-replicate {0} (length b) zero, fits))
          (λ y hy h. absurd (omega arith)) x hx (inl hc)

    rows : to_bytes (transpose (reshape w n (take (n * w) b))) ≡ take (n * w) out
    rows =
        grid_ext n w _ (take (n * w) out) (omega (arith, length-take (n * w) out, size, fits))
          λ k j hk hj.
            let place : k * w + j < n * w = place-lt n w k j hk hj in
            let origin : j * n + k < n * w = omega (arith, place-lt w n j k hj hk, swapped) in
            get_or-take (n * w) (k * w + j) out 0 place
            ∙ placed (k * w + j) place (col-lt n w (k * w + j) place)
            ∙ source_at b n w j k hj
            ∙ sym (get_or-take (n * w) (j * n + k) b 0 origin)

-- The slicing version of the byte-plane transform is undone by its inverse.
pub t_split_inv-t_split : (b : List ℕ) (w : ℕ) → t_split_inv (t_split b w) w ≡ b
t_split_inv-t_split b w =
    rw (t_split-eq-bsplit_apply, t_split_inv-eq-bsplit_invert) (bsplit_invert-bsplit_apply b w)
