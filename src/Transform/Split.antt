-- ===== src/Transform/Split.antt =====
-- `bsplit_apply` and `bsplit_invert` of bench/plano_bloco.py.
use native.Mathlib.Nat.{div-mul-le_self, mul_comm}
use engine_motor.Prelude.{
  ℕ, ◌+◌, ◌*◌, ◌/◌, ◌≤◌, ◌≡◌, sym, ◌∙◌, inl, inr, List, ◌++◌, arith, length, take, drop, get_or,
  length-take, take-append-drop, length-splice, take-splice, drop-splice, ◌==◌, Bool-cases,
}
use engine_motor.Transform.{bsplit_apply, bsplit_invert}
use engine_motor.Transform.Arrays.{reshape, transpose, to_bytes, length-grid, get_or-grid, grid_ext}

module _ (b : List ℕ) (w : ℕ) where
  abbrev count : ℕ
  count = length b / w

  abbrev head : List ℕ
  head = take (count * w) b

  abbrev tail : List ℕ
  tail = drop (count * w) b

  pub count_fits : count * w ≤ length b
  count_fits = div-mul-le_self (length b) w

  abbrev planes : List ℕ
  planes = to_bytes (transpose (reshape count w head))

  pub length-planes : length planes ≡ count * w
  length-planes = length-grid w count 0 _ ∙ mul_comm w count

  pub length-bsplit_apply : length (bsplit_apply b w) ≡ length b
  unfolding bsplit_apply
  length-bsplit_apply = elim (Bool-cases (count == 0)) [
    | inl empty ↦ rw empty
    | inr full ↦ rw full (length-splice planes b (count * w) length-planes count_fits)
  ]

  -- Transposing the planes back gives the bytes in their order.
  rows-planes : to_bytes (transpose (reshape w count planes)) ≡ head
  rows-planes = grid_ext count w _ head length-head λ k j hk hj.
      let from : 0 + j ≡ j = omega arith in
      sym (get_or-grid w count 0 j k (λ p i. get_or head (i * w + p) 0) hj hk ∙ rw from)
    where
      length-head : length head ≡ count * w
      length-head = omega (arith, length-take (count * w) b, count_fits)

  undone :
      to_bytes (transpose (reshape w count (take (count * w) (planes ++ tail))))
        ++ drop (count * w) (planes ++ tail)
      ≡ b
  undone =
      rw
        (
          take-splice planes tail (count * w) length-planes,
          drop-splice planes tail (count * w) length-planes,
          rows-planes,
        )
        (take-append-drop (count * w) b)

  pub bsplit_invert-bsplit_apply : bsplit_invert (bsplit_apply b w) w ≡ b
  unfolding bsplit_invert
  bsplit_invert-bsplit_apply = rw length-bsplit_apply (elim (Bool-cases (count == 0)) [
    | inl empty ↦ rw empty (unfold bsplit_apply in rw empty)
    | inr full ↦ rw full (unfold bsplit_apply in rw full undone)
  ])
