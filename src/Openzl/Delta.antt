-- ===== src/Openzl/Delta.antt =====
-- `t_delta` and `t_delta_inv` of bench/openzl_bench.py, beside the transforms of
-- bench/plano_bloco.py.
use mathlib.Core.List.{append-nil, append_assoc}
use native.Mathlib.Nat.{div-mul-le_self}
use engine_motor.Prelude.{
  ℕ, zero, suc, ◌+◌, ◌-◌, ◌*◌, ◌/◌, ◌%◌, ◌^◌, ◌≡◌, refl, sym, ap, ◌∙◌, inl, inr, List, [], ◌∷◌,
  ◌++◌, arith, length, take, drop, get_or, drop-cons, drop_all, ◌==◌, Bool-cases, All,
}
use engine_motor.Bytes.{IsByte, words, bytes_of}
use engine_motor.Bytes.Words.{length-words, words-take}
use engine_motor.Transform.{differences, delta_words, cumsum, delta_apply, delta_invert}
use engine_motor.Transform.Delta.{delta_invert-delta_apply}
use engine_motor.Openzl.{t_delta_loop, t_delta, t_delta_inv_loop, t_delta_inv}

-- The loop over indices subtracts the word before each word.
t_delta_loop-eq :
    (m : ℕ) (a : List ℕ) (left i : ℕ)
    → suc i + left ≡ length a
    → t_delta_loop m a left (suc i) ≡ differences m (get_or a i 0) (drop (suc i) a)
unfolding t_delta_loop differences
t_delta_loop-eq m a zero i e = rw (drop_all (suc i) a (omega arith))
t_delta_loop-eq m a (suc left) i e =
    let next : suc i + 1 ≡ suc (suc i) = omega arith in
    let before : suc i - 1 ≡ i = omega arith in
    rw (drop-cons (suc i) a 0 (omega arith), next, before)
      (ap (λ t. (get_or a (suc i) 0 + m - get_or a i 0) % m ∷ t)
        (t_delta_loop-eq m a left (suc i) (omega arith)))

t_delta_words :
    (m : ℕ) (a : List ℕ) → take 1 a ++ t_delta_loop m a (length a - 1) 1 ≡ delta_words m a
unfolding delta_words
t_delta_words m [] = unfold t_delta_loop in refl
t_delta_words m (x ∷ a) =
    let rounds : suc (length a) - 1 ≡ length a = omega arith in
    rw rounds (ap (λ t. x ∷ t) (t_delta_loop-eq m (x ∷ a) (length a) 0 (omega arith)))

pub t_delta-eq-delta_apply : (b : List ℕ) (w : ℕ) → t_delta b w ≡ delta_apply b w
unfolding t_delta delta_apply
t_delta-eq-delta_apply b w =
    rw (words-take w n b (div-mul-le_self (length b) w)) (elim (Bool-cases (n == 0)) [
      | inl empty ↦ rw empty (no_words (ground arith))
      | inr full ↦ rw full (ap (λ t. bytes_of w t ++ drop (n * w) b) deltas)
    ])
  where
    n : ℕ
    n = length b / w

    a : List ℕ
    a = words w n b

    deltas : take 1 a ++ t_delta_loop (256 ^ w) a (n - 1) 1 ≡ delta_words (256 ^ w) a
    deltas = rw (length-words w n b) at (t_delta_words (256 ^ w) a)

    no_words :
        n ≡ 0 → bytes_of w (take 1 a ++ t_delta_loop (256 ^ w) a (n - 1) 1) ++ drop (n * w) b ≡ b
    no_words e =
        let start : 0 * w ≡ 0 = omega arith in
        rw (e, start) (unfold words bytes_of t_delta_loop in refl)

t_delta_inv_loop-eq :
    (m acc : ℕ) (d saida : List ℕ) → t_delta_inv_loop m acc d saida ≡ saida ++ cumsum m acc d
unfolding t_delta_inv_loop cumsum
t_delta_inv_loop-eq m acc [] saida = sym (append-nil saida)
t_delta_inv_loop-eq m acc (x ∷ d) saida =
    t_delta_inv_loop-eq m ((acc + x) % m) d (saida ++ (acc + x) % m ∷ [])
    ∙ append_assoc saida ((acc + x) % m ∷ []) (cumsum m ((acc + x) % m) d)

pub t_delta_inv-eq-delta_invert : (b : List ℕ) (w : ℕ) → t_delta_inv b w ≡ delta_invert b w
unfolding t_delta_inv delta_invert
t_delta_inv-eq-delta_invert b w =
    rw
      (
        words-take w n b (div-mul-le_self (length b) w),
        t_delta_inv_loop-eq (256 ^ w) 0 (words w n b) [],
      )
      (elim (Bool-cases (n == 0)) [
        | inl empty ↦ rw empty (no_words (ground arith))
        | inr full ↦ rw full
      ])
  where
    n : ℕ
    n = length b / w

    no_words : n ≡ 0 → bytes_of w (cumsum (256 ^ w) 0 (words w n b)) ++ drop (n * w) b ≡ b
    no_words e =
        let start : 0 * w ≡ 0 = omega arith in rw (e, start) (unfold words bytes_of cumsum in refl)

-- The `array` version of the delta transform is undone by its inverse.
pub t_delta_inv-t_delta : (b : List ℕ) (w : ℕ) → All IsByte b → t_delta_inv (t_delta b w) w ≡ b
t_delta_inv-t_delta b w h =
    rw (t_delta-eq-delta_apply, t_delta_inv-eq-delta_invert) (delta_invert-delta_apply b w h)
