-- ===== src/Familias/Cotas.antt =====
-- What `alocar_pares` of bench/perfil_dataset.py hands out.
use native.Mathlib.Nat.{mul_comm, mul-add, mul-div-le, le_of_mul-le-mul_left, mul-le-mul_left}
use engine_motor.Prelude.{
  ℕ, ◌+◌, ◌-◌, ◌*◌, ◌/◌, ◌≤◌, ◌<◌, min, max, ◌≡◌, refl, ap, subst, ◌⊎◌, true, false, ◌&&◌, ◌||◌,
  Bool-cases, inl, inr, List, [], ◌∷◌, length, ltb, leb, ltb→lt, ◌==◌, arith,
}
use engine_motor.Familias.Pares.{presentes, somar, bases, faltas, reduzir, distribuir, alocar_pares}

-- One more share `x` and one more minimum `b`, over the divisor `t`.
add_share :
    (t b x s bs r f fs : ℕ)
    → t * x ≤ r * f
    → t * s ≤ t * bs + r * fs
    → t * (b + x + s) ≤ t * (b + bs) + r * (f + fs)
add_share t b x s bs r f fs h k =
    omega (arith, mul-add t (b + x) s, mul-add t b x, mul-add t b bs, mul-add r f fs)

share_le : (t x r f : ℕ) → x ≤ r * f / t → t * x ≤ r * f
share_le t x r f h = omega (arith, mul-le-mul_left t h, mul-div-le (r * f) t)

module _ {ℓ} {K : Type ℓ} where
  -- The same keys in the same order, each with no more than it has on the right; lists of
  -- different lengths are not even equal.
  abbrev pub Fits : List (K × ℕ) → List (K × ℕ) → Type ℓ
  Fits [] [] = Unit
  Fits ((c, a) ∷ ms) ((d, n) ∷ ns) = (c ≡ d) × (a ≤ n) × Fits ms ns
  Fits ms ns = ms ≡ ns

  reduzir_share :
      (total t : ℕ) (cs : List (K × ℕ)) → t * somar (reduzir 0 total t cs) ≤ total * somar cs
  unfolding reduzir
  reduzir_share total t [] = omega arith
  reduzir_share total t ((c, b) ∷ cs) =
      let x = max 0 (b * total / t) in
      let small : x ≤ total * b / t =
        subst (λ k. max 0 (k / t) ≤ total * b / t) (mul_comm total b) (omega arith) in
      omega (
        arith,
        mul-add t x (somar (reduzir 0 total t cs)),
        mul-add total b (somar cs),
        share_le t x total b small,
        reduzir_share total t cs,
      )

  distribuir_share :
      (minimo restante t : ℕ) (cs : List (K × ℕ))
      → t * somar (distribuir minimo restante t cs)
        ≤ t * somar (bases minimo cs) + restante * somar (faltas minimo cs)
  unfolding distribuir bases faltas
  distribuir_share minimo restante t [] = omega arith
  distribuir_share minimo restante t ((c, n) ∷ cs) =
      let f = n - min n minimo in
      add_share t (min n minimo) (min f (restante * f / t))
        (somar (distribuir minimo restante t cs)) (somar (bases minimo cs)) restante f
        (somar (faltas minimo cs)) (share_le t (min f (restante * f / t)) restante f (omega arith))
        (distribuir_share minimo restante t cs)

  reduzir_total :
      (total t : ℕ) (cs : List (K × ℕ))
      → total < somar cs
      → t ≡ somar cs
      → somar (reduzir 0 total t cs) ≤ total
  reduzir_total total t cs h e =
      le_of_mul-le-mul_left {k = t}
        (omega (arith, reduzir_share total t cs, mul_comm total t, ap (λ (k : ℕ). total * k) e))
        (omega arith)

  distribuir_total :
      (minimo restante t : ℕ) (cs : List (K × ℕ))
      → 0 < t
      → t ≡ somar (faltas minimo cs)
      → somar (distribuir minimo restante t cs) ≤ somar (bases minimo cs) + restante
  distribuir_total minimo restante t cs h e =
      let b = somar (bases minimo cs) in
      le_of_mul-le-mul_left {k = t}
        (omega (
          arith,
          distribuir_share minimo restante t cs,
          mul_comm restante t,
          mul-add t b restante,
          ap (λ (k : ℕ). restante * k) e,
        ))
        h

  -- The measurements handed out are `total` at most, if the minima fit in it or there are more
  -- classes than measurements.
  pub alocar_pares_total :
      (n_por_classe : List (K × ℕ)) (total minimo : ℕ)
      → (somar (bases minimo (presentes n_por_classe)) ≤ total)
        ⊎ (total < length (presentes n_por_classe))
      → somar (alocar_pares n_por_classe total minimo) ≤ total
  unfolding alocar_pares
  alocar_pares_total n_por_classe total minimo few =
      elim (Bool-cases ((length cs == 0) || (total == 0))) [
        | inl e ↦ rw e (omega arith)
        | inr some_left ↦ elim (Bool-cases (ltb total soma)) [
          | inl over ↦
              let short : leb (length cs) total ≡ false = few_classes few over in
              rw (some_left, over, short)
                (reduzir_total total soma (bases minimo cs) (ltb→lt total soma over) refl)
          | inr within ↦
              let room : soma ≤ total = ground arith in
              elim (Bool-cases (ltb 0 falta && ltb 0 (total - soma))) [
                | inl more ↦
                    let positive : 0 < falta = ground arith in
                    rw (some_left, within, more)
                      (omega (
                        arith,
                        distribuir_total minimo (total - soma) falta cs positive refl,
                        room,
                      ))
                | inr no_more ↦ rw (some_left, within, no_more) room
              ]
        ]
      ]
    where
      cs : List (K × ℕ)
      cs = presentes n_por_classe

      soma : ℕ
      soma = somar (bases minimo cs)

      falta : ℕ
      falta = somar (faltas minimo cs)

      few_classes :
          (soma ≤ total) ⊎ (total < length cs)
          → ltb total soma ≡ true
          → leb (length cs) total ≡ false
      few_classes (inl h) e = ground arith
      few_classes (inr h) e = ground arith
