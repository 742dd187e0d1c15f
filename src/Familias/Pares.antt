-- ===== src/Familias/Pares.antt =====
-- `alocar_pares` of bench/perfil_dataset.py, which shares `max_pares` measurements among the classes.
-- The dict is the list of its entries in the order of `CLASSES`. `int(x / y)` of the source goes
-- through a float; here it is the quotient of the integers, which it equals below 2^53.
use engine_motor.Prelude.{
  ℕ, ◌+◌, ◌-◌, ◌*◌, ◌/◌, min, max, ◌&&◌, ◌||◌, List, [], ◌∷◌, length, ltb, leb, ◌==◌, if◌then◌else◌,
}

module _ {ℓ} {K : Type ℓ} where
  -- `[c for c in CLASSES if n_por_classe.get(c, 0) > 0]`.
  unfoldable pub presentes : List (K × ℕ) → List (K × ℕ)
  presentes [] = []
  presentes ((c, n) ∷ cs) = let resto = presentes cs in if ltb 0 n then (c, n) ∷ resto else resto

  -- `sum` of the values of a dict.
  abbrev pub somar : List (K × ℕ) → ℕ
  somar [] = 0
  somar ((c, n) ∷ cs) = n + somar cs

  -- The branch in which the minima are too many: they shrink in proportion, to `piso` at least.
  unfoldable pub reduzir : ℕ → ℕ → ℕ → List (K × ℕ) → List (K × ℕ)
  reduzir piso total soma [] = []
  reduzir piso total soma ((c, b) ∷ cs) =
      (c, max piso (b * total / soma)) ∷ reduzir piso total soma cs

  module _ (minimo : ℕ) where
    unfoldable pub bases : List (K × ℕ) → List (K × ℕ)
    bases [] = []
    bases ((c, n) ∷ cs) = (c, min n minimo) ∷ bases cs

    unfoldable pub faltas : List (K × ℕ) → List (K × ℕ)
    faltas [] = []
    faltas ((c, n) ∷ cs) = (c, n - min n minimo) ∷ faltas cs

    -- `aloc[c] += min(falta[c], int(restante * falta[c] / tot_falta))` for each class.
    unfoldable pub distribuir : ℕ → ℕ → List (K × ℕ) → List (K × ℕ)
    distribuir restante tot_falta [] = []
    distribuir restante tot_falta ((c, n) ∷ cs) =
        let b = min n minimo in
        (c, b + min (n - b) (restante * (n - b) / tot_falta)) ∷ distribuir restante tot_falta cs

  unfoldable pub alocar_pares : List (K × ℕ) → ℕ → ℕ → List (K × ℕ)
  unfolding presentes bases faltas reduzir distribuir
  alocar_pares n_por_classe total minimo =
      let classes = presentes n_por_classe in
      let base = bases minimo classes in
      let soma = somar base in
      let tot_falta = somar (faltas minimo classes) in
      if (length classes == 0) || (total == 0)
      then []
      else if ltb total soma
      then reduzir (if leb (length classes) total then 1 else 0) total soma base
      else if ltb 0 tot_falta && ltb 0 (total - soma)
      then distribuir minimo (total - soma) tot_falta classes
      else base
