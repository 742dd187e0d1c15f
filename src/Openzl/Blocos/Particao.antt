-- ===== src/Openzl/Blocos/Particao.antt =====
-- The cut of `particionar` in bench/openzl_bench.py between training and test.
use native.Mathlib.Nat.{div-mul-le_self}
use engine_motor.Prelude.{
  ℕ, ◌+◌, ◌-◌, ◌≤◌, ◌≡◌, Bool, true, false, Option-cases, none, some, inl, inr, List, length, leb,
  if◌then◌else◌, arith,
}
use engine_motor.Openzl.Blocos.{nova_linha, alinhado, metade, particionar}
use engine_motor.Openzl.Blocos.Divisao.{nova_linha-lt}

leb_of_le : (x y : ℕ) → x ≤ y → leb x y ≡ true
leb_of_le x y h = ground arith

metade-Between : (n base : ℕ) → base ≤ n → (base ≤ metade n base) × (metade n base ≤ n)
unfolding metade
metade-Between n base h = rw (leb_of_le base n h) (omega arith, omega arith)

alinhado-Between : (x a base : ℕ) → base ≤ x → (base ≤ alinhado x a base) × (alinhado x a base ≤ x)
unfolding alinhado
alinhado-Between x a base h =
    let low = div-mul-le_self (x - base) a in rw (leb_of_le base x h) (omega arith, omega arith)

-- For data that are not shorter than the base, the cut is neither below the base nor past the end,
-- for every alignment, with or without a cut at a line.
pub particionar-Between :
    (dados : List ℕ) (a base : ℕ) (por_linha : Bool)
    → base ≤ length dados
    → (base ≤ particionar dados a base por_linha)
      × (particionar dados a base por_linha ≤ length dados)
unfolding particionar
particionar-Between dados a base por_linha h =
    let (low, high) = metade-Between (length dados) base h in
    let (above, below) = alinhado-Between (metade (length dados) base) a base low in
    behind (alinhado (metade (length dados) base) a base) por_linha above (omega arith)
  where
    behind :
        (c : ℕ) (t : Bool)
        → base ≤ c
        → c ≤ length dados
        → (base ≤ (if t then elim (nova_linha dados c) [ none ↦ c | some j ↦ j + 1 ] else c))
          × ((if t then elim (nova_linha dados c) [ none ↦ c | some j ↦ j + 1 ] else c)
              ≤ length dados)
    behind c false above below = (above, below)
    behind c true above below = elim (Option-cases (nova_linha dados c)) [
      | inl e ↦ rw e (above, below)
      | inr (j, e) ↦
          let (later, inside) = nova_linha-lt dados c j e in rw e (omega arith, omega arith)
    ]
