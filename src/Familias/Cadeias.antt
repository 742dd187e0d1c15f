-- ===== src/Familias/Cadeias.antt =====
-- The chains of `montar_cadeias` in bench/perfil_dataset.py.
use engine_motor.Prelude.{
  ℕ, ◌*◌, ◌≤◌, max, min, ◌≡◌, refl, Bool, true, false, Bool-cases, inl, inr, List, [], ◌∷◌, ◌++◌,
  length, All, All-append, ltb, leb, leb→le, arith,
}
use native.Mathlib.Nat.{
  min-le_left, min-le_right, le-max_left, le-max_right, mul-le-mul_left, mul-le-mul_right,
}
use engine_motor.Familias.{
  Ficha, proximo, fechar, avancar, encadear, encadear_grupo, montar_cadeias_de, montar_cadeias,
}
use engine_motor.Colecoes.{ordenar}

module _ (num den : ℕ) where
  -- Neither file is more than `num / den` times as large as the other.
  abbrev pub IsClose : Ficha → Ficha → Type 0
  IsClose ant a = (a.tam * den ≤ num * ant.tam) × (ant.tam * den ≤ num * a.tam)

  proximo-IsClose : (ant a : Ficha) → proximo num den ant a ≡ true → IsClose ant a
  unfolding proximo
  proximo-IsClose ant a p =
      let big = max a.tam ant.tam in
      let small = min a.tam ant.tam in
      let h = leb→le (big * den) (num * small) p in
      (
        omega (
          arith,
          h,
          mul-le-mul_right den (le-max_left a.tam ant.tam),
          mul-le-mul_left num (min-le_right a.tam ant.tam),
        ),
        omega (
          arith,
          h,
          mul-le-mul_right den (le-max_right a.tam ant.tam),
          mul-le-mul_left num (min-le_left a.tam ant.tam),
        ),
      )

  -- Each member from the second on is close to the one before it, `ant` to begin with.
  abbrev pub IsNear : Ficha → List Ficha → Type 0
  IsNear ant [] = Unit
  IsNear ant (a ∷ ms) = IsClose ant a × IsNear a ms

  abbrev pub IsRun : List Ficha → Type 0
  IsRun [] = Unit
  IsRun (a ∷ ms) = IsNear a ms

  -- The last member of a list that begins with `a`.
  abbrev pub ultimo : Ficha → List Ficha → Ficha
  ultimo a [] = a
  ultimo a (b ∷ ms) = ultimo b ms

  abbrev pub EndsWith : Ficha → List Ficha → Type 0
  EndsWith ant [] = ⊥
  EndsWith ant (a ∷ ms) = ultimo a ms ≡ ant

  -- A chain that is kept.
  abbrev pub IsChain {ℓ} : {K : Type ℓ} → K × List Ficha → Type 0
  IsChain f = (2 ≤ length f.1) × IsRun f.1

  IsNear-snoc :
      (first a : Ficha) (ms : List Ficha)
      → IsNear first ms
      → IsClose (ultimo first ms) a
      → IsNear first (ms ++ a ∷ [])
  IsNear-snoc first a [] h p = (p, tt)
  IsNear-snoc first a (m ∷ ms) h p = (h.0, IsNear-snoc m a ms h.1 p)

  ultimo-snoc : (first a : Ficha) (ms : List Ficha) → ultimo first (ms ++ a ∷ []) ≡ a
  ultimo-snoc first a [] = refl
  ultimo-snoc first a (m ∷ ms) = ultimo-snoc m a ms

  -- The chain in hand: a run that ends with `ant`.
  abbrev IsOpen : Ficha → List Ficha → Type 0
  IsOpen ant c = EndsWith ant c × IsRun c

  module _ {ℓ} {K : Type ℓ} where
    fechar-All :
        (k : K) (c : List Ficha) (fs : List (K × List Ficha))
        → IsRun c
        → All IsChain fs
        → All IsChain (fechar k c fs)
    unfolding fechar
    fechar-All k c fs h ok = elim (Bool-cases (leb 2 (length c))) [
      | inl e ↦ rw e (All-append IsChain fs ((k, c) ∷ []) ok ((leb→le 2 (length c) e, h), tt))
      | inr e ↦ rw e ok
    ]

    avancar-All :
        (b : Bool) (k : K) (ant a : Ficha) (c : List Ficha) (fs : List (K × List Ficha))
        → proximo num den ant a ≡ b
        → IsOpen ant c
        → All IsChain fs
        → let r = avancar b k a c fs in IsOpen a r.0 × All IsChain r.1
    unfolding avancar
    avancar-All true k ant a [] fs p h ok = elim h.0 [ ]
    avancar-All true k ant a (m ∷ ms) fs p h ok =
        ((ultimo-snoc m a ms, IsNear-snoc m a ms h.1 (rw h.0 (proximo-IsClose ant a p))), ok)
    avancar-All false k ant a c fs p h ok = ((refl, tt), fechar-All k c fs h.1 ok)

    encadear-All :
        (k : K) (ant : Ficha) (c ms : List Ficha) (fs : List (K × List Ficha))
        → IsOpen ant c
        → All IsChain fs
        → All IsChain (encadear num den k ant c ms fs)
    unfolding encadear
    encadear-All k ant c [] fs h ok = fechar-All k c fs h.1 ok
    encadear-All k ant c (a ∷ ms) fs h ok =
        let (c', fs') = avancar (proximo num den ant a) k a c fs in
        let next = avancar-All (proximo num den ant a) k ant a c fs refl h ok in
        encadear-All k a c' ms fs' next.0 next.1

    encadear_grupo-All :
        (k : K) (ms : List Ficha) (fs : List (K × List Ficha))
        → All IsChain fs
        → All IsChain (encadear_grupo num den k ms fs)
    unfolding encadear_grupo
    encadear_grupo-All k [] fs ok = ok
    encadear_grupo-All k (m ∷ ms) fs ok = encadear-All k m (m ∷ []) ms fs (refl, tt) ok

    module _ (antes : Ficha → Ficha → Bool) where
      montar_cadeias_de-All :
          (gs fs : List (K × List Ficha))
          → All IsChain fs
          → All IsChain (montar_cadeias_de num den antes gs fs)
      unfolding montar_cadeias_de
      montar_cadeias_de-All [] fs ok = ok
      montar_cadeias_de-All ((k, ms) ∷ gs) fs ok = elim (Bool-cases (ltb (length ms) 2)) [
        | inl e ↦ rw e (montar_cadeias_de-All gs fs ok)
        | inr e ↦ rw e (
            montar_cadeias_de-All gs (encadear_grupo num den k (ordenar antes ms) fs)
              (encadear_grupo-All k (ordenar antes ms) fs ok))
      ]

      pub montar_cadeias-All :
          (gs : List (K × List Ficha)) → All IsChain (montar_cadeias num den antes gs)
      unfolding montar_cadeias
      montar_cadeias-All gs = montar_cadeias_de-All gs [] tt
