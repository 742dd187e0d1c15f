-- ===== src/Familias/Contagem.antt =====
-- How often a file stands in the lists, groups and families of bench/perfil_dataset.py.
use engine_motor.Prelude.{
  ℕ, ◌+◌, ◌≤◌, ◌≡◌, refl, sym, ◌∙◌, Bool, true, false, not, ◌&&◌, ◌||◌, Bool-cases, inl, inr, List,
  [], ◌∷◌, ◌++◌, length, ltb, leb, ◌==◌, ==_iff, if◌then◌else◌, arith,
}
use engine_motor.Colecoes.{ordenar, acrescentar, agrupar}
use engine_motor.Colecoes.Laws.{soma, soma-ordenar}
use engine_motor.Familias.{
  Ficha, proximo, fechar, avancar, encadear, encadear_grupo, montar_cadeias_de, montar_cadeias,
  contem, usado, sem_usados, livres,
}

abbrev pub vez : ℕ → Ficha → ℕ
vez n a = if a.i == n then 1 else 0

abbrev pub vezes : ℕ → List Ficha → ℕ
vezes n [] = 0
vezes n (a ∷ ms) = vez n a + vezes n ms

abbrev pub vezes_em {ℓ} : {K : Type ℓ} → ℕ → List (K × List Ficha) → ℕ
vezes_em n [] = 0
vezes_em n ((k, c) ∷ fs) = vezes n c + vezes_em n fs

pub vezes-append : (n : ℕ) (xs ys : List Ficha) → vezes n (xs ++ ys) ≡ vezes n xs + vezes n ys
vezes-append n [] ys = omega arith
vezes-append n (x ∷ xs) ys = omega (arith, vezes-append n xs ys)

pub vezes_em-append {ℓ} :
    {K : Type ℓ} (n : ℕ) (fs gs : List (K × List Ficha))
    → vezes_em n (fs ++ gs) ≡ vezes_em n fs + vezes_em n gs
vezes_em-append n [] gs = omega arith
vezes_em-append n ((k, c) ∷ fs) gs = omega (arith, vezes_em-append n fs gs)

vezes-soma :
    (antes : Ficha → Ficha → Bool) (n : ℕ) (xs : List Ficha) → soma antes (vez n) xs ≡ vezes n xs
vezes-soma antes n [] = refl
vezes-soma antes n (x ∷ xs) = omega (arith, vezes-soma antes n xs)

pub vezes-ordenar :
    (antes : Ficha → Ficha → Bool) (n : ℕ) (xs : List Ficha)
    → vezes n (ordenar antes xs) ≡ vezes n xs
vezes-ordenar antes n xs =
    sym (vezes-soma antes n (ordenar antes xs))
    ∙ soma-ordenar antes (vez n) xs
    ∙ vezes-soma antes n xs

module _ {ℓ} {K : Type ℓ} where
  vezes_em-soma :
      (antes : K × List Ficha → K × List Ficha → Bool) (n : ℕ) (fs : List (K × List Ficha))
      → soma antes (λ f. vezes n f.1) fs ≡ vezes_em n fs
  vezes_em-soma antes n [] = refl
  vezes_em-soma antes n ((k, c) ∷ fs) = omega (arith, vezes_em-soma antes n fs)

  pub vezes_em-ordenar :
      (antes : K × List Ficha → K × List Ficha → Bool) (n : ℕ) (fs : List (K × List Ficha))
      → vezes_em n (ordenar antes fs) ≡ vezes_em n fs
  vezes_em-ordenar antes n fs =
      sym (vezes_em-soma antes n (ordenar antes fs))
      ∙ soma-ordenar antes (λ f. vezes n f.1) fs
      ∙ vezes_em-soma antes n fs

  module _ (igual : K → K → Bool) where
    vezes_em-acrescentar :
        (n : ℕ) (k : K) (a : Ficha) (gs : List (K × List Ficha))
        → vezes_em n (acrescentar igual k a gs) ≡ vez n a + vezes_em n gs
    unfolding acrescentar
    vezes_em-acrescentar n k a [] = omega arith
    vezes_em-acrescentar n k a ((c, ms) ∷ gs) = elim (Bool-cases (igual c k)) [
      | inl e ↦ rw e (omega (arith, vezes-append n ms (a ∷ [])))
      | inr e ↦ rw e (omega (arith, vezes_em-acrescentar n k a gs))
    ]

    pub vezes_em-agrupar :
        (n : ℕ) (chave : Ficha → K) (ms : List Ficha) (gs : List (K × List Ficha))
        → vezes_em n (agrupar igual chave ms gs) ≡ vezes n ms + vezes_em n gs
    unfolding agrupar
    vezes_em-agrupar n chave [] gs = omega arith
    vezes_em-agrupar n chave (a ∷ ms) gs = omega (
      arith,
      vezes_em-agrupar n chave ms (acrescentar igual (chave a) a gs),
      vezes_em-acrescentar n (chave a) a gs,
    )

  vezes_em-fechar :
      (n : ℕ) (k : K) (c : List Ficha) (fs : List (K × List Ficha))
      → vezes_em n (fechar k c fs) ≤ vezes n c + vezes_em n fs
  unfolding fechar
  vezes_em-fechar n k c fs = elim (Bool-cases (leb 2 (length c))) [
    | inl e ↦ rw e (omega (arith, vezes_em-append n fs ((k, c) ∷ [])))
    | inr e ↦ rw e (omega arith)
  ]

  vezes-avancar :
      (n : ℕ) (b : Bool) (k : K) (a : Ficha) (c : List Ficha) (fs : List (K × List Ficha))
      → let r = avancar b k a c fs in
        vezes n r.0 + vezes_em n r.1 ≤ vez n a + (vezes n c + vezes_em n fs)
  unfolding avancar
  vezes-avancar n true k a c fs = omega (arith, vezes-append n c (a ∷ []))
  vezes-avancar n false k a c fs = omega (arith, vezes_em-fechar n k c fs)

  module _ (num den : ℕ) where
    vezes_em-encadear :
        (n : ℕ) (k : K) (ant : Ficha) (c ms : List Ficha) (fs : List (K × List Ficha))
        → vezes_em n (encadear num den k ant c ms fs) ≤ vezes n c + vezes n ms + vezes_em n fs
    unfolding encadear
    vezes_em-encadear n k ant c [] fs = omega (arith, vezes_em-fechar n k c fs)
    vezes_em-encadear n k ant c (a ∷ ms) fs =
        let (c', fs') = avancar (proximo num den ant a) k a c fs in
        omega (
          arith,
          vezes_em-encadear n k a c' ms fs',
          vezes-avancar n (proximo num den ant a) k a c fs,
        )

    vezes_em-encadear_grupo :
        (n : ℕ) (k : K) (ms : List Ficha) (fs : List (K × List Ficha))
        → vezes_em n (encadear_grupo num den k ms fs) ≤ vezes n ms + vezes_em n fs
    unfolding encadear_grupo
    vezes_em-encadear_grupo n k [] fs = omega arith
    vezes_em-encadear_grupo n k (m ∷ ms) fs = omega (arith, vezes_em-encadear n k m (m ∷ []) ms fs)

    module _ (antes : Ficha → Ficha → Bool) where
      vezes_em-montar_cadeias_de :
          (n : ℕ) (gs fs : List (K × List Ficha))
          → vezes_em n (montar_cadeias_de num den antes gs fs) ≤ vezes_em n gs + vezes_em n fs
      unfolding montar_cadeias_de
      vezes_em-montar_cadeias_de n [] fs = omega arith
      vezes_em-montar_cadeias_de n ((k, ms) ∷ gs) fs = elim (Bool-cases (ltb (length ms) 2)) [
        | inl e ↦ rw e (omega (arith, vezes_em-montar_cadeias_de n gs fs))
        | inr e ↦
            let grown = encadear_grupo num den k (ordenar antes ms) fs in
            rw e (
              omega (
                arith,
                vezes_em-montar_cadeias_de n gs grown,
                vezes_em-encadear_grupo n k (ordenar antes ms) fs,
                vezes-ordenar antes n ms,
              ))
      ]

      pub vezes_em-montar_cadeias :
          (n : ℕ) (gs : List (K × List Ficha))
          → vezes_em n (montar_cadeias num den antes gs) ≤ vezes_em n gs
      unfolding montar_cadeias
      vezes_em-montar_cadeias n gs = omega (arith, vezes_em-montar_cadeias_de n gs [])

-- What is not in use is counted zero times.
vezes-contem : (n : ℕ) (c : List Ficha) → contem n c ≡ false → vezes n c ≡ 0
unfolding contem
vezes-contem n [] h = refl
vezes-contem n (a ∷ ms) h = elim (Bool-cases (a.i == n)) [
  | inl e ↦ let h' : (true || contem n ms) ≡ false = rw e at h in cc
  | inr e ↦ let h' : contem n ms ≡ false = rw e at h in rw e (omega (arith, vezes-contem n ms h'))
]

module _ {ℓ} {K : Type ℓ} where
  vezes_em-usado : (n : ℕ) (fs : List (K × List Ficha)) → usado n fs ≡ false → vezes_em n fs ≡ 0
  unfolding usado
  vezes_em-usado n [] h = refl
  vezes_em-usado n ((k, c) ∷ fs) h = elim (Bool-cases (contem n c)) [
    | inl e ↦ let h' : (true || usado n fs) ≡ false = rw e at h in cc
    | inr e ↦
        let h' : usado n fs ≡ false = rw e at h in
        omega (arith, vezes-contem n c e, vezes_em-usado n fs h')
  ]

  vezes-sem_usados_le :
      (n : ℕ) (fs : List (K × List Ficha)) (ls : List Ficha)
      → vezes n (sem_usados fs ls) ≤ vezes n ls
  unfolding sem_usados
  vezes-sem_usados_le n fs [] = omega arith
  vezes-sem_usados_le n fs (a ∷ ls) = elim (Bool-cases (usado a.i fs)) [
    | inl e ↦ rw e (omega (arith, vezes-sem_usados_le n fs ls))
    | inr e ↦ rw e (omega (arith, vezes-sem_usados_le n fs ls))
  ]

  vezes-sem_usados_zero :
      (n : ℕ) (fs : List (K × List Ficha)) (ls : List Ficha)
      → usado n fs ≡ true
      → vezes n (sem_usados fs ls) ≡ 0
  unfolding sem_usados
  vezes-sem_usados_zero n fs [] h = refl
  vezes-sem_usados_zero n fs (a ∷ ls) h = elim (Bool-cases (usado a.i fs)) [
    | inl e ↦ rw e (vezes-sem_usados_zero n fs ls h)
    | inr e ↦ elim (Bool-cases (a.i == n)) [
      | inl same ↦ let k : usado a.i fs ≡ true = rw ((==_iff a.i n).0 same) h in cc
      | inr other ↦ rw (e, other) (omega (arith, vezes-sem_usados_zero n fs ls h))
    ]
  ]

  -- The files that one mode puts in chains and those that it leaves are among those it began with.
  pub vezes-sem_usados :
      (n : ℕ) (fs : List (K × List Ficha)) (ls : List Ficha)
      → vezes_em n fs ≤ vezes n ls
      → vezes_em n fs + vezes n (sem_usados fs ls) ≤ vezes n ls
  vezes-sem_usados n fs ls h = elim (Bool-cases (usado n fs)) [
    | inl e ↦ omega (arith, vezes-sem_usados_zero n fs ls e)
    | inr e ↦ omega (arith, vezes_em-usado n fs e, vezes-sem_usados_le n fs ls)
  ]

pub vezes-livres : (n : ℕ) (ms : List Ficha) → vezes n (livres ms) ≤ vezes n ms
unfolding livres
vezes-livres n [] = omega arith
vezes-livres n (a ∷ ms) = elim (Bool-cases (ltb 0 a.tam && (a.legivel && not a.redundante))) [
  | inl e ↦ rw e (omega (arith, vezes-livres n ms))
  | inr e ↦ rw e (omega (arith, vezes-livres n ms))
]
