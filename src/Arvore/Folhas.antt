-- ===== src/Arvore/Folhas.antt =====
-- The rows in the leaves of the tree that `ajustar_arvore` of bench/plano_bloco.py fits.
use engine_motor.Prelude.{
  faixa, ℕ, zero, suc, ◌≡◌, ◌≤◌, refl, sym, subst, ◌∙◌, Bool, true, false, Option, none, some, List,
  [], ◌∷◌, ◌++◌, map, length, get_or, All, All-append, inl, inr, arith, Bool-cases,
}
use engine_motor.Arvore.Corte.{
  Numeros, Amostras, contagens, melhor_corte, quantis_de, comparar, procurar, escolher, parar, lado,
  totais, pesos,
}
use engine_motor.Arvore.Disposta.{Planta, folha, ramo, planta, dividir_planta}
use engine_motor.Arvore.Escolha.{
  Ascending, Transitive, length-so_os-not, length-somas_parciais, length-map-faixa, contagens_lem,
  custos-get, argmin_de-get,
}

some-eq : {A : Type 0} {x y : A} → some x ≡ some y → x ≡ y
some-eq e = cc

module _ {F : Type 0} (n : Numeros F) (a : Amostras F) where
  -- Both sides of a cut have enough rows.
  abbrev pub IsWide : List ℕ → ℕ × F → Type 0
  IsWide idx c =
      (a.min_folha ≤ length (lado n a true c idx)) × (a.min_folha ≤ length (lado n a false c idx))

  -- The rows of each leaf.
  abbrev pub grupos : Planta F → List ℕ → List (List ℕ)
  grupos (folha c) idx = idx ∷ []
  grupos (ramo c corte l r) idx =
      grupos l (lado n a true corte idx) ++ grupos r (lado n a false corte idx)

  length-contagens : (f : ℕ) (q : List F) (idx : List ℕ) → length (contagens n a f q idx) ≡ length q
  unfolding contagens
  length-contagens f q idx = length-somas_parciais 0 _ ∙ length-map-faixa _ 0 (length q)

  module _ (trans : Transitive n) (ascending : (xs : List F) → Ascending n (a.quantis xs))
      (idx : List ℕ) where
    melhor_corte-IsWide :
        (f j : ℕ) (c : F)
        → melhor_corte n a f (quantis_de n a f idx) idx ≡ (j, some c)
        → IsWide idx (f, get_or (quantis_de n a f idx) j n.nulo)
    unfolding melhor_corte quantis_de lado
    melhor_corte-IsWide f j c e =
        let q = a.quantis (map (λ i. a.valor i f) idx) in
        let t = get_or q j n.nulo in
        let (l, u, v) =
          custos-get n a (totais n a idx) (length idx) (contagens n a f q idx) (pesos n a f q idx) j
            c (argmin_de-get n _ j c e) in
        let k =
          contagens_lem n a trans f q idx j (ascending _) (rw (← length-contagens f q idx) l) in
        let s = length-so_os-not (λ i. n.ate (a.valor i f) t) idx in
        (omega (arith, k), omega (arith, k, s))

    -- The invariant of the search over the features.
    abbrev Fine : Option (ℕ × F) → Type 0
    Fine o = (c : ℕ × F) → o ≡ some c → IsWide idx c

    comparar-Fine :
        (imp0 ganho : F) (melhor : Option (ℕ × F)) (f : ℕ) (r : ℕ × Option F)
        → r ≡ melhor_corte n a f (quantis_de n a f idx) idx
        → Fine melhor
        → Fine (comparar n a imp0 ganho melhor f (quantis_de n a f idx) r).1
    unfolding comparar
    comparar-Fine imp0 ganho melhor f (j, none) e h = h
    comparar-Fine imp0 ganho melhor f (j, some c) e h =
        elim (Bool-cases (n.acima (n.menos imp0 c) ganho)) [
          | inl q ↦ rw q (λ w g. subst (IsWide idx) (some-eq g) (melhor_corte-IsWide f j c (sym e)))
          | inr q ↦ rw q h
        ]

    procurar-Fine :
        (imp0 : F) (fs : List ℕ) (s : F × Option (ℕ × F))
        → Fine s.1
        → Fine (procurar n a imp0 idx fs s)
    unfolding procurar
    procurar-Fine imp0 [] (g, m) h = h
    procurar-Fine imp0 (f ∷ fs) (g, m) h =
        procurar-Fine imp0 fs
          (comparar n a imp0 g m f (quantis_de n a f idx)
            (melhor_corte n a f (quantis_de n a f idx) idx))
          (comparar-Fine imp0 g m f (melhor_corte n a f (quantis_de n a f idx) idx) refl h)

    escolher-IsWide : (c : ℕ × F) → escolher n a idx ≡ some c → IsWide idx c
    unfolding escolher
    escolher-IsWide = procurar-Fine _ (faixa 0 a.num_colunas) (n.epsilon, none) (λ c e. cc)

  module _ (trans : Transitive n) (ascending : (xs : List F) → Ascending n (a.quantis xs)) where
    grupos-dividir_planta :
        (rec : List ℕ → Planta F) (idx : List ℕ) (b : Bool) (o : Option (ℕ × F))
        → ((i : List ℕ)
            → a.min_folha ≤ length i
            → All (λ g. a.min_folha ≤ length g) (grupos (rec i) i))
        → a.min_folha ≤ length idx
        → ((c : ℕ × F) → o ≡ some c → IsWide idx c)
        → All (λ g. a.min_folha ≤ length g) (grupos (dividir_planta n a rec idx b o) idx)
    unfolding dividir_planta
    grupos-dividir_planta rec idx true o ih h w = (h, tt)
    grupos-dividir_planta rec idx false none ih h w = (h, tt)
    grupos-dividir_planta rec idx false (some c) ih h w =
        let (l, r) = w c refl in
        All-append _ (grupos (rec (lado n a true c idx)) (lado n a true c idx)) _
          (ih (lado n a true c idx) l) (ih (lado n a false c idx) r)

    -- Every leaf of the fitted tree has at least `min_folha` of the rows, where all of them together
    -- are that many, `<=` is transitive and the quantiles are ascending, as `np.unique` leaves them.
    pub grupos-planta_large :
        (k : ℕ) (idx : List ℕ)
        → a.min_folha ≤ length idx
        → All (λ g. a.min_folha ≤ length g) (grupos (planta n a k idx) idx)
    unfolding planta
    grupos-planta_large zero idx h = (h, tt)
    grupos-planta_large (suc k) idx h =
        grupos-dividir_planta (planta n a k) idx (parar n a idx) (escolher n a idx)
          (grupos-planta_large k) h (escolher-IsWide trans ascending idx)
