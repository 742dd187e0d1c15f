-- ===== src/Arvore/Corte.antt =====
-- The choice of a cut in `ajustar_arvore` of bench/plano_bloco.py. The floats of numpy are an
-- argument with the operations that the code uses.
use engine_motor.Prelude.{
  ℕ, suc, ◌+◌, ◌-◌, ◌*◌, Bool, not, ◌||◌, Option, none, some, List, [], ◌∷◌, map, length, faixa,
  get_or, leb, ltb, ◌==◌, if◌then◌else◌,
}

pub record Numeros (F : Type 0) : Type 0 where
  pub nulo : F
  pub epsilon : F
  pub mais : F → F → F
  pub menos : F → F → F
  pub vezes : F → F → F
  pub sobre : F → F → F
  pub maximo : F → F → F
  -- `x <= y`, `x > y` and `x != 0`.
  pub ate : F → F → Bool
  pub acima : F → F → Bool
  pub nao_nulo : F → Bool

-- The rows that are fitted: features, class and weight of each, and the number of features and of
-- classes; every class is below `classes`. `quantis` is `np.unique(np.quantile(xs, QS))`.
pub record Amostras (F : Type 0) : Type 0 where
  pub valor : ℕ → ℕ → F
  pub rotulo : ℕ → ℕ
  pub peso : ℕ → F
  pub num_colunas : ℕ
  pub classes : ℕ
  pub quantis : List F → List F
  pub min_folha : ℕ

abbrev pub so_os {ℓ} : {A : Type ℓ} → (A → Bool) → List A → List A
so_os p [] = []
so_os p (x ∷ xs) = if p x then x ∷ so_os p xs else so_os p xs

-- `np.cumsum` of counts.
unfoldable pub somas_parciais : ℕ → List ℕ → List ℕ
somas_parciais a [] = []
somas_parciais a (x ∷ xs) = (a + x) ∷ somas_parciais (a + x) xs

module _ {F : Type 0} (n : Numeros F) where
  unfoldable pub soma_de_pesos : F → List F → F
  soma_de_pesos a [] = a
  soma_de_pesos a (x ∷ xs) = soma_de_pesos (n.mais a x) xs

  -- `np.argmax`: the first of the largest.
  unfoldable pub argmax : List F → ℕ → F → ℕ → ℕ
  argmax [] i melhor vencedor = vencedor
  argmax (x ∷ xs) i melhor vencedor =
      argmax xs (i + 1) (if n.acima x melhor then x else melhor)
        (if n.acima x melhor then i else vencedor)

  unfoldable pub argmax_de : List F → ℕ
  unfolding argmax
  argmax_de [] = 0
  argmax_de (x ∷ xs) = argmax xs 1 x 0

  -- `W - (ws ** 2).sum() / d(W)`.
  unfoldable pub impureza : (F → F) → List F → F
  unfolding soma_de_pesos
  impureza d ws =
      let w = soma_de_pesos n.nulo ws in
      n.menos w (n.sobre (soma_de_pesos n.nulo (map (λ x. n.vezes x x) ws)) (d w))

  unfoldable pub somar_linhas : List F → List F → List F
  somar_linhas (x ∷ xs) (y ∷ ys) = n.mais x y ∷ somar_linhas xs ys
  somar_linhas [] ys = []
  somar_linhas (x ∷ xs) [] = []

  unfoldable pub subtrair_linhas : List F → List F → List F
  subtrair_linhas (x ∷ xs) (y ∷ ys) = n.menos x y ∷ subtrair_linhas xs ys
  subtrair_linhas [] ys = []
  subtrair_linhas (x ∷ xs) [] = []

  -- `np.cumsum(cw, 0)`.
  unfoldable pub linhas_parciais : List F → List (List F) → List (List F)
  unfolding somar_linhas
  linhas_parciais a [] = []
  linhas_parciais a (x ∷ xs) = somar_linhas a x ∷ linhas_parciais (somar_linhas a x) xs

  -- `np.searchsorted(q, x, side="left")` on ascending cuts.
  unfoldable pub intervalo : List F → F → ℕ
  intervalo [] x = 0
  intervalo (q ∷ qs) x = if n.ate x q then 0 else suc (intervalo qs x)

  -- `np.argmin` of the costs, where `none` is infinite, and the cost there.
  unfoldable pub argmin : List (Option F) → ℕ → Option F → ℕ → ℕ × Option F
  argmin [] i melhor vencedor = (vencedor, melhor)
  argmin (none ∷ xs) i melhor vencedor = argmin xs (i + 1) melhor vencedor
  argmin (some x ∷ xs) i none vencedor = argmin xs (i + 1) (some x) i
  argmin (some x ∷ xs) i (some m) vencedor =
      argmin xs (i + 1) (some (if n.acima m x then x else m)) (if n.acima m x then i else vencedor)

  unfoldable pub argmin_de : List (Option F) → ℕ × Option F
  unfolding argmin
  argmin_de [] = (0, none)
  argmin_de (x ∷ xs) = argmin xs 1 x 0

  module _ (a : Amostras F) where
    -- `np.bincount(yi, weights=wi, minlength=K)`.
    unfoldable pub totais : List ℕ → List F
    unfolding soma_de_pesos
    totais idx =
        map (λ c. soma_de_pesos n.nulo (map a.peso (so_os (λ i. a.rotulo i == c) idx)))
          (faixa 0 a.classes)

    unfoldable pub no_intervalo : ℕ → List F → ℕ → List ℕ → List ℕ
    unfolding intervalo
    no_intervalo f q b idx = so_os (λ i. intervalo q (a.valor i f) == b) idx

    -- `cnl`: the rows at or below each cut.
    unfoldable pub contagens : ℕ → List F → List ℕ → List ℕ
    unfolding somas_parciais no_intervalo
    contagens f q idx =
        somas_parciais 0 (map (λ b. length (no_intervalo f q b idx)) (faixa 0 (length q)))

    -- `cwl`: the weights by class at or below each cut.
    unfoldable pub pesos : ℕ → List F → List ℕ → List (List F)
    unfolding linhas_parciais totais no_intervalo
    pesos f q idx =
        linhas_parciais (map (λ c. n.nulo) (faixa 0 a.classes))
          (map (λ b. totais (no_intervalo f q b idx)) (faixa 0 (length q)))

    -- `imp`, infinite where a side has fewer than `min_folha` rows.
    unfoldable pub custo_do_corte : List F → ℕ → ℕ → List F → Option F
    unfolding impureza subtrair_linhas
    custo_do_corte tot todos cnl cwl =
        let d = λ (w : F). n.maximo w n.epsilon in
        if ltb cnl a.min_folha || ltb (todos - cnl) a.min_folha
        then none
        else some (n.mais (impureza d cwl) (impureza d (subtrair_linhas tot cwl)))

    unfoldable pub custos : List F → ℕ → List ℕ → List (List F) → List (Option F)
    unfolding custo_do_corte
    custos tot todos (c ∷ cs) (w ∷ ws) = custo_do_corte tot todos c w ∷ custos tot todos cs ws
    custos tot todos [] ws = []
    custos tot todos (c ∷ cs) [] = []

    -- The best cut of a feature: its index and its cost, none if there is no cut or all are infinite.
    unfoldable pub melhor_corte : ℕ → List F → List ℕ → ℕ × Option F
    unfolding argmin_de custos contagens pesos totais
    melhor_corte f q idx =
        argmin_de (custos (totais idx) (length idx) (contagens f q idx) (pesos f q idx))

    unfoldable pub quantis_de : ℕ → List ℕ → List F
    quantis_de f idx = a.quantis (map (λ i. a.valor i f) idx)

    -- `ganho > melhor[0]`; an infinite cost has a gain of minus infinity.
    unfoldable pub comparar :
        F → F → Option (ℕ × F) → ℕ → List F → ℕ × Option F → F × Option (ℕ × F)
    comparar imp0 ganho melhor f q (j, none) = (ganho, melhor)
    comparar imp0 ganho melhor f q (j, some imp) =
        if n.acima (n.menos imp0 imp) ganho
        then (n.menos imp0 imp, some (f, get_or q j n.nulo))
        else (ganho, melhor)

    -- `for f in range(F)`.
    unfoldable pub procurar : F → List ℕ → List ℕ → F × Option (ℕ × F) → Option (ℕ × F)
    unfolding comparar melhor_corte quantis_de
    procurar imp0 idx [] (ganho, melhor) = melhor
    procurar imp0 idx (f ∷ fs) (ganho, melhor) =
        procurar imp0 idx fs
          (comparar imp0 ganho melhor f (quantis_de f idx) (melhor_corte f (quantis_de f idx) idx))

    unfoldable pub escolher : List ℕ → Option (ℕ × F)
    unfolding procurar impureza totais
    escolher idx =
        procurar (impureza (λ w. w) (totais idx)) idx (faixa 0 a.num_colunas) (n.epsilon, none)

    -- `np.count_nonzero(tot) <= 1 or len(idx) < 2 * min_folha`.
    unfoldable pub parar : List ℕ → Bool
    unfolding totais
    parar idx = leb (length (so_os n.nao_nulo (totais idx))) 1 || ltb (length idx) (2 * a.min_folha)

    unfoldable pub lado : Bool → ℕ × F → List ℕ → List ℕ
    lado sim (f, t) idx =
        so_os (λ i. if sim then n.ate (a.valor i f) t else not (n.ate (a.valor i f) t)) idx
