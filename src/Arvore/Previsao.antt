-- ===== src/Arvore/Previsao.antt =====
-- `prever_arvore` on the arrays of `ajustar_arvore` in bench/plano_bloco.py.
use engine_motor.Prelude.{
  faixa, ℕ, zero, suc, ◌+◌, ◌≡◌, ◌≤◌, refl, sym, ap, ap₂, Bool, true, false, Option, none, some,
  List, [], ◌∷◌, ◌++◌, map, length, get_or, length-append, inl, inr, arith, Bool-cases,
  if◌then◌else◌,
}
use mathlib.Core.List.{append_assoc, append-nil}
use engine_motor.Arvore.Corte.{Numeros, Amostras, lado, parar, escolher}
use engine_motor.Arvore.Ajuste.{
  No, Arvore, vetores, ajustar_arvore, proximo_no, e_folha, todas_folhas, rodada_de_nos, rodadas,
  prever_arvore,
}
use engine_motor.Arvore.Disposta.{
  Planta, folha, ramo, tamanho, altura, disposta, length-disposta, planta, dividir_planta,
  construir-disposta,
}

-- A field of the first node of what stands behind `vs`.
get_or-map-append :
    {F : Type 0} {B : Type 0} (g : No F → B) (d : B) (vs : List (No F)) (v : No F)
    (ws : List (No F))
    → get_or (map g (vs ++ v ∷ ws)) (length vs) d ≡ g v
get_or-map-append g d [] v ws = refl
get_or-map-append g d (u ∷ vs) v ws = get_or-map-append g d vs v ws

get_or-map_at :
    {F : Type 0} {B : Type 0} (g : No F → B) (d : B) (vs : List (No F)) (v : No F)
    (ws : List (No F)) (arr : List (No F)) (base : ℕ)
    → arr ≡ vs ++ v ∷ ws
    → base ≡ length vs
    → get_or (map g arr) base d ≡ g v
get_or-map_at g d vs v ws arr base e b = rw (e, b) (get_or-map-append g d vs v ws)

module _ {F : Type 0} (n : Numeros F) where
  -- The class of a row by the walk down the tree.
  abbrev pub classe : Planta F → (ℕ → F) → ℕ
  classe (folha c) x = c
  classe (ramo c (f, t) l r) x = if n.ate (x f) t then classe l x else classe r x

  -- `k` rounds for one row.
  unfoldable pub andar : ℕ → Arvore F → (ℕ → F) → ℕ → ℕ
  andar zero m x aqui = aqui
  andar (suc k) m x aqui = andar k m x (proximo_no n m x aqui)

  proximo_no-folha :
      (m : Arvore F) (x : ℕ → F) (aqui : ℕ) → e_folha n m aqui ≡ true → proximo_no n m x aqui ≡ aqui
  unfolding proximo_no e_folha
  proximo_no-folha m x aqui e = ground arith

  andar_folha :
      (k : ℕ) (m : Arvore F) (x : ℕ → F) (aqui : ℕ)
      → e_folha n m aqui ≡ true
      → andar k m x aqui ≡ aqui
  unfolding andar
  andar_folha zero m x aqui e = refl
  andar_folha (suc k) m x aqui e = rw (proximo_no-folha m x aqui e) (andar_folha k m x aqui e)

  proximo_no-ramo :
      (m : Arvore F) (x : ℕ → F) (aqui f l r : ℕ) (t : F)
      → get_or m.feats aqui none ≡ some f
      → get_or m.thrs aqui n.nulo ≡ t
      → get_or m.esqs aqui none ≡ some l
      → get_or m.dires aqui none ≡ some r
      → proximo_no n m x aqui ≡ (if n.ate (x f) t then l else r)
  unfolding proximo_no
  proximo_no-ramo m x aqui f l r t a b c d = ground arith

  module _ (x : ℕ → F) where
    -- From the first node of a tree that stands in the arrays, as many rounds as it is high end at the
    -- leaf of the row.
    andar-classe :
        (k : ℕ) (p : Planta F) (vs ws arr : List (No F)) (base : ℕ)
        → altura p ≤ k
        → base ≡ length vs
        → arr ≡ vs ++ (disposta n base p ++ ws)
        → get_or (vetores n arr).clss (andar k (vetores n arr) x base) 0 ≡ classe p x
    unfolding vetores e_folha andar
    andar-classe k (folha c) vs ws arr base h b e =
        let leaf : e_folha n (vetores n arr) base ≡ true =
          rw (e, b, e_folha, get_or-map-append (λ v. v.feat) none vs _ ws) refl in
        rw (andar_folha k (vetores n arr) x base leaf)
          (rw (e, b) (get_or-map-append (λ v. v.cls) 0 vs _ ws))
    andar-classe zero (ramo c (f, t) l r) vs ws arr base h b e = absurd (omega arith)
    andar-classe (suc k) (ramo c (f, t) l r) vs ws arr base h b e =
        let m = vetores n arr in
        let b1 = suc base in
        let b2 = suc base + tamanho l in
        let v : No F = record { feat = some f; thr = t; esq = some b1; dire = some b2; cls = c } in
        let ls = disposta n b1 l in
        let rs = disposta n b2 r in
        let e' : arr ≡ vs ++ v ∷ ((ls ++ rs) ++ ws) = e in
        let step : proximo_no n m x base ≡ (if n.ate (x f) t then b1 else b2) =
          proximo_no-ramo m x base f b1 b2 t (get_or-map_at (λ u. u.feat) none vs v _ arr base e' b)
            (get_or-map_at (λ u. u.thr) n.nulo vs v _ arr base e' b)
            (get_or-map_at (λ u. u.esq) none vs v _ arr base e' b)
            (get_or-map_at (λ u. u.dire) none vs v _ arr base e' b) in
        let left : arr ≡ (vs ++ v ∷ []) ++ (ls ++ (rs ++ ws)) = simp (e, append_assoc) refl in
        let right : arr ≡ (vs ++ v ∷ ls) ++ (rs ++ ws) = simp (e, append_assoc) refl in
        elim (Bool-cases (n.ate (x f) t)) [
          | inl q ↦
              rw (andar, step, q)
                (andar-classe k l (vs ++ v ∷ []) (rs ++ ws) arr b1 (omega arith)
                  (omega (arith, length-append vs (v ∷ []))) left)
          | inr q ↦
              rw (andar, step, q)
                (andar-classe k r (vs ++ v ∷ ls) ws arr b2 (omega arith)
                  (omega (arith, length-append vs (v ∷ ls), length-disposta n b1 l)) right)
        ]

  rodada_de_nos-map :
      (m : Arvore F) (g : (ℕ → F) → ℕ) (xs : List (ℕ → F))
      → rodada_de_nos n m xs (map g xs) ≡ map (λ x. proximo_no n m x (g x)) xs
  unfolding rodada_de_nos
  rodada_de_nos-map m g [] = refl
  rodada_de_nos-map m g (x ∷ xs) = ap (λ t. proximo_no n m x (g x) ∷ t) (rodada_de_nos-map m g xs)

  andar_todas :
      (k : ℕ) (m : Arvore F) (g : (ℕ → F) → ℕ) (xs : List (ℕ → F))
      → todas_folhas n (e_folha n m) (map g xs) ≡ true
      → map g xs ≡ map (λ x. andar k m x (g x)) xs
  andar_todas k m g [] h = refl
  andar_todas k m g (x ∷ xs) h = elim (Bool-cases (e_folha n m (g x))) [
    | inl e ↦ ap₂ ◌∷◌ (sym (andar_folha k m x (g x) e)) (andar_todas k m g xs (rw e at h))
    | inr e ↦ absurd (cc (rw e at h))
  ]

  rodadas-andar :
      (k : ℕ) (m : Arvore F) (g : (ℕ → F) → ℕ) (xs : List (ℕ → F))
      → rodadas n k m xs (map g xs) ≡ map (λ x. andar k m x (g x)) xs
  unfolding rodadas andar
  rodadas-andar zero m g xs = refl
  rodadas-andar (suc k) m g xs = elim (Bool-cases (todas_folhas n (e_folha n m) (map g xs))) [
    | inl e ↦ rw (e, rodadas) (andar_todas (suc k) m g xs e)
    | inr e ↦
        rw (e, rodadas, rodada_de_nos-map m g xs)
          (rodadas-andar k m (λ x. proximo_no n m x (g x)) xs)
  ]

  map-classe :
      (k : ℕ) (p : Planta F) (g : (ℕ → F) → ℕ) (xs : List (ℕ → F))
      → ((x : ℕ → F) → g x ≡ 0)
      → altura p ≤ k
      → map
          (λ j. get_or (vetores n (disposta n 0 p)).clss j 0)
          (map (λ x. andar k (vetores n (disposta n 0 p)) x (g x)) xs)
        ≡ map (classe p) xs
  map-classe k p g [] z h = refl
  map-classe k p g (x ∷ xs) z h =
      ap₂ ◌∷◌
        (rw (z x)
          (andar-classe x k p [] [] (disposta n 0 p) 0 h refl (sym (append-nil (disposta n 0 p)))))
        (map-classe k p g xs z h)

  altura-dividir_planta :
      (a : Amostras F) (k : ℕ) (rec : List ℕ → Planta F) (idx : List ℕ) (b : Bool)
      (o : Option (ℕ × F))
      → ((i : List ℕ) → altura (rec i) ≤ k)
      → altura (dividir_planta n a rec idx b o) ≤ suc k
  unfolding dividir_planta
  altura-dividir_planta a k rec idx true o h = omega arith
  altura-dividir_planta a k rec idx false none h = omega arith
  altura-dividir_planta a k rec idx false (some (f, t)) h =
      omega (arith, h (lado n a true (f, t) idx), h (lado n a false (f, t) idx))

  -- The tree is no higher than the levels that are left.
  pub altura-planta : (a : Amostras F) (k : ℕ) (idx : List ℕ) → altura (planta n a k idx) ≤ k
  unfolding planta
  altura-planta a zero idx = omega arith
  altura-planta a (suc k) idx =
      altura-dividir_planta a k (planta n a k) idx (parar n a idx) (escolher n a idx)
        (altura-planta a k)

  -- The prediction of the fitted arrays is the walk of each row down the tree of the reference, for a
  -- depth of at most the 64 rounds of the loop, whatever row it is.
  pub prever_arvore-ajustar_arvore :
      (a : Amostras F) (linhas prof : ℕ) (xs : List (ℕ → F))
      → prof ≤ 64
      → prever_arvore n (ajustar_arvore n a linhas prof) xs
        ≡ map (classe (planta n a prof (faixa 0 linhas))) xs
  unfolding prever_arvore ajustar_arvore
  prever_arvore-ajustar_arvore a linhas prof xs h =
      let p = planta n a prof (faixa 0 linhas) in
      rw
        (
          construir-disposta n a prof (faixa 0 linhas) [],
          rodadas-andar 64 (vetores n (disposta n 0 p)) (λ x. 0) xs,
        )
        (map-classe 64 p (λ x. 0) xs (λ x. refl)
          (omega (arith, altura-planta a prof (faixa 0 linhas))))
