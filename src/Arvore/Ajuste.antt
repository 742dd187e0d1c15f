-- ===== src/Arvore/Ajuste.antt =====
-- `ajustar_arvore`, `prever_arvore` and `arvore_usa` of bench/plano_bloco.py. The five arrays are
-- pushed to together while the tree grows, so that a node is a record of them there; −1 is `none`.
use engine_motor.Prelude.{
  faixa, ℕ, zero, suc, ◌-◌, Bool, true, false, Option, none, some, List, [], ◌∷◌, ◌++◌, map, length,
  get_or, leb, ◌==◌, if◌then◌else◌,
}
use engine_motor.Colecoes.{inserir}
use engine_motor.Arvore.Corte.{Numeros, Amostras, escolher, parar, lado, argmax_de, totais}

pub record No (F : Type 0) : Type 0 where
  pub feat : Option ℕ
  pub thr : F
  pub esq : Option ℕ
  pub dire : Option ℕ
  pub cls : ℕ

module _ {F : Type 0} (n : Numeros F) (a : Amostras F) where
  abbrev pub folha_de : List ℕ → No F
  folha_de idx = record {
    feat = none;
    thr = n.nulo;
    esq = none;
    dire = none;
    cls = argmax_de n (totais n a idx);
  }

  abbrev pub partido : ℕ × F → No F → No F
  partido (f, t) v = record v { feat = some f; thr = t }

  -- `a[nid] = g(a[nid])`.
  abbrev pub mudar : (No F → No F) → ℕ → List (No F) → List (No F)
  mudar g nid [] = []
  mudar g zero (v ∷ vs) = g v ∷ vs
  mudar g (suc nid) (v ∷ vs) = v ∷ mudar g nid vs

  -- What stands behind the push of a node, where `rec` is the call one level below.
  unfoldable pub dividir_no :
      (List ℕ → List (No F) → List (No F) × ℕ)
      → List ℕ
      → List (No F)
      → Bool
      → Option (ℕ × F)
      → List (No F) × ℕ
  dividir_no rec idx vs true o = (vs ++ folha_de idx ∷ [], length vs)
  dividir_no rec idx vs false none = (vs ++ folha_de idx ∷ [], length vs)
  dividir_no rec idx vs false (some corte) =
      let nid = length vs in
      let (v1, l) =
        rec (lado n a true corte idx) (mudar (partido corte) nid (vs ++ folha_de idx ∷ [])) in
      let (v2, r) =
        rec (lado n a false corte idx) (mudar (λ v. record v { esq = some l }) nid v1) in
      (mudar (λ v. record v { dire = some r }) nid v2, nid)

  -- `construir(idx, d)` where `prof - d` levels are left.
  unfoldable pub construir : ℕ → List ℕ → List (No F) → List (No F) × ℕ
  unfolding dividir_no escolher parar lado argmax_de totais
  construir zero idx vs = (vs ++ folha_de idx ∷ [], length vs)
  construir (suc k) idx vs = dividir_no (construir k) idx vs (parar n a idx) (escolher n a idx)

-- The dictionary of the five arrays.
pub record Arvore (F : Type 0) : Type 0 where
  pub feats : List (Option ℕ)
  pub thrs : List F
  pub esqs : List (Option ℕ)
  pub dires : List (Option ℕ)
  pub clss : List ℕ

module _ {F : Type 0} (n : Numeros F) where
  unfoldable pub vetores : List (No F) → Arvore F
  vetores vs = record {
    feats = map (λ v. v.feat) vs;
    thrs = map (λ v. v.thr) vs;
    esqs = map (λ v. v.esq) vs;
    dires = map (λ v. v.dire) vs;
    clss = map (λ v. v.cls) vs;
  }

  -- `ajustar_arvore(X, y, w, K, prof, min_folha)` on `len(y)` rows.
  unfoldable pub ajustar_arvore : Amostras F → ℕ → ℕ → Arvore F
  unfolding construir vetores
  ajustar_arvore a linhas prof = vetores (construir n a prof (faixa 0 linhas) []).0

  -- One round of `prever_arvore` for a row: a leaf stays; an index of −1 is the last one of numpy.
  unfoldable pub proximo_no : Arvore F → (ℕ → F) → ℕ → ℕ
  proximo_no m x aqui = elim (get_or m.feats aqui none) [
    | none ↦ aqui
    | some f ↦
        elim (if n.ate (x f) (get_or m.thrs aqui n.nulo)
          then get_or m.esqs aqui none
          else get_or m.dires aqui none) [ none ↦ length m.feats - 1 | some p ↦ p ]
  ]

  unfoldable pub e_folha : Arvore F → ℕ → Bool
  e_folha m aqui = elim (get_or m.feats aqui none) [ none ↦ true | some f ↦ false ]

  abbrev pub todas_folhas : (ℕ → Bool) → List ℕ → Bool
  todas_folhas p [] = true
  todas_folhas p (x ∷ xs) = if p x then todas_folhas p xs else false

  unfoldable pub rodada_de_nos : Arvore F → List (ℕ → F) → List ℕ → List ℕ
  unfolding proximo_no
  rodada_de_nos m (x ∷ xs) (aqui ∷ nos) = proximo_no m x aqui ∷ rodada_de_nos m xs nos
  rodada_de_nos m [] nos = []
  rodada_de_nos m (x ∷ xs) [] = []

  unfoldable pub rodadas : ℕ → Arvore F → List (ℕ → F) → List ℕ → List ℕ
  unfolding rodada_de_nos e_folha
  rodadas zero m xs nos = nos
  rodadas (suc k) m xs nos = elim (todas_folhas (e_folha m) nos) [
    | true ↦ nos
    | false ↦ rodadas k m xs (rodada_de_nos m xs nos)
  ]

  unfoldable pub prever_arvore : Arvore F → List (ℕ → F) → List ℕ
  unfolding rodadas
  prever_arvore m xs = map (λ aqui. get_or m.clss aqui 0) (rodadas 64 m xs (map (λ x. 0) xs))

-- `sorted({int(f) for f in m["feat"] if f >= 0})`.
unfoldable pub contem_coluna : ℕ → List ℕ → Bool
contem_coluna x [] = false
contem_coluna x (y ∷ ys) = if x == y then true else contem_coluna x ys

unfoldable pub usadas : List (Option ℕ) → List ℕ → List ℕ
unfolding contem_coluna inserir
usadas [] feitas = feitas
usadas (none ∷ fs) feitas = usadas fs feitas
usadas (some f ∷ fs) feitas =
    usadas fs (if contem_coluna f feitas then feitas else inserir leb f feitas)

unfoldable pub arvore_usa : {F : Type 0} → Arvore F → List ℕ
unfolding usadas
arvore_usa m = usadas m.feats []
