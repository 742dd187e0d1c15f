-- ===== src/Arvore/Disposta.antt =====
-- The tree that the arrays of `ajustar_arvore` in bench/plano_bloco.py stand for.
use engine_motor.Prelude.{
  length-snoc, ℕ, zero, suc, ◌+◌, ◌≡◌, refl, ap, Bool, true, false, Option, none, some, List, [],
  ◌∷◌, ◌++◌, length, length-append, arith, max,
}
use mathlib.Core.List.{append_assoc}
use engine_motor.Arvore.Corte.{Numeros, Amostras, escolher, parar, lado, argmax_de, totais}
use engine_motor.Arvore.Ajuste.{No, folha_de, partido, mudar, dividir_no, construir}

pub data Planta (F : Type 0) : Type 0 where
  folha : ℕ → Planta F
  ramo : ℕ → ℕ × F → Planta F → Planta F → Planta F

module _ {F : Type 0} where
  abbrev pub tamanho : Planta F → ℕ
  tamanho (folha c) = 1
  tamanho (ramo c corte l r) = suc (tamanho l + tamanho r)

  abbrev pub altura : Planta F → ℕ
  altura (folha c) = 0
  altura (ramo c corte l r) = suc (max (altura l) (altura r))

module _ {F : Type 0} (n : Numeros F) where
  -- The nodes in the order of their numbers, the first of which is `base`.
  abbrev pub disposta : ℕ → Planta F → List (No F)
  disposta base (folha c) =
      record { feat = none; thr = n.nulo; esq = none; dire = none; cls = c } ∷ []
  disposta base (ramo c (f, t) l r) =
      record {
        feat = some f;
        thr = t;
        esq = some (suc base);
        dire = some (suc base + tamanho l);
        cls = c;
      }
        ∷ disposta (suc base) l
      ++ disposta (suc base + tamanho l) r

  pub length-disposta : (base : ℕ) (p : Planta F) → length (disposta base p) ≡ tamanho p
  length-disposta base (folha c) = refl
  length-disposta base (ramo c corte l r) = omega (
    arith,
    length-append (disposta (suc base) l) (disposta (suc base + tamanho l) r),
    length-disposta (suc base) l,
    length-disposta (suc base + tamanho l) r,
  )

module _ {F : Type 0} (n : Numeros F) (a : Amostras F) where
  unfoldable pub dividir_planta : (List ℕ → Planta F) → List ℕ → Bool → Option (ℕ × F) → Planta F
  dividir_planta rec idx true o = folha (argmax_de n (totais n a idx))
  dividir_planta rec idx false none = folha (argmax_de n (totais n a idx))
  dividir_planta rec idx false (some corte) =
      ramo (argmax_de n (totais n a idx)) corte (rec (lado n a true corte idx))
        (rec (lado n a false corte idx))

  -- The tree by plain recursion on the rows.
  unfoldable pub planta : ℕ → List ℕ → Planta F
  unfolding dividir_planta
  planta zero idx = folha (argmax_de n (totais n a idx))
  planta (suc k) idx = dividir_planta (planta k) idx (parar n a idx) (escolher n a idx)

  pub mudar-append :
      (g : No F → No F) (vs : List (No F)) (v : No F) (ws : List (No F))
      → mudar n a g (length vs) (vs ++ v ∷ ws) ≡ vs ++ g v ∷ ws
  mudar-append g [] v ws = refl
  mudar-append g (u ∷ vs) v ws = ap (λ t. u ∷ t) (mudar-append g vs v ws)

  dividir_no-dividir_planta :
      (rec : List ℕ → List (No F) → List (No F) × ℕ) (p : List ℕ → Planta F)
      → ((idx : List ℕ) (vs : List (No F))
          → rec idx vs ≡ (vs ++ disposta n (length vs) (p idx), length vs))
      → (idx : List ℕ) (vs : List (No F)) (b : Bool) (o : Option (ℕ × F))
      → dividir_no n a rec idx vs b o
        ≡ (vs ++ disposta n (length vs) (dividir_planta p idx b o), length vs)
  unfolding dividir_no dividir_planta
  dividir_no-dividir_planta rec p ih idx vs true o = refl
  dividir_no-dividir_planta rec p ih idx vs false none = refl
  dividir_no-dividir_planta rec p ih idx vs false (some (f, t)) =
      let pl = p (lado n a true (f, t) idx) in
      let l = disposta n (suc (length vs)) pl in
      let v : No F = partido n a (f, t) (folha_de n a idx) in
      let v' : No F = record v { esq = some (suc (length vs)) } in
      let m = suc (length vs) + tamanho pl in
      let second : length vs + suc (tamanho pl) ≡ m = omega arith in
      let r = disposta n m (p (lado n a false (f, t) idx)) in
      rw
        (
          mudar-append (partido n a (f, t)) vs (folha_de n a idx) [],
          ih (lado n a true (f, t) idx),
          length-snoc vs v,
          append_assoc vs (v ∷ []) l,
          mudar-append (λ u. record u { esq = some (suc (length vs)) }) vs v l,
          ih (lado n a false (f, t) idx),
          length-append vs (v' ∷ l),
          length-disposta n (suc (length vs)) pl,
          second,
          append_assoc vs (v' ∷ l) r,
          mudar-append (λ u. record u { dire = some m }) vs v' (l ++ r),
        )
        refl

  -- The program's arrays are the nodes of the tree, behind what stood there.
  pub construir-disposta :
      (k : ℕ) (idx : List ℕ) (vs : List (No F))
      → construir n a k idx vs ≡ (vs ++ disposta n (length vs) (planta k idx), length vs)
  unfolding construir planta
  construir-disposta zero idx vs = refl
  construir-disposta (suc k) idx vs =
      dividir_no-dividir_planta (construir n a k) (planta k) (construir-disposta k) idx vs
        (parar n a idx) (escolher n a idx)
