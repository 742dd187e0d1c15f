-- ===== src/Colecoes/Laws.antt =====
-- Laws of the sort and of the groups that the tools use.
use engine_motor.Prelude.{
  ℕ, ◌+◌, arith, ◌≡◌, refl, sym, Bool, true, Bool-cases, inl, inr, List, [], ◌∷◌, All, All-append,
}
use engine_motor.Colecoes.{inserir, ordenar_de, ordenar, acrescentar, agrupar}

-- The sort keeps what holds of every element.
module _ {ℓ κ} {A : Type ℓ} (antes : A → A → Bool) (P : A → Type κ) where
  All-inserir : (x : A) (xs : List A) → P x → All P xs → All P (inserir antes x xs)
  unfolding inserir
  All-inserir x [] p h = (p, tt)
  All-inserir x (y ∷ ys) p h = elim (Bool-cases (antes y x)) [
    | inl e ↦ rw e (h.0, All-inserir x ys p h.1)
    | inr e ↦ rw e (p, h)
  ]

  All-ordenar_de : (feito xs : List A) → All P feito → All P xs → All P (ordenar_de antes feito xs)
  unfolding ordenar_de
  All-ordenar_de feito [] h k = h
  All-ordenar_de feito (x ∷ xs) h k =
      All-ordenar_de (inserir antes x feito) xs (All-inserir x feito k.0 h) k.1

  pub All-ordenar : (xs : List A) → All P xs → All P (ordenar antes xs)
  unfolding ordenar
  All-ordenar xs h = All-ordenar_de [] xs tt h

-- In a group every element has the key of the group, and what holds of all that were grouped.
module _ {ℓ κ μ} {K : Type ℓ} {A : Type κ} (igual : K → K → Bool)
    (sound : (a b : K) → igual a b ≡ true → a ≡ b) (chave : A → K) (P : A → Type μ) where
  abbrev pub IsMember : K → A → Type (ℓ ⊔ μ)
  IsMember k a = (chave a ≡ k) × P a

  abbrev pub IsGroup : K × List A → Type (ℓ ⊔ μ)
  IsGroup g = All (IsMember g.0) g.1

  acrescentar-All :
      (a : A) (gs : List (K × List A))
      → P a
      → All IsGroup gs
      → All IsGroup (acrescentar igual (chave a) a gs)
  unfolding acrescentar
  acrescentar-All a [] p h = (((refl, p), tt), tt)
  acrescentar-All a ((c, ms) ∷ gs) p h = elim (Bool-cases (igual c (chave a))) [
    | inl e ↦
        let same : c ≡ chave a = sound c (chave a) e in
        rw e (All-append (IsMember c) ms (a ∷ []) h.0 ((sym same, p), tt), h.1)
    | inr e ↦ rw e (h.0, acrescentar-All a gs p h.1)
  ]

  pub agrupar-All :
      (xs : List A) (gs : List (K × List A))
      → All P xs
      → All IsGroup gs
      → All IsGroup (agrupar igual chave xs gs)
  unfolding agrupar
  agrupar-All [] gs p h = h
  agrupar-All (a ∷ xs) gs p h =
      agrupar-All xs (acrescentar igual (chave a) a gs) p.1 (acrescentar-All a gs p.0 h)

-- A measure that adds up over a list is kept by the sort.
module _ {ℓ} {A : Type ℓ} (antes : A → A → Bool) (peso : A → ℕ) where
  abbrev pub soma : List A → ℕ
  soma [] = 0
  soma (x ∷ xs) = peso x + soma xs

  soma-inserir : (x : A) (xs : List A) → soma (inserir antes x xs) ≡ peso x + soma xs
  unfolding inserir
  soma-inserir x [] = refl
  soma-inserir x (y ∷ ys) = elim (Bool-cases (antes y x)) [
    | inl e ↦ rw e (omega (arith, soma-inserir x ys))
    | inr e ↦ rw e
  ]

  soma-ordenar_de : (feito xs : List A) → soma (ordenar_de antes feito xs) ≡ soma feito + soma xs
  unfolding ordenar_de
  soma-ordenar_de feito [] = omega arith
  soma-ordenar_de feito (x ∷ xs) =
      omega (arith, soma-ordenar_de (inserir antes x feito) xs, soma-inserir x feito)

  pub soma-ordenar : (xs : List A) → soma (ordenar antes xs) ≡ soma xs
  unfolding ordenar
  soma-ordenar xs = omega (arith, soma-ordenar_de [] xs)
