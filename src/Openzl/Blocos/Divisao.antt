-- ===== src/Openzl/Blocos/Divisao.antt =====
-- The cuts of `dividir_em_blocos` in bench/openzl_bench.py.
use mathlib.Core.List.{append-nil}
use mathlib.Core.Option.{some_inj}
use native.Mathlib.Nat.{mul_comm, div-le_of_le-mul, mul-le-mul_left, mod-lt, div-add-mod'}
use engine_motor.Prelude.{
  ℕ, zero, suc, ◌+◌, ◌-◌, ◌*◌, ◌/◌, ◌≤◌, ◌<◌, max, ◌≡◌, refl, sym, ap, subst, ◌∙◌, Bool, true,
  false, ◌||◌, Bool-cases, if_case, inl, inr, Option-cases, none, some, List, [], ◌∷◌, ◌++◌, length,
  length-drop, drop, slice, drop_all, drop-drop, take-append-drop, ltb, leb, leb→le, ◌==◌,
  if◌then◌else◌, arith,
}
use engine_motor.Prelude.Texts.{find_byte}
use engine_motor.Openzl.Blocos.{nova_linha, alinhado, posicao, posicoes, fatias, dividir_em_blocos}

abbrev pub concatenar : List (List ℕ) → List ℕ
concatenar [] = []
concatenar (b ∷ bs) = b ++ concatenar bs

-- A cut is not past what it is the cut of.
alinhado-le : (x a base : ℕ) → 0 < a → alinhado x a base ≤ x
unfolding alinhado
alinhado-le x a base pos =
    if_case (λ c. c ≤ x) (leb base x) _ _ (λ e. up (leb→le base x e))
      (λ e. down (base - x) (less e))
  where
    up : base ≤ x → base + ((x - base) / a) * a ≤ x
    up h = omega (arith, div-add-mod' (x - base) a)

    less : leb base x ≡ false → x < base
    less e = ground arith

    ceiling : (d : ℕ) → d ≤ ((d + (a - 1)) / a) * a
    ceiling d = omega (arith, div-add-mod' (d + (a - 1)) a, mod-lt (d + (a - 1)) pos)

    down : (d : ℕ) → x < base → base - ((base - x + (a - 1)) / a) * a ≤ x
    down d h = omega (arith, ceiling (base - x))

find_byte-lt : (y : ℕ) (xs : List ℕ) (j : ℕ) → find_byte y xs ≡ some j → j < length xs
find_byte-lt y [] j e = cc
find_byte-lt y (x ∷ xs) j e = elim (Bool-cases (x == y)) [
  | inl h ↦ let e' : some 0 ≡ some j = rw h at e in ground arith
  | inr h ↦ elim (Option-cases (find_byte y xs)) [
    | inl none_there ↦ let e' : none ≡ some j = rw (h, none_there) at e in cc
    | inr (i, there) ↦
        let e' : some (suc i) ≡ some j = rw (h, there) at e in
        let less = find_byte-lt y xs i there in ground arith
  ]
]

pub nova_linha-lt :
    (dados : List ℕ) (c j : ℕ) → nova_linha dados c ≡ some j → (c ≤ j) × (j < length dados)
unfolding nova_linha
nova_linha-lt dados c j h = elim (Option-cases (find_byte 10 (drop c dados))) [
  | inl e ↦ let h' : none ≡ some j = rw (e, nova_linha) at h in cc
  | inr (i, e) ↦
      let h' : some (c + i) ≡ some j = rw (e, nova_linha) at h in
      let less = find_byte-lt 10 (drop c dados) i e in
      let size = length-drop c dados in
      within c i j (length dados) (length (drop c dados)) (some_inj.0 h') less size
]
  where
    within : (c i j n m : ℕ) → c + i ≡ j → i < m → m ≡ n - c → (c ≤ j) × (j < n)
    within c i j n m e less size = (omega arith, omega arith)

-- Behind the line that ends at `c` or later.
linha-Between :
    (dados : List ℕ) (c u : ℕ) (por_linha : Bool) (r : ℕ)
    → u ≤ c
    → c ≤ length dados
    → r ≡ (
        if por_linha then elim (nova_linha dados c) [ none ↦ length dados | some j ↦ j + 1 ] else c)
    → (u ≤ r) × (r ≤ length dados)
linha-Between dados c u false r low high e = (omega arith, omega arith)
linha-Between dados c u true r low high e = elim (Option-cases (nova_linha dados c)) [
  | inl h ↦ let e' : r ≡ length dados = rw h at e in (omega arith, omega arith)
  | inr (j, h) ↦
      let e' : r ≡ j + 1 = rw h at e in
      let (before, inside) = nova_linha-lt dados c j h in (omega arith, omega arith)
]

posicao-Between :
    (dados : List ℕ) (k a base : ℕ) (por_linha : Bool) (i ultima : ℕ)
    → 0 < a
    → i ≤ k
    → ultima ≤ length dados
    → (ultima ≤ posicao dados k a base por_linha i ultima)
      × (posicao dados k a base por_linha i ultima ≤ length dados)
unfolding posicao
posicao-Between dados k a base por_linha i ultima pos le last =
    let part : (length dados * i) / k ≤ length dados = div-le_of_le-mul k (
      subst (λ m. length dados * i ≤ m) (mul_comm (length dados) k)
        (mul-le-mul_left (length dados) le)) in
    let cut = alinhado-le ((length dados * i) / k) a base pos in
    linha-Between dados (max (alinhado ((length dados * i) / k) a base) ultima) ultima por_linha
      (posicao dados k a base por_linha i ultima) (omega arith) (omega arith) refl

-- The cuts rise from `p` and end at `n`.
abbrev Rises : ℕ → List ℕ → ℕ → Type 0
Rises p [] n = p ≡ n
Rises p (q ∷ qs) n = (p ≤ q) × Rises q qs n

posicoes-Rises :
    (dados : List ℕ) (k a base : ℕ) (por_linha : Bool) (left i ultima : ℕ)
    → 0 < a
    → i + left ≤ k
    → ultima ≤ length dados
    → Rises ultima (posicoes dados k a base por_linha left i ultima) (length dados)
unfolding posicoes
posicoes-Rises dados k a base por_linha zero i ultima pos le last = (last, refl)
posicoes-Rises dados k a base por_linha (suc left) i ultima pos le last =
    let (low, high) = posicao-Between dados k a base por_linha i ultima pos (omega arith) last in
    (
      low,
      posicoes-Rises dados k a base por_linha left (i + 1)
          (posicao dados k a base por_linha i ultima) pos (omega arith) high,
    )

concatenar-fatias :
    (dados : List ℕ) (p : ℕ) (qs : List ℕ)
    → Rises p qs (length dados)
    → concatenar (fatias dados p qs) ≡ drop p dados
unfolding fatias
concatenar-fatias dados p [] h = sym (drop_all p dados (omega arith))
concatenar-fatias dados p (q ∷ qs) h = elim (Bool-cases (ltb p q)) [
  | inl e ↦
      let there : drop q dados ≡ drop (q - p) (drop p dados) =
        ap (λ k. drop k dados) (omega arith) ∙ sym (drop-drop (q - p) p dados) in
      rw e (
        ap (λ t. slice p q dados ++ t) (concatenar-fatias dados q qs h.1 ∙ there)
        ∙ take-append-drop (q - p) (drop p dados))
  | inr e ↦
      let same : p ≡ q = equal p q e h.0 in
      rw e (concatenar-fatias dados q qs h.1 ∙ ap (λ k. drop k dados) (sym same))
]
  where
    equal : (x y : ℕ) → ltb x y ≡ false → x ≤ y → x ≡ y
    equal x y e h = ground arith

-- The blocks of `dividir_em_blocos` are the data, in order and without a gap, for every number of
-- blocks and every positive alignment, with or without cuts at lines.
pub concatenar-dividir_em_blocos :
    (dados : List ℕ) (k a base : ℕ) (por_linha : Bool)
    → 0 < a
    → concatenar (dividir_em_blocos dados k a base por_linha) ≡ dados
unfolding dividir_em_blocos
concatenar-dividir_em_blocos dados k a base por_linha pos =
    if_case (λ bs. concatenar bs ≡ dados) (leb k 1 || ltb (length dados) (k * 4096)) _ _
      (λ _. append-nil dados)
      (λ e.
        concatenar-fatias dados 0 (posicoes dados k a base por_linha (k - 1) 1 0)
          (posicoes-Rises dados k a base por_linha (k - 1) 1 0 pos (many e) (omega arith)))
  where
    many : (leb k 1 || ltb (length dados) (k * 4096)) ≡ false → 1 + (k - 1) ≤ k
    many e = ground arith
