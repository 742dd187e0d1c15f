-- ===== src/Arvore/Escolha.antt =====
-- The counts and the choice of the cheapest cut in `ajustar_arvore` of bench/plano_bloco.py.
use engine_motor.Prelude.{
  faixa, ℕ, zero, suc, ◌+◌, ◌-◌, ◌≡◌, ◌≤◌, ◌<◌, refl, sym, ap, ◌∙◌, Bool, true, not, Option, none,
  some, List, [], ◌∷◌, map, length, get_or, All, ltb, ◌==◌, inl, inr, arith, Bool-cases,
}
use engine_motor.Arvore.Corte.{
  Numeros, Amostras, so_os, somas_parciais, intervalo, argmin, argmin_de, no_intervalo, contagens,
  custo_do_corte, custos,
}

-- Each cut is at most those behind it.
module _ {F : Type 0} (n : Numeros F) where
  abbrev pub Ascending : List F → Type 0
  Ascending [] = Unit {0}
  Ascending (q ∷ qs) = All (λ y. n.ate q y ≡ true) qs × Ascending qs

  abbrev pub Transitive : Type 0
  Transitive = (x y z : F) → n.ate x y ≡ true → n.ate y z ≡ true → n.ate x z ≡ true

All-get_or :
    {A : Type 0} (P : A → Type 0) (xs : List A) (j : ℕ) (d : A)
    → All P xs
    → j < length xs
    → P (get_or xs j d)
All-get_or P [] j d h l = absurd (omega arith)
All-get_or P (x ∷ xs) zero d h l = h.0
All-get_or P (x ∷ xs) (suc j) d h l = All-get_or P xs j d h.1 (omega arith)

pub so_os_ext :
    {A : Type 0} (p q : A → Bool) (xs : List A) → ((x : A) → p x ≡ q x) → so_os p xs ≡ so_os q xs
so_os_ext p q [] h = refl
so_os_ext p q (x ∷ xs) h = rw (h x, so_os_ext p q xs h) refl

pub length-so_os-not :
    {A : Type 0} (p : A → Bool) (xs : List A)
    → length (so_os p xs) + length (so_os (λ x. not (p x)) xs) ≡ length xs
length-so_os-not p [] = omega arith
length-so_os-not p (x ∷ xs) = elim (Bool-cases (p x)) [
  | inl e ↦ rw e (omega (arith, length-so_os-not p xs))
  | inr e ↦ rw e (omega (arith, length-so_os-not p xs))
]

-- The elements whose number is below `k`, one more interval at a time.
length-so_os_below :
    {A : Type 0} (g : A → ℕ) (k : ℕ) (xs : List A)
    → length (so_os (λ x. ltb (g x) k) xs) + length (so_os (λ x. g x == k) xs)
      ≡ length (so_os (λ x. ltb (g x) (suc k)) xs)
length-so_os_below g k [] = omega arith
length-so_os_below g k (x ∷ xs) = ground (arith, length-so_os_below g k xs)

so_os_none : {A : Type 0} (g : A → ℕ) (xs : List A) → so_os (λ x. ltb (g x) 0) xs ≡ []
so_os_none g [] = refl
so_os_none g (x ∷ xs) = ground (arith, so_os_none g xs)

somas_parciais-get :
    {A : Type 0} (g : A → ℕ) (xs : List A) (lo m j : ℕ)
    → j < m
    → get_or
        (somas_parciais
          (length (so_os (λ x. ltb (g x) lo) xs))
          (map (λ b. length (so_os (λ x. g x == b) xs)) (faixa lo m)))
        j
        0
      ≡ length (so_os (λ x. ltb (g x) (lo + suc j)) xs)
unfolding somas_parciais
somas_parciais-get g xs lo zero j h = absurd (omega arith)
somas_parciais-get g xs lo (suc m) zero h =
    let e : lo + 1 ≡ suc lo = omega arith in rw e (length-so_os_below g lo xs)
somas_parciais-get g xs lo (suc m) (suc j) h =
    let e : lo + suc (suc j) ≡ suc lo + suc j = omega arith in
    rw (e, length-so_os_below g lo xs) (somas_parciais-get g xs (suc lo) m j (omega arith))

pub length-somas_parciais : (a : ℕ) (xs : List ℕ) → length (somas_parciais a xs) ≡ length xs
unfolding somas_parciais
length-somas_parciais a [] = refl
length-somas_parciais a (x ∷ xs) = ap suc (length-somas_parciais (a + x) xs)

pub length-map-faixa : {B : Type 0} (g : ℕ → B) (lo m : ℕ) → length (map g (faixa lo m)) ≡ m
length-map-faixa g lo zero = refl
length-map-faixa g lo (suc m) = ap suc (length-map-faixa g (suc lo) m)

module _ {F : Type 0} where
  later :
      (x : Option F) (xs all : List (Option F)) (i : ℕ)
      → ((k : ℕ) → get_or (x ∷ xs) k none ≡ get_or all (i + k) none)
      → (k : ℕ) → get_or xs k none ≡ get_or all (i + 1 + k) none
  later x xs all i l k = l (suc k) ∙ ap (λ t. get_or all t none) (omega arith)

  first :
      (x : F) (xs all : List (Option F)) (i : ℕ)
      → ((k : ℕ) → get_or (some x ∷ xs) k none ≡ get_or all (i + k) none)
      → (b : F) → some x ≡ some b
      → get_or all i none ≡ some b
  first x xs all i l b q = ap (λ t. get_or all t none) (omega arith) ∙ sym (l 0) ∙ q

module _ {F : Type 0} (n : Numeros F) where
  -- A value lies in an interval up to the j-th exactly if it is at most the j-th cut.
  intervalo_lem :
      (trans : Transitive n) (q : List F) (v : F) (j : ℕ)
      → Ascending n q
      → j < length q
      → ltb (intervalo n q v) (suc j) ≡ n.ate v (get_or q j n.nulo)
  unfolding intervalo
  intervalo_lem trans [] v j h l = absurd (omega arith)
  intervalo_lem trans (q ∷ qs) v zero h l = elim (Bool-cases (n.ate v q)) [
    | inl e ↦ rw e refl
    | inr e ↦ rw e (ground arith)
  ]
  intervalo_lem trans (q ∷ qs) v (suc j) h l = elim (Bool-cases (n.ate v q)) [
    | inl e ↦
        let up : n.ate v (get_or qs j n.nulo) ≡ true =
          trans v q (get_or qs j n.nulo) e
            (All-get_or (λ y. n.ate q y ≡ true) qs j n.nulo h.0 (omega arith)) in
        rw (e, up) (ground arith)
    | inr e ↦ rw e (ground (arith, intervalo_lem trans qs v j h.1))
  ]

  module _ (a : Amostras F) where
    -- `cnl[j]` counts the rows at or below the j-th cut.
    pub contagens_lem :
        (trans : Transitive n) (f : ℕ) (q : List F) (idx : List ℕ) (j : ℕ)
        → Ascending n q
        → j < length q
        → get_or (contagens n a f q idx) j 0
          ≡ length (so_os (λ i. n.ate (a.valor i f) (get_or q j n.nulo)) idx)
    unfolding contagens no_intervalo
    contagens_lem trans f q idx j h l =
        let e = somas_parciais-get (λ i. intervalo n q (a.valor i f)) idx 0 (length q) j l in
        let z : length (so_os (λ i. ltb (intervalo n q (a.valor i f)) 0) idx) ≡ 0 =
          ap length (so_os_none (λ i. intervalo n q (a.valor i f)) idx) in
        let s : 0 + suc j ≡ suc j = omega arith in
        rw (z, s) at e
        ∙ ap length (
            so_os_ext (λ i. ltb (intervalo n q (a.valor i f)) (suc j))
              (λ i. n.ate (a.valor i f) (get_or q j n.nulo)) idx
              (λ i. intervalo_lem trans q (a.valor i f) j h l))

    -- A finite cost: both sides have enough rows.
    pub custos-get :
        (tot : List F) (todos : ℕ) (cs : List ℕ) (ws : List (List F)) (j : ℕ) (c : F)
        → get_or (custos n a tot todos cs ws) j none ≡ some c
        → (j < length cs) × (a.min_folha ≤ get_or cs j 0) × (a.min_folha ≤ todos - get_or cs j 0)
    unfolding custos custo_do_corte
    custos-get tot todos [] ws j c e = cc
    custos-get tot todos (k ∷ cs) [] j c e = cc
    custos-get tot todos (k ∷ cs) (w ∷ ws) zero c e = ground arith
    custos-get tot todos (k ∷ cs) (w ∷ ws) (suc j) c e =
        let (l, u, v) = custos-get tot todos cs ws j c e in (omega arith, u, v)

  -- The winner of `argmin` is a place of the list with the cost that it reports.
  argmin-get :
      (all xs : List (Option F)) (i : ℕ) (m : Option F) (w : ℕ) (j : ℕ) (c : F)
      → ((k : ℕ) → get_or xs k none ≡ get_or all (i + k) none)
      → ((b : F) → m ≡ some b → get_or all w none ≡ some b)
      → argmin n xs i m w ≡ (j, some c)
      → get_or all j none ≡ some c
  unfolding argmin
  argmin-get all [] i m w j c l h e = rw (← ap (λ p. p.0) e) (h c (ap (λ p. p.1) e))
  argmin-get all (none ∷ xs) i m w j c l h e =
      argmin-get all xs (i + 1) m w j c (later none xs all i l) h e
  argmin-get all (some x ∷ xs) i none w j c l h e =
      argmin-get all xs (i + 1) (some x) i j c (later (some x) xs all i l) (first x xs all i l) e
  argmin-get all (some x ∷ xs) i (some b) w j c l h e = elim (Bool-cases (n.acima b x)) [
    | inl q ↦
        argmin-get all xs (i + 1) (some x) i j c (later (some x) xs all i l) (first x xs all i l)
          (rw q at e)
    | inr q ↦ argmin-get all xs (i + 1) (some b) w j c (later (some x) xs all i l) h (rw q at e)
  ]

  pub argmin_de-get :
      (xs : List (Option F)) (j : ℕ) (c : F)
      → argmin_de n xs ≡ (j, some c)
      → get_or xs j none ≡ some c
  unfolding argmin_de
  argmin_de-get [] j c e = cc
  argmin_de-get (x ∷ xs) j c e =
      argmin-get (x ∷ xs) xs 1 x 0 j c
        (later x xs (x ∷ xs) 0 (λ k. ap (λ t. get_or (x ∷ xs) t none) (omega arith))) (λ b q. q) e
