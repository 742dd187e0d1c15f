-- ===== src/Classifica/Amostra/Bytes.antt =====
-- The bytes that `classificar_amostra` of bench/perfil_dataset.py counts, as predicates.
use engine_motor.Prelude.{
  ℕ, suc, ◌+◌, ◌≤◌, ◌<◌, ◌≡◌, ◌↔◌, ◌⊎◌, refl, Bool, true, false, List, [], ◌∷◌, leb, if◌then◌else◌,
  arith,
}
use engine_motor.Classifica.Amostra.{imprimivel, imprimiveis, altos}

-- A tab, a line feed, a carriage return, a visible character or the space, or a byte from 128 on.
abbrev pub IsPrintableByte : ℕ → Type 0
IsPrintableByte c = (c ≡ 9) ⊎ ((c ≡ 10) ⊎ ((c ≡ 13) ⊎ (((32 ≤ c) × (c < 127)) ⊎ (128 ≤ c))))

abbrev pub IsHigh : ℕ → Type 0
IsHigh c = 128 ≤ c

pub imprimivel_iff : (c : ℕ) → (imprimivel c ≡ true) ↔ IsPrintableByte c
unfolding imprimivel
imprimivel_iff c = (λ h. ground arith, λ h. ground arith)

pub leb_iff : (c : ℕ) → (leb 128 c ≡ true) ↔ IsHigh c
leb_iff c = (λ h. ground arith, λ h. ground arith)

pub not_so : {P : Type 0} → (false ≡ true) ↔ P → P → ⊥
not_so h p = let e = h.1 p in cc

abbrev pub decide_by : {P : Type 0} → (b : Bool) → (b ≡ true) ↔ P → Dec P
decide_by true h = yes (h.0 refl)
decide_by false h = no (not_so h)

-- How many elements have a property.
abbrev pub quantos : {P : ℕ → Type 0} → ((c : ℕ) → Dec (P c)) → List ℕ → ℕ
quantos d [] = 0
quantos d (c ∷ cs) = elim (d c) [ yes p ↦ suc (quantos d cs) | no q ↦ quantos d cs ]

abbrev pub printable : (c : ℕ) → Dec (IsPrintableByte c)
printable c = decide_by (imprimivel c) (imprimivel_iff c)

abbrev pub high : (c : ℕ) → Dec (IsHigh c)
high c = decide_by (leb 128 c) (leb_iff c)

one_more :
    {P : Type 0} (b : Bool) (h : (b ≡ true) ↔ P) (n k : ℕ)
    → n ≡ k
    → (if b then 1 else 0) + n ≡ elim (decide_by b h) [ yes p ↦ suc k | no q ↦ k ]
one_more true h n k e = omega (arith, e)
one_more false h n k e = omega (arith, e)

pub imprimiveis-quantos : (xs : List ℕ) → imprimiveis xs ≡ quantos printable xs
unfolding imprimiveis
imprimiveis-quantos [] = refl
imprimiveis-quantos (c ∷ cs) =
    one_more (imprimivel c) (imprimivel_iff c) (imprimiveis cs) (quantos printable cs)
      (imprimiveis-quantos cs)

pub altos-quantos : (xs : List ℕ) → altos xs ≡ quantos high xs
unfolding altos
altos-quantos [] = refl
altos-quantos (c ∷ cs) =
    one_more (leb 128 c) (leb_iff c) (altos cs) (quantos high cs) (altos-quantos cs)
