-- ===== src/Capacidade/Processos/Alcance.antt =====
-- The set that `descendentes` of bench/capacidade_local.py closes.
use engine_motor.Prelude.{
  true-ne-false, ℕ, zero, suc, ◌+◌, ◌≡◌, ◌≢◌, ◌≤◌, ◌<◌, ◌↔◌, ◌⊎◌, refl, sym, ap, ◌∙◌, Bool, true,
  false, not, ◌&&◌, Option, some, List, [], ◌∷◌, length, ◌==◌, ==_iff, if◌then◌else◌, inl, inr,
  arith, Bool-cases, if_case, subst,
}
use engine_motor.Capacidade.Processos.{
  TabelaProcessos, pertence, entra, passada, fechar_conjunto, descartar, descendentes,
}

entra-parent : (p q : ℕ) (c : List ℕ) → entra p q c ≡ true → pertence q c ≡ true
unfolding entra
entra-parent p q c i = ground arith

entra-new : (p q : ℕ) (c : List ℕ) → entra p q c ≡ true → pertence p c ≡ false
unfolding entra
entra-new p q c i = ground arith

-- A process with its parent stands in the table.
abbrev pub Em : ℕ → ℕ → TabelaProcessos → Type 0
Em p q [] = ⊥
Em p q ((a, b) ∷ t) = ((a ≡ p) × (b ≡ q)) ⊎ Em p q t

-- The descendants of a process, itself included.
pub data Descende (tab : TabelaProcessos) (raiz : ℕ) : ℕ → Type 0 where
  ela : Descende tab raiz raiz
  filho : (p q : ℕ) → Em p q tab → Descende tab raiz q → Descende tab raiz p

-- No pass changes the set any more.
abbrev Closed : List ℕ → TabelaProcessos → Type 0
Closed c [] = Unit {0}
Closed c ((p, q) ∷ t) = (entra p q c ≡ false) × Closed c t

Closed-Em :
    (c : List ℕ) (t : TabelaProcessos) (p q : ℕ)
    → Closed c t
    → Em p q t
    → pertence q c ≡ true
    → pertence p c ≡ true
unfolding entra
Closed-Em c [] p q h e m = absurd e
Closed-Em c ((a, b) ∷ t) p q h (inl (e, f)) m = ground (arith, h.0)
Closed-Em c ((a, b) ∷ t) p q h (inr e) m = Closed-Em c t p q h.1 e m

-- A pass that does not change the set meets a closed one.
passada_still :
    (t : TabelaProcessos) (c : List ℕ) (m : Bool)
    → (passada t c m).1 ≡ false
    → (m ≡ false) × ((passada t c m).0 ≡ c) × Closed c t
unfolding passada
passada_still [] c m e = (e, refl, tt)
passada_still ((p, q) ∷ t) c m e = elim (Bool-cases (entra p q c)) [
  | inl i ↦ absurd (true-ne-false (passada_still t (p ∷ c) true (rw (i, passada) at e)).0)
  | inr i ↦
      let (x, y, z) = passada_still t c m (rw (i, passada) at e) in (x, rw (i, passada) y, (i, z))
]

-- What is added is in the table, and was not in the set.
module _ (tab : TabelaProcessos) (raiz : ℕ) where
  Subset : List ℕ → Type 0
  Subset c = (x : ℕ) → pertence x c ≡ true → Descende tab raiz x

  passada-Subset :
      (t : TabelaProcessos) (c : List ℕ) (m : Bool)
      → ((p q : ℕ) → Em p q t → Em p q tab)
      → ((x : ℕ) → pertence x c ≡ true → Descende tab raiz x)
      → (x : ℕ) → pertence x (passada t c m).0 ≡ true
      → Descende tab raiz x
  unfolding passada
  passada-Subset [] c m inn s = s
  passada-Subset ((p, q) ∷ t) c m inn s =
      passada-Subset t (if entra p q c then p ∷ c else c) (if entra p q c then true else m)
        (λ a b e. inn a b (inr e))
        (if_case (λ d. (x : ℕ) → pertence x d ≡ true → Descende tab raiz x) (entra p q c) (p ∷ c) c
          (λ i x e. added p q c (inn p q (inl (refl, refl))) s i x (Bool-cases (p == x)) e)
          (λ i. s))
    where
      added :
          (p q : ℕ) (c : List ℕ)
          → Em p q tab
          → ((x : ℕ) → pertence x c ≡ true → Descende tab raiz x)
          → entra p q c ≡ true
          → (x : ℕ) → ((p == x) ≡ true) ⊎ ((p == x) ≡ false)
          → pertence x (p ∷ c) ≡ true
          → Descende tab raiz x
      added p q c e s i x (inl k) h =
          subst (Descende tab raiz) ((==_iff p x).0 k) (filho p q e (s q (entra-parent p q c i)))
      added p q c e s i x (inr k) h = s x (rw k at h)

-- How many entries of a table have a process that is not in the set.
falta : List ℕ → TabelaProcessos → ℕ
falta c [] = 0
falta c ((p, q) ∷ t) = (if pertence p c then 0 else 1) + falta c t

falta_grows : (x : ℕ) (c : List ℕ) (t : TabelaProcessos) → falta (x ∷ c) t ≤ falta c t
unfolding falta
falta_grows x c [] = omega arith
falta_grows x c ((p, q) ∷ t) = ground (arith, falta_grows x c t)

falta_drops :
    (p q : ℕ) (c : List ℕ) (t : TabelaProcessos)
    → Em p q t
    → pertence p c ≡ false
    → falta (p ∷ c) t < falta c t
unfolding falta
falta_drops p q c [] e h = absurd e
falta_drops p q c ((a, b) ∷ t) (inl (e, f)) h = ground (arith, falta_grows p c t)
falta_drops p q c ((a, b) ∷ t) (inr e) h = ground (arith, falta_drops p q c t e h)

-- What a pass does to the number of missing entries.
passada_le :
    (tab t : TabelaProcessos) (c : List ℕ) (m : Bool) → falta (passada t c m).0 tab ≤ falta c tab
unfolding passada
passada_le tab [] c m = omega arith
passada_le tab ((p, q) ∷ t) c m = elim (Bool-cases (entra p q c)) [
  | inl i ↦ rw (i, passada) (omega (arith, passada_le tab t (p ∷ c) true, falta_grows p c tab))
  | inr i ↦ rw (i, passada) (passada_le tab t c m)
]

passada_falls :
    (tab t : TabelaProcessos) (c : List ℕ)
    → ((p q : ℕ) → Em p q t → Em p q tab)
    → (passada t c false).1 ≡ true
    → falta (passada t c false).0 tab < falta c tab
unfolding passada
passada_falls tab [] c inn e = cc
passada_falls tab ((p, q) ∷ t) c inn e = elim (Bool-cases (entra p q c)) [
  | inl i ↦
      rw (i, passada)
        (omega (
          arith,
          passada_le tab t (p ∷ c) true,
          falta_drops p q c tab (inn p q (inl (refl, refl))) (entra-new p q c i),
        ))
  | inr i ↦
      rw (i, passada) (passada_falls tab t c (λ a b f. inn a b (inr f)) (rw (i, passada) at e))
]

passada_keeps :
    (x : ℕ) (t : TabelaProcessos) (c : List ℕ) (m : Bool)
    → pertence x c ≡ true
    → pertence x (passada t c m).0 ≡ true
unfolding passada
passada_keeps x [] c m h = h
passada_keeps x ((p, q) ∷ t) c m h =
    passada_keeps x t (if entra p q c then p ∷ c else c) (if entra p q c then true else m)
      (if_case (λ d. pertence x d ≡ true) (entra p q c) (p ∷ c) c (λ i. ground (arith)) (λ i. h))

falta-le : (tab : TabelaProcessos) (c : List ℕ) → falta c tab < suc (length tab)
unfolding falta
falta-le [] c = omega arith
falta-le ((p, q) ∷ t) c = ground (arith, falta-le t c)

root_in : (r : ℕ) → pertence r (r ∷ []) ≡ true
root_in r = ground arith

only_root : (tab : TabelaProcessos) (r x : ℕ) → pertence x (r ∷ []) ≡ true → Descende tab r x
only_root tab r x h = elim (Bool-cases (r == x)) [
  | inl e ↦ subst (Descende tab r) ((==_iff r x).0 e) ela
  | inr e ↦ absurd (true-ne-false (sym (rw e at h)))
]

in_and_ne : (x r : ℕ) (b : Bool) → (b && not (x == r)) ≡ true → (b ≡ true) × (x ≢ r)
in_and_ne x r b h = ground arith

in_but : (x r : ℕ) (b : Bool) → b ≡ true → x ≢ r → (b && not (x == r)) ≡ true
in_but x r b h n = ground arith

module _ (tab : TabelaProcessos) (raiz : ℕ) where
  -- The loop ends with a closed set around the root.
  record IsReach (o : Option (List ℕ)) : Type 0 where
    found : List ℕ
    equals : o ≡ some found
    closed : Closed found tab
    rooted : pertence raiz found ≡ true
    sound : (x : ℕ) → pertence x found ≡ true → Descende tab raiz x

  fechar_conjunto-IsReach :
      (k : ℕ) (c : List ℕ)
      → falta c tab < k
      → pertence raiz c ≡ true
      → ((x : ℕ) → pertence x c ≡ true → Descende tab raiz x)
      → IsReach (fechar_conjunto k tab c)
  unfolding fechar_conjunto
  fechar_conjunto-IsReach zero c l r s = absurd (omega arith)
  fechar_conjunto-IsReach (suc k) c l r s = elim (Bool-cases (passada tab c false).1) [
    | inl e ↦
        rw (e, fechar_conjunto)
          (fechar_conjunto-IsReach k (passada tab c false).0
            (omega (arith, passada_falls tab tab c (λ p q f. f) e))
            (passada_keeps raiz tab c false r) (passada-Subset tab raiz tab c false (λ p q f. f) s))
    | inr e ↦
        let (m, same, closed) = passada_still tab c false e in
        rw (e, fechar_conjunto)
          (record { found = c; equals = ap some same; closed = closed; rooted = r; sound = s })
  ]

  Descende-Closed :
      (c : List ℕ) (x : ℕ)
      → Closed c tab
      → pertence raiz c ≡ true
      → Descende tab raiz x
      → pertence x c ≡ true
  Descende-Closed c x h r ela = r
  Descende-Closed c x h r (filho p q e d) = Closed-Em c tab p q h e (Descende-Closed c q h r d)

  pertence-descartar :
      (x : ℕ) (c : List ℕ) → pertence x (descartar raiz c) ≡ (pertence x c && not (x == raiz))
  unfolding descartar
  pertence-descartar x [] = refl
  pertence-descartar x (y ∷ c) = ground (arith, pertence-descartar x c)

  -- `descendentes` returns, on every table, with parents that are not in it and with cycles too: a process
  -- is in the set exactly if a chain of parents leads from it to the root, which is itself left out.
  pub descendentes-iff-Descende :
      (c : List ℕ) × (descendentes tab raiz ≡ some c)
      × ((x : ℕ) → (pertence x c ≡ true) ↔ (Descende tab raiz x × (x ≢ raiz)))
  unfolding descendentes
  descendentes-iff-Descende =
      let r =
        fechar_conjunto-IsReach (suc (length tab)) (raiz ∷ []) (falta-le tab (raiz ∷ []))
          (root_in raiz) (only_root tab raiz) in
      (
        descartar raiz r.found,
        rw (r.equals, descendentes) refl,
        λ x. (
          λ h.
              let (i, n) =
                in_and_ne x raiz (pertence x r.found) (sym (pertence-descartar x r.found) ∙ h) in
              (r.sound x i, n),
          λ h.
              pertence-descartar x r.found
              ∙ in_but x raiz (pertence x r.found) (Descende-Closed r.found x r.closed r.rooted h.0)
                  h.1,
        ),
      )
