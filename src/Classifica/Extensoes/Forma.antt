-- ===== src/Classifica/Extensoes/Forma.antt =====
-- What `extensao` of bench/perfil_dataset.py returns.
use engine_motor.Prelude.{
  both, ==_iff, ℕ, suc, ◌+◌, ◌≤◌, ◌<◌, ◌≡◌, ◌≢◌, ◌↔◌, refl, ap, subst, ◌⊎◌, inl, inr, Bool, true,
  false, ◌||◌, Bool-cases, Option-cases, none, some, List, [], ◌∷◌, ◌++◌, All, length, length-drop,
  length-take, take, drop, ltb, ltb→lt, ◌==◌, arith,
}
use mathlib.Core.Option.{some_inj}
use engine_motor.Prelude.Texts.{codes}
use engine_motor.Classifica.Extensoes.{
  ultimo_ponto, digito, permitido, todos, extensao_de, extensao,
}

abbrev pub IsDigit : ℕ → Type 0
IsDigit c = (48 ≤ c) × (c ≤ 57)

-- A small letter, a digit, or one of "_", "+" and "-".
abbrev pub IsAllowed : ℕ → Type 0
IsAllowed c = ((97 ≤ c) × (c ≤ 122)) ⊎ (IsDigit c ⊎ ((c ≡ 95) ⊎ ((c ≡ 43) ⊎ (c ≡ 45))))

abbrev pub HasNoDot : List ℕ → Type 0
HasNoDot e = All (λ c. c ≢ 46) e

-- What becomes of the end `e` of a name: too long or with another character, all digits, or neither.
abbrev pub IsEnding : List ℕ → List ℕ → Type 0
IsEnding e r =
    (((10 < length e) ⊎ (All IsAllowed e → ⊥)) × (r ≡ codes "?"))
    ⊎ (((length e ≤ 10) × All IsAllowed e × All IsDigit e × (r ≡ codes "#"))
        ⊎ ((length e ≤ 10) × All IsAllowed e × (All IsDigit e → ⊥) × (r ≡ e)))

-- The extension `r` of the name `s`, by its last dot.
abbrev pub IsLabel : List ℕ → List ℕ → Type 0
IsLabel s r =
    (HasNoDot s × (r ≡ []))
    ⊎ ((radical : List ℕ) × (e : List ℕ) × (s ≡ radical ++ 46 ∷ e)
        × HasNoDot e
        × ((((radical ≡ []) ⊎ (e ≡ [])) × (r ≡ [])) ⊎ ((radical ≢ []) × (e ≢ []) × IsEnding e r)))

digito_iff : (c : ℕ) → (digito c ≡ true) ↔ IsDigit c
unfolding digito
digito_iff c = (λ h. (ground arith, ground arith), λ h. ground arith)

permitido_iff : (c : ℕ) → (permitido c ≡ true) ↔ IsAllowed c
unfolding permitido digito
permitido_iff c = (λ h. ground arith, λ h. ground arith)

todos_iff :
    (p : ℕ → Bool) (P : ℕ → Type 0) (each : (c : ℕ) → (p c ≡ true) ↔ P c) (cs : List ℕ)
    → (todos p cs ≡ true) ↔ All P cs
todos_iff p P each [] = (λ h. tt, λ h. refl)
todos_iff p P each (c ∷ cs) =
    let rest = todos_iff p P each cs in
    (
      λ h. let (a, b) = both (p c) (todos p cs) h in ((each c).0 a, rest.0 b),
      λ h. let a = (each c).1 h.0 in let b = rest.1 h.1 in rw (a, b) refl,
    )

refused :
    (p : ℕ → Bool) (P : ℕ → Type 0) (each : (c : ℕ) → (p c ≡ true) ↔ P c) (cs : List ℕ)
    → todos p cs ≡ false
    → All P cs
    → ⊥
refused p P each cs e h = let e' = (todos_iff p P each cs).1 h in cc

extensao_de-IsEnding : (e : List ℕ) → IsEnding e (extensao_de e)
unfolding extensao_de
extensao_de-IsEnding e = elim (Bool-cases (ltb 10 (length e))) [
  | inl long ↦ rw long (inl (inl (ltb→lt 10 (length e) long), refl))
  | inr short ↦ elim (Bool-cases (todos permitido e)) [
    | inr bad ↦ rw (short, bad) (inl (inr (refused permitido IsAllowed permitido_iff e bad), refl))
    | inl ok ↦
        let ten = up_to_ten (length e) short in
        let allowed = (todos_iff permitido IsAllowed permitido_iff e).0 ok in
        elim (Bool-cases (todos digito e)) [
          | inl digits ↦
              rw (short, ok, digits)
                (inr (inl (ten, allowed, (todos_iff digito IsDigit digito_iff e).0 digits, refl)))
          | inr named ↦
              rw (short, ok, named)
                (inr (inr (ten, allowed, refused digito IsDigit digito_iff e named, refl)))
        ]
  ]
]
  where
    up_to_ten : (n : ℕ) → ltb 10 n ≡ false → n ≤ 10
    up_to_ten n q = ground arith

-- The last dot of a text.
record IsLast (s : List ℕ) (i : ℕ) : Type 0 where
  inside : i < length s
  parts : s ≡ take i s ++ 46 ∷ drop (suc i) s
  behind : HasNoDot (drop (suc i) s)

differs : (c : ℕ) → (c == 46) ≡ false → c ≢ 46
differs c e h = ground arith

no_dot : (s : List ℕ) → ultimo_ponto s ≡ none → HasNoDot s
unfolding ultimo_ponto
no_dot [] h = tt
no_dot (c ∷ cs) h = elim (Option-cases (ultimo_ponto cs)) [
  | inl e ↦ elim (Bool-cases (c == 46)) [
    | inl q ↦ let h' : some 0 ≡ none = rw (e, q) at h in absurd (some_none 0 h')
    | inr q ↦ (differs c q, no_dot cs e)
  ]
  | inr (k, e) ↦ let h' : some (suc k) ≡ none = rw e at h in absurd (some_none (suc k) h')
]
  where
    some_none : (n : ℕ) → some n ≡ none → ⊥
    some_none n g = cc

ultimo_ponto-IsLast : (s : List ℕ) (i : ℕ) → ultimo_ponto s ≡ some i → IsLast s i
unfolding ultimo_ponto
ultimo_ponto-IsLast [] i h = cc
ultimo_ponto-IsLast (c ∷ cs) i h = elim (Option-cases (ultimo_ponto cs)) [
  | inl e ↦ elim (Bool-cases (c == 46)) [
    | inl q ↦
        let h' : some 0 ≡ some i = rw (e, q) at h in
        subst (IsLast (c ∷ cs)) (some_inj.0 h') (record {
          inside = omega arith;
          parts = ap (λ x. x ∷ cs) ((==_iff c 46).0 q);
          behind = no_dot cs e;
        })
    | inr q ↦ let h' : none ≡ some i = rw (e, q) at h in cc
  ]
  | inr (k, e) ↦
      let h' : some (suc k) ≡ some i = rw e at h in
      let rest = ultimo_ponto-IsLast cs k e in
      subst (IsLast (c ∷ cs)) (some_inj.0 h') (record {
        inside = omega (arith, rest.inside);
        parts = ap (λ t. c ∷ t) rest.parts;
        behind = rest.behind;
      })
]

no_length : (xs : List ℕ) → length xs ≡ 0 → xs ≡ []
no_length [] h = refl
no_length (x ∷ xs) h = absurd (omega arith)

some_length : (xs : List ℕ) → 0 < length xs → xs ≢ []
some_length xs h e = let e' = ap length e in absurd (omega arith)

-- The extension of a name is empty if the name has no dot, or only one at its start or at its end as
-- the last; else it is given by what stands behind the last dot: "?" for more than ten characters or
-- one that is not allowed, "#" for digits alone, and itself otherwise.
pub extensao-IsLabel : (s : List ℕ) → IsLabel s (extensao s)
unfolding extensao
extensao-IsLabel s = elim (Option-cases (ultimo_ponto s)) [
  | inl e ↦ rw (e, extensao) (inl (no_dot s e, refl))
  | inr (i, e) ↦
      let l = ultimo_ponto-IsLast s i e in
      elim (Bool-cases (i == 0 || i + 1 == length s)) [
        | inl out ↦
            rw (e, extensao, out)
              (inr (take i s, drop (suc i) s, l.parts, l.behind, inl (cut i out, refl)))
        | inr in_name ↦
            rw (e, extensao, in_name)
              (inr (
                take i s,
                drop (suc i) s,
                l.parts,
                l.behind,
                inr (
                  some_length (take i s)
                      (omega (arith, length-take i s, l.inside, past i (length s) in_name)),
                  some_length (drop (suc i) s)
                      (omega (arith, length-drop (suc i) s, left i (length s) in_name l.inside)),
                  subst (λ n. IsEnding (drop (suc i) s) (extensao_de (drop n s))) (next i)
                      (extensao_de-IsEnding (drop (suc i) s)),
                ),
              ))
      ]
]
  where
    next : (k : ℕ) → suc k ≡ k + 1
    next k = omega arith

    past : (k n : ℕ) → (k == 0 || k + 1 == n) ≡ false → 0 < k
    past k n q = ground arith

    left : (k n : ℕ) → (k == 0 || k + 1 == n) ≡ false → k < n → suc k < n
    left k n q h = ground arith

    first : (k : ℕ) → k ≡ 0 → take k s ≡ []
    first k q = rw q refl

    ends : (k n : ℕ) → (k == 0 || k + 1 == n) ≡ true → (k ≡ 0) ⊎ (n ≤ suc k)
    ends k n q = ground arith

    cut : (k : ℕ) → (k == 0 || k + 1 == length s) ≡ true → (take k s ≡ []) ⊎ (drop (suc k) s ≡ [])
    cut k q = elim (ends k (length s) q) [
      | inl z ↦ inl (first k z)
      | inr z ↦ inr (no_length (drop (suc k) s) (omega (arith, length-drop (suc k) s)))
    ]
