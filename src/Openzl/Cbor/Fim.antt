-- ===== src/Openzl/Cbor/Fim.antt =====
-- The end of `decodificar_cbor` of bench/openzl_bench.py.
use engine_motor.Prelude.{
  ℕ, zero, suc, ◌/◌, ◌%◌, ◌≤◌, ◌<◌, Bool-cases, if_case, inl, inr, Option, none, some, List, [],
  ◌∷◌, length, length-drop, drop, ltb, ◌==◌, arith,
}
use engine_motor.Openzl.Cbor.{
  Valor, Itens, Pares, Leitura, seguir, acrescentar, hashable, palavra, octeto, ler_val, Maior,
  maior, repetir, ate_quebra, ler_par, repetir_pares, pares_ate_quebra, corpo, decodificar,
  decodificar_cbor,
}
use engine_motor.Openzl.Cbor.Leitura.{lido, erro, esgotado}
use engine_motor.Openzl.Cbor.Maior.{
  de_natural, de_negativo, de_octetos, de_texto, de_lista, de_mapa, de_etiqueta, de_simples,
}

-- It ends with an error, or with a value and fewer than `n` bytes.
abbrev pub Ends {ℓ} : {A : Type ℓ} → ℕ → Leitura A → Type 0
Ends n (lido v b) = length b < n
Ends n (erro e) = Unit
Ends n esgotado = ⊥

Ends-le {ℓ} : {A : Type ℓ} (n m : ℕ) (r : Leitura A) → n ≤ m → Ends n r → Ends m r
Ends-le n m (lido v b) h e = omega arith
Ends-le n m (erro e) h k = tt
Ends-le n m esgotado h e = elim e [ ]

Ends-seguir {ℓ κ} :
    {A : Type ℓ} {B : Type κ} (n m : ℕ) (r : Leitura A) (k : A → List ℕ → Leitura B)
    → Ends n r
    → ((a : A) (b : List ℕ) → length b < n → Ends m (k a b))
    → Ends m (seguir r k)
Ends-seguir n m (lido a b) k h g = g a b h
Ends-seguir n m (erro e) k h g = tt
Ends-seguir n m esgotado k h g = elim h [ ]

drop_le : (n : ℕ) (b : List ℕ) → length (drop n b) < suc (length b)
drop_le n b = omega (arith, length-drop n b)

palavra-Ends : (k : ℕ) (b : List ℕ) → Ends (suc (length b)) (palavra k b)
unfolding palavra
palavra-Ends k b =
    if_case (Ends (suc (length b))) (ltb (length b) k) _ _ (λ _. tt) (λ _. drop_le k b)

ler_val-Ends : (ai : ℕ) (b : List ℕ) → Ends (suc (length b)) (ler_val ai b)
unfolding ler_val
ler_val-Ends ai b =
    if_case (Ends (suc (length b))) (ltb ai 24) _ _ (λ _. omega arith)
      λ _.
        if_case (Ends (suc (length b))) (ai == 24) _ _ (λ _. one b)
          λ _.
            if_case (Ends (suc (length b))) (ai == 25) _ _ (λ _. palavra-Ends 2 b)
              λ _.
                if_case (Ends (suc (length b))) (ai == 26) _ _ (λ _. palavra-Ends 4 b)
                  λ _.
                    if_case (Ends (suc (length b))) (ai == 27) _ _ (λ _. palavra-Ends 8 b)
                      λ _.
                        if_case (Ends (suc (length b))) (ai == 31) _ _ (λ _. omega arith) (λ _. tt)
  where
    one : (b : List ℕ) → Ends (suc (length b)) (octeto b)
    one [] = tt
    one (x ∷ b) = omega arith

module _ (dec : List ℕ → Leitura Valor) (bound : ℕ)
    (ends : (b : List ℕ) → length b < bound → Ends (length b) (dec b)) where
  repetir-Ends :
      (n : ℕ) (out : Itens) (b : List ℕ)
      → length b < bound
      → Ends (suc (length b)) (repetir dec n out b)
  unfolding repetir
  repetir-Ends zero out b h = omega arith
  repetir-Ends (suc n) out b h =
      Ends-seguir (length b) (suc (length b)) (dec b) _ (ends b h) λ x b' less.
        Ends-le (suc (length b')) (suc (length b)) (repetir dec n (acrescentar out x) b')
          (omega arith) (repetir-Ends n (acrescentar out x) b' (omega arith))

  ate_quebra-Ends :
      (g : ℕ) (out : Itens) (b : List ℕ)
      → length b < bound
      → length b < g
      → Ends (suc (length b)) (ate_quebra dec g out b)
  unfolding ate_quebra
  ate_quebra-Ends zero out b h k = omega arith
  ate_quebra-Ends (suc g) out [] h k = tt
  ate_quebra-Ends (suc g) out (c ∷ b) h k = elim (Bool-cases (c == 0xff)) [
    | inl e ↦ rw (e, Ends) (omega arith)
    | inr e ↦
        rw (e, Ends)
          (Ends-seguir (suc (length b)) (suc (suc (length b))) (dec (c ∷ b)) _ (ends (c ∷ b) h)
            λ x b' less.
              Ends-le (suc (length b')) (suc (suc (length b)))
                (ate_quebra dec g (acrescentar out x) b') (omega arith)
                (ate_quebra-Ends g (acrescentar out x) b' (omega arith) (omega arith)))
  ]

  ler_par-Ends : (out : Pares) (b : List ℕ) → length b < bound → Ends (length b) (ler_par dec out b)
  unfolding ler_par
  ler_par-Ends out b h = Ends-seguir (length b) (length b) (dec b) _ (ends b h) λ k b' less.
      Ends-seguir (length b') (length b) (dec b') _ (ends b' (omega arith))
        λ v b'' less'. if_case (Ends (length b)) (hashable k) _ _ (λ _. omega arith) (λ _. tt)

  repetir_pares-Ends :
      (n : ℕ) (out : Pares) (b : List ℕ)
      → length b < bound
      → Ends (suc (length b)) (repetir_pares dec n out b)
  unfolding repetir_pares
  repetir_pares-Ends zero out b h = omega arith
  repetir_pares-Ends (suc n) out b h =
      Ends-seguir (length b) (suc (length b)) (ler_par dec out b) _ (ler_par-Ends out b h)
        λ out' b' less.
          Ends-le (suc (length b')) (suc (length b)) (repetir_pares dec n out' b') (omega arith)
            (repetir_pares-Ends n out' b' (omega arith))

  pares_ate_quebra-Ends :
      (g : ℕ) (out : Pares) (b : List ℕ)
      → length b < bound
      → length b < g
      → Ends (suc (length b)) (pares_ate_quebra dec g out b)
  unfolding pares_ate_quebra
  pares_ate_quebra-Ends zero out b h k = omega arith
  pares_ate_quebra-Ends (suc g) out [] h k = tt
  pares_ate_quebra-Ends (suc g) out (c ∷ b) h k = elim (Bool-cases (c == 0xff)) [
    | inl e ↦ rw (e, Ends) (omega arith)
    | inr e ↦
        rw (e, Ends)
          (Ends-seguir (suc (length b)) (suc (suc (length b))) (ler_par dec out (c ∷ b)) _
            (ler_par-Ends out (c ∷ b) h)
            λ out' b' less.
              Ends-le (suc (length b')) (suc (suc (length b))) (pares_ate_quebra dec g out' b')
                (omega arith) (pares_ate_quebra-Ends g out' b' (omega arith) (omega arith)))
  ]

  corpo-Ends :
      (decode : List ℕ → List ℕ) (m : Maior) (ai : ℕ) (val : Option ℕ) (b : List ℕ)
      → length b < bound
      → Ends (suc (length b)) (corpo dec decode m ai val b)
  unfolding corpo
  corpo-Ends decode de_natural ai none b h = omega arith
  corpo-Ends decode de_natural ai (some val) b h = omega arith
  corpo-Ends decode de_negativo ai none b h = tt
  corpo-Ends decode de_negativo ai (some val) b h = omega arith
  corpo-Ends decode de_octetos ai none b h = tt
  corpo-Ends decode de_octetos ai (some val) b h = drop_le val b
  corpo-Ends decode de_texto ai none b h = tt
  corpo-Ends decode de_texto ai (some val) b h = drop_le val b
  corpo-Ends decode de_lista ai none b h =
      ate_quebra-Ends (suc (length b)) Itens.sem_itens b h (omega arith)
  corpo-Ends decode de_lista ai (some val) b h = repetir-Ends val Itens.sem_itens b h
  corpo-Ends decode de_mapa ai none b h =
      pares_ate_quebra-Ends (suc (length b)) Pares.sem_pares b h (omega arith)
  corpo-Ends decode de_mapa ai (some val) b h = repetir_pares-Ends val Pares.sem_pares b h
  corpo-Ends decode de_etiqueta ai val b h =
      Ends-le (length b) (suc (length b)) (dec b) (omega arith) (ends b h)
  corpo-Ends decode de_simples ai val b h = omega arith

module _ (decode : List ℕ → List ℕ) where
  decodificar-Ends : (f : ℕ) (b : List ℕ) → length b < f → Ends (length b) (decodificar decode f b)
  unfolding decodificar
  decodificar-Ends zero b h = omega arith
  decodificar-Ends (suc f) [] h = tt
  decodificar-Ends (suc f) (ib ∷ b) h =
      Ends-seguir (suc (length b)) (suc (length b)) (ler_val (ib % 32) b) _
        (ler_val-Ends (ib % 32) b)
        λ val b' less.
          Ends-le (suc (length b')) (suc (length b))
            (corpo (decodificar decode f) decode (maior (ib / 32)) (ib % 32) val b') (omega arith)
            (corpo-Ends (decodificar decode f) f (decodificar-Ends f) decode (maior (ib / 32))
              (ib % 32) val b' (omega arith))

  -- `decodificar_cbor` returns on every byte string, for any number in a head: with an error, or with
  -- a value behind which fewer bytes are left than it was given.
  pub decodificar_cbor-Ends : (b : List ℕ) → Ends (length b) (decodificar_cbor decode b)
  unfolding decodificar_cbor
  decodificar_cbor-Ends b = decodificar-Ends (suc (length b)) b (omega arith)
