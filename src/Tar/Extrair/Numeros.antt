-- ===== src/Tar/Extrair/Numeros.antt =====
-- The numbers that the headers of bench/plano_bloco.py give are read to an end.
use engine_motor.Prelude.{
  ℕ, zero, suc, false, if_case, Option, none, some, List, [], ◌∷◌, leb, ◌==◌, if◌then◌else◌,
}
use engine_motor.Prelude.Texts.{codes}
use engine_motor.Tar.Campos.{
  Fim, inteiro, oposto, sem_sinal, digitos, sem_prefixo, aparado, ate_nul, tamanho_tar,
}
use engine_motor.Tar.Campos.Fim.{bom, erro_de_valor, negativo, sem_fim}
use engine_motor.Tar.Extrair.{Estado, buscar_pax, tamanho_da_entrada}
use engine_motor.Tar.Extrair.Contas.{Ends}

-- `int` and the sizes of headers end.
abbrev pub Number : Type 0 → Fim ℕ → Type 0
Number E r = Ends E (λ _. Unit) r

module _ (E : Type 0) where
  sem_sinal-Ends : (base : ℕ) (t : List ℕ) → Number E (sem_sinal base t)
  sem_sinal-Ends base t = of (digitos base false 0 (sem_prefixo base t))
    where
      of : (o : Option ℕ) → Number E (elim o [ none ↦ erro_de_valor | some n ↦ bom n ])
      of none = tt
      of (some n) = tt

  oposto-Ends : (r : Fim ℕ) → Number E r → Number E (oposto r)
  oposto-Ends (bom zero) h = tt
  oposto-Ends (bom (suc n)) h = tt
  oposto-Ends erro_de_valor h = tt
  oposto-Ends negativo h = tt
  oposto-Ends sem_fim h = h

  inteiro-Ends : (base : ℕ) (t : List ℕ) → Number E (inteiro base t)
  unfolding inteiro
  inteiro-Ends base t = of (aparado t)
    where
      of :
          (ts : List ℕ)
          → Number E (elim ts [
            | [] ↦ erro_de_valor
            | c ∷ cs ↦
                if c == b'-'
                then oposto (sem_sinal base cs)
                else if c == b'+'
                then sem_sinal base cs
                else sem_sinal base (c ∷ cs)
          ])
      of [] = tt
      of (c ∷ cs) =
          if_case (Number E) (c == b'-') _ _
            (λ _. oposto-Ends (sem_sinal base cs) (sem_sinal-Ends base cs))
            λ _.
              if_case (Number E) (c == b'+') _ _ (λ _. sem_sinal-Ends base cs)
                (λ _. sem_sinal-Ends base (c ∷ cs))

  pub tamanho_tar-Ends : (campo : List ℕ) → Number E (tamanho_tar campo)
  unfolding tamanho_tar
  tamanho_tar-Ends [] = tt
  tamanho_tar-Ends (c ∷ cs) =
      if_case (Number E) (leb 128 c) _ _ (λ _. tt) (λ _. of (aparado (ate_nul (c ∷ cs))))
    where
      of : (ts : List ℕ) → Number E (elim ts [ [] ↦ bom 0 | d ∷ ds ↦ inteiro 8 (d ∷ ds) ])
      of [] = tt
      of (d ∷ ds) = inteiro-Ends 8 (d ∷ ds)

  pub tamanho_da_entrada-Ends : (tam : ℕ) (s : Estado) → Number E (tamanho_da_entrada tam s)
  unfolding tamanho_da_entrada
  tamanho_da_entrada-Ends tam s = of (buscar_pax (codes "size") s.pax)
    where
      of : (o : Option (List ℕ)) → Number E (elim o [ none ↦ bom tam | some v ↦ inteiro 10 v ])
      of none = tt
      of (some v) = inteiro-Ends 10 v
