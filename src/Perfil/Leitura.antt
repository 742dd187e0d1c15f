-- ===== src/Perfil/Leitura.antt =====
-- `Leitor.ler` and `janelas_arquivo` of bench/perfil_dataset.py.
use engine_motor.Prelude.{
  ℕ, zero, suc, ◌+◌, ◌-◌, ◌/◌, min, Bool, ◌&&◌, List, [], ◌∷◌, ◌++◌, length, ltb, if◌then◌else◌,
}
use engine_motor.Scan.{motivo_de}
use engine_motor.Prelude.{some}
use engine_motor.Perfil.Descritores.{
  Chamada, oserror, deu, Sistema, Resposta, ok, falha, excecao, indice, sem_rodadas, LeitorPerfil,
  chamar,
}

-- The value of a fallible step goes to the next one.
infixl 5 ◌>>=◌
abbrev pub ◌>>=◌ :
    {A B : Type 0}
    → Resposta A × LeitorPerfil
    → (A → LeitorPerfil → Resposta B × LeitorPerfil)
    → Resposta B × LeitorPerfil
(ok a, s) >>= f = f a s
(falha m, s) >>= f = (falha m, s)
(excecao e, s) >>= f = (excecao e, s)
(indice, s) >>= f = (indice, s)
(sem_rodadas, s) >>= f = (sem_rodadas, s)

-- What `janelas_arquivo` returns.
pub record Janelas : Type 0 where
  pub head : List ℕ
  pub amostra : List ℕ
  pub lido : ℕ

-- `JANELA_CLASSIFICACAO if completa else 8 * KIB`.
abbrev pub janela : Bool → ℕ
janela completa = if completa then 16384 else 8192

module _ (sis : Sistema) where
  -- One round of the loop behind `pread`.
  unfoldable pub parte_lida :
      (List ℕ → LeitorPerfil → Resposta (List ℕ) × LeitorPerfil)
      → List ℕ
      → Chamada (List ℕ)
      → LeitorPerfil
      → Resposta (List ℕ) × LeitorPerfil
  parte_lida rec feito (oserror e) s = (falha (some (motivo_de e)), s)
  parte_lida rec feito (deu []) s = (ok feito, s)
  parte_lida rec feito (deu (b ∷ bs)) s = rec (feito ++ b ∷ bs) s

  -- `while total < n`, with what was read; each round but the last takes a byte.
  unfoldable pub ler_partes :
      ℕ → ℕ → ℕ → ℕ → List ℕ → LeitorPerfil → Resposta (List ℕ) × LeitorPerfil
  unfolding parte_lida
  ler_partes zero fd off n feito s = (sem_rodadas, s)
  ler_partes (suc k) fd off n feito s =
      if ltb (length feito) n
      then parte_lida (ler_partes k fd off n) feito
          (sis.pread s.chamadas fd (n - length feito) (off + length feito)) (chamar s)
      else (ok feito, s)

  -- `ler(fd, off, n)`.
  unfoldable pub ler_em : ℕ → ℕ → ℕ → LeitorPerfil → Resposta (List ℕ) × LeitorPerfil
  unfolding ler_partes
  ler_em fd off n s = ler_partes (suc n) fd off n [] s

  unfoldable pub janelas_arquivo : ℕ → ℕ → Bool → LeitorPerfil → Resposta Janelas × LeitorPerfil
  unfolding ler_em
  janelas_arquivo fd tam completa s = ler_em fd 0 (min tam (janela completa)) s >>= λ head s1.
      if completa && ltb 1048576 tam
      then (ler_em fd ((tam - janela completa) / 2) (janela completa) s1 >>= λ meio s2.
          ler_em fd (tam - janela completa) (janela completa) s2 >>= λ fim s3. (
            ok (record {
              head = head;
              amostra = head ++ (meio ++ fim);
              lido = length head + length meio + length fim;
            }),
            s3,
          ))
      else (ok (record { head = head; amostra = head; lido = length head }), s1)
