-- ===== src/Tar/Extrair/Totais.antt =====
-- The end of `extrair_kernel` in bench/plano_bloco.py, from an open stream.
use engine_motor.Prelude.{ℕ, ◌+◌, ◌≡◌, refl, subst, List, take, drop, arith}
use engine_motor.Tar.Fluxo.{Pedaco, aberto}
use engine_motor.Tar.Fluxo.Conteudo.{conteudo}
use engine_motor.Tar.Campos.{Fim, registros_pax}
use engine_motor.Tar.Campos.Fim.{bom, erro_de_valor, negativo, sem_fim}
use engine_motor.Tar.Extrair.{Pax, Estado, no_inicio, extrair}
use engine_motor.Tar.Extrair.Contas.{Ends}
use engine_motor.Tar.Extrair.Passos.{IsConta}
use engine_motor.Tar.Extrair.Laco.{laco-Ends}

abbrev pub tudo_de : List Pedaco → List ℕ
tudo_de fonte = conteudo (aberto fonte)

no_inicio-IsConta : (fonte : List Pedaco) → IsConta (tudo_de fonte) (no_inicio fonte)
no_inicio-IsConta fonte = record {
  stands = refl;
  fits = omega arith;
  files = refl;
  bytes = omega arith;
}

-- When `extrair_kernel` is through with the headers, what is still to come of the stream is what
-- stands behind its position, the files that it counts for the groups are those that it read, and the
-- stream has moved by 512 bytes for each of them and by every byte that stands in a group, or more.
pub extrair-IsConta :
    (decode : List ℕ → List ℕ) (limite : ℕ) (fonte : List Pedaco) (s : Estado)
    → extrair decode limite fonte ≡ bom s
    → IsConta (tudo_de fonte) s
unfolding extrair
extrair-IsConta decode limite fonte s h = subst (Ends Unit (IsConta (tudo_de fonte))) h (
    laco-Ends (tudo_de fonte) Unit (registros_pax decode)
      (λ off tam _. any (registros_pax decode (take tam (drop (off + 512) (tudo_de fonte))))) decode
      limite limite (no_inicio fonte) (no_inicio-IsConta fonte) (omega arith))
  where
    any : (r : Fim Pax) → Ends Unit (λ _. Unit) r
    any (bom p) = tt
    any erro_de_valor = tt
    any negativo = tt
    any sem_fim = tt
