-- ===== src/Perfil/Tarefa.antt =====
-- `tarefa_classificar` of bench/perfil_dataset.py: the reader, the windows of a file and its class.
use engine_motor.Prelude.{
  ℕ, Bool, not, ◌||◌, Option, none, some, List, [], ◌∷◌, get_elem?, ◌==◌, if◌then◌else◌,
}
use engine_motor.Scan.{Nome, Motivo, Arq}
use engine_motor.Classifica.{Veredito}
use engine_motor.Classifica.Extensoes.{extensao}
use engine_motor.Classifica.Amostra.{Medidas, classificar_amostra}
use engine_motor.Perfil.Descritores.{
  Sistema, EstadoArq, Resposta, ok, falha, excecao, indice, sem_rodadas, LeitorPerfil, fechar_fd,
  abrir,
}
use engine_motor.Perfil.Leitura.{◌>>=◌, Janelas, janelas_arquivo}

-- The class and its reason, or none of them.
pub data Juizo : Type 0 where
  nenhum vazio_de_tamanho lido_vazio : Juizo
  da_amostra : Veredito → Juizo

pub data Situacao : Type 0 where
  alterado_durante_leitura : Situacao
  por_falha : Option Motivo → Situacao

pub record Saida : Type 0 where
  pub i : ℕ
  pub juizo : Juizo
  pub lido : ℕ
  pub status : Option Situacao

-- The decoded name of `Arq`, of which `extensao` is taken when the record is made.
module _ (m : Medidas) (nome_de : Nome → List ℕ) (sis : Sistema) (raiz_fd : ℕ)
    (dirs : List (ℕ × Nome)) (arqs : List Arq) (completa : Bool) where
  abbrev pub falhou : ℕ → Option Motivo → Saida
  falhou i f = record { i = i; juizo = nenhum; lido = 0; status = some (por_falha f) }

  unfoldable pub julgar : Arq → EstadoArq → Janelas → Juizo
  julgar a st (j) = elim j.head [
    | [] ↦ lido_vazio
    | b ∷ bs ↦
        da_amostra (classificar_amostra m j.head j.amostra (extensao (nome_de a.nome)) st.st_size)
  ]

  -- Behind the reads of an open file: the `except` of a failure.
  unfoldable pub lida :
      ℕ → Arq → EstadoArq → Resposta Janelas × LeitorPerfil → Resposta Saida × LeitorPerfil
  unfolding julgar
  lida i a st (ok j, s) = (
    ok (record {
      i = i;
      juizo = julgar a st j;
      lido = j.lido;
      status =
          if not (st.st_size == a.tam) || not (st.st_mtime_ns == a.mtime)
          then some alterado_durante_leitura
          else none;
    }),
    s,
  )
  lida i a st (falha f, s) = (ok (falhou i f), s)
  lida i a st (excecao e, s) = (excecao e, s)
  lida i a st (indice, s) = (indice, s)
  lida i a st (sem_rodadas, s) = (sem_rodadas, s)

  -- `finally: os.close(fd)`.
  abbrev pub por_fim : ℕ → Resposta Saida × LeitorPerfil → Resposta Saida × LeitorPerfil
  por_fim fd r = (r.0, fechar_fd fd r.1)

  unfoldable pub classificar_aberto :
      ℕ → Arq → Resposta (ℕ × EstadoArq) × LeitorPerfil → Resposta Saida × LeitorPerfil
  unfolding lida
  classificar_aberto i a (ok (fd, st), s) =
      por_fim fd (lida i a st (janelas_arquivo sis fd st.st_size completa s))
  classificar_aberto i a (falha f, s) = (ok (falhou i f), s)
  classificar_aberto i a (excecao e, s) = (excecao e, s)
  classificar_aberto i a (indice, s) = (indice, s)
  classificar_aberto i a (sem_rodadas, s) = (sem_rodadas, s)

  unfoldable pub classificar_um : ℕ → Option Arq → LeitorPerfil → Resposta Saida × LeitorPerfil
  unfolding classificar_aberto
  classificar_um i none s = (indice, s)
  classificar_um i (some a) s =
      if a.tam == 0
      then (ok (record { i = i; juizo = vazio_de_tamanho; lido = 0; status = none }), s)
      else classificar_aberto i a (abrir sis raiz_fd dirs a s)

  unfoldable pub tarefa_classificar : List ℕ → LeitorPerfil → Resposta (List Saida) × LeitorPerfil
  unfolding classificar_um
  tarefa_classificar [] s = (ok [], s)
  tarefa_classificar (i ∷ lote) s = classificar_um i (get_elem? arqs i) s >>= λ x s1.
      (tarefa_classificar lote s1 >>= λ xs s2. (ok (x ∷ xs), s2))
