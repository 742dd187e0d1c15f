-- ===== src/Plano/Tarefas.antt =====
-- `montar_tarefas` and `tarefa_rotular` of bench/plano_bloco.py, without the timing.
use engine_motor.Prelude.{
  ℕ, zero, suc, ◌+◌, ◌-◌, ◌*◌, ◌/◌, min, max, Bool, List, [], ◌∷◌, ◌++◌, map, length, take, drop,
  slice, ltb, if◌then◌else◌,
}
use engine_motor.Plano.Rotulos.{Codecs, FalhaRotulo, RotuloBloco, rotular_bloco}

-- A file of the corpus.
pub record ArquivoCorpus : Type 0 where
  pub caminho_arq : List ℕ
  pub tamanho : ℕ

-- `(g, fi, caminho_arq, i0, i1, gran, limiar)`; the name `g` of a granularity goes with its size.
pub record TarefaRotular : Type 0 where
  pub fi : ℕ
  pub arq_caminho : List ℕ
  pub i0 : ℕ
  pub i1 : ℕ
  pub gran : ℕ

abbrev pub grans : List ℕ
grans = 65536 ∷ 262144 ∷ 1048576 ∷ []

-- `-(-tamanho // gran)`.
abbrev pub blocos_de : ℕ → ℕ → ℕ
blocos_de tamanho gran = (tamanho + (gran - 1)) / gran

-- `for i0 in range(0, nb, passo)`, from `i0`; a round for each block is enough.
unfoldable pub partes_de : ℕ → ℕ → List ℕ → ℕ → ℕ → ℕ → ℕ → List TarefaRotular
partes_de fi gran caminho_arq zero nb passo i0 = []
partes_de fi gran caminho_arq (suc k) nb passo i0 =
    if ltb i0 nb
    then record {
      fi = fi;
      arq_caminho = caminho_arq;
      i0 = i0;
      i1 = min nb (i0 + passo);
      gran = gran;
    }
      ∷ partes_de fi gran caminho_arq k nb passo (i0 + passo)
    else []

abbrev pub passo_de : ℕ → ℕ → ℕ
passo_de passo_mib gran = max 1 ((passo_mib * 1048576) / gran)

unfoldable pub tarefas_de_gran : ℕ → ArquivoCorpus → ℕ → ℕ → List TarefaRotular
unfolding partes_de
tarefas_de_gran fi arq passo_mib gran =
    let nb = blocos_de arq.tamanho gran in
    partes_de fi gran arq.caminho_arq nb nb (passo_de passo_mib gran) 0

unfoldable pub tarefas_do_arquivo : ℕ → ArquivoCorpus → ℕ → List ℕ → List TarefaRotular
unfolding tarefas_de_gran
tarefas_do_arquivo fi arq passo_mib [] = []
tarefas_do_arquivo fi arq passo_mib (g ∷ gs) =
    tarefas_de_gran fi arq passo_mib g ++ tarefas_do_arquivo fi arq passo_mib gs

-- `for fi, arq in enumerate(corpus)`, from `fi`.
unfoldable pub montar_tarefas : ℕ → List ArquivoCorpus → ℕ → List TarefaRotular
unfolding tarefas_do_arquivo
montar_tarefas fi [] passo_mib = []
montar_tarefas fi (arq ∷ arqs) passo_mib =
    tarefas_do_arquivo fi arq passo_mib grans ++ montar_tarefas (fi + 1) arqs passo_mib

-- A failure of a block, with its file and its number.
pub record FalhaBloco : Type 0 where
  pub arquivo_idx : ℕ
  pub bloco : ℕ
  pub falha : FalhaRotulo

-- The rows that a task returns, one for each block, and its failures.
pub record LinhaRotulo : Type 0 where
  pub comprimento : ℕ
  pub rotulo : RotuloBloco

pub record ResultadoTarefa : Type 0 where
  pub linhas : List LinhaRotulo
  pub falhas : List FalhaBloco

-- `cmd_rotular` puts the rows of the tasks behind each other, and their failures.
abbrev pub unir : ResultadoTarefa → ResultadoTarefa → ResultadoTarefa
unir r s = record { linhas = r.linhas ++ s.linhas; falhas = r.falhas ++ s.falhas }

unfoldable pub reunir : List ResultadoTarefa → ResultadoTarefa
reunir [] = record { linhas = []; falhas = [] }
reunir (r ∷ rs) = unir r (reunir rs)

module _ (sha : List ℕ → List ℕ) (abaixo : ℕ → ℕ → Bool) (fabricar_codecs : ℕ → Codecs) where
  abbrev pub linha_de : ℕ → List ℕ → LinhaRotulo
  linha_de gran x = record {
    comprimento = length x;
    rotulo = rotular_bloco sha abaixo x (fabricar_codecs gran);
  }

  abbrev pub anotar_falhas : ℕ → ℕ → List FalhaRotulo → List FalhaBloco
  anotar_falhas fi bloco fl = map (λ f. record { arquivo_idx = fi; bloco = bloco; falha = f }) fl

  -- `for k in range(n)`, from `k` with `left` rounds left.
  unfoldable pub rotular_blocos : TarefaRotular → List ℕ → ℕ → ℕ → ResultadoTarefa
  rotular_blocos t buf zero k = record { linhas = []; falhas = [] }
  rotular_blocos t buf (suc left) k =
      let l = linha_de t.gran (slice (k * t.gran) ((k + 1) * t.gran) buf) in
      let resto = rotular_blocos t buf left (k + 1) in
      record {
        linhas = l ∷ resto.linhas;
        falhas = anotar_falhas t.fi (t.i0 + k) l.rotulo.falhas ++ resto.falhas;
      }

  -- `f.seek(i0 * gran)` and `f.read((i1 - i0) * gran)` of a file with the bytes `b`.
  unfoldable pub tarefa_rotular : TarefaRotular → List ℕ → ResultadoTarefa
  unfolding rotular_blocos
  tarefa_rotular t b =
      rotular_blocos t (take ((t.i1 - t.i0) * t.gran) (drop (t.i0 * t.gran) b)) (t.i1 - t.i0) 0
