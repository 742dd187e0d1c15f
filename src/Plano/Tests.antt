-- ===== src/Plano/Tests.antt =====
-- A block of six bytes with codecs that keep it, with one that loses a byte, and the tasks of a file.
use engine_motor.Prelude.{ℕ, ◌≡◌, ◌↔◌, refl, List, [], ◌∷◌, drop, ltb, arith}
use engine_motor.Bytes.{bytes_of, words}
use engine_motor.Transform.Arrays.{grid}
use engine_motor.Transform.{
  aplicar, inverter, delta_invert, delta_apply, delta_words, cumsum, bsplit_invert, bsplit_apply,
}
use engine_motor.Plano.Rotulos.{Codec, Codecs, sha_divergente, rotular_bloco}
use engine_motor.Plano.Voltas.{AllRestored, falhas-rotular_bloco}
use engine_motor.Plano.Tarefas.{ArquivoCorpus, TarefaRotular, blocos_de, tarefas_de_gran}
use engine_motor.Plano.Cobertura.{
  feitas, bloco_a_bloco, comprimentos, tarefas_de_gran-bloco_a_bloco,
}

abbrev fiel : Codec
fiel = record { comprime = λ x. x; expande = λ x. x }

-- A codec that drops the first byte.
abbrev falho : Codec
falho = record { comprime = λ x. drop 1 x; expande = λ x. x }

abbrev codecs : Codecs
codecs = record { zstd_1 = fiel; zstd_3 = fiel; zstd_19 = falho; xz_9e = fiel; bzip2_9 = fiel }

abbrev seis : List ℕ
seis = 1 ∷ 2 ∷ 3 ∷ 4 ∷ 5 ∷ 6 ∷ []

lost : (rotular_bloco (λ x. x) ltb seis codecs).falhas ≡ sha_divergente 9 ∷ []
unfolding rotular_bloco aplicar inverter delta_invert delta_apply bytes_of delta_words words cumsum
    bsplit_invert bsplit_apply grid
lost = refl

falhas-rotular_bloco_example :
    ((rotular_bloco (λ x. x) ltb seis codecs).falhas ≡ [])
    ↔ AllRestored seis codecs (rotular_bloco (λ x. x) ltb seis codecs).ts
falhas-rotular_bloco_example =
    falhas-rotular_bloco (λ x. x) ltb (λ x y e. e) seis (omega arith) codecs

abbrev arquivo_seis : ArquivoCorpus
arquivo_seis = record { caminho_arq = 97 ∷ []; tamanho = 6 }

abbrev feitas_seis : List TarefaRotular → ℕ
feitas_seis ts =
    comprimentos seis 4 (λ x. x) ltb (λ g. codecs) 0
      (feitas seis 4 (λ x. x) ltb (λ g. codecs) 0 ts).linhas

tarefas_de_gran-bloco_a_bloco_example :
    (feitas seis 4 (λ x. x) ltb (λ g. codecs) 0 (tarefas_de_gran 0 arquivo_seis 0 4)
      ≡ bloco_a_bloco seis 4 (λ x. x) ltb (λ g. codecs) 0 0 (blocos_de 6 4))
    × (feitas_seis (tarefas_de_gran 0 arquivo_seis 0 4) ≡ 6)
tarefas_de_gran-bloco_a_bloco_example =
    tarefas_de_gran-bloco_a_bloco seis 4 (λ x. x) ltb (λ g. codecs) 0 arquivo_seis 0 (omega arith)
      refl
