-- ===== src/Classifica/Tests.antt =====
-- The classification of bench/perfil_dataset.py on a PNG, on names, on a table of commas and on 256
-- equal bytes.
use engine_motor.Prelude.{
  ℕ, ◌≡◌, ◌<◌, refl, true, false, some, List, [], ◌∷◌, ◌++◌, All, length, replicate,
}
use engine_motor.Prelude.Texts.{codes}
use engine_motor.Classifica.{Veredito}
use engine_motor.Classifica.Classe.{imagem_audio_video, csv_tabular}
use engine_motor.Classifica.Origem.{conteudo}
use engine_motor.Classifica.Razao.{pelo_texto}
use engine_motor.Classifica.Veredito.{por}
use engine_motor.Classifica.Rotulo.{png}
use engine_motor.Classifica.Assinaturas.{Assinatura, assinaturas, confere, detectar_assinatura}
use engine_motor.Classifica.Assinaturas.Ordem.{detectar_assinatura-eq}
use engine_motor.Classifica.Extensoes.{extensao}
use engine_motor.Classifica.Extensoes.Forma.{IsLabel, extensao-IsLabel}
use engine_motor.Classifica.Tabelas.{Tabela, parece_csv}
use engine_motor.Classifica.Tabelas.Colunas.{IsTable, linhas_lidas, parece_csv-IsTable}
use engine_motor.Classifica.Texto.{Leitores}
use engine_motor.Classifica.Entropia.{entropia_transform_minima, todos_candidatos, candidatos}
use engine_motor.Classifica.Entropia.Minimo.{Holds, Below, entropia_transform_minima-All}
use engine_motor.Classifica.Amostra.{Medidas, classificar_amostra}

abbrev cabeca : List ℕ
cabeca = 0x89 ∷ 0x50 ∷ 0x4e ∷ 0x47 ∷ 0x0d ∷ 0x0a ∷ 0x1a ∷ 0x0a ∷ 0 ∷ []

a_png : detectar_assinatura cabeca [] ≡ some (png, some imagem_audio_video)
unfolding detectar_assinatura
a_png = refl

abbrev do_png : Assinatura
do_png = record {
  off = 0;
  mag = 0x89 ∷ 0x50 ∷ 0x4e ∷ 0x47 ∷ 0x0d ∷ 0x0a ∷ 0x1a ∷ 0x0a ∷ [];
  rot = png;
  cls = imagem_audio_video;
}

detectar_assinatura-eq_example : detectar_assinatura cabeca [] ≡ some (png, some imagem_audio_video)
unfolding assinaturas confere
detectar_assinatura-eq_example = detectar_assinatura-eq cabeca [] 12 do_png refl refl refl refl

names :
    (extensao (codes "a.tar.gz") ≡ codes "gz")
    × (extensao (codes ".profile") ≡ [])
    × (extensao (codes "app.2024") ≡ codes "#")
    × (extensao (codes "a.b c") ≡ codes "?")
unfolding extensao
names = (refl, refl, refl, refl)

extensao-IsLabel_example : IsLabel (codes "nota.txt") (extensao (codes "nota.txt"))
extensao-IsLabel_example = extensao-IsLabel (codes "nota.txt")

abbrev tabela : List ℕ
tabela =
    codes "a,b,c"
    ++ 10 ∷ codes "1,2,3"
    ++ 10 ∷ codes "4,5,6"
    ++ 10 ∷ codes "7,8,9"
    ++ 10 ∷ codes "x"
    ++ 10 ∷ codes "1,1,1"
    ++ 10 ∷ []

abbrev de_virgulas : Tabela
de_virgulas = record { delim = b','; freq = 5; moda = 3 }

a_table : parece_csv tabela 30 ≡ some de_virgulas
unfolding parece_csv
a_table = refl

parece_csv-IsTable_example :
    IsTable (linhas_lidas tabela 30) de_virgulas × (0 < length (linhas_lidas tabela 30))
parece_csv-IsTable_example = parece_csv-IsTable tabela 30 de_virgulas a_table

-- 256 bytes, which only words of one byte fill; the entropy is the length.
abbrev iguais : List ℕ
iguais = replicate 256 5

entropia_transform_minima-All_example :
    Holds length (λ c. c.largura ≡ 1) (entropia_transform_minima length iguais)
    × All
        (Below length (entropia_transform_minima length iguais))
        (todos_candidatos length iguais (1 ∷ 2 ∷ 4 ∷ 8 ∷ []))
unfolding candidatos
entropia_transform_minima-All_example =
    entropia_transform_minima-All length (λ c. c.largura ≡ 1) iguais (refl, tt)

abbrev leitores : Leitores
leitores = record {
  ts_log = λ l. false;
  nivel_log = λ l. false;
  marcadores = λ l. 0;
  controle = λ l. 0;
  json = λ l. false;
}

abbrev medidas : Medidas
medidas = record {
  leitores = leitores;
  entropia = length;
  corrigida = length;
  bit = 10;
  utf8_valido = λ l. true;
}

abbrev virgulas : Veredito
virgulas = por csv_tabular (pelo_texto conteudo)

by_content : classificar_amostra medidas tabela tabela [] 30 ≡ virgulas
unfolding classificar_amostra
by_content = refl

abbrev tamanho : ℕ
tamanho = 9
