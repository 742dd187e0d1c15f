-- ===== src/Classifica/Amostra.antt =====
-- `classificar_amostra` of bench/perfil_dataset.py, without the dict of evidence. A comparison of a
-- quotient with a decimal is one of products; entropies are in units of which a bit has `bit`.
pub mod Bytes
pub mod Sentido
pub mod Medida
pub mod PelaExtensao
pub mod Razoes
use engine_motor.Prelude.{
  ℕ, ◌+◌, ◌-◌, ◌*◌, Bool, true, false, not, ◌&&◌, ◌||◌, Option, none, some, List, [], ◌∷◌, length,
  take, ltb, leb, ◌==◌, if◌then◌else◌,
}
use engine_motor.Prelude.Texts.{codes, same, member, count_byte}
use engine_motor.Classifica.{Rotulo, Subclasse, Veredito}
use engine_motor.Classifica.Subclasse.{como}
use engine_motor.Classifica.Veredito.{por}
use engine_motor.Classifica.Classe.{
  texto, binario, banco_de_dados, cientifico_numerico, imagem_audio_video, container_comprimido,
  criptografado_aleatorio, vazio,
}
use engine_motor.Classifica.Rotulo.{tar, pdf, tiff, bmp, wav}
use engine_motor.Classifica.Razao.{
  tamanho_zero, bom_utf16, tar_com_conteudo_binario, pdf_entropia_alta, pdf_texto, pdf_binario,
  extensao_sem_assinatura, entropia_sem_assinatura, pela_extensao, entropia_dos_deltas,
  conteudo_binario, assinatura, entropia_alta, bruto, tar_mais, pelo_texto,
}
use engine_motor.Classifica.Assinaturas.{detectar_assinatura}
use engine_motor.Classifica.Extensoes.{
  ext_container, ext_media, ext_cripto, ext_banco, ext_binario, ext_cient,
}
use engine_motor.Classifica.Texto.{Leitores, subclasse_texto, sem_byte}
use engine_motor.Classifica.Entropia.{Candidato, entropia_transform_minima}

-- What the function calls: the readers of text, the entropy of a byte string with its corrected
-- value, the units of a bit, and `utf8_valido`.
pub record Medidas : Type 0 where
  pub leitores : Leitores
  pub entropia : List ℕ → ℕ
  pub corrigida : List ℕ → ℕ
  pub bit : ℕ
  pub utf8_valido : List ℕ → Bool

-- The bytes that `imp` counts, and those from 128 on.
unfoldable pub imprimivel : ℕ → Bool
imprimivel c = c == 9 || (c == 10 || (c == 13 || ((leb 32 c && ltb c 127) || leb 128 c)))

unfoldable pub imprimiveis : List ℕ → ℕ
unfolding imprimivel
imprimiveis [] = 0
imprimiveis (c ∷ cs) = (if imprimivel c then 1 else 0) + imprimiveis cs

unfoldable pub altos : List ℕ → ℕ
altos [] = 0
altos (c ∷ cs) = (if leb 128 c then 1 else 0) + altos cs

-- A subclass as the result, with its reason, behind "assinatura:tar+" for a tar.
abbrev pub do_texto : Subclasse → Veredito
do_texto (como c o) = por c (pelo_texto o)

abbrev pub do_tar : Subclasse → Veredito
do_tar (como c o) = por c (tar_mais o)

module _ (m : Medidas) where
  -- `hmm >= 7.3`.
  unfoldable pub densa : List ℕ → Bool
  densa amostra = leb (73 * m.bit) (10 * m.corrigida amostra)

  -- `texto`.
  unfoldable pub e_texto : List ℕ → List ℕ → Bool
  unfolding imprimiveis altos
  e_texto head amostra =
      let n = length amostra in
      (ltb 0 n && leb (88 * n) (100 * imprimiveis amostra))
      && (ltb (100 * count_byte 0 amostra) n
          && (ltb (m.corrigida amostra) (7 * m.bit)
              && (leb (100 * altos amostra) (30 * n) || m.utf8_valido head)))

  -- `n >= 1024 and hmm >= 7.9`.
  unfoldable pub aleatoria : List ℕ → Bool
  aleatoria amostra = leb 1024 (length amostra) && leb (79 * m.bit) (10 * m.corrigida amostra)

  -- `h - dm[2] >= 0.75 and dm[2] < 7.0`, with `dm[2]` in eighths.
  unfoldable pub ganha_delta : List ℕ → Bool
  ganha_delta amostra =
      elim (if leb 4096 (length amostra)
        then entropia_transform_minima m.entropia amostra
        else none) [
          | none ↦ false
          | some c ↦
              leb (24 * m.bit + 4 * c.valor) (32 * m.entropia amostra) && ltb c.valor (56 * m.bit)
        ]

  -- The end of the function: by extension, then by the gain of a transform.
  unfoldable pub por_extensao : List ℕ → List ℕ → Veredito
  unfolding densa ganha_delta ext_container ext_media ext_cripto ext_banco ext_binario ext_cient
  por_extensao amostra ext =
      if member ext ext_container && densa amostra
      then por container_comprimido pela_extensao
      else if member ext ext_media && densa amostra
      then por imagem_audio_video pela_extensao
      else if member ext ext_cripto
      then por criptografado_aleatorio pela_extensao
      else if member ext ext_banco
      then por banco_de_dados pela_extensao
      else if member ext ext_binario
      then por binario pela_extensao
      else if member ext ext_cient
      then por cientifico_numerico pela_extensao
      else if ganha_delta amostra
      then por cientifico_numerico entropia_dos_deltas
      else por binario conteudo_binario

  -- A sample with no text in it and an entropy near that of noise.
  unfoldable pub sem_assinatura : List ℕ → Veredito
  unfolding ext_container ext_media
  sem_assinatura ext =
      if member ext ext_container
      then por container_comprimido extensao_sem_assinatura
      else if member ext ext_media
      then por imagem_audio_video extensao_sem_assinatura
      else por criptografado_aleatorio entropia_sem_assinatura

  unfoldable pub por_conteudo : List ℕ → List ℕ → List ℕ → ℕ → Veredito
  unfolding e_texto aleatoria sem_assinatura por_extensao subclasse_texto
  por_conteudo head amostra ext tam =
      if aleatoria amostra && not (e_texto head amostra)
      then sem_assinatura ext
      else if e_texto head amostra
      then do_texto (subclasse_texto m.leitores head ext tam)
      else por_extensao amostra ext

  unfoldable pub imagem_ou_bruto : Rotulo → List ℕ → Veredito
  unfolding densa
  imagem_ou_bruto rot amostra =
      if densa amostra
      then por imagem_audio_video (entropia_alta rot)
      else por cientifico_numerico (bruto rot)

  unfoldable pub por_tar : List ℕ → ℕ → Veredito
  unfolding subclasse_texto sem_byte imprimiveis
  por_tar amostra tam =
      let nao_nul = length amostra - count_byte 0 amostra in
      if nao_nul == 0 || ltb (100 * imprimiveis amostra) (95 * nao_nul)
      then por binario tar_com_conteudo_binario
      else do_tar (subclasse_texto m.leitores (sem_byte 0 amostra) [] (tam * 256))

  unfoldable pub por_pdf : List ℕ → Veredito
  unfolding densa imprimiveis
  por_pdf amostra =
      if densa amostra
      then por container_comprimido pdf_entropia_alta
      else if ltb 0 (length amostra) && leb (88 * length amostra) (100 * imprimiveis amostra)
      then por texto pdf_texto
      else por binario pdf_binario

  -- The tests on `rot`, where the signature says no class.
  unfoldable pub por_rotulo : Option Rotulo → List ℕ → List ℕ → List ℕ → ℕ → Veredito
  unfolding por_tar por_pdf imagem_ou_bruto por_conteudo
  por_rotulo (some tar) head amostra ext tam = por_tar amostra tam
  por_rotulo (some pdf) head amostra ext tam = por_pdf amostra
  por_rotulo (some tiff) head amostra ext tam = imagem_ou_bruto tiff amostra
  por_rotulo (some bmp) head amostra ext tam = imagem_ou_bruto bmp amostra
  por_rotulo (some wav) head amostra ext tam = imagem_ou_bruto wav amostra
  por_rotulo rot head amostra ext tam = por_conteudo head amostra ext tam

  -- A mark of UTF-16 at the start, and nearly only printable bytes.
  unfoldable pub utf16 : List ℕ → List ℕ → Bool
  unfolding imprimiveis
  utf16 head amostra =
      member (take 2 head) ((0xff ∷ 0xfe ∷ []) ∷ (0xfe ∷ 0xff ∷ []) ∷ [])
      && ltb (95 * (length amostra - count_byte 0 amostra)) (100 * imprimiveis amostra)

  unfoldable pub sem_classe : Option Rotulo → List ℕ → List ℕ → List ℕ → ℕ → Veredito
  unfolding utf16 por_rotulo
  sem_classe rot head amostra ext tam =
      if utf16 head amostra then por texto bom_utf16 else por_rotulo rot head amostra ext tam

  unfoldable pub classificar_amostra : List ℕ → List ℕ → List ℕ → ℕ → Veredito
  unfolding detectar_assinatura sem_classe
  classificar_amostra head amostra ext tam =
      if tam == 0 then por vazio tamanho_zero else elim (detectar_assinatura head ext) [
        | none ↦ sem_classe none head amostra ext tam
        | some (rot, none) ↦ sem_classe (some rot) head amostra ext tam
        | some (rot, some cls) ↦ por cls (assinatura rot)
      ]
