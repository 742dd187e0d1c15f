-- ===== src/Classifica/Amostra/Sentido.antt =====
-- What a reason of `classificar_amostra` in bench/perfil_dataset.py says of the file.
use engine_motor.Prelude.{
  ℕ, ◌*◌, ◌-◌, ◌≤◌, ◌<◌, ◌⊎◌, ◌≡◌, true, false, Option, none, some, List, [], ◌∷◌, length, take,
}
use engine_motor.Prelude.Texts.{member, count_byte}
use engine_motor.Classifica.{Classe, Rotulo, Veredito}
use engine_motor.Classifica.Veredito.{por}
use engine_motor.Classifica.Classe.{
  texto, binario, banco_de_dados, cientifico_numerico, imagem_audio_video, container_comprimido,
  criptografado_aleatorio, vazio,
}
use engine_motor.Classifica.Rotulo.{tar, pdf}
use engine_motor.Classifica.Razao.{
  tamanho_zero, bom_utf16, tar_com_conteudo_binario, pdf_entropia_alta, pdf_texto, pdf_binario,
  extensao_sem_assinatura, entropia_sem_assinatura, pela_extensao, entropia_dos_deltas,
  conteudo_binario, assinatura, entropia_alta, bruto, tar_mais, pelo_texto,
}
use engine_motor.Classifica.Assinaturas.{Achado, detectar_assinatura}
use engine_motor.Classifica.Extensoes.{
  ext_container, ext_media, ext_cripto, ext_banco, ext_binario, ext_cient,
}
use engine_motor.Classifica.Texto.Classes.{textual}
use engine_motor.Classifica.Amostra.{Medidas, ganha_delta}
use engine_motor.Classifica.Amostra.Bytes.{quantos, printable, high}

-- The set of extensions that names a class.
abbrev pub conjunto : Classe → List (List ℕ)
conjunto container_comprimido = ext_container
conjunto imagem_audio_video = ext_media
conjunto criptografado_aleatorio = ext_cripto
conjunto banco_de_dados = ext_banco
conjunto binario = ext_binario
conjunto cientifico_numerico = ext_cient
conjunto c = []

-- The label that the signatures give.
abbrev pub rotulo_de : Achado → Option Rotulo
rotulo_de none = none
rotulo_de (some (r, c)) = some r

abbrev pub classe_de : Veredito → Classe
classe_de (por c r) = c

module _ (m : Medidas) (head amostra ext : List ℕ) where
  -- The corrected entropy is 7.3 bits or more.
  abbrev pub IsDense : Type 0
  IsDense = 73 * m.bit ≤ 10 * m.corrigida amostra

  -- 88 bytes in a hundred are printable, or more.
  abbrev pub IsPrintable : Type 0
  IsPrintable = (0 < length amostra) × (88 * length amostra ≤ 100 * quantos printable amostra)

  -- 95 in a hundred of the bytes that are not zero are printable, or more.
  abbrev pub IsPrintableTar : Type 0
  IsPrintableTar =
      (0 < length amostra - count_byte 0 amostra)
      × (95 * (length amostra - count_byte 0 amostra) ≤ 100 * quantos printable amostra)

  -- Printable, fewer zeros than one in a hundred, an entropy below seven bits, and at most thirty
  -- bytes in a hundred from 128 on, or UTF-8.
  abbrev pub IsText : Type 0
  IsText =
      IsPrintable
      × (100 * count_byte 0 amostra < length amostra)
      × (m.corrigida amostra < 7 * m.bit)
      × ((100 * quantos high amostra ≤ 30 * length amostra) ⊎ (m.utf8_valido head ≡ true))

  -- One of the two marks of UTF-16 at the start, and more than 95 in a hundred of the bytes that are
  -- not zero are printable.
  abbrev pub IsUtf16 : Type 0
  IsUtf16 =
      ((take 2 head ≡ 0xff ∷ 0xfe ∷ []) ⊎ (take 2 head ≡ 0xfe ∷ 0xff ∷ []))
      × (95 * (length amostra - count_byte 0 amostra) < 100 * quantos printable amostra)

  -- At least 1,024 bytes with an entropy of 7.9 bits or more.
  abbrev pub IsNoise : Type 0
  IsNoise = (1024 ≤ length amostra) × (79 * m.bit ≤ 10 * m.corrigida amostra)

  -- What a class and a reason say of the file.
  abbrev pub Means : ℕ → Option Rotulo → Veredito → Type 0
  Means tam rot (por c tamanho_zero) = (c ≡ vazio) × (tam ≡ 0)
  Means tam rot (por c (assinatura r)) = detectar_assinatura head ext ≡ some (r, some c)
  Means tam rot (por c bom_utf16) = (c ≡ texto) × IsUtf16
  Means tam rot (por c tar_com_conteudo_binario) =
      (c ≡ binario) × (rot ≡ some tar) × (IsPrintableTar → ⊥)
  Means tam rot (por c (tar_mais o)) = (textual c ≡ true) × (rot ≡ some tar) × IsPrintableTar
  Means tam rot (por c pdf_entropia_alta) = (c ≡ container_comprimido) × (rot ≡ some pdf) × IsDense
  Means tam rot (por c pdf_texto) = (c ≡ texto) × (rot ≡ some pdf) × (IsDense → ⊥) × IsPrintable
  Means tam rot (por c pdf_binario) =
      (c ≡ binario) × (rot ≡ some pdf) × (IsDense → ⊥) × (IsPrintable → ⊥)
  Means tam rot (por c (entropia_alta r)) = (c ≡ imagem_audio_video) × (rot ≡ some r) × IsDense
  Means tam rot (por c (bruto r)) = (c ≡ cientifico_numerico) × (rot ≡ some r) × (IsDense → ⊥)
  Means tam rot (por c entropia_sem_assinatura) =
      (c ≡ criptografado_aleatorio)
      × IsNoise
      × (IsText → ⊥)
      × (member ext ext_container ≡ false)
      × (member ext ext_media ≡ false)
  Means tam rot (por c extensao_sem_assinatura) =
      (member ext (conjunto c) ≡ true) × IsNoise × (IsText → ⊥)
  Means tam rot (por c (pelo_texto o)) = (textual c ≡ true) × IsText
  Means tam rot (por c pela_extensao) = (member ext (conjunto c) ≡ true) × (IsText → ⊥)
  Means tam rot (por c entropia_dos_deltas) =
      (c ≡ cientifico_numerico) × (ganha_delta m amostra ≡ true) × (IsText → ⊥)
  Means tam rot (por c conteudo_binario) =
      (c ≡ binario)
      × (IsText → ⊥)
      × (IsDense → member ext ext_container ≡ false)
      × (IsDense → member ext ext_media ≡ false)
      × (member ext ext_cripto ≡ false)
      × (member ext ext_banco ≡ false)
      × (member ext ext_binario ≡ false)
      × (member ext ext_cient ≡ false)
      × (ganha_delta m amostra ≡ false)

  pub record IsTrue (tam : ℕ) (rot : Option Rotulo) (p : Veredito) : Type 0 where
    pub says : Means tam rot p

  pub is_true : (tam : ℕ) (rot : Option Rotulo) (v : Veredito) → Means tam rot v → IsTrue tam rot v
  is_true tam rot v h = record { says = h }
