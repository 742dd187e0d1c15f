-- ===== src/Classifica/Assinaturas.antt =====
-- `ASSINATURAS` and `detectar_assinatura` of bench/perfil_dataset.py.
pub mod Ordem
pub mod Classes
use engine_motor.Prelude.{
  ℕ, ◌+◌, Bool, ◌&&◌, Option, none, some, List, [], ◌∷◌, length, get_or, slice, ltb, leb, ◌==◌,
  if◌then◌else◌,
}
use engine_motor.Prelude.Texts.{codes, same, member, has_byte}
use engine_motor.Bytes.{from_le}
use engine_motor.Classifica.{Classe, Rotulo}
use engine_motor.Classifica.Classe.{
  container_comprimido, imagem_audio_video, binario, banco_de_dados, cientifico_numerico,
  criptografado_aleatorio,
}
use engine_motor.Classifica.Rotulo.{
  zip, gzip, xz, zstd, seven_z, rar, lz4, parquet, orc, arrow, avro, png, jpeg, gif, jpeg2000, flac,
  ogg, mp3, matroska, mpeg, flv, asf, elf, macho, java_class_ou_macho, wasm, sqlite, hdf5, netcdf,
  fits, npy, mat, dicom, openssl_enc, luks, age, pgp_armor, bzip2, tar, pdf, webp, avi, wav, heif,
  iso_bmff, tiff, bmp, pe, mpeg_audio,
}

pub record Assinatura : Type 0 where
  pub off : ℕ
  pub mag : List ℕ
  pub rot : Rotulo
  pub cls : Classe

abbrev assina : ℕ → List ℕ → Rotulo → Classe → Assinatura
assina off mag rot cls = record { off = off; mag = mag; rot = rot; cls = cls }

-- The table, in the order of the source.
unfoldable pub assinaturas : List Assinatura
assinaturas =
    assina 0 (0x50 ∷ 0x4b ∷ 0x03 ∷ 0x04 ∷ []) zip container_comprimido
    ∷ assina 0 (0x50 ∷ 0x4b ∷ 0x05 ∷ 0x06 ∷ []) zip container_comprimido
    ∷ assina 0 (0x1f ∷ 0x8b ∷ []) gzip container_comprimido
    ∷ assina 0 (0xfd ∷ 0x37 ∷ 0x7a ∷ 0x58 ∷ 0x5a ∷ 0x00 ∷ []) xz container_comprimido
    ∷ assina 0 (0x28 ∷ 0xb5 ∷ 0x2f ∷ 0xfd ∷ []) zstd container_comprimido
    ∷ assina 0 (0x37 ∷ 0x7a ∷ 0xbc ∷ 0xaf ∷ 0x27 ∷ 0x1c ∷ []) seven_z container_comprimido
    ∷ assina 0 (0x52 ∷ 0x61 ∷ 0x72 ∷ 0x21 ∷ 0x1a ∷ 0x07 ∷ []) rar container_comprimido
    ∷ assina 0 (0x04 ∷ 0x22 ∷ 0x4d ∷ 0x18 ∷ []) lz4 container_comprimido
    ∷ assina 0 (codes "PAR1") parquet container_comprimido
    ∷ assina 0 (codes "ORC") orc container_comprimido
    ∷ assina 0 (codes "ARROW1") arrow container_comprimido
    ∷ assina 0 (0x4f ∷ 0x62 ∷ 0x6a ∷ 0x01 ∷ []) avro container_comprimido
    ∷ assina 0 (0x89 ∷ 0x50 ∷ 0x4e ∷ 0x47 ∷ 0x0d ∷ 0x0a ∷ 0x1a ∷ 0x0a ∷ []) png imagem_audio_video
    ∷ assina 0 (0xff ∷ 0xd8 ∷ 0xff ∷ []) jpeg imagem_audio_video
    ∷ assina 0 (codes "GIF87a") gif imagem_audio_video
    ∷ assina 0 (codes "GIF89a") gif imagem_audio_video
    ∷ assina 0 (0x00 ∷ 0x00 ∷ 0x00 ∷ 0x0c ∷ 0x6a ∷ 0x50 ∷ 0x20 ∷ 0x20 ∷ []) jpeg2000
        imagem_audio_video
    ∷ assina 0 (codes "fLaC") flac imagem_audio_video
    ∷ assina 0 (codes "OggS") ogg imagem_audio_video
    ∷ assina 0 (codes "ID3") mp3 imagem_audio_video
    ∷ assina 0 (0x1a ∷ 0x45 ∷ 0xdf ∷ 0xa3 ∷ []) matroska imagem_audio_video
    ∷ assina 0 (0x00 ∷ 0x00 ∷ 0x01 ∷ 0xba ∷ []) mpeg imagem_audio_video
    ∷ assina 0 (0x00 ∷ 0x00 ∷ 0x01 ∷ 0xb3 ∷ []) mpeg imagem_audio_video
    ∷ assina 0 (0x46 ∷ 0x4c ∷ 0x56 ∷ 0x01 ∷ []) flv imagem_audio_video
    ∷ assina 0 (0x30 ∷ 0x26 ∷ 0xb2 ∷ 0x75 ∷ 0x8e ∷ 0x66 ∷ 0xcf ∷ 0x11 ∷ []) asf imagem_audio_video
    ∷ assina 0 (0x7f ∷ 0x45 ∷ 0x4c ∷ 0x46 ∷ []) elf binario
    ∷ assina 0 (0xfe ∷ 0xed ∷ 0xfa ∷ 0xce ∷ []) macho binario
    ∷ assina 0 (0xfe ∷ 0xed ∷ 0xfa ∷ 0xcf ∷ []) macho binario
    ∷ assina 0 (0xce ∷ 0xfa ∷ 0xed ∷ 0xfe ∷ []) macho binario
    ∷ assina 0 (0xcf ∷ 0xfa ∷ 0xed ∷ 0xfe ∷ []) macho binario
    ∷ assina 0 (0xca ∷ 0xfe ∷ 0xba ∷ 0xbe ∷ []) java_class_ou_macho binario
    ∷ assina 0 (0x00 ∷ 0x61 ∷ 0x73 ∷ 0x6d ∷ []) wasm binario
    ∷ assina 0
        (0x53 ∷ 0x51 ∷ 0x4c ∷ 0x69 ∷ 0x74 ∷ 0x65 ∷ 0x20 ∷ 0x66 ∷ 0x6f ∷ 0x72 ∷ 0x6d ∷ 0x61 ∷ 0x74
          ∷ 0x20 ∷ 0x33 ∷ 0x00 ∷ [])
        sqlite banco_de_dados
    ∷ assina 0 (0x89 ∷ 0x48 ∷ 0x44 ∷ 0x46 ∷ 0x0d ∷ 0x0a ∷ 0x1a ∷ 0x0a ∷ []) hdf5 cientifico_numerico
    ∷ assina 0 (0x43 ∷ 0x44 ∷ 0x46 ∷ 0x01 ∷ []) netcdf cientifico_numerico
    ∷ assina 0 (0x43 ∷ 0x44 ∷ 0x46 ∷ 0x02 ∷ []) netcdf cientifico_numerico
    ∷ assina 0 (codes "SIMPLE  =") fits cientifico_numerico
    ∷ assina 0 (0x93 ∷ 0x4e ∷ 0x55 ∷ 0x4d ∷ 0x50 ∷ 0x59 ∷ []) npy cientifico_numerico
    ∷ assina 0 (codes "MATLAB 5.0") mat cientifico_numerico
    ∷ assina 128 (codes "DICM") dicom cientifico_numerico
    ∷ assina 0 (codes "Salted__") openssl_enc criptografado_aleatorio
    ∷ assina 0 (0x4c ∷ 0x55 ∷ 0x4b ∷ 0x53 ∷ 0xba ∷ 0xbe ∷ []) luks criptografado_aleatorio
    ∷ assina 0 (codes "age-encryption.org/v1") age criptografado_aleatorio
    ∷ assina 0 (codes "-----BEGIN PGP MESSAGE-----") pgp_armor criptografado_aleatorio
    ∷ []

-- `head[off : off + len(mag)] == mag`.
unfoldable pub confere : List ℕ → Assinatura → Bool
confere head a = same (slice a.off (a.off + length a.mag) head) a.mag

-- The loop over the table: the first entry that fits.
unfoldable pub primeira : List Assinatura → List ℕ → Option (Rotulo × Classe)
unfolding confere
primeira [] head = none
primeira (a ∷ tabela) head =
    let resto = primeira tabela head in if confere head a then some (a.rot, a.cls) else resto

-- A label with no class leaves the decision to the content.
abbrev pub Achado : Type 0
Achado = Option (Rotulo × Option Classe)

abbrev pub media : Rotulo → Achado
media r = some (r, some imagem_audio_video)

-- `RIFF` with one of three forms.
unfoldable pub riff : List ℕ → Achado → Achado
riff head depois =
    let t = slice 8 12 head in
    if same t (codes "WEBP")
    then media webp
    else if same t (codes "AVI ")
    then media avi
    else if same t (codes "WAVE")
    then some (wav, none)
    else depois

unfoldable pub marcas_heif : List (List ℕ)
marcas_heif =
    codes "avif"
    ∷ codes "avis"
    ∷ codes "heic"
    ∷ codes "heix"
    ∷ codes "mif1"
    ∷ codes "msf1"
    ∷ codes "heim"
    ∷ codes "heis"
    ∷ []

-- `MZ` with the offset of the header at 60.
unfoldable pub tem_pe : List ℕ → Bool
tem_pe head =
    let p = from_le (slice 60 64 head) in
    same (slice 0 2 head) (codes "MZ")
    && (leb 64 (length head)
        && (leb 64 p
            && (ltb (p + 4) (length head)
                && same (slice p (p + 4) head) (0x50 ∷ 0x45 ∷ 0 ∷ 0 ∷ []))))

-- The frame mark of MPEG audio; `(b & 0xE0) == 0xE0` says that b is 224 or more.
unfoldable pub quadro_mpeg : List ℕ → List ℕ → Bool
quadro_mpeg head ext =
    member ext (codes "mp3" ∷ codes "aac" ∷ codes "mp2" ∷ [])
    && (ltb 2 (length head) && (get_or head 0 0 == 0xff && leb 0xe0 (get_or head 1 0)))

-- The tests from `ftyp` on.
unfoldable pub ftyp_em_diante : List ℕ → List ℕ → Achado
unfolding marcas_heif tem_pe quadro_mpeg
ftyp_em_diante head ext =
    if same (slice 4 8 head) (codes "ftyp")
    then (if member (slice 8 12 head) marcas_heif then media heif else media iso_bmff)
    else if member (slice 0 4 head)
        ((0x49 ∷ 0x49 ∷ 0x2a ∷ 0 ∷ []) ∷ (0x4d ∷ 0x4d ∷ 0 ∷ 0x2a ∷ []) ∷ [])
    then some (tiff, none)
    else if same (slice 0 2 head) (codes "BM") && same ext (codes "bmp")
    then some (bmp, none)
    else if tem_pe head
    then some (pe, some binario)
    else if quadro_mpeg head ext
    then media mpeg_audio
    else none

-- The tests behind the table.
unfoldable pub depois_da_tabela : List ℕ → List ℕ → Achado
unfolding riff ftyp_em_diante
depois_da_tabela head ext =
    if same (slice 0 3 head) (codes "BZh")
      && (ltb 3 (length head) && has_byte (get_or head 3 0) (codes "123456789"))
    then some (bzip2, some container_comprimido)
    else if same (slice 257 262 head) (codes "ustar")
    then some (tar, none)
    else if same (slice 0 5 head) (codes "%PDF-")
    then some (pdf, none)
    else if same (slice 0 4 head) (codes "RIFF") && leb 12 (length head)
    then riff head (ftyp_em_diante head ext)
    else ftyp_em_diante head ext

unfoldable pub detectar_assinatura : List ℕ → List ℕ → Achado
unfolding primeira assinaturas depois_da_tabela
detectar_assinatura head ext = elim (primeira assinaturas head) [
  | none ↦ depois_da_tabela head ext
  | some (rot, cls) ↦ some (rot, some cls)
]
