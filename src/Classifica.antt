-- ===== src/Classifica.antt =====
-- The classification of a file of bench/perfil_dataset.py: its classes, the labels of the signatures
-- and the reasons that `classificar_amostra` gives. The children hold the functions.
pub mod Assinaturas
pub mod Extensoes
pub mod Linhas
pub mod Tabelas
pub mod Texto
pub mod Entropia
pub mod Amostra
mod Tests
use native.Mathlib.Decide.{ℕ_discrete}

-- `CLASSES`.
pub data Classe : Type 0 where
  texto codigo csv_tabular json_ndjson log xml_html sequencia binario banco_de_dados : Classe
  cientifico_numerico imagem_audio_video container_comprimido criptografado_aleatorio vazio : Classe

-- The labels of `ASSINATURAS` and of the tests behind it.
pub data Rotulo : Type 0 where
  zip gzip xz zstd seven_z rar lz4 parquet orc arrow avro png jpeg gif jpeg2000 flac ogg : Rotulo
  mp3 matroska mpeg flv asf elf macho java_class_ou_macho wasm sqlite hdf5 netcdf fits npy : Rotulo
  mat dicom openssl_enc luks age pgp_armor bzip2 tar pdf webp avi wav heif iso_bmff tiff : Rotulo
  bmp pe mpeg_audio : Rotulo

-- How `subclasse_texto` came to its class.
pub data Origem : Type 0 where
  conteudo extensao conteudo_ndjson conteudo_json : Origem

-- What `subclasse_texto` returns.
pub data Subclasse : Type 0 where
  como : Classe → Origem → Subclasse

-- The second component of `classificar_amostra`.
pub data Razao : Type 0 where
  tamanho_zero bom_utf16 tar_com_conteudo_binario pdf_entropia_alta pdf_texto pdf_binario : Razao
  extensao_sem_assinatura entropia_sem_assinatura pela_extensao : Razao
  entropia_dos_deltas conteudo_binario : Razao
  assinatura entropia_alta bruto : Rotulo → Razao
  tar_mais pelo_texto : Origem → Razao

-- What `classificar_amostra` returns, without the dict of evidence.
pub data Veredito : Type 0 where
  por : Classe → Razao → Veredito

pub Classe-discrete : Discrete Classe
Classe-discrete = hlevel

pub Rotulo-discrete : Discrete Rotulo
Rotulo-discrete = hlevel
