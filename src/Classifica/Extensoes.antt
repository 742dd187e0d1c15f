-- ===== src/Classifica/Extensoes.antt =====
-- `extensao` and `rotulo_extensao` of bench/perfil_dataset.py, and the sets of extensions. The decoded
-- name in lower case is an argument.
pub mod Forma
use Prim.Native.String.{String}
use engine_motor.Prelude.{
  ℕ, zero, suc, ◌+◌, Bool, true, false, not, ◌&&◌, ◌||◌, Option, none, some, List, [], ◌∷◌, length,
  drop, ltb, leb, ◌==◌, if◌then◌else◌,
}
use engine_motor.Prelude.Texts.{codes, same}
use engine_motor.Openzl.Csv.{split}

-- `"...".split()` of a text with single spaces.
unfoldable pub palavras : String → List (List ℕ)
unfolding split
palavras s = split b' ' (codes s)

unfoldable pub ext_codigo : List (List ℕ)
unfolding palavras
ext_codigo =
    palavras
      "py js mjs cjs ts tsx jsx c h cc cpp cxx hpp hh rs go java kt kts scala swift rb php pl pm lua sh bash zsh ps1 bat cs fs vb sql r jl m mm dart hs ml clj ex exs erl cu cl glsl vhd vhdl v sv asm s css scss less proto gradle cmake mk toml yaml yml ini cfg conf tf"

unfoldable pub ext_texto : List (List ℕ)
unfolding palavras
ext_texto = palavras "txt md rst tex rtf adoc org nfo text"

unfoldable pub ext_csv : List (List ℕ)
unfolding palavras
ext_csv = palavras "csv tsv psv tab"

unfoldable pub ext_json : List (List ℕ)
unfolding palavras
ext_json = palavras "json jsonl ndjson geojson json5"

unfoldable pub ext_log : List (List ℕ)
unfolding palavras
ext_log = palavras "log out err trace"

unfoldable pub ext_xml : List (List ℕ)
unfolding palavras
ext_xml = palavras "xml html htm xhtml svg xsd xsl xslt rss atom kml plist"

unfoldable pub ext_seq : List (List ℕ)
unfolding palavras
ext_seq = palavras "fa fasta fna faa fastq fq gb gbk"

unfoldable pub ext_banco : List (List ℕ)
unfolding palavras
ext_banco = palavras "db sqlite sqlite3 db3 mdb accdb ldb sst ibd myd myi frm dbf mdf ldf rdb lmdb"

unfoldable pub ext_container : List (List ℕ)
unfolding palavras
ext_container =
    palavras
      "zip gz tgz bz2 tbz2 xz txz zst zstd 7z rar lz4 lz lzma z cab jar war apk whl parquet orc avro arrow feather docx xlsx pptx odt ods odp epub syntra snappy br deb rpm"

unfoldable pub ext_media : List (List ℕ)
unfolding palavras
ext_media =
    palavras
      "jpg jpeg png gif webp avif heic heif jp2 mp3 aac m4a ogg oga opus flac wma mp4 m4v mov mkv webm avi wmv flv mpg mpeg 3gp"

unfoldable pub ext_cient : List (List ℕ)
unfolding palavras
ext_cient = palavras "npy h5 hdf5 hdf nc cdf fits fit mat dcm grib grb tif tiff bmp wav raw"

unfoldable pub ext_cripto : List (List ℕ)
unfolding palavras
ext_cripto = palavras "enc gpg pgp age crypt aes luks kdbx"

unfoldable pub ext_binario : List (List ℕ)
unfolding palavras
ext_binario = palavras "exe dll so o a elf class pyc wasm dylib obj lib img iso vmdk qcow2 vdi"

-- `s.rfind(".")`.
unfoldable pub ultimo_ponto : List ℕ → Option ℕ
ultimo_ponto [] = none
ultimo_ponto (c ∷ cs) = elim (ultimo_ponto cs) [
  | none ↦ if c == b'.' then some 0 else none
  | some i ↦ some (suc i)
]

unfoldable pub digito : ℕ → Bool
digito c = leb b'0' c && leb c b'9'

-- `[a-z0-9_+\-]`.
unfoldable pub permitido : ℕ → Bool
unfolding digito
permitido c = (leb b'a' c && leb c b'z') || (digito c || (c == b'_' || (c == b'+' || c == b'-')))

abbrev pub todos : (ℕ → Bool) → List ℕ → Bool
todos p [] = true
todos p (c ∷ cs) = p c && todos p cs

-- The end of the name behind its last dot.
unfoldable pub extensao_de : List ℕ → List ℕ
unfolding permitido digito
extensao_de e =
    if ltb 10 (length e) || not (todos permitido e)
    then codes "?"
    else if todos digito e
    then codes "#"
    else e

-- `extensao`, on the decoded name in lower case.
unfoldable pub extensao : List ℕ → List ℕ
unfolding ultimo_ponto extensao_de
extensao s = elim (ultimo_ponto s) [
  | none ↦ []
  | some i ↦ if i == 0 || i + 1 == length s then [] else extensao_de (drop (i + 1) s)
]

unfoldable pub rotulo_extensao : List ℕ → List ℕ
rotulo_extensao e =
    if same e []
    then codes "(sem extensao)"
    else if same e (codes "?")
    then codes "(irregular)"
    else if same e (codes "#")
    then codes "(numerica)"
    else e
