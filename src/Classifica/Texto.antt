-- ===== src/Classifica/Texto.antt =====
-- The tests for text of bench/perfil_dataset.py: `parece_json`, `parece_xml`,
-- `parece_log`, `parece_sequencia`, `parece_codigo` and `subclasse_texto`. A comparison of
-- a quotient with a decimal is one of products. The regular expressions and `json.loads` are arguments.
pub mod Classes
use engine_motor.Prelude.{
  ℕ, zero, suc, ◌+◌, ◌*◌, min, max, Bool, true, false, not, ◌&&◌, ◌||◌, Option, none, some, List,
  [], ◌∷◌, ◌++◌, length, take, drop, map, ltb, leb, ◌==◌, if◌then◌else◌,
}
use engine_motor.Prelude.Texts.{
  codes, same, member, starts_with, count_byte, count_text, has_byte, left_strip, right_strip,
  lower,
}
use engine_motor.Openzl.Csv.{split}
use engine_motor.Classifica.Linhas.{contar_linhas_validas, todas, quantas}
use engine_motor.Classifica.Tabelas.{parece_csv}
use engine_motor.Classifica.{Origem, Subclasse}
use engine_motor.Classifica.Subclasse.{como}
use engine_motor.Classifica.Classe.{
  texto, codigo, csv_tabular, json_ndjson, log, xml_html, sequencia,
}
use engine_motor.Classifica.Origem.{conteudo, conteudo_ndjson, conteudo_json}
use engine_motor.Classifica.Extensoes.{
  ext_json, ext_xml, ext_log, ext_csv, ext_seq, ext_codigo, ext_texto,
}

-- The regular expressions and the parser that the tests call: a line that begins with a time, a line
-- with a level, the number of different markers of code, the number of control structures, and
-- whether `json.loads` returns.
pub record Leitores : Type 0 where
  pub ts_log : List ℕ → Bool
  pub nivel_log : List ℕ → Bool
  pub marcadores : List ℕ → ℕ
  pub controle : List ℕ → ℕ
  pub json : List ℕ → Bool

-- `head.lstrip(b"\xef\xbb\xbf \t\r\n")`.
abbrev pub topo : List ℕ → List ℕ
topo head = left_strip (0xef ∷ 0xbb ∷ 0xbf ∷ 32 ∷ 9 ∷ 13 ∷ 10 ∷ []) head

unfoldable pub abre : List ℕ → Bool
abre [] = false
abre (c ∷ cs) = c == b'{' || c == b'['

-- The loop over the first lines: how many `json.loads` takes before one that is long or refused.
unfoldable pub linhas_json : (List ℕ → Bool) → List (List ℕ) → ℕ
linhas_json json [] = 0
linhas_json json (l ∷ ls) =
    let resto = linhas_json json ls in
    if ltb 65536 (length l) then 0 else (if json l then suc resto else 0)

module _ (r : Leitores) where
  -- The tests of `parece_json` behind the one for lines.
  unfoldable pub json_inteiro : List ℕ → Bool → List ℕ → Option Origem
  unfolding ext_json
  json_inteiro head completo ext =
      let asp = count_byte b'"' head in
      if (completo && leb (length head) 16384) && r.json head
      then some conteudo_json
      else if member ext ext_json
          || (leb (length head) (50 * asp)
              && (leb 5 (count_text (codes "\":") head)
                  && leb 2 (count_byte b'{' head + count_byte b'[' head)))
      then some conteudo_json
      else none

  unfoldable pub parece_json : List ℕ → ℕ → List ℕ → Option Origem
  unfolding abre contar_linhas_validas linhas_json json_inteiro
  parece_json head tam ext =
      let completo = leb tam (length head) in
      let linhas = contar_linhas_validas head completo in
      let ok = linhas_json r.json (take 5 linhas) in
      if not (abre (topo head))
      then none
      else if leb 3 (length linhas)
          && (leb (min 3 (length linhas)) ok && todas abre (take (min (length linhas) 20) linhas))
      then some conteudo_ndjson
      else json_inteiro head completo ext

  unfoldable pub parece_log : List ℕ → ℕ → Bool
  unfolding contar_linhas_validas
  parece_log head tam =
      let validas = contar_linhas_validas head (leb tam (length head)) in
      let linhas = take 80 validas in
      let n = length linhas in
      let ts = quantas r.ts_log linhas in
      let nivel = quantas r.nivel_log linhas in
      if ltb (length validas) 4
      then false
      else leb (3 * n) (5 * ts) || (leb n (2 * nivel) && leb n (5 * ts))

  unfoldable pub parece_codigo : List ℕ → Bool
  parece_codigo head =
      let amostra = take 32768 head in
      let m = r.marcadores amostra in
      let c = r.controle amostra in
      let linhas = max 1 (count_byte 10 amostra) in
      if same (take 2 head) (codes "#!")
      then true
      else leb 3 m || ((leb 2 m && leb (3 * linhas) (20 * c)) || leb (7 * linhas) (20 * c))

abbrev comeca_com : List ℕ → List (List ℕ) → Bool
comeca_com xs [] = false
comeca_com xs (y ∷ ys) = starts_with xs y || comeca_com xs ys

unfoldable pub inicios_xml : List (List ℕ)
inicios_xml =
    codes "<?xml" ∷ codes "<!doctype html" ∷ codes "<html" ∷ codes "<svg" ∷ codes "<!--" ∷ []

unfoldable pub parece_xml : List ℕ → Bool
unfolding inicios_xml
parece_xml head =
    let fecha = count_text (codes "</") head in
    let n = count_byte b'<' head in
    if comeca_com (lower (take 512 (topo head))) inicios_xml
    then true
    else if starts_with (topo head) (codes "<") && (leb 3 fecha && leb (length head) (100 * n))
    then true
    else leb 10 fecha && leb (length head) (50 * n)

-- `b"".join(l for l in head.split(b"\n") if l[:1] not in (...))` without carriage returns.
unfoldable pub sem_byte : ℕ → List ℕ → List ℕ
sem_byte d [] = []
sem_byte d (c ∷ cs) = let resto = sem_byte d cs in if c == d then resto else c ∷ resto

unfoldable pub cabecalho_seq : List ℕ → Bool
cabecalho_seq [] = false
cabecalho_seq (c ∷ cs) = has_byte c (codes ">@+;")

unfoldable pub corpo_seq : List (List ℕ) → List ℕ
unfolding cabecalho_seq
corpo_seq [] = []
corpo_seq (l ∷ ls) = let resto = corpo_seq ls in if cabecalho_seq l then resto else l ++ resto

unfoldable pub contar_bases : List ℕ → ℕ
contar_bases [] = 0
contar_bases (c ∷ cs) = (if has_byte c (codes "ACGTNacgtn") then 1 else 0) + contar_bases cs

unfoldable pub parece_sequencia : List ℕ → Bool
unfolding split sem_byte corpo_seq contar_bases
parece_sequencia head =
    let corpo = sem_byte 13 (corpo_seq (split 10 head)) in
    if ltb (length corpo) 256 then false else leb (19 * length corpo) (20 * contar_bases corpo)

abbrev pub origem : Bool → Origem
origem b = if b then Origem.extensao else conteudo

abbrev pub achou {ℓ} : {A : Type ℓ} → Option A → Bool
achou none = false
achou (some a) = true

module _ (r : Leitores) where
  -- The tests behind the one for CSV by the extension.
  unfoldable pub subclasse_do_corpo : List ℕ → List ℕ → ℕ → Subclasse
  unfolding parece_csv parece_sequencia parece_codigo ext_seq ext_codigo ext_texto
  subclasse_do_corpo head ext tam =
      if member ext ext_seq || parece_sequencia head
      then como sequencia (origem (member ext ext_seq))
      else if member ext ext_codigo
      then como codigo Origem.extensao
      else if not (member ext ext_texto) && achou (parece_csv head tam)
      then como csv_tabular conteudo
      else if parece_codigo r head
      then como codigo conteudo
      else como texto conteudo

  unfoldable pub subclasse_sem_json : List ℕ → List ℕ → ℕ → Subclasse
  unfolding parece_xml parece_log ext_json ext_xml ext_log ext_csv subclasse_do_corpo
  subclasse_sem_json head ext tam =
      if member ext ext_json
      then como json_ndjson Origem.extensao
      else if member ext ext_xml || parece_xml head
      then como xml_html (origem (member ext ext_xml))
      else if member ext ext_log || parece_log r head tam
      then como log (origem (member ext ext_log))
      else if member ext ext_csv
      then como csv_tabular Origem.extensao
      else subclasse_do_corpo head ext tam

  unfoldable pub subclasse_texto : List ℕ → List ℕ → ℕ → Subclasse
  unfolding parece_json subclasse_sem_json
  subclasse_texto head ext tam = elim (parece_json r head tam ext) [
    | none ↦ subclasse_sem_json head ext tam
    | some o ↦ como json_ndjson o
  ]
