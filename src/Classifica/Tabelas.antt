-- ===== src/Classifica/Tabelas.antt =====
-- `parece_csv` of bench/perfil_dataset.py.
pub mod Colunas
use engine_motor.Prelude.{
  ℕ, ◌+◌, ◌*◌, Bool, true, false, not, ◌&&◌, Option, none, some, List, [], ◌∷◌, length, take, ltb,
  leb, ◌==◌, if◌then◌else◌,
}
use engine_motor.Prelude.Texts.{count_byte}
use engine_motor.Classifica.Linhas.{contar_linhas_validas, todas}

abbrev pub ocorrencias : ℕ → List ℕ → ℕ
ocorrencias v [] = 0
ocorrencias v (x ∷ xs) = (if x == v then 1 else 0) + ocorrencias v xs

-- `Counter(cont).most_common(1)[0]`: the first value with the most occurrences.
unfoldable pub mais_comum_de : List ℕ → List ℕ → ℕ × ℕ → ℕ × ℕ
mais_comum_de cont [] melhor = melhor
mais_comum_de cont (v ∷ vs) (moda, freq) =
    let n = ocorrencias v cont in
    mais_comum_de cont vs (if ltb freq n then (v, n) else (moda, freq))

unfoldable pub mais_comum : List ℕ → ℕ × ℕ
unfolding mais_comum_de
mais_comum cont = mais_comum_de cont cont (0, 0)

-- A delimiter, the lines that have the mode of the columns, and the mode.
pub record Tabela : Type 0 where
  pub delim : ℕ
  pub freq : ℕ
  pub moda : ℕ

unfoldable pub colunas : ℕ → List (List ℕ) → List ℕ
colunas d [] = []
colunas d (l ∷ ls) = (count_byte d l + 1) ∷ colunas d ls

-- The round of one delimiter.
unfoldable pub tentar : List (List ℕ) → ℕ → ℕ → Option Tabela → Option Tabela
unfolding colunas mais_comum
tentar linhas d min_colunas melhor =
    let (moda, freq) = mais_comum (colunas d linhas) in
    let nova : Tabela = record { delim = d; freq = freq; moda = moda } in
    if leb min_colunas moda && leb (4 * length linhas) (5 * freq)
    then elim melhor [ none ↦ some nova | some t ↦ if ltb t.freq freq then some nova else some t ]
    else melhor

unfoldable pub delimitadores : List (ℕ × ℕ)
delimitadores = (b',', 3) ∷ (9, 2) ∷ (b';', 3) ∷ (b'|', 3) ∷ []

unfoldable pub melhor_tabela : List (List ℕ) → List (ℕ × ℕ) → Option Tabela → Option Tabela
unfolding tentar
melhor_tabela linhas [] melhor = melhor
melhor_tabela linhas ((d, k) ∷ ds) melhor = melhor_tabela linhas ds (tentar linhas d k melhor)

abbrev curta : List ℕ → Bool
curta l = leb (length l) 8192

unfoldable pub parece_csv : List ℕ → ℕ → Option Tabela
unfolding contar_linhas_validas melhor_tabela delimitadores
parece_csv head tam =
    let validas = contar_linhas_validas head (leb tam (length head)) in
    let linhas = take 60 validas in
    if ltb (length validas) 5
    then none
    else if not (todas curta linhas)
    then none
    else melhor_tabela linhas delimitadores none
