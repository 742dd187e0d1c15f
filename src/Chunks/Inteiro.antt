-- ===== src/Chunks/Inteiro.antt =====
-- `categorias` and `tarefa_arquivo_inteiro` of bench/dedup.py: whole files as chunks. A file stands with
-- the bytes that `Fonte.ler` returns; the two digests and the codec are arguments. The quotients of the
-- report are left out.
pub mod Contas
pub mod Exato
mod Tests
use engine_motor.Prelude.{
  ℕ, zero, suc, ◌+◌, Bool, true, false, not, ◌&&◌, Option, none, some, List, [], ◌∷◌, ◌++◌, length,
  get_elem?, ◌==◌, if◌then◌else◌,
}
use engine_motor.Prelude.Texts.{same, member}

-- An entry of `itens`: name, size and listed digest, with the bytes.
pub record ItemFonte : Type 0 where
  pub c : List ℕ
  pub t : ℕ
  pub s : List ℕ
  pub conteudo : List ℕ

pub data Categoria : Type 0 where
  novo igual alterado : Categoria

-- `mapa.get(x["c"])`, where a later entry replaces an earlier one.
unfoldable pub sha_anterior : List ℕ → List ItemFonte → Option (List ℕ)
sha_anterior c [] = none
sha_anterior c (x ∷ xs) = elim (sha_anterior c xs) [
  | some s ↦ some s
  | none ↦ if same x.c c then some x.s else none
]

unfoldable pub categoria : List ItemFonte → ItemFonte → Categoria
unfolding sha_anterior
categoria f1 x = elim (sha_anterior x.c f1) [
  | none ↦ novo
  | some s ↦ if same s x.s then igual else alterado
]

-- `dic` and `c3_por_hash`, in the order in which the digests came.
pub record IndiceInteiro : Type 0 where
  pub dic_arquivos : List (List ℕ × ℕ × ℕ × ℕ)
  pub c3_por_hash : List (List ℕ × ℕ)
  pub roundtrip_ok : Bool

abbrev pub indice_vazio : IndiceInteiro
indice_vazio = record { dic_arquivos = []; c3_por_hash = []; roundtrip_ok = true }

unfoldable pub onde : List ℕ → List (List ℕ × ℕ × ℕ × ℕ) → Option (ℕ × ℕ × ℕ)
onde h [] = none
onde h ((k, ver, i, n) ∷ d) = if same k h then some (ver, i, n) else onde h d

-- `h in dic`.
unfoldable pub tem : List ℕ → List (List ℕ × ℕ × ℕ × ℕ) → Bool
tem h [] = false
tem h ((k, ver, i, n) ∷ d) = if same k h then true else tem h d

unfoldable pub c3_de : List ℕ → List (List ℕ × ℕ) → ℕ
c3_de h [] = 0
c3_de h ((k, n) ∷ d) = if same k h then n else c3_de h d

-- The three entries of `marg`.
pub record Marginal : Type 0 where
  pub m_igual : ℕ
  pub m_alterado : ℕ
  pub m_novo : ℕ

unfoldable pub somar_marginal : Categoria → ℕ → Marginal → Marginal
somar_marginal igual n m = record m { m_igual = m.m_igual + n }
somar_marginal alterado n m = record m { m_alterado = m.m_alterado + n }
somar_marginal novo n m = record m { m_novo = m.m_novo + n }

-- `fontes[ver].ler(i)`.
abbrev pub ler_fonte : List ItemFonte → List ItemFonte → ℕ → ℕ → Option ItemFonte
ler_fonte f1 f2 ver i = if ver == 0 then get_elem? f1 i else get_elem? f2 i

abbrev pub total_t : List ItemFonte → ℕ
total_t [] = 0
total_t (x ∷ xs) = x.t + total_t xs

abbrev pub bytes_no_dic : List (List ℕ × ℕ × ℕ × ℕ) → ℕ
bytes_no_dic [] = 0
bytes_no_dic ((h, ver, i, n) ∷ d) = n + bytes_no_dic d

abbrev pub total_c3 : List (List ℕ × ℕ) → ℕ
total_c3 [] = 0
total_c3 ((h, n) ∷ d) = n + total_c3 d

-- The whole numbers of the report.
pub record Relatorio : Type 0 where
  pub n_unicos : ℕ
  pub bytes_unicos : ℕ
  pub bytes_v2_ja_em_v1 : ℕ
  pub bytes_v2_duplicados_total : ℕ
  pub armazenado_z3_sem_dedup : ℕ
  pub armazenado_z3_com_dedup : ℕ
  pub bit_exato : Bool
  pub reconstrucao_v2_ok : Bool
  pub custo_marginal_z3 : Marginal

-- The digests `blake2b` and `sha256`, and the codec.
pub record Ferramentas : Type 0 where
  pub resumo : List ℕ → List ℕ
  pub sha256 : List ℕ → List ℕ
  pub comprimir : List ℕ → List ℕ
  pub descomprimir : List ℕ → List ℕ

module _ (p : Ferramentas) where
  unfoldable pub incluir_arquivo : ℕ → ℕ → ItemFonte → IndiceInteiro → IndiceInteiro
  incluir_arquivo ver i x z =
      let h = p.resumo x.conteudo in
      if tem h z.dic_arquivos then z else record {
        dic_arquivos = z.dic_arquivos ++ (h, ver, i, length x.conteudo) ∷ [];
        c3_por_hash = z.c3_por_hash ++ (h, length (p.comprimir x.conteudo)) ∷ [];
        roundtrip_ok = z.roundtrip_ok && same (p.descomprimir (p.comprimir x.conteudo)) x.conteudo;
      }

  -- `for i in range(f.n)`, from `i`.
  unfoldable pub incluir_versao : ℕ → ℕ → List ItemFonte → IndiceInteiro → IndiceInteiro
  unfolding incluir_arquivo
  incluir_versao ver i [] z = z
  incluir_versao ver i (x ∷ xs) z = incluir_versao ver (i + 1) xs (incluir_arquivo ver i x z)

  -- `todos[ver]`.
  abbrev pub hashes : List ItemFonte → List (List ℕ)
  hashes [] = []
  hashes (x ∷ xs) = p.resumo x.conteudo ∷ hashes xs

  unfoldable pub em_v1 : List (List ℕ) → List ItemFonte → ℕ
  em_v1 h1 [] = 0
  em_v1 h1 (x ∷ xs) = (if member (p.resumo x.conteudo) h1 then x.t else 0) + em_v1 h1 xs

  -- The loop of `dup_total`, with `ja_visto`.
  unfoldable pub duplicados : List (List ℕ) → List ItemFonte → ℕ → ℕ
  duplicados visto [] soma = soma
  duplicados visto (x ∷ xs) soma =
      let h = p.resumo x.conteudo in
      duplicados (h ∷ visto) xs (if member h visto then soma + x.t else soma)

  -- What the index gives for a file; every digest of the second version is in it.
  unfoldable pub devolvido :
      List ItemFonte → List ItemFonte → List (List ℕ × ℕ × ℕ × ℕ) → ItemFonte → Option ItemFonte
  unfolding onde
  devolvido f1 f2 dic x = elim (onde (p.resumo x.conteudo) dic) [
    | none ↦ none
    | some (ver, i, n) ↦ ler_fonte f1 f2 ver i
  ]

  unfoldable pub confere_sha : ItemFonte → Option ItemFonte → Bool
  confere_sha x none = false
  confere_sha x (some y) = same (p.sha256 y.conteudo) x.s

  -- The loop of `exato`.
  unfoldable pub exatos :
      List ItemFonte → List ItemFonte → List (List ℕ × ℕ × ℕ × ℕ) → List ItemFonte → Bool → Bool
  unfolding devolvido confere_sha
  exatos f1 f2 dic [] ok = ok
  exatos f1 f2 dic (x ∷ xs) ok =
      exatos f1 f2 dic xs (if confere_sha x (devolvido f1 f2 dic x) then ok else false)

  -- The loop of `marg`, with `visto`.
  unfoldable pub marginais :
      List ItemFonte → List (List ℕ × ℕ) → List (List ℕ) → List ItemFonte → Marginal → Marginal
  unfolding categoria c3_de somar_marginal
  marginais f1 c3 visto [] m = m
  marginais f1 c3 visto (x ∷ xs) m =
      let h = p.resumo x.conteudo in
      marginais f1 c3 (if member h visto then visto else h ∷ visto) xs
        (if member h visto then m else somar_marginal (categoria f1 x) (c3_de h c3) m)

  unfoldable pub c3_sem_dedup : List (List ℕ × ℕ) → List ItemFonte → ℕ
  unfolding c3_de
  c3_sem_dedup c3 [] = 0
  c3_sem_dedup c3 (x ∷ xs) = c3_de (p.resumo x.conteudo) c3 + c3_sem_dedup c3 xs

  unfoldable pub indexar : List ItemFonte → List ItemFonte → IndiceInteiro
  unfolding incluir_versao
  indexar f1 f2 = incluir_versao 1 0 f2 (incluir_versao 0 0 f1 indice_vazio)

  unfoldable pub tarefa_arquivo_inteiro : List ItemFonte → List ItemFonte → Relatorio
  unfolding indexar em_v1 duplicados exatos marginais c3_sem_dedup
  tarefa_arquivo_inteiro f1 f2 =
      let z = indexar f1 f2 in
      let exato = exatos f1 f2 z.dic_arquivos f2 true in
      record {
        n_unicos = length z.dic_arquivos;
        bytes_unicos = bytes_no_dic z.dic_arquivos;
        bytes_v2_ja_em_v1 = em_v1 (hashes f1) f2;
        bytes_v2_duplicados_total = duplicados (hashes f1) f2 0;
        armazenado_z3_sem_dedup = c3_sem_dedup z.c3_por_hash f1 + c3_sem_dedup z.c3_por_hash f2;
        armazenado_z3_com_dedup = total_c3 z.c3_por_hash;
        bit_exato = exato && z.roundtrip_ok;
        reconstrucao_v2_ok = exato;
        custo_marginal_z3 =
            marginais f1 z.c3_por_hash (hashes f1) f2
              (record { m_igual = 0; m_alterado = 0; m_novo = 0 });
      }
