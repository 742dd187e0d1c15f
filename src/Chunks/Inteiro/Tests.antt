-- ===== src/Chunks/Inteiro/Tests.antt =====
-- Two versions of three small files, with the bytes as their digest.
use engine_motor.Prelude.{ℕ, ◌+◌, ◌≡◌, ◌≤◌, ◌↔◌, refl, true, List, [], ◌∷◌, All, length}
use engine_motor.Chunks.Inteiro.{
  ItemFonte, Ferramentas, indice_vazio, tem, incluir_versao, total_t, bytes_no_dic,
  tarefa_arquivo_inteiro,
}
use engine_motor.Chunks.Inteiro.Contas.{tarefa_arquivo_inteiro_accounts}
use engine_motor.Chunks.Inteiro.Exato.{IsListed, reconstrucao-iff-IsListed}

abbrev ferramentas : Ferramentas
ferramentas = record { resumo = λ x. x; sha256 = λ x. x; comprimir = λ x. x; descomprimir = λ x. x }

abbrev um_item : ℕ → List ℕ → ItemFonte
um_item nome b = record { c = nome ∷ []; t = length b; s = b; conteudo = b }

abbrev primeira_versao : List ItemFonte
primeira_versao = um_item 1 (5 ∷ 5 ∷ []) ∷ um_item 2 (6 ∷ []) ∷ []

abbrev segunda_versao : List ItemFonte
segunda_versao = um_item 1 (5 ∷ 5 ∷ []) ∷ um_item 2 (7 ∷ 7 ∷ 7 ∷ []) ∷ um_item 3 (6 ∷ []) ∷ []

-- The changed file is the only one whose bytes are new.
marginal_cost :
    (tarefa_arquivo_inteiro ferramentas primeira_versao segunda_versao).custo_marginal_z3
    ≡ record { m_igual = 0; m_alterado = 3; m_novo = 0 }
unfolding tarefa_arquivo_inteiro tem
marginal_cost = refl

tarefa_arquivo_inteiro_accounts_example :
    let r = tarefa_arquivo_inteiro ferramentas primeira_versao segunda_versao in
    (r.bytes_unicos + r.bytes_v2_duplicados_total
      ≡ bytes_no_dic (incluir_versao ferramentas 0 0 primeira_versao indice_vazio).dic_arquivos
        + total_t segunda_versao)
    × (r.bytes_v2_ja_em_v1 ≤ r.bytes_v2_duplicados_total)
tarefa_arquivo_inteiro_accounts_example =
    tarefa_arquivo_inteiro_accounts ferramentas primeira_versao segunda_versao
      (refl, (refl, (refl, tt)))

reconstrucao-iff-IsListed_example :
    ((tarefa_arquivo_inteiro ferramentas primeira_versao segunda_versao).reconstrucao_v2_ok ≡ true)
    ↔ All (IsListed ferramentas primeira_versao segunda_versao (λ x y e. e)) segunda_versao
reconstrucao-iff-IsListed_example =
    reconstrucao-iff-IsListed ferramentas primeira_versao segunda_versao (λ x y e. e)
