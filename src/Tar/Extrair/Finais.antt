-- ===== src/Tar/Extrair/Finais.antt =====
-- How `extrair_kernel` of bench/plano_bloco.py puts the groups in files. The limits, 40 MIB for a
-- directory that stays whole and 8 MIB for one that has a file of its own, are arguments.
use engine_motor.Prelude.{
  ℕ, ◌+◌, Bool, true, false, List, [], ◌∷◌, ◌++◌, ltb, leb, ◌==◌, if◌then◌else◌,
}
use engine_motor.Prelude.Texts.{same, codes}
use engine_motor.Colecoes.{ordenar, agrupar}
use engine_motor.Tar.Extrair.{Chave, mesma}
use engine_motor.Tar.Extrair.Contas.{bytes_de}

-- `tops[top][sub]`: the bytes, the pieces and the number of files.
pub record SubGrupo : Type 0 where
  pub top : List ℕ
  pub sub : List ℕ
  pub pecas : List (List ℕ)
  pub n_arquivos : ℕ

pub record ArquivoFinal : Type 0 where
  pub nome : List ℕ
  pub lista : List (List ℕ)
  pub nf : ℕ

-- `<=` on two texts.
unfoldable pub texto_ate : List ℕ → List ℕ → Bool
texto_ate [] ys = true
texto_ate (x ∷ xs) [] = false
texto_ate (x ∷ xs) (y ∷ ys) = if x == y then texto_ate xs ys else ltb x y

-- `contagem[(top, sub)]`; every group was counted.
unfoldable pub contagem_de : Chave → List (Chave × ℕ) → ℕ
contagem_de k [] = 0
contagem_de k ((j, n) ∷ cs) = if mesma j k then n else contagem_de k cs

-- The loop over `grupos.items()`.
unfoldable pub subgrupos : List (Chave × List (List ℕ)) → List (Chave × ℕ) → List SubGrupo
unfolding contagem_de
subgrupos [] cs = []
subgrupos (((top, sub), lista) ∷ gs) cs =
    record { top = top; sub = sub; pecas = lista; n_arquivos = contagem_de (top, sub) cs }
    ∷ subgrupos gs cs

abbrev pub total_de : List SubGrupo → ℕ
total_de [] = 0
total_de (s ∷ ss) = bytes_de s.pecas + total_de ss

abbrev pub todas_as_pecas : List SubGrupo → List (List ℕ)
todas_as_pecas [] = []
todas_as_pecas (s ∷ ss) = s.pecas ++ todas_as_pecas ss

abbrev pub soma_arquivos : List SubGrupo → ℕ
soma_arquivos [] = 0
soma_arquivos (s ∷ ss) = s.n_arquivos + soma_arquivos ss

module _ (inteiro_ate proprio_de : ℕ) where
  unfoldable pub proprio : SubGrupo → Bool
  proprio s = leb proprio_de (bytes_de s.pecas)

  -- `for s in sorted(subs)` of a directory that is split, with `resto` and `nresto`.
  unfoldable pub separar_subs : List ℕ → List SubGrupo → List (List ℕ) → ℕ → List ArquivoFinal
  unfolding proprio
  separar_subs top [] [] nresto = []
  separar_subs top [] (p ∷ resto) nresto =
      record { nome = top ++ codes "__resto"; lista = p ∷ resto; nf = nresto } ∷ []
  separar_subs top (s ∷ ss) resto nresto =
      if proprio s
      then record { nome = top ++ b'_' ∷ s.sub; lista = s.pecas; nf = s.n_arquivos }
        ∷ separar_subs top ss resto nresto
      else separar_subs top ss (resto ++ s.pecas) (nresto + s.n_arquivos)

  unfoldable pub finais_do_top : List ℕ × List SubGrupo → List ArquivoFinal
  unfolding separar_subs ordenar texto_ate
  finais_do_top (top, subs) =
      let em_ordem = ordenar (λ a b. texto_ate a.sub b.sub) subs in
      if leb (total_de subs) inteiro_ate
      then record { nome = top; lista = todas_as_pecas em_ordem; nf = soma_arquivos subs } ∷ []
      else separar_subs top em_ordem [] 0

  unfoldable pub atribuidos : List (List ℕ × List SubGrupo) → List ArquivoFinal
  unfolding finais_do_top
  atribuidos [] = []
  atribuidos (t ∷ ts) = finais_do_top t ++ atribuidos ts

  -- `finais[nome] = ...`: a name that comes again replaces what it had.
  unfoldable pub por_final : ArquivoFinal → List ArquivoFinal → List ArquivoFinal
  por_final f [] = f ∷ []
  por_final f (g ∷ gs) = if same g.nome f.nome then f ∷ gs else g ∷ por_final f gs

  unfoldable pub por_todos : List ArquivoFinal → List ArquivoFinal → List ArquivoFinal
  unfolding por_final
  por_todos [] feitos = feitos
  por_todos (f ∷ fs) feitos = por_todos fs (por_final f feitos)

  unfoldable pub tops_em_ordem :
      List (Chave × List (List ℕ)) → List (Chave × ℕ) → List (List ℕ × List SubGrupo)
  unfolding subgrupos agrupar ordenar texto_ate
  tops_em_ordem gs cs =
      ordenar (λ a b. texto_ate a.0 b.0) (agrupar same (λ s. s.top) (subgrupos gs cs) [])

  unfoldable pub finais : List (Chave × List (List ℕ)) → List (Chave × ℕ) → List ArquivoFinal
  unfolding tops_em_ordem atribuidos por_todos
  finais gs cs = por_todos (atribuidos (tops_em_ordem gs cs)) []
